-- ===== src/Lint/HeaderGuard.antt =====
-- GetHeaderGuardCPPVariable and CheckForHeaderGuard of tools/cpplint.py.
pub mod Accepted
pub mod Pattern
use vsm_cpp_sdk.Prelude.{
  ℕ, suc, Bool, true, false, not, ◌&&◌, ◌||◌, Option, some, List, [], ◌∷◌, ◌++◌, leb, length, drop,
  map, if◌then◌else◌,
}
use vsm_cpp_sdk.Text.{Text, codes, text_eq, is_digit, upper_byte}
use vsm_cpp_sdk.Text.Find.{at, ◌>>=◌, starts_with, skip_spaces, replace, is_blank}
use vsm_cpp_sdk.Lint.Nolint.{Report}
use vsm_cpp_sdk.Lint.FileInfo.{Paths, repository_name, base_name, extension}

-- A character of a variable of the preprocessor, in upper case.
unfoldable pub variable_char : ℕ → ℕ
unfolding is_digit upper_byte
variable_char c =
    if is_digit c || (leb b'a' c && leb c b'z') || (leb b'A' c && leb c b'Z')
    then upper_byte c
    else b'_'

-- GetHeaderGuardCPPVariable; `none` is a RepositoryName that does not return
unfoldable pub get_header_guard_cpp_variable : Paths → Text → Option Text
unfolding replace repository_name base_name extension variable_char
get_header_guard_cpp_variable files filename = do
  name ←
      repository_name files
        (replace (codes "c++") (codes "cpp") (replace (codes "C++") (codes "cpp") filename))
  some (b'_' ∷ (map variable_char (base_name name ++ extension name) ++ codes "_"))

-- Search(r'//\s*NOLINT\(build/header_guard\)', s)
unfoldable pub has_nolint : Text → Bool
unfolding starts_with skip_spaces
has_nolint [] = false
has_nolint (c ∷ s) =
    (starts_with (codes "//") (c ∷ s)
      && starts_with (codes "NOLINT(build/header_guard)") (skip_spaces (drop 1 s)))
    || has_nolint s

unfoldable pub any_nolint : List Text → Bool
unfolding has_nolint
any_nolint [] = false
any_nolint (l ∷ ls) = has_nolint l || any_nolint ls

abbrev pub word_before : Text → List Text → List Text
word_before [] ws = ws
word_before (c ∷ s) ws = (c ∷ s) ∷ ws

-- s.split(): the characters of the first word that has begun are `cur`.
unfoldable pub split_words : Text → Text → List Text
unfolding is_blank
split_words cur [] = word_before cur []
split_words cur (c ∷ s) = elim (is_blank c) [
  | true ↦ word_before cur (split_words [] s)
  | false ↦ split_words (cur ++ (c ∷ [])) s
]

-- What the loop over the lines of the file keeps.
pub record Guards : Type 0 where
  pub ifndef : Text
  pub ifndef_linenum : ℕ
  pub define : Text
  pub endif : Text
  pub endif_linenum : ℕ

unfoldable pub no_guards : Guards
no_guards = record { ifndef = []; ifndef_linenum = 0; define = []; endif = []; endif_linenum = 0 }

abbrev pub is_nothing : Text → Bool
is_nothing [] = true
is_nothing (c ∷ s) = false

-- The first #ifndef and the first #define, from the words of a line.
unfoldable pub see_words : ℕ → List Text → Guards → Guards
unfolding text_eq
see_words linenum (w ∷ v ∷ ws) g =
    let named =
      if is_nothing g.ifndef && text_eq w (codes "#ifndef")
      then record g { ifndef = v; ifndef_linenum = linenum }
      else g in
    if is_nothing named.define && text_eq w (codes "#define")
    then record named { define = v }
    else named
see_words linenum ws g = g

-- The last #endif.
unfoldable pub see_endif : ℕ → Text → Guards → Guards
unfolding starts_with
see_endif linenum line g =
    if starts_with (codes "#endif") line
    then record g { endif = line; endif_linenum = linenum }
    else g

-- The loop over the lines, the first one with the number `linenum`.
unfoldable pub guards_from : ℕ → List Text → Guards → Guards
unfolding split_words see_words see_endif
guards_from linenum [] g = g
guards_from linenum (line ∷ ls) g =
    guards_from (suc linenum) ls
      (see_endif linenum line (see_words linenum (split_words [] line) g))

-- cppvar(_)?\s*\*/
unfoldable pub behind_variable : Text → Bool
unfolding starts_with skip_spaces
behind_variable u = starts_with (codes "*/") (skip_spaces u)

unfoldable pub at_variable : Text → Text → Bool
unfolding starts_with behind_variable
at_variable cppvar t =
    let u = drop (length cppvar) t in
    starts_with cppvar t
    && (behind_variable u || (starts_with (codes "_") u && behind_variable (drop 1 u)))

-- Match(r'#endif\s*/\*\s*(_UGCS_VSM)?' + cppvar + r'(_)?\s*\*/', endif)
unfoldable pub matches_endif : Text → Text → Bool
unfolding starts_with skip_spaces at_variable
matches_endif cppvar endif =
    let s = skip_spaces (drop 6 endif) in
    let t = skip_spaces (drop 2 s) in
    (starts_with (codes "#endif") endif && starts_with (codes "/*") s)
    && ((starts_with (codes "_UGCS_VSM") t && at_variable cppvar (drop 9 t))
        || at_variable cppvar t)

-- What the check does in turn: a call of ParseNolintSuppressions on a line with its number, or a report.
pub data Action : Type 0 where
  parse_line : Text → ℕ → Action
  log : Report → Action

abbrev pub guard_report : ℕ → ℕ → Text → Report
guard_report linenum confidence message = record {
  linenum = linenum;
  category = codes "build/header_guard";
  confidence = confidence;
  message = message;
}

abbrev pub endif_report : Text → ℕ → Report
endif_report cppvar linenum =
    guard_report linenum 5 (codes "#endif line should be \"#endif  // " ++ (cppvar ++ codes "\""))

abbrev check_style : Text → Text → Guards → List Action
check_style cppvar line g =
    if text_eq g.ifndef cppvar || text_eq g.ifndef (codes "_UGCS_VSM" ++ cppvar)
    then []
    else parse_line line g.ifndef_linenum
      ∷ log (
          guard_report g.ifndef_linenum 0
            (codes "#ifndef header guard has wrong style, please use: " ++ cppvar))
      ∷ []

abbrev check_endif : Text → Text → Guards → List Action
check_endif cppvar line g =
    parse_line line g.endif_linenum
    ∷ (if matches_endif cppvar g.endif then [] else log (endif_report cppvar g.endif_linenum) ∷ [])

unfoldable pub check_guards : Text → List Text → Guards → Option (List Action)
unfolding text_eq matches_endif
check_guards cppvar raw_lines g =
    if is_nothing g.ifndef || (is_nothing g.define || not (text_eq g.ifndef g.define))
    then some (
        log (
          guard_report 0 5
            (codes "No #ifndef header guard found, suggested CPP variable is: " ++ cppvar))
        ∷ [])
    else (do
      ifndef_line ← at raw_lines g.ifndef_linenum
      endif_line ← at raw_lines g.endif_linenum
      some (check_style cppvar ifndef_line g ++ check_endif cppvar endif_line g))

-- CheckForHeaderGuard, with the variable of the file; `none` is an IndexError.
unfoldable pub check_for_header_guard : Text → List Text → Option (List Action)
unfolding any_nolint guards_from check_guards no_guards
check_for_header_guard cppvar raw_lines =
    if any_nolint raw_lines
    then some []
    else check_guards cppvar raw_lines (guards_from 0 raw_lines no_guards)
