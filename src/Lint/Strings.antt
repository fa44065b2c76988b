-- ===== src/Lint/Strings.antt =====
-- CleansedLines._CollapseStrings of tools/cpplint.py: strings and characters of a line are emptied, and
-- the separators of digits taken away.
pub mod Collapsed
use vsm_cpp_sdk.Prelude.{
  ℕ, zero, suc, Bool, true, false, not, ◌&&◌, ◌||◌, Option, none, some, List, [], ◌∷◌, ◌++◌, ◌==◌,
  leb, drop, length, if◌then◌else◌,
}
use vsm_cpp_sdk.Text.{Text, codes, is_word, is_digit, is_space}
use vsm_cpp_sdk.Text.Find.{◌>>=◌, starts_with, skip_spaces}
use vsm_cpp_sdk.Lint.Nolint.Global.{search_word}

-- _RE_PATTERN_INCLUDE: ^\s*#\s*include\s*([<"])([^>"]*)[>"].*$
unfoldable pub has_end : Text → Bool
has_end [] = false
has_end (c ∷ s) = (c == b'>' || c == b'"') || has_end s

abbrev opens_path : Text → Bool
opens_path [] = false
opens_path (c ∷ s) = (c == b'<' || c == b'"') && has_end s

unfoldable pub is_include_line : Text → Bool
unfolding starts_with skip_spaces
is_include_line line =
    let s = skip_spaces line in
    let t = skip_spaces (drop 1 s) in
    starts_with (codes "#") s
    && (starts_with (codes "include") t && opens_path (skip_spaces (drop 7 t)))

unfoldable pub is_hex : ℕ → Bool
is_hex c = is_digit c || ((leb b'a' c && leb c b'f') || (leb b'A' c && leb c b'F'))

-- The characters at the front of a text that pass a test.
unfoldable pub run_length : (ℕ → Bool) → Text → ℕ
run_length test [] = 0
run_length test (c ∷ s) = let rest = run_length test s in if test c then suc rest else 0

unfoldable pub is_escape : ℕ → Bool
is_escape c =
    (c == b'a'
      || (c == b'b' || (c == b'f' || (c == b'n' || (c == b'r' || (c == b't' || c == b'v'))))))
    || (c == b'?' || (c == b'"' || (c == b'\\' || c == b'\'')))

-- The length of ([abfnrtv?"\\\']|\d+|x[0-9a-fA-F]+) at the front of a text, or 0.
unfoldable pub escape_length : Text → ℕ
unfolding is_escape is_hex run_length
escape_length [] = 0
escape_length (c ∷ s) =
    let hexes = run_length is_hex s in
    if is_escape c
    then 1
    else if is_digit c
    then suc (run_length is_digit s)
    else if c == b'x' && not (hexes == 0)
    then suc hexes
    else 0

-- _RE_PATTERN_CLEANSE_LINE_ESCAPES.sub('', line), behind `k` characters that are removed.
unfoldable pub remove_escapes : ℕ → Text → Text
unfolding escape_length
remove_escapes k [] = []
remove_escapes (suc k) (c ∷ s) = remove_escapes k s
remove_escapes zero (c ∷ s) = elim (c == b'\\' && not (escape_length s == 0)) [
  | true ↦ remove_escapes (escape_length s) s
  | false ↦ c ∷ remove_escapes 0 s
]

abbrev pub is_quote : ℕ → Bool
is_quote c = c == b'"' || c == b'\''

-- ^([^\'"]*)([\'"])(.*)$: the text before the first quote, the quote, and what is behind it.
unfoldable pub split_quote : Text → Option (Text × (ℕ × Text))
split_quote [] = none
split_quote (c ∷ s) = elim (is_quote c) [
  | true ↦ some ([], (c, s))
  | false ↦ do (head, r) ← split_quote s; some (c ∷ head, r)
]

-- What stands behind the first `q`.
unfoldable pub behind : ℕ → Text → Option Text
behind q [] = none
behind q (c ∷ s) = elim (c == q) [ true ↦ some s | false ↦ behind q s ]

-- (?:0[bBxX]?|[1-9])[0-9a-fA-F]*$ at the front of a text
abbrev all_hex : Text → Bool
all_hex s = run_length is_hex s == length s

unfoldable pub number_at : Text → Bool
unfolding run_length is_hex
number_at [] = false
number_at (c ∷ s) =
    is_digit c
    && (all_hex s
        || (c == b'0' && (elim s [
          | [] ↦ true
          | d ∷ t ↦ (d == b'b' || (d == b'B' || (d == b'x' || d == b'X'))) && all_hex t
        ])))

unfoldable pub ends_number : Text → Bool
unfolding search_word number_at
ends_number = search_word number_at false

abbrev begins_word : Text → Bool
begins_word [] = false
begins_word (c ∷ s) = is_word c

-- ^((?:\'?[0-9a-zA-Z_])*)(.*)$: the first group without its quotes, and the second.
unfoldable pub literal : Text → Text × Text
unfolding is_word
literal [] = ([], [])
literal (c ∷ s) =
    let (kept, rest) = literal s in
    if is_word c
    then (c ∷ kept, rest)
    else if c == b'\'' && begins_word s
    then (kept, rest)
    else ([], c ∷ s)

-- A string or a character that begins behind `head`: what is added to `collapsed`, and what is left
-- of the line if the loop goes on.
unfoldable pub quoted : Text → Text → ℕ → Text → Text × Option Text
unfolding behind
quoted s head quote tail = elim (behind quote tail) [
  | none ↦ (s, none)
  | some rest ↦ (head ++ (quote ∷ quote ∷ []), some rest)
]

-- One round of the loop of _CollapseStrings.
unfoldable pub collapse_quote : Text → Text → ℕ → Text → Text × Option Text
unfolding quoted ends_number literal
collapse_quote s head quote tail =
    let (kept, rest) = literal (quote ∷ tail) in
    if not (quote == b'"') && ends_number head
    then (head ++ kept, some rest)
    else quoted s head quote tail

unfoldable pub collapse_round : Text → Text × Option Text
unfolding split_quote collapse_quote
collapse_round s = elim (split_quote s) [
  | none ↦ (s, none)
  | some (head, (quote, tail)) ↦ collapse_quote s head quote tail
]

-- The loop, with fuel.
unfoldable pub collapse_from : ℕ → Text → Option Text
unfolding collapse_round
collapse_from zero s = none
collapse_from (suc f) s =
    let (piece, left) = collapse_round s in
    elim left [ none ↦ some piece | some rest ↦ do out ← collapse_from f rest; some (piece ++ out) ]

-- _CollapseStrings; each round takes a character at least.
unfoldable pub collapse_strings : Text → Option Text
unfolding is_include_line remove_escapes collapse_from
collapse_strings line =
    let s = remove_escapes 0 line in
    if is_include_line line then some line else collapse_from (suc (length s)) s
