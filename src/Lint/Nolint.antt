-- ===== src/Lint/Nolint.antt =====
-- The suppressions of errors in tools/cpplint.py: NOLINT comments and directives for a whole file.
pub mod Global
pub mod Scope
use vsm_cpp_sdk.Prelude.{
  ℕ, ◌+◌, Bool, true, false, not, ◌&&◌, ◌||◌, Option, none, some, List, [], ◌∷◌, ◌++◌, ◌==◌, drop,
  if◌then◌else◌,
}
use vsm_cpp_sdk.Text.{Text, codes, text_eq, is_word}
use vsm_cpp_sdk.Text.Find.{starts_with}

-- _ERROR_CATEGORIES
unfoldable pub error_categories : List Text
error_categories =
    codes "build/class"
    ∷ codes "build/c++11"
    ∷ codes "build/c++14"
    ∷ codes "build/c++tr1"
    ∷ codes "build/deprecated"
    ∷ codes "build/endif_comment"
    ∷ codes "build/explicit_make_pair"
    ∷ codes "build/forward_decl"
    ∷ codes "build/header_guard"
    ∷ codes "build/include"
    ∷ codes "build/include_alpha"
    ∷ codes "build/include_order"
    ∷ codes "build/include_what_you_use"
    ∷ codes "build/namespaces"
    ∷ codes "build/printf_format"
    ∷ codes "build/storage_class"
    ∷ codes "legal/copyright"
    ∷ codes "readability/alt_tokens"
    ∷ codes "readability/braces"
    ∷ codes "readability/casting"
    ∷ codes "readability/check"
    ∷ codes "readability/constructors"
    ∷ codes "readability/fn_size"
    ∷ codes "readability/inheritance"
    ∷ codes "readability/multiline_comment"
    ∷ codes "readability/multiline_string"
    ∷ codes "readability/namespace"
    ∷ codes "readability/nolint"
    ∷ codes "readability/nul"
    ∷ codes "readability/strings"
    ∷ codes "readability/todo"
    ∷ codes "readability/utf8"
    ∷ codes "runtime/arrays"
    ∷ codes "runtime/casting"
    ∷ codes "runtime/explicit"
    ∷ codes "runtime/int"
    ∷ codes "runtime/init"
    ∷ codes "runtime/invalid_increment"
    ∷ codes "runtime/member_string_references"
    ∷ codes "runtime/memset"
    ∷ codes "runtime/indentation_namespace"
    ∷ codes "runtime/operator"
    ∷ codes "runtime/printf"
    ∷ codes "runtime/printf_format"
    ∷ codes "runtime/references"
    ∷ codes "runtime/string"
    ∷ codes "runtime/threadsafe_fn"
    ∷ codes "runtime/vlog"
    ∷ codes "whitespace/blank_line"
    ∷ codes "whitespace/braces"
    ∷ codes "whitespace/comma"
    ∷ codes "whitespace/comments"
    ∷ codes "whitespace/empty_conditional_body"
    ∷ codes "whitespace/empty_if_body"
    ∷ codes "whitespace/empty_loop_body"
    ∷ codes "whitespace/end_of_line"
    ∷ codes "whitespace/ending_newline"
    ∷ codes "whitespace/forcolon"
    ∷ codes "whitespace/indent"
    ∷ codes "whitespace/line_length"
    ∷ codes "whitespace/newline"
    ∷ codes "whitespace/operators"
    ∷ codes "whitespace/parens"
    ∷ codes "whitespace/semicolon"
    ∷ codes "whitespace/tab"
    ∷ codes "whitespace/todo"
    ∷ []

-- _LEGACY_ERROR_CATEGORIES
unfoldable pub legacy_error_categories : List Text
legacy_error_categories = codes "readability/streams" ∷ codes "readability/function" ∷ []

-- _DEFAULT_C_SUPPRESSED_CATEGORIES and _DEFAULT_KERNEL_SUPPRESSED_CATEGORIES
abbrev pub c_suppressed : List Text
c_suppressed = codes "readability/casting" ∷ []

abbrev pub kernel_suppressed : List Text
kernel_suppressed = codes "whitespace/tab" ∷ []

-- t in ts
unfoldable pub contains : Text → List Text → Bool
contains t [] = false
contains t (u ∷ us) = text_eq u t || contains t us

-- The dict _error_suppressions of sets of line numbers, as the pairs that it holds; the key None is
-- `none`. The dict _global_error_suppressions, whose values are all True, as its keys.
pub record Suppressions : Type 0 where
  pub lines : List (Option Text × ℕ)
  pub global : List Text

-- ResetNolintSuppressions
unfoldable pub no_suppressions : Suppressions
no_suppressions = record { lines = []; global = [] }

unfoldable pub same_key : Option Text → Option Text → Bool
same_key none none = true
same_key none (some t) = false
same_key (some t) none = false
same_key (some t) (some u) = text_eq t u

-- linenum in _error_suppressions.get(category, set())
unfoldable pub on_line : Option Text → ℕ → List (Option Text × ℕ) → Bool
unfolding same_key
on_line k n [] = false
on_line k n ((j, m) ∷ ps) = (same_key j k && m == n) || on_line k n ps

-- IsErrorSuppressedByNolint
unfoldable pub is_suppressed : Suppressions → Text → ℕ → Bool
unfolding contains on_line
is_suppressed s category linenum =
    contains category s.global
    || (on_line (some category) linenum s.lines || on_line none linenum s.lines)

-- What a check hands to the function `error`.
pub record Report : Type 0 where
  pub linenum : ℕ
  pub category : Text
  pub confidence : ℕ
  pub message : Text

-- \b between a character and a text, where the one before it is a word character.
abbrev word_ends : Text → Bool
word_ends [] = true
word_ends (c ∷ s) = not (is_word c)

-- [^)]+\) : what stands in front of the first closing bracket, and at least one character.
unfoldable pub until_close : Text → Text → Option Text
until_close cur [] = none
until_close cur (c ∷ s) = elim (c == b')') [
  | true ↦ elim cur [ [] ↦ none | d ∷ r ↦ some (d ∷ r) ]
  | false ↦ until_close (cur ++ (c ∷ [])) s
]

-- The inside of the group (\([^)]+\))?
unfoldable pub in_brackets : Text → Option Text
unfolding until_close
in_brackets [] = none
in_brackets (c ∷ s) = if c == b'(' then until_close [] s else none

-- \bNOLINT(NEXTLINE)?\b(\([^)]+\))? at a position behind the character `prev`: whether there is
-- NEXTLINE, and the inside of the brackets.
unfoldable pub nolint_at : Bool → Text → Option (Bool × Option Text)
unfolding in_brackets starts_with is_word
nolint_at in_word s =
    let r = drop 6 s in
    if in_word || not (starts_with (codes "NOLINT") s)
    then none
    else if starts_with (codes "NEXTLINE") r && word_ends (drop 8 r)
    then some (true, in_brackets (drop 8 r))
    else if word_ends r
    then some (false, in_brackets r)
    else none

-- Search of that pattern.
unfoldable pub search_nolint : Bool → Text → Option (Bool × Option Text)
unfolding nolint_at
search_nolint in_word [] = none
search_nolint in_word (c ∷ s) = elim (nolint_at in_word (c ∷ s)) [
  | some m ↦ some m
  | none ↦ search_nolint (is_word c) s
]

unfoldable pub suppress : Option Text → ℕ → Suppressions → Suppressions
suppress k n s = record s { lines = s.lines ++ ((k, n) ∷ []) }

-- What ParseNolintSuppressions does with a comment on the line that it is for.
unfoldable pub suppress_category : Suppressions → ℕ → ℕ → Option Text → Suppressions × List Report
unfolding contains error_categories legacy_error_categories suppress
suppress_category s linenum line none = (suppress none line s, [])
suppress_category s linenum line (some category) =
    if text_eq category (codes "*")
    then (suppress none line s, [])
    else if contains category error_categories
    then (suppress (some category) line s, [])
    else if contains category legacy_error_categories
    then (s, [])
    else (
      s,
      record {
        linenum = linenum;
        category = codes "readability/nolint";
        confidence = 5;
        message = codes "Unknown NOLINT error category: " ++ category;
      }
          ∷ [],
    )

-- ParseNolintSuppressions: the new suppressions, and what is reported.
unfoldable pub parse_nolint : Suppressions → Text → ℕ → Suppressions × List Report
unfolding search_nolint suppress_category
parse_nolint s raw_line linenum = elim (search_nolint false raw_line) [
  | none ↦ (s, [])
  | some (next_line, category) ↦
      suppress_category s linenum (if next_line then linenum + 1 else linenum) category
]
