-- ===== src/Lint/LineChecks.antt =====
-- CheckForFunctionLengths and CheckComment of tools/cpplint.py. The number of a line is one of the file.
use vsm_cpp_sdk.Prelude.{
  ℕ, Bool, true, false, not, ◌&&◌, ◌||◌, Option, none, some, List, [], ◌∷◌, ◌++◌, ◌==◌, ◌%◌, ltb,
  length, drop, if◌then◌else◌,
}
use vsm_cpp_sdk.Text.{Text, codes, text_eq, is_space}
use vsm_cpp_sdk.Text.Int.{ℤ}
use vsm_cpp_sdk.Text.Find.{starts_with, lstrip}
use vsm_cpp_sdk.Text.Regex.{re_match, re_search, matches, found_in, group_text}
use vsm_cpp_sdk.Text.Regex.Syntax.{regex}
use vsm_cpp_sdk.Result.{Result, ok, err, attribute_error, ◌>>=◌}
use vsm_cpp_sdk.Lint.Nolint.{Report}
use vsm_cpp_sdk.Lint.Reports.{report, report_if}
use vsm_cpp_sdk.Lint.FileChecks.{count_text}
use vsm_cpp_sdk.Lint.HeaderGuard.{split_words}
use vsm_cpp_sdk.Lint.Functions.{
  FunctionState, begin_function, count_line, end_function, check_function,
}

-- split()[-1] of a text that is not blank
abbrev last_of : List Text → Text
last_of [] = []
last_of (w ∷ []) = w
last_of (w ∷ v ∷ ws) = last_of (v ∷ ws)

abbrev is_function_name : Text → Bool
is_function_name name =
    text_eq name (codes "TEST")
    || (text_eq name (codes "TEST_F") || not (matches (regex "[A-Z_]+$") name))

-- Whether the line begins a function: starting_func.
unfoldable pub starts_function : Text → Bool
unfolding re_match matches regex group_text split_words text_eq
starts_function line = elim (re_match (regex "(\\w(\\w|::|\\*|\\&|\\s)*)\\(") line) [
  | none ↦ false
  | some m ↦ is_function_name (last_of (split_words [] (group_text m 1)))
]

-- The name of the function that `line` begins, where its lines are joined in `joined_line`.
unfoldable pub function_name : Text → Text → Result Text
unfolding re_search matches regex group_text
function_name line joined_line = elim (re_search (regex "((\\w|:)*)\\(") line) [
  | none ↦ err attribute_error
  | some m ↦
      let function = group_text m 1 in
      if matches (regex "TEST") function
      then elim (re_search (regex "(\\(.*\\))") joined_line) [
        | none ↦ ok function
        | some parameters ↦ ok (function ++ group_text parameters 1)
      ]
      else ok (function ++ codes "()")
]

-- The loop from the first line of a function on: the state where its body or its end is found.
unfoldable pub find_body : Text → FunctionState → Text → List Text → Result (Option FunctionState)
unfolding found_in regex lstrip function_name begin_function
find_body line s joined_line [] = ok none
find_body line s joined_line (start_line ∷ ls) =
    let joined = joined_line ++ (b' ' ∷ lstrip start_line) in
    elim (found_in (regex "(;|})") start_line) [
      | true ↦ ok (some s)
      | false ↦ elim (found_in (regex "{") start_line) [
        | true ↦ (do function ← function_name line joined; ok (some (begin_function function)))
        | false ↦ find_body line s joined ls
      ]
    ]

abbrev body_found : ℕ → FunctionState → Option FunctionState → FunctionState × List Report
body_found linenum s (some t) = (t, [])
body_found linenum s none = (
  s,
  report linenum (codes "readability/fn_size") 5
        (codes "Lint failed to find start of function body.")
      ∷ [],
)

-- CheckForFunctionLengths on a line and the ones behind it.
unfoldable pub check_line_of_function :
    ℤ → FunctionState → ℕ → Text → List Text → Result (FunctionState × List Report)
unfolding starts_function find_body matches regex check_function end_function count_line
check_line_of_function verbose s linenum line ls =
    if starts_function line
    then (do found ← find_body line s [] (line ∷ ls); ok (body_found linenum s found))
    else if matches (regex "^\\}\\s*$") line
    then (do reports ← check_function s verbose linenum; ok (end_function s, reports))
    else if not (matches (regex "^\\s*$") line)
    then ok (count_line s, [])
    else ok (s, [])

-- CheckForFunctionLengths on the lines of a file, at the verbose level of _CppLintState
unfoldable pub check_for_function_lengths :
    ℤ → List Text → ℕ → FunctionState → Result (FunctionState × List Report)
unfolding check_line_of_function
check_for_function_lengths verbose lines linenum s = elim (drop linenum lines) [
  | [] ↦ ok (s, [])
  | line ∷ ls ↦ check_line_of_function verbose s linenum line ls
]

-- What stands before the first //, and the text from it on.
unfoldable pub comment_at : Text → Option (Text × Text)
unfolding starts_with
comment_at [] = none
comment_at (c ∷ s) = elim (starts_with (codes "//") (c ∷ s)) [
  | true ↦ some ([], c ∷ s)
  | false ↦ elim (comment_at s) [ none ↦ none | some (code, comment) ↦ some (c ∷ code, comment) ]
]

-- re.sub(r'\\.', '', s)
unfoldable pub without_escapes : Text → Text
without_escapes [] = []
without_escapes (c ∷ []) = c ∷ []
without_escapes (c ∷ d ∷ s) = elim (c == b'\\' && not (d == b'\n')) [
  | true ↦ without_escapes s
  | false ↦ c ∷ without_escapes (d ∷ s)
]

abbrev ends_in_ink : Text → Bool
ends_in_ink [] = false
ends_in_ink (c ∷ []) = not (is_space c)
ends_in_ink (c ∷ d ∷ s) = ends_in_ink (d ∷ s)

-- The spaces before TODO in a comment; 0 where there is no TODO.
unfoldable pub spaces_before_todo : Text → ℕ
unfolding re_match regex group_text
spaces_before_todo comment = elim (re_match (regex "^//(\\s*)TODO(\\(.+?\\))?:?(\\s|$)?") comment) [
  | none ↦ 0
  | some m ↦ length (group_text m 1)
]

-- The reports of CheckComment on a comment that is not in quotes.
unfoldable pub comment_reports : Text → ℕ → ℕ → Text → Text → List Report
unfolding matches regex is_space spaces_before_todo
comment_reports line linenum next_line_start code comment =
    report_if
      (not (matches (regex "^.*{ *//") line && next_line_start == length code) && ends_in_ink code)
      (report linenum (codes "whitespace/comments") 2
        (codes "At least a space is needed between code and comments"))
    ++ (report_if (ltb 1 (spaces_before_todo comment))
          (report linenum (codes "whitespace/todo") 2 (codes "Too many spaces before TODO"))
        ++ report_if
            (matches (regex "//[^ ]*\\w") comment
              && not (matches (regex "(///|//\\!)(\\s+|$)") comment))
            (report linenum (codes "whitespace/comments") 4
              (codes "Should have a space between // and comment")))

-- CheckComment
unfoldable pub check_comment : Text → ℕ → ℕ → List Report
unfolding comment_at count_text without_escapes comment_reports
check_comment line linenum next_line_start = elim (comment_at line) [
  | none ↦ []
  | some (code, comment) ↦
      if count_text (codes "\"") (without_escapes code) % 2 == 0
      then comment_reports line linenum next_line_start code comment
      else []
]
