-- ===== src/Lint/Methods.antt =====
-- The declarations of functions in tools/cpplint.py: IsOutOfLineMethodDefinition, IsDerivedFunction,
-- IsInitializerList, CheckRedundantVirtual and CheckRedundantOverrideOrFinal. The number of a line is
-- one of the file.
use vsm_cpp_sdk.Prelude.{
  ℕ, suc, ◌+◌, ◌-◌, Bool, true, false, ◌&&◌, ◌||◌, Option, none, some, List, [], ◌∷◌, ◌++◌, ◌==◌,
  ltb, length, take, drop, if◌then◌else◌,
}
use vsm_cpp_sdk.Text.{Text, codes, cat}
use vsm_cpp_sdk.Text.Find.{at, reverse_onto}
use vsm_cpp_sdk.Text.Regex.{re_match, re_search, found_in, matches, group_text, MatchObject}
use vsm_cpp_sdk.Text.Regex.Syntax.{regex}
use vsm_cpp_sdk.Lint.Nolint.{Report}
use vsm_cpp_sdk.Lint.Reports.{report, report_if}
use vsm_cpp_sdk.Lint.Brackets.{Place, close_expression}

-- The lines from `linenum` back to `first`, 10 at most of them where that is asked for.
abbrev lines_back : List Text → ℕ → List Text
lines_back elided linenum = reverse_onto (take (suc linenum) elided) []

-- IsOutOfLineMethodDefinition
unfoldable pub out_of_line : List Text → Bool
unfolding matches regex
out_of_line [] = false
out_of_line (l ∷ ls) =
    if matches (regex "^([^()]*\\w+)\\(") l
    then matches (regex "^[^()]*\\w+::\\w+\\(") l
    else out_of_line ls

unfoldable pub is_out_of_line_method_definition : List Text → ℕ → Bool
unfolding out_of_line reverse_onto
is_out_of_line_method_definition elided linenum = out_of_line (take 10 (lines_back elided linenum))

-- IsDerivedFunction
abbrev has_override : Option Place → Bool
has_override none = false
has_override (some p) = elim p.pos [
  | none ↦ false
  | some pos ↦ found_in (regex "\\boverride\\b") (drop pos p.line)
]

unfoldable pub derived_function : List Text → ℕ → List Text → Bool
unfolding re_match regex group_text close_expression found_in
derived_function elided i [] = false
derived_function elided i (l ∷ ls) = elim (re_match (regex "^([^()]*\\w+)\\(") l) [
  | some m ↦ has_override (close_expression elided i (length (group_text m 1)))
  | none ↦ derived_function elided (i - 1) ls
]

unfoldable pub is_derived_function : List Text → ℕ → Bool
unfolding derived_function reverse_onto
is_derived_function elided linenum =
    derived_function elided linenum (take 10 (lines_back elided linenum))

-- IsInitializerList, from the lines back to the line 2
abbrev without_body : Text → Text
without_body line = elim (re_match (regex "^(.*)\\{\\s*$") line) [
  | none ↦ line
  | some m ↦ group_text m 1
]

unfoldable pub initializer_list : List Text → Bool
unfolding found_in regex
initializer_list [] = false
initializer_list (l ∷ ls) =
    if found_in (regex "\\s:\\s*\\w+[({]") l
    then true
    else if found_in (regex "\\}\\s*,\\s*$") l
    then true
    else if found_in (regex "[{};]\\s*$") l
    then false
    else initializer_list ls

abbrev first_without_body : List Text → List Text
first_without_body [] = []
first_without_body (l ∷ ls) = without_body l ∷ ls

unfoldable pub is_initializer_list : List Text → ℕ → Bool
unfolding initializer_list re_match regex group_text reverse_onto
is_initializer_list elided linenum =
    initializer_list (first_without_body (take (linenum - 1) (lines_back elided linenum)))

-- The parameter list behind a virtual, in the next three lines: where CloseExpression ends it.
unfoldable pub parameter_end : List Text → ℕ → ℕ → List Text → Option Place
unfolding re_match regex group_text close_expression
parameter_end elided start_line start_col [] = none
parameter_end elided start_line start_col (l ∷ ls) =
    elim (re_match (regex "^([^(]*)\\(") (drop start_col l)) [
      | some m ↦ close_expression elided start_line (start_col + length (group_text m 1))
      | none ↦ parameter_end elided (suc start_line) 0 ls
    ]

abbrev virtual_report : ℕ → Option MatchObject → List Report
virtual_report linenum none = []
virtual_report linenum (some m) =
    report linenum (codes "readability/inheritance") 4 (
      cat (
        codes "\"virtual\" is redundant since function is already declared as \""
        ∷ group_text m 1
        ∷ codes "\""
        ∷ []))
    ∷ []

-- The loop over the lines from the end of the parameter list on.
unfoldable pub redundant_virtual : ℕ → ℕ → List Text → List Report
unfolding re_search found_in regex group_text
redundant_virtual linenum end_col [] = []
redundant_virtual linenum end_col (l ∷ ls) =
    let line = drop end_col l in
    let rest = redundant_virtual linenum 0 ls in
    virtual_report linenum (re_search (regex "\\b(override|final)\\b") line)
    ++ (if found_in (regex "[^\\w]\\s*$") line then [] else rest)

abbrev behind_parameters : List Text → ℕ → Option Place → List Report
behind_parameters elided linenum none = []
behind_parameters elided linenum (some p) = elim p.pos [
  | none ↦ []
  | some end_col ↦ redundant_virtual linenum end_col (take 3 (drop p.linenum elided))
]

-- CheckRedundantVirtual
unfoldable pub check_redundant_virtual : List Text → ℕ → Text → List Report
unfolding re_match matches found_in regex group_text parameter_end redundant_virtual
check_redundant_virtual elided linenum line =
    elim (re_match (regex "^(.*)(\\bvirtual\\b)(.*)$") line) [
      | none ↦ []
      | some m ↦
          if found_in (regex "\\b(public|protected|private)\\s+$") (group_text m 1)
            || matches (regex "^\\s+(public|protected|private)\\b") (group_text m 3)
          then []
          else if matches (regex "^.*[^:]:[^:].*$") line
          then []
          else behind_parameters elided linenum (
              parameter_end elided linenum (length (group_text m 2)) (take 3 (drop linenum elided)))
    ]

-- What a text has from its last ')' on.
unfoldable pub last_parenthesis : Text → Option Text
last_parenthesis [] = none
last_parenthesis (c ∷ s) = elim (last_parenthesis s) [
  | some t ↦ some t
  | none ↦ if c == b')' then some (c ∷ s) else none
]

abbrev has_parenthesis : Option Text → Bool
has_parenthesis none = false
has_parenthesis (some line) = elim (last_parenthesis line) [ none ↦ false | some t ↦ true ]

-- CheckRedundantOverrideOrFinal
abbrev override_or_final : ℕ → Text → List Report
override_or_final linenum fragment =
    report_if
      (found_in (regex "\\boverride\\b") fragment && found_in (regex "\\bfinal\\b") fragment)
      (report linenum (codes "readability/inheritance") 4
        (codes "\"override\" is redundant since function is already declared as \"final\""))

unfoldable pub check_redundant_override_or_final : List Text → ℕ → Text → List Report
unfolding last_parenthesis found_in regex at
check_redundant_override_or_final elided linenum line = elim (last_parenthesis line) [
  | some fragment ↦ override_or_final linenum fragment
  | none ↦
      if ltb 1 linenum && has_parenthesis (at elided (linenum - 1))
      then override_or_final linenum line
      else []
]
