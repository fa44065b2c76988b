-- ===== src/Tests/Checks.antt =====
-- Runs of the checks on functions and comments in tools/cpplint.py on small lines.
use vsm_cpp_sdk.Prelude.{
  ℕ, ◌≡◌, refl, List, [], ◌∷◌, Bool, true, ◌&&◌, Option, none, some, String, length,
}
use vsm_cpp_sdk.Text.{Text, codes, cat, text_eq, is_word, is_digit, is_space}
use vsm_cpp_sdk.Text.Find.{starts_with, lstrip, is_blank, reverse_onto, at}
use vsm_cpp_sdk.Text.Regex.{
  run, rounds, fewer, at_word_end, re_match, re_search, re_search_from, matches, found_in,
  group_text,
}
use vsm_cpp_sdk.Text.Regex.Syntax.{
  regex, regex_of, class_of, class_item, class_items, token, tokens, assemble,
}
use vsm_cpp_sdk.Text.Int.{pos}
use vsm_cpp_sdk.Result.{ok}
use vsm_cpp_sdk.Lint.HeaderGuard.{split_words}
use vsm_cpp_sdk.Lint.Reports.{report}
use vsm_cpp_sdk.Lint.Nolint.{Report}
use vsm_cpp_sdk.Lint.Brackets.{close_expression, close_at, close_lines, find_end, no_start}
use vsm_cpp_sdk.Lint.Brackets.Backward.{reverse_close_expression, open_at, find_start, cut}
use vsm_cpp_sdk.Lint.Spacing.{
  clear_operators, assignment_spacing, less_spacing, greater_spacing, comparison_spacing,
  left_shift_spacing, shift_and_unary_spacing, inside_parentheses, replace_behind, replace_all,
  check_operator_spacing, check_parenthesis_spacing, check_comma_spacing,
}
use vsm_cpp_sdk.Lint.Features.{
  flag_cxx11_features, include_of, cxx11_header, cxx11_names, is_one_of,
}
use vsm_cpp_sdk.Lint.FileChecks.{count_text, count_behind}
use vsm_cpp_sdk.Lint.Functions.{function_state, begin_function, count_line}
use vsm_cpp_sdk.Lint.LineChecks.{
  starts_function, function_name, find_body, check_line_of_function, check_for_function_lengths,
  comment_at, without_escapes, spaces_before_todo, comment_reports, check_comment,
}

abbrev engine : ℕ
unfolding is_word is_digit is_space is_blank reverse_onto run rounds fewer at_word_end re_match
    re_search re_search_from regex regex_of class_of class_item class_items token tokens assemble
    matches found_in group_text text_eq starts_with lstrip split_words starts_function function_name
    find_body begin_function count_line check_line_of_function count_text count_behind comment_at
    without_escapes spaces_before_todo comment_reports function_state
engine = 0

abbrev functions : List Text
functions =
    codes "int A::f(int a,"
    ∷ codes "         int b) {"
    ∷ codes "  return a;"
    ∷ codes "}"
    ∷ codes "TEST(One, Two) {"
    ∷ codes "MACRO(x)"
    ∷ codes "int g();"
    ∷ codes "int h()"
    ∷ []

f_begins :
    check_for_function_lengths (pos 1) functions 0 function_state
    ≡ ok (begin_function (codes "A::f()"), [])
unfolding check_for_function_lengths engine
f_begins = refl

test_begins :
    check_for_function_lengths (pos 1) functions 4 function_state
    ≡ ok (begin_function (codes "TEST(One, Two)"), [])
unfolding check_for_function_lengths engine
test_begins = refl

macro_counts :
    check_for_function_lengths (pos 1) functions 5 (begin_function (codes "A::f()"))
    ≡ ok (count_line (begin_function (codes "A::f()")), [])
unfolding check_for_function_lengths engine
macro_counts = refl

declaration_ignored :
    check_for_function_lengths (pos 1) functions 6 function_state ≡ ok (function_state, [])
unfolding check_for_function_lengths engine
declaration_ignored = refl

body_missing :
    check_for_function_lengths (pos 1) functions 7 function_state
    ≡ ok (
      function_state,
      report 7 (codes "readability/fn_size") 5 (codes "Lint failed to find start of function body.")
          ∷ [],
    )
unfolding check_for_function_lengths engine
body_missing = refl

no_space :
    check_comment (codes "int x;//x") 3 0
    ≡ report 3
        (codes "whitespace/comments")
        2
        (codes "At least a space is needed between code and comments")
      ∷ report 3
          (codes "whitespace/comments")
          4
          (codes "Should have a space between // and comment")
      ∷ []
unfolding check_comment engine
no_space = refl

in_quotes : check_comment (codes "\"\\\" //x") 3 0 ≡ []
unfolding check_comment engine
in_quotes = refl

todo_far :
    check_comment (codes "{ //  TODO(me): x") 3 2
    ≡ report 3 (codes "whitespace/todo") 2 (codes "Too many spaces before TODO") ∷ []
unfolding check_comment engine
todo_far = refl

doxygen : check_comment (codes "/// \\brief x") 3 0 ≡ []
unfolding check_comment engine
doxygen = refl

abbrev spacing : ℕ
unfolding engine cat at no_start open_at find_start cut close_expression reverse_close_expression
    close_at close_lines find_end clear_operators assignment_spacing less_spacing greater_spacing
    comparison_spacing left_shift_spacing shift_and_unary_spacing inside_parentheses replace_behind
    replace_all
spacing = 0

abbrev all_digits : Text → Bool
all_digits [] = true
all_digits (c ∷ s) = is_digit c && all_digits s

abbrev of_line : String → Option (List ℕ)
of_line line = elim (check_operator_spacing all_digits (codes line ∷ []) 0) [
  | none ↦ none
  | some rs ↦ some (sizes rs)
]
  where
    sizes : List Report → List ℕ
    sizes [] = []
    sizes (r ∷ rs) = length r.message ∷ sizes rs

operator_free : of_line "bool operator==(int x) { return a < b; }" ≡ some []
unfolding check_operator_spacing spacing
operator_free = refl

assignment_tight : of_line "x=1;" ≡ some (23 ∷ [])
unfolding check_operator_spacing spacing
assignment_tight = refl

template_closed : of_line "f<int>(x);" ≡ some []
unfolding check_operator_spacing spacing
template_closed = refl

less_tight : of_line "if (a<b) {" ≡ some (23 ∷ [])
unfolding check_operator_spacing spacing
less_tight = refl

shifts : of_line "x = 10<<20; y = a<<b; z = a>>b; i ++;" ≡ some (24 ∷ 29 ∷ [])
unfolding check_operator_spacing spacing
shifts = refl

spaces_unequal :
    check_parenthesis_spacing 0 (codes "  if ( foo) {")
    ≡ report 0 (codes "whitespace/parens") 5 (codes "Mismatching spaces inside () in if") ∷ []
unfolding check_parenthesis_spacing spacing
spaces_unequal = refl

for_without_end : check_parenthesis_spacing 0 (codes "  for (a; b; ) {") ≡ []
unfolding check_parenthesis_spacing spacing
for_without_end = refl

comma_tight :
    check_comma_spacing 0 (codes "f(a,b);") (codes "f(a,b);")
    ≡ report 0 (codes "whitespace/comma") 3 (codes "Missing space after ,") ∷ []
unfolding check_comma_spacing spacing
comma_tight = refl

comma_operator : check_comma_spacing 0 (codes "operator,(a, b)") (codes "operator,(a, b)") ≡ []
unfolding check_comma_spacing spacing
comma_operator = refl

ratio_reported :
    flag_cxx11_features 0 (codes "#include <ratio>")
    ≡ report 0 (codes "build/c++11") 5 (codes "<ratio> is an unapproved C++11 header.") ∷ []
unfolding flag_cxx11_features include_of cxx11_header cxx11_names is_one_of spacing
ratio_reported = refl
