-- ===== src/Tests/Lint.antt =====
-- The theorems on tools/cpplint.py at small inputs.
use vsm_cpp_sdk.Prelude.{
  ℕ, ◌*◌, ◌^◌, ◌≤◌, ◌<◌, ◌≡◌, ◌↔◌, refl, true, false, not, ◌&&◌, ◌||◌, ◌==◌, some, List, [], ◌∷◌,
  if◌then◌else◌,
}
use vsm_cpp_sdk.Text.{Text, codes, text_eq}
use vsm_cpp_sdk.Text.Int.{pos}
use vsm_cpp_sdk.Text.Find.{at, starts_with, ends_with, has_text, strip, lstrip, rstrip, is_blank}
use vsm_cpp_sdk.Result.{ok, err, value_error}
use vsm_cpp_sdk.Dict.{get}
use vsm_cpp_sdk.Lint.State.{CppLintState, lint_state, reset_error_counts}
use vsm_cpp_sdk.Lint.State.Counts.{increment_all, count_of, top_of, or_zero, increment_all-reset}
use vsm_cpp_sdk.Lint.Nolint.{
  Report, no_suppressions, is_suppressed, parse_nolint, contains, error_categories, on_line,
  c_suppressed, kernel_suppressed,
}
use vsm_cpp_sdk.Lint.Nolint.Global.{
  process_global, any_line, search_c_file, search_kernel_file, process_global-marks,
}
use vsm_cpp_sdk.Lint.Nolint.Scope.{parse_nolint-comment}
use vsm_cpp_sdk.Lint.Report.{below, should_print_error}
use vsm_cpp_sdk.Lint.Report.Filters.{deciding, outcome, start, should_print_error-Reachable}
use vsm_cpp_sdk.Lint.Includes.{
  c_sys, cpp_sys, include_state, reset_section, check_next_include_order, refuse,
}
use vsm_cpp_sdk.Lint.Includes.Order.{after, is_late, check_next_include_order-late}
use vsm_cpp_sdk.Lint.Functions.{FunctionState, check_function, size_report}
use vsm_cpp_sdk.Lint.Functions.Level.{Above, trigger_of, check_function_lem}
use vsm_cpp_sdk.Lint.Brackets.{Place, is_open, is_close, close_expression}
use vsm_cpp_sdk.Lint.Brackets.Balanced.{
  round, square, done, plain, line_end, group, Balanced, lines_of, breaks, column,
}
use vsm_cpp_sdk.Lint.Brackets.Backward.{reverse_close_expression}
use vsm_cpp_sdk.Lint.Brackets.Opening.{IsPlace}
use vsm_cpp_sdk.Lint.Brackets.Reverse.{reverse_close_expression-IsPlace}
use vsm_cpp_sdk.Lint.Brackets.Groups.{close_expression-group}
use vsm_cpp_sdk.Lint.Comments.{
  remove_multi_line_comments, begins_comment, ends_comment, next_line, next_comment_start,
  next_comment_end, clear_lines, clear_range, remove_from,
}
use vsm_cpp_sdk.Lint.Comments.Removed.{Removed, Fails}
use vsm_cpp_sdk.Lint.Comments.Whole.{
  remove_multi_line_comments_lem, remove_multi_line_comments-twice,
}

-- f(a < b[0],
--   c) with an angle bracket that is never closed
unfoldable arguments : Balanced
unfolding is_open is_close
arguments = plain b'a' refl refl (
    plain b'<' refl refl (
      plain b'b' refl refl (
        group square (plain b'0' refl refl done)
          (plain b',' refl refl (line_end (plain b'c' refl refl done))))))

abbrev call_lines : List Text
call_lines = codes "x" ∷ codes "f(a<b[0]," ∷ codes "c);" ∷ []

close_expression-group_example :
    (line : Text) × (at call_lines 2 ≡ some line)
    × (close_expression call_lines 1 1 ≡ some (record { line = line; linenum = 2; pos = some 2 }))
unfolding arguments lines_of breaks column
close_expression-group_example =
    close_expression-group (codes "x" ∷ []) (codes "f") round arguments (codes ";") []

abbrev commented : List Text
commented = codes "int a;" ∷ codes "/* one" ∷ codes "two */" ∷ codes "int b;" ∷ []

abbrev uncommented : List Text
uncommented = codes "int a;" ∷ codes "/**/" ∷ codes "/**/" ∷ codes "int b;" ∷ []

commented_run : remove_multi_line_comments commented ≡ (uncommented, [])
unfolding remove_multi_line_comments remove_from next_comment_start next_comment_end next_line
    begins_comment ends_comment clear_range clear_lines starts_with ends_with has_text strip lstrip
    rstrip is_blank
commented_run = refl

remove_multi_line_comments_lem_example :
    (out : List Text) × (reports : List Report) × (remove_multi_line_comments commented
      ≡ (out, reports))
    × Removed 0 commented out reports
remove_multi_line_comments_lem_example = remove_multi_line_comments_lem commented

remove_multi_line_comments-twice_example :
    Fails begins_comment uncommented × (remove_multi_line_comments uncommented ≡ (uncommented, []))
remove_multi_line_comments-twice_example =
    remove_multi_line_comments-twice commented uncommented commented_run

abbrev by_top : CppLintState
by_top = record lint_state { counting = codes "toplevel" }

abbrev two_categories : List Text
two_categories = codes "build/include" ∷ codes "build/namespaces" ∷ []

increment_all-reset_example :
    let r = increment_all (reset_error_counts by_top) two_categories in
    (r.error_count ≡ 2)
    × (by_top.counting ≡ codes "toplevel"
        → (k : Text) → or_zero (get k r.errors_by_category) ≡ count_of top_of k two_categories)
    × (by_top.counting ≡ codes "detailed"
        → (k : Text) → or_zero (get k r.errors_by_category) ≡ count_of (λ c. c) k two_categories)
    × (by_top.counting ≡ codes "total" → (k : Text) → or_zero (get k r.errors_by_category) ≡ 0)
increment_all-reset_example = increment_all-reset by_top two_categories

abbrev order_report : Report
order_report = record {
  linenum = 3;
  category = codes "build/include_alpha";
  confidence = 4;
  message = [];
}

should_print_error-Reachable_example :
    should_print_error lint_state no_suppressions order_report
    ≡ ok (
        not (is_suppressed no_suppressions order_report.category 3)
        && (not (below 4 lint_state.verbose_level)
            && not (outcome false (deciding order_report.category lint_state.filters))))
should_print_error-Reachable_example =
    should_print_error-Reachable no_suppressions order_report start

-- A C system header behind a C++ one
check_next_include_order-late_example :
    let r = after (reset_section include_state (codes "if")) ((cpp_sys, codes "vector") ∷ []) in
    (check_next_include_order c_sys r).1
    ≡ (if is_late c_sys (cpp_sys ∷ []) then (refuse c_sys r).1 else [])
check_next_include_order-late_example =
    check_next_include_order-late include_state (codes "if") c_sys ((cpp_sys, codes "vector") ∷ [])

abbrev long_function : FunctionState
long_function = record {
  in_a_function = true;
  lines_in_function = 1200;
  current_function = codes "Run";
}

check_function_lem_example :
    let base = trigger_of (codes "Run") in
    (¬ Above 1200 base (pos 1) → check_function long_function (pos 1) 7 ≡ ok [])
    × (Above 1200 base (pos 1)
        → base ≤ 1200
        → (level : ℕ) × (check_function long_function (pos 1) 7
            ≡ ok (size_report long_function 7 level base (pos 1) ∷ []))
          × (level ≤ 5)
          × ((k : ℕ) → k ≤ 5 → (k ≤ level) ↔ (base * 2 ^ k ≤ 1200)))
    × (Above 1200 base (pos 1)
        → 1200 < base
        → check_function long_function (pos 1) 7 ≡ err value_error)
check_function_lem_example = check_function_lem long_function (pos 1) 7 refl

-- NOLINTNEXTLINE on the third line suppresses on the fourth
parse_nolint-comment_example :
    let r = parse_nolint no_suppressions (codes "x = NULL; // NOLINTNEXTLINE(build/include) y") 3 in
    (r.1 ≡ [])
    × ((c : Text) (n : ℕ)
        → is_suppressed r.0 c n
          ≡ (is_suppressed no_suppressions c n || (text_eq (codes "build/include") c && 4 == n)))
unfolding contains error_categories text_eq has_text starts_with
parse_nolint-comment_example =
    parse_nolint-comment no_suppressions (codes "x = NULL; //") true (codes "build/include")
      (codes " y") 3 refl refl

-- A marked line suppresses casts in the whole file
process_global-marks_example :
    is_suppressed
      (process_global no_suppressions (codes "// LINT_C_FILE" ∷ []))
      (codes "readability/casting")
      9
    ≡ (false
        || ((any_line search_c_file (codes "// LINT_C_FILE" ∷ [])
              && contains (codes "readability/casting") c_suppressed)
            || (any_line search_kernel_file (codes "// LINT_C_FILE" ∷ [])
                && contains (codes "readability/casting") kernel_suppressed)))
unfolding no_suppressions is_suppressed contains on_line
process_global-marks_example =
    process_global-marks no_suppressions (codes "// LINT_C_FILE" ∷ []) (codes "readability/casting")
      9

-- The bracket that closes on the second line is opened on the line above
reverse_close_expression-IsPlace_example :
    (place : Place) × (reverse_close_expression (codes "f(a->b," ∷ codes "c)" ∷ []) 1 1
      ≡ some place)
    × IsPlace (codes "f(a->b," ∷ codes "c)" ∷ []) 1 place
unfolding at
reverse_close_expression-IsPlace_example =
    reverse_close_expression-IsPlace (codes "f(a->b," ∷ codes "c)" ∷ []) 1 1 (codes "c)") b')' refl
      refl
