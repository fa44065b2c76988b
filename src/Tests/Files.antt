-- ===== src/Tests/Files.antt =====
-- The theorems on the checks of whole files and of includes in tools/cpplint.py at small inputs.
use vsm_cpp_sdk.Prelude.{
  ℕ, ◌≡◌, ◌||◌, ◌==◌, append_assoc, ap, sym, ◌∙◌, ◌↔◌, refl, Bool, true, false, some, List, [], ◌∷◌,
  ◌++◌, arith, take,
}
use vsm_cpp_sdk.Text.{Text, codes, text_eq, lower, is_word, is_digit, is_space}
use vsm_cpp_sdk.Text.Find.{at, starts_with, ends_with, reverse_onto}
use vsm_cpp_sdk.Text.Path.{with_slash, path_join}
use vsm_cpp_sdk.Text.Regex.{
  run, rounds, fewer, at_word_end, re_match, re_search, re_search_from, matches, group_text,
}
use vsm_cpp_sdk.Text.Regex.Syntax.{
  regex, regex_of, class_of, class_item, class_items, token, tokens, assemble,
}
use vsm_cpp_sdk.Lint.Nolint.{Report}
use vsm_cpp_sdk.Lint.Lines.{CleansedLines}
use vsm_cpp_sdk.Lint.FileInfo.{Paths, has, repository_name}
use vsm_cpp_sdk.Lint.FileInfo.Climb.{repository_name-some}
use vsm_cpp_sdk.Lint.FileChecks.{check_for_newline_at_eof}
use vsm_cpp_sdk.Lint.FileChecks.Newline.{marked, ends_line, check_for_newline_at_eof_iff}
use vsm_cpp_sdk.Lint.Includes.{IncludeState, include_state, reset_section, find_header, find_lists}
use vsm_cpp_sdk.Lint.IncludeLine.{
  included, is_third_party, check_directory, duplicate_report, check_include_line,
}
use vsm_cpp_sdk.Lint.IncludeLine.Twice.{include_lines, check_include_line-twice}
use vsm_cpp_sdk.Lint.StyleChecks.{is_blank_line, previous_from, get_previous_non_blank_line}
use vsm_cpp_sdk.Lint.StyleChecks.Previous.{Previous, get_previous_non_blank_line-Previous}

check_for_newline_at_eof_iff_example :
    (check_for_newline_at_eof (marked (codes "//") (codes "//") (codes "int x;\n")) ≡ [])
    ↔ (ends_line (codes "int x;\n") ≡ true)
check_for_newline_at_eof_iff_example =
    check_for_newline_at_eof_iff (codes "//") (codes "//") (codes "int x;\n")

abbrev guard : Text
guard = codes "_FILE_H_"

abbrev declarations : List Text
declarations = codes "int x;" ∷ []

-- A file system of files that end in "h" or "t", as a.h and the directory .git.
last_is : ℕ → Text → Bool
last_is c [] = false
last_is c (d ∷ []) = d == c
last_is c (d ∷ e ∷ s) = last_is c (e ∷ s)

abbrev paths : Paths
unfolding last_is
paths = record {
  abspath = λ name. codes "/repo/src/" ++ name;
  exists = λ name. last_is b'h' name || last_is b't' name;
}

last_is-append : (c : ℕ) (s : Text) (d : ℕ) → last_is c (s ++ (d ∷ [])) ≡ (d == c)
unfolding last_is
last_is-append c [] d = refl
last_is-append c (e ∷ []) d = refl
last_is-append c (e ∷ g ∷ s) d = last_is-append c (g ∷ s) d

no_svn : (d : Text) → has paths (codes ".svn") d ≡ false
unfolding has path_join starts_with paths last_is
no_svn d =
    let s = with_slash d ++ codes ".sv" in
    let whole = append_assoc (with_slash d) (codes ".sv") (codes "n") in
    ap (λ t. last_is b'h' t || last_is b't' t) (sym whole)
    ∙ rw (last_is-append b'h' s b'n', last_is-append b't' s b'n') refl

repository_name-some_example : (name : Text) × (repository_name paths (codes "a.h") ≡ some name)
repository_name-some_example = repository_name-some paths (codes "a.h") (λ d _. no_svn d)

abbrev engine : ℕ
unfolding is_word is_digit is_space reverse_onto run rounds fewer at_word_end re_match re_search
    re_search_from regex regex_of class_of class_item class_items token tokens assemble matches
    group_text included is_third_party text_eq at find_header find_lists include_state reset_section
    ends_with starts_with
engine = 0

abbrev include_a : Text
include_a = codes "#include \"a/b.h\""

abbrev two_includes : List Text
two_includes = include_a ∷ codes "#include <c>" ∷ include_a ∷ []

abbrev including : CleansedLines
including = record {
  elided = two_includes;
  lines = two_includes;
  raw_lines = two_includes;
  num_lines = 3;
  lines_without_raw_strings = two_includes;
}

check_include_line-twice_example :
    (after : IncludeState) × (reports : List Report) × (include_lines lower
        (codes "x.cc")
        (codes "a/x.cc")
        including
        (0 ∷ 1 ∷ [])
        include_state
      ≡ some (after, reports))
    × (check_include_line lower (codes "x.cc") (codes "a/x.cc") including 2 after
        ≡ some (
          after,
          check_directory include_a 2 ++ (duplicate_report (codes "x.cc") (codes "a/b.h") 2 0 ∷ []),
        ))
unfolding engine
check_include_line-twice_example =
    check_include_line-twice lower (codes "x.cc") (codes "a/x.cc") including 0 2 (1 ∷ [])
      include_state [] [] include_a include_a (codes "a/b.h") false false refl
      (omega arith, omega arith) ((omega arith, omega arith), tt) refl refl refl refl refl refl refl

abbrev spaced_lines : List Text
spaced_lines = codes "int a;" ∷ codes "  " ∷ [] ∷ codes "int b;" ∷ []

get_previous_non_blank_line-Previous_example :
    Previous (take 3 spaced_lines) (get_previous_non_blank_line spaced_lines 3)
get_previous_non_blank_line-Previous_example = get_previous_non_blank_line-Previous spaced_lines 3

previous_line_found : get_previous_non_blank_line spaced_lines 3 ≡ some (codes "int a;", 0)
unfolding get_previous_non_blank_line previous_from is_blank_line engine
previous_line_found = refl
