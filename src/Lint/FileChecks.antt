-- ===== src/Lint/FileChecks.antt =====
-- The checks of tools/cpplint.py on all lines of a file, CheckForCopyright, CheckForBadCharacters and
-- CheckForNewlineAtEOF, and those on a line that keep no state: CheckForMultilineCommentsAndStrings,
-- CheckPosixThreading, CheckVlogArguments and CheckInvalidIncrement.
pub mod Newline
use vsm_cpp_sdk.Prelude.{
  ℕ, zero, suc, ◌-◌, ◌%◌, String, Bool, true, false, not, ◌||◌, List, [], ◌∷◌, ◌++◌, ◌==◌, ltb,
  length, take, drop, if◌then◌else◌,
}
use vsm_cpp_sdk.Text.{Text, codes, lower, cat}
use vsm_cpp_sdk.Text.Find.{starts_with, has_text, replace}
use vsm_cpp_sdk.Text.Regex.{found_in, matches}
use vsm_cpp_sdk.Text.Regex.Syntax.{regex, regex_of}
use vsm_cpp_sdk.Lint.Nolint.{Report}
use vsm_cpp_sdk.Lint.Reports.{report, report_if}

unfoldable pub any_copyright : List Text → Bool
unfolding has_text lower
any_copyright [] = false
any_copyright (l ∷ ls) = has_text (codes "copyright") (lower l) || any_copyright ls

-- CheckForCopyright, on the lines from 1 to 10
unfoldable pub check_for_copyright : List Text → List Report
unfolding any_copyright
check_for_copyright lines =
    if any_copyright (take 10 (drop 1 lines))
    then []
    else report 0 (codes "legal/copyright") 5 (
        cat (
          codes "No copyright message found.  "
          ∷ codes "You should have a line: \"Copyright [year] <Copyright Owner>\""
          ∷ []))
      ∷ []

unfoldable pub has_char : ℕ → Text → Bool
has_char c [] = false
has_char c (d ∷ s) = d == c || has_char c s

-- CheckForBadCharacters, from the line `linenum` on
unfoldable pub check_for_bad_characters : ℕ → List Text → List Report
unfolding has_char
check_for_bad_characters linenum [] = []
check_for_bad_characters linenum (line ∷ ls) =
    report_if (has_char 0xfffd line) (
      report linenum (codes "readability/utf8") 5
        (codes "Line contains invalid UTF-8 (or Unicode replacement character)."))
    ++ (report_if (has_char 0 line)
          (report linenum (codes "readability/nul") 5 (codes "Line contains NUL byte."))
        ++ check_for_bad_characters (suc linenum) ls)

-- lines[-2] is there and empty, in a list of three lines at least.
unfoldable pub ends_empty : List Text → Bool
ends_empty [] = false
ends_empty (a ∷ []) = false
ends_empty (a ∷ b ∷ []) = elim a [ [] ↦ true | c ∷ s ↦ false ]
ends_empty (a ∷ b ∷ c ∷ ls) = ends_empty (b ∷ c ∷ ls)

-- CheckForNewlineAtEOF, for two lines at least: a file has its two markers.
unfoldable pub check_for_newline_at_eof : List Text → List Report
unfolding ends_empty
check_for_newline_at_eof lines =
    if ltb (length lines) 3 || not (ends_empty lines)
    then report (length lines - 2) (codes "whitespace/ending_newline") 5
        (codes "Could not find a newline character at the end of the file.")
      ∷ []
    else []

-- s.count(p) for a text `p` of `suc k` characters, of which `skip` are to be passed
unfoldable pub count_behind : ℕ → ℕ → Text → Text → ℕ
unfolding starts_with
count_behind k skip p [] = 0
count_behind k (suc skip) p (c ∷ s) = count_behind k skip p s
count_behind k zero p (c ∷ s) = elim (starts_with p (c ∷ s)) [
  | true ↦ suc (count_behind k k p s)
  | false ↦ count_behind k 0 p s
]

unfoldable pub count_text : Text → Text → ℕ
unfolding count_behind
count_text p s = count_behind (length p - 1) 0 p s

-- CheckForMultilineCommentsAndStrings, on an elided line. A \" is one of the quotes.
unfoldable pub check_for_multiline : ℕ → Text → List Report
unfolding replace count_text
check_for_multiline linenum elided =
    let line = replace (codes "\\\\") [] elided in
    report_if (ltb (count_text (codes "*/") line) (count_text (codes "/*") line)) (
      report linenum (codes "readability/multiline_comment") 5 (
        cat (
          codes "Complex multi-line /*...*/-style comment found. "
          ∷ codes "Lint may give bogus warnings.  "
          ∷ codes "Consider replacing these with //-style comments, "
          ∷ codes "with #if 0...#endif, "
          ∷ codes "or with more clearly structured multi-line comments."
          ∷ [])))
    ++ report_if (not ((count_text (codes "\"") line - count_text (codes "\\\"") line) % 2 == 0)) (
        report linenum (codes "readability/multiline_string") 5 (
          cat (
            codes "Multi-line string (\"...\") found.  This lint script doesn't "
            ∷ codes "do well with such strings, and may give bogus warnings.  "
            ∷ codes "Use C++11 raw strings or concatenation instead."
            ∷ [])))

-- _THREADING_LIST: the name of each function, and the pattern of its arguments
abbrev threading_list : List (Text × Text)
threading_list =
    (codes "asctime", codes "\\([^)]+\\)")
    ∷ (codes "ctime", codes "\\([^)]+\\)")
    ∷ (codes "getgrgid", codes "\\([^)]+\\)")
    ∷ (codes "getgrnam", codes "\\([^)]+\\)")
    ∷ (codes "getlogin", codes "\\(\\)")
    ∷ (codes "getpwnam", codes "\\([^)]+\\)")
    ∷ (codes "getpwuid", codes "\\([^)]+\\)")
    ∷ (codes "gmtime", codes "\\([^)]+\\)")
    ∷ (codes "localtime", codes "\\([^)]+\\)")
    ∷ (codes "rand", codes "\\(\\)")
    ∷ (codes "strtok", codes "\\([^)]+\\)")
    ∷ (codes "ttyname", codes "\\([^)]+\\)")
    ∷ []

-- Search(_UNSAFE_FUNC_PREFIX + name + arguments, line)
unfoldable pub is_unsafe : Text → Text → Text → Bool
unfolding found_in regex_of
is_unsafe name arguments =
    found_in (regex_of (cat (codes "(?:[-+*/=%^&|(<]\\s*|>\\s+)" ∷ name ∷ arguments ∷ [])))

unfoldable pub check_functions : List (Text × Text) → ℕ → Text → List Report
unfolding is_unsafe
check_functions [] linenum line = []
check_functions ((name, arguments) ∷ fs) linenum line =
    report_if (is_unsafe name arguments line) (
      report linenum (codes "runtime/threadsafe_fn") 2 (
        cat (
          codes "Consider using "
          ∷ name
          ∷ codes "_r(...) instead of "
          ∷ name
          ∷ codes "(...) for improved thread safety."
          ∷ [])))
    ++ check_functions fs linenum line

-- CheckPosixThreading
unfoldable pub check_posix_threading : ℕ → Text → List Report
unfolding check_functions
check_posix_threading = check_functions threading_list

-- CheckVlogArguments
unfoldable pub check_vlog_arguments : ℕ → Text → List Report
unfolding found_in regex
check_vlog_arguments linenum line =
    report_if (found_in (regex "\\bVLOG\\((INFO|ERROR|WARNING|DFATAL|FATAL)\\)") line) (
      report linenum (codes "runtime/vlog") 5 (
        cat (
          codes "VLOG() should be used with numeric verbosity level.  "
          ∷ codes "Use LOG() if you want symbolic severity levels."
          ∷ [])))

-- CheckInvalidIncrement
unfoldable pub check_invalid_increment : ℕ → Text → List Report
unfolding matches regex
check_invalid_increment linenum line = report_if (matches (regex "^\\s*\\*\\w+(\\+\\+|--);") line) (
    report linenum (codes "runtime/invalid_increment") 5
      (codes "Changing pointer instead of value (or unused value of operator*)."))
