-- ===== src/Lint/Features.antt =====
-- FlagCxx11Features and FlagCxx14Features of tools/cpplint.py, on an elided line.
use vsm_cpp_sdk.Prelude.{
  ℕ, Bool, false, not, ◌&&◌, ◌||◌, Option, none, some, List, [], ◌∷◌, ◌++◌, if◌then◌else◌,
}
use vsm_cpp_sdk.Text.{Text, codes, text_eq, cat}
use vsm_cpp_sdk.Text.Find.{starts_with}
use vsm_cpp_sdk.Text.Regex.{re_match, matches, found_in, group_text}
use vsm_cpp_sdk.Text.Regex.Syntax.{regex, regex_of}
use vsm_cpp_sdk.Lint.Nolint.{Report}
use vsm_cpp_sdk.Lint.Reports.{report, report_if}

-- The header that the line includes, if any.
unfoldable pub include_of : Text → Option Text
unfolding re_match regex group_text
include_of line = elim (re_match (regex "\\s*#\\s*include\\s+[<\"]([^<\"]+)[\">]") line) [
  | none ↦ none
  | some m ↦ some (group_text m 1)
]

unfoldable pub is_one_of : List Text → Text → Bool
unfolding text_eq
is_one_of [] name = false
is_one_of (n ∷ ns) name = text_eq name n || is_one_of ns name

abbrev cxx11_headers : List Text
cxx11_headers =
    codes "cfenv" ∷ codes "fenv.h" ∷ codes "future" ∷ codes "ratio" ∷ codes "system_error" ∷ []

-- The reports on a header.
unfoldable pub cxx11_header : ℕ → Option Text → List Report
unfolding starts_with is_one_of
cxx11_header linenum none = []
cxx11_header linenum (some name) =
    report_if (starts_with (codes "tr1/") name) (
      report linenum (codes "build/c++tr1") 5
        (cat (codes "C++ TR1 headers such as <" ∷ name ∷ codes "> are unapproved." ∷ [])))
    ++ report_if (is_one_of cxx11_headers name) (
        report linenum (codes "build/c++11") 5
          (cat (codes "<" ∷ name ∷ codes "> is an unapproved C++11 header." ∷ [])))

-- The loop over the names of the library.
unfoldable pub cxx11_names : ℕ → Text → List Text → List Report
unfolding found_in regex_of
cxx11_names linenum line [] = []
cxx11_names linenum line (top_name ∷ names) =
    report_if (found_in (regex_of (cat (codes "\\bstd::" ∷ top_name ∷ codes "\\b" ∷ []))) line) (
      report linenum (codes "build/c++11") 5 (
        cat (
          codes "std::"
          ∷ top_name
          ∷ codes " is an unapproved C++11 class or function.  Send c-style "
          ∷ codes "an example of where it would make your code more readable, and "
          ∷ codes "they may let you use it."
          ∷ [])))
    ++ cxx11_names linenum line names

unfoldable pub flag_cxx11_features : ℕ → Text → List Report
unfolding include_of cxx11_header cxx11_names matches regex
flag_cxx11_features linenum line =
    cxx11_header linenum (include_of line)
    ++ (if matches (regex "\\s*#") line && not (matches (regex "\\s*#\\s*define\\b") line)
        then []
        else cxx11_names linenum line (codes "alignment_of" ∷ codes "aligned_union" ∷ []))

abbrev cxx14_header : ℕ → Option Text → List Report
cxx14_header linenum none = []
cxx14_header linenum (some name) =
    report_if (is_one_of (codes "scoped_allocator" ∷ codes "shared_mutex" ∷ []) name) (
      report linenum (codes "build/c++14") 5
        (cat (codes "<" ∷ name ∷ codes "> is an unapproved C++14 header." ∷ [])))

unfoldable pub flag_cxx14_features : ℕ → Text → List Report
unfolding include_of is_one_of
flag_cxx14_features linenum line = cxx14_header linenum (include_of line)
