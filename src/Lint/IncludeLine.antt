-- ===== src/Lint/IncludeLine.antt =====
-- _DropCommonSuffixes, _ClassifyInclude and CheckIncludeLine of tools/cpplint.py.
pub mod Once
pub mod Twice
use vsm_cpp_sdk.Prelude.{
  ℕ, ◌+◌, ◌-◌, String, Bool, true, false, not, ◌&&◌, ◌||◌, Option, none, some, List, [], ◌∷◌, ◌++◌,
  ◌==◌, ltb, length, take, if◌then◌else◌,
}
use vsm_cpp_sdk.Text.{Text, codes, text_eq, cat}
use vsm_cpp_sdk.Text.Decimal.{show}
use vsm_cpp_sdk.Text.Find.{at, ◌>>=◌, ends_with, split_on}
use vsm_cpp_sdk.Text.Path.{split_path, dirname, splitext, normpath}
use vsm_cpp_sdk.Text.Regex.{re_match, re_search, matches, group_text}
use vsm_cpp_sdk.Text.Regex.Syntax.{regex}
use vsm_cpp_sdk.Lint.Nolint.{Report}
use vsm_cpp_sdk.Lint.Reports.{report, report_if}
use vsm_cpp_sdk.Lint.FileInfo.{base_name}
use vsm_cpp_sdk.Lint.Lines.{CleansedLines}
use vsm_cpp_sdk.Lint.Includes.{
  HeaderType, c_sys, cpp_sys, likely_my, possible_my, other, IncludeState, add_last, find_header,
  check_next_include_order, canonicalize, is_in_alphabetical_order, set_last_header,
}

-- _CPP_HEADERS
abbrev header_rows : List String
header_rows =
    "algobase.h algo.h alloc.h builtinbuf.h bvector.h complex.h defalloc.h deque.h"
    ∷ "editbuf.h fstream.h function.h hash_map hash_map.h hash_set hash_set.h"
    ∷ "hashtable.h heap.h indstream.h iomanip.h iostream.h istream.h iterator.h list.h"
    ∷ "map.h multimap.h multiset.h ostream.h pair.h parsestream.h pfstream.h procbuf.h"
    ∷ "pthread_alloc pthread_alloc.h rope rope.h ropeimpl.h set.h slist slist.h stack.h"
    ∷ "stdiostream.h stl_alloc.h stl_relops.h streambuf.h stream.h strfile.h"
    ∷ "strstream.h tempbuf.h tree.h type_traits.h vector.h algorithm array atomic"
    ∷ "bitset chrono codecvt complex condition_variable deque exception forward_list"
    ∷ "fstream functional future initializer_list iomanip ios iosfwd iostream istream"
    ∷ "iterator limits list locale map memory mutex new numeric ostream queue random"
    ∷ "ratio regex scoped_allocator set sstream stack stdexcept streambuf string"
    ∷ "strstream system_error thread tuple typeindex typeinfo type_traits unordered_map"
    ∷ "unordered_set utility valarray vector cassert ccomplex cctype cerrno cfenv"
    ∷ "cfloat cinttypes ciso646 climits clocale cmath csetjmp csignal cstdalign cstdarg"
    ∷ "cstdbool cstddef cstdint cstdio cstdlib cstring ctgmath ctime cuchar cwchar" ∷ "cwctype" ∷ []

unfoldable pub is_member : Text → List Text → Bool
unfolding text_eq
is_member t [] = false
is_member t (s ∷ ss) = text_eq t s || is_member t ss

abbrev in_rows : Text → List String → Bool
in_rows t [] = false
in_rows t (r ∷ rs) = is_member t (split_on b' ' (codes r)) || in_rows t rs

unfoldable pub is_cpp_header : Text → Bool
unfolding is_member split_on
is_cpp_header include = in_rows include header_rows

abbrev suffixes : List Text
suffixes =
    codes "test.cc"
    ∷ codes "regtest.cc"
    ∷ codes "unittest.cc"
    ∷ codes "inl.h"
    ∷ codes "impl.h"
    ∷ codes "internal.h"
    ∷ []

abbrev is_dash : Option ℕ → Bool
is_dash none = false
is_dash (some c) = c == b'-' || c == b'_'

-- The loop of _DropCommonSuffixes.
unfoldable pub drop_suffix : Text → List Text → Text
unfolding ends_with at splitext
drop_suffix filename [] = (splitext filename).0
drop_suffix filename (suffix ∷ ss) =
    let before = length filename - (length suffix + 1) in
    if ends_with suffix filename
      && (ltb (length suffix) (length filename) && is_dash (at filename before))
    then take before filename
    else drop_suffix filename ss

-- _DropCommonSuffixes
unfoldable pub drop_common_suffixes : Text → Text
unfolding drop_suffix
drop_common_suffixes filename = drop_suffix filename suffixes

-- What _RE_FIRST_COMPONENT matches; where it matches nothing, the text is empty.
unfoldable pub first_component : Text → Text
first_component [] = []
first_component (c ∷ s) =
    if c == b'-' || (c == b'_' || c == b'.') then [] else c ∷ first_component s

abbrev same_component : Text → Text → Bool
same_component [] t = false
same_component (c ∷ s) t = text_eq (c ∷ s) t

-- _ClassifyInclude, for a file with this RepositoryName.
unfoldable pub classify_include : Text → Text → Bool → HeaderType
unfolding is_cpp_header split_path drop_common_suffixes normpath first_component text_eq
classify_include repository include is_system =
    let (target_dir, target_base) = split_path (drop_common_suffixes repository) in
    let (include_dir, include_base) = split_path (drop_common_suffixes include) in
    if is_system
    then (if is_cpp_header include then cpp_sys else c_sys)
    else if text_eq target_base include_base
        && (text_eq include_dir target_dir
            || text_eq include_dir (normpath (target_dir ++ codes "/../include")))
    then likely_my
    else if same_component (first_component target_base) (first_component include_base)
    then possible_my
    else other

-- _THIRD_PARTY_HEADERS_PATTERN
unfoldable pub is_third_party : Text → Bool
unfolding matches regex
is_third_party = matches (regex "^(?:[^/]*[A-Z][^/]*\\.h|lua\\.h|lauxlib\\.h|lualib\\.h)$")

abbrev pub include_report : ℕ → Text → Text → Report
include_report linenum category message = record {
  linenum = linenum;
  category = category;
  confidence = 4;
  message = message;
}

-- The first check of CheckIncludeLine.
unfoldable pub check_directory : Text → ℕ → List Report
unfolding re_match regex group_text is_third_party
check_directory line linenum = elim (re_match (regex "#include\\s*\"([^/]+\\.h)\"") line) [
  | none ↦ []
  | some m ↦
      if is_third_party (group_text m 1)
      then []
      else include_report linenum (codes "build/include")
          (codes "Include the directory when naming .h files")
        ∷ []
]

abbrev not_empty : Text → Bool
not_empty [] = false
not_empty (c ∷ s) = true

-- The reports on the order, from the message of CheckNextIncludeOrder and whether the header is in
-- alphabetical order.
unfoldable pub order_reports : Text → ℕ → Text → Text → Bool → List Report
unfolding base_name
order_reports repository linenum include message in_order =
    report_if (not_empty message) (
      include_report linenum (codes "build/include_order") (
        cat (
          message
          ∷ codes ". Should be: "
          ∷ base_name repository
          ∷ codes ".h, c system, c++ system, other."
          ∷ [])))
    ++ report_if (not in_order) (
        include_report linenum (codes "build/include_alpha")
          (cat (codes "Include \"" ∷ include ∷ codes "\" not in alphabetical order" ∷ [])))

-- A header that is neither included before nor from elsewhere: it is recorded, and its order checked.
-- `none` is an IndexError.
unfoldable pub check_order :
    (Text → Text)
    → Text
    → CleansedLines
    → ℕ
    → Text
    → Bool
    → IncludeState
    → Option (IncludeState × List Report)
unfolding classify_include check_next_include_order canonicalize is_in_alphabetical_order add_last
    set_last_header order_reports
check_order lower repository clean_lines linenum include is_system s = do
  let recorded = record s { include_list = add_last (include, linenum) s.include_list }
  let (entered, message) =
      check_next_include_order (classify_include repository include is_system) recorded
  let path = canonicalize lower include
  in_order ← is_in_alphabetical_order entered clean_lines.elided linenum path
  some (set_last_header entered path, order_reports repository linenum include message in_order)

unfoldable pub duplicate_report : Text → Text → ℕ → ℕ → Report
duplicate_report filename include linenum line = include_report linenum (codes "build/include") (
    cat (
      codes "\""
      ∷ include
      ∷ codes "\" already included at "
      ∷ filename
      ∷ codes ":"
      ∷ show line
      ∷ []))

-- The header of a line that includes one.
unfoldable pub check_included :
    (Text → Text)
    → Text
    → Text
    → CleansedLines
    → ℕ
    → Text
    → Bool
    → IncludeState
    → Option (IncludeState × List Report)
unfolding find_header ends_with dirname text_eq is_third_party check_order duplicate_report
check_included lower filename repository clean_lines linenum include is_system s =
    elim (find_header s include) [
      | some line ↦ some (s, duplicate_report filename include linenum line ∷ [])
      | none ↦
          if ends_with (codes ".cc") include && not (text_eq (dirname repository) (dirname include))
          then some (
            s,
            include_report linenum (codes "build/include")
                  (codes "Do not include .cc files from other packages")
                ∷ [],
          )
          else if is_third_party include
          then some (s, [])
          else check_order lower repository clean_lines linenum include is_system s
    ]

-- _RE_PATTERN_INCLUDE.search(line): the header, and whether it stands in angle brackets.
unfoldable pub included : Text → Option (Text × Bool)
unfolding re_search regex group_text text_eq
included line = elim (re_search (regex "^\\s*#\\s*include\\s*([<\"])([^>\"]*)[>\"].*$") line) [
  | none ↦ none
  | some m ↦ some (group_text m 2, text_eq (group_text m 1) (codes "<"))
]

-- CheckIncludeLine. `lower` is the method lower of a Unicode text, `repository` the RepositoryName of
-- the file, and `none` an IndexError.
unfoldable pub check_include_line :
    (Text → Text)
    → Text
    → Text
    → CleansedLines
    → ℕ
    → IncludeState
    → Option (IncludeState × List Report)
unfolding check_directory included check_included
check_include_line lower filename repository clean_lines linenum s = do
  line ← at clean_lines.lines linenum
  (after, reports) ← elim (included line) [
    | none ↦ some (s, [])
    | some (include, is_system) ↦
        check_included lower filename repository clean_lines linenum include is_system s
  ]
  some (after, check_directory line linenum ++ reports)
