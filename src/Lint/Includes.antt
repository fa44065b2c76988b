-- ===== src/Lint/Includes.antt =====
-- The class _IncludeState of tools/cpplint.py: the headers that a file includes, and their order.
pub mod Order
use mathlib.Core.Option
use vsm_cpp_sdk.Prelude.{
  ℕ, zero, suc, Bool, true, not, ◌&&◌, ◌||◌, Option, none, some, List, [], ◌∷◌, ◌++◌, leb, ◌==◌,
  if◌then◌else◌, drop,
}
use vsm_cpp_sdk.Text.{Text, codes, text_eq, is_word, cat}
use vsm_cpp_sdk.Text.Find.{starts_with, skip_spaces, replace, text_lt, at}

-- The types of headers, _C_SYS_HEADER to _OTHER_HEADER.
pub data HeaderType : Type 0 where
  c_sys cpp_sys likely_my possible_my other : HeaderType

-- The sections, _INITIAL_SECTION to _OTHER_H_SECTION, and their numbers.
pub data Section : Type 0 where
  initial my_h c_section cpp_section other_h : Section

unfoldable pub rank : Section → ℕ
rank initial = 0
rank my_h = 1
rank c_section = 2
rank cpp_section = 3
rank other_h = 4

-- _TYPE_NAMES and _SECTION_NAMES
unfoldable pub header_name : HeaderType → Text
header_name c_sys = codes "C system header"
header_name cpp_sys = codes "C++ system header"
header_name likely_my = codes "header this file implements"
header_name possible_my = codes "header this file may implement"
header_name other = codes "other header"

unfoldable pub section_name : Section → Text
section_name initial = codes "... nothing. (This can't be an error.)"
section_name my_h = codes "a header this file implements"
section_name c_section = codes "C system header"
section_name cpp_section = codes "C++ system header"
section_name other_h = codes "other header"

-- The list of lists of headers with their lines; it is not empty after __init__.
pub record IncludeState : Type 0 where
  pub include_list : List (List (Text × ℕ))
  pub section : Section
  pub last_header : Text

-- self.include_list[-1] = xs, where there is a last list
unfoldable pub set_last : List (Text × ℕ) → List (List (Text × ℕ)) → List (List (Text × ℕ))
set_last xs [] = []
set_last xs (ys ∷ []) = xs ∷ []
set_last xs (ys ∷ zs ∷ rest) = ys ∷ set_last xs (zs ∷ rest)

-- self.include_list[-1].append((header, linenum))
unfoldable pub add_last : Text × ℕ → List (List (Text × ℕ)) → List (List (Text × ℕ))
add_last p [] = []
add_last p (ys ∷ []) = (ys ++ (p ∷ [])) ∷ []
add_last p (ys ∷ zs ∷ rest) = ys ∷ add_last p (zs ∷ rest)

unfoldable pub reset_list : Text → List (List (Text × ℕ)) → List (List (Text × ℕ))
unfolding set_last
reset_list directive l =
    if text_eq directive (codes "if")
      || text_eq directive (codes "ifdef")
      || text_eq directive (codes "ifndef")
    then l ++ ([] ∷ [])
    else if text_eq directive (codes "else") || text_eq directive (codes "elif")
    then set_last [] l
    else l

-- ResetSection
unfoldable pub reset_section : IncludeState → Text → IncludeState
unfolding reset_list
reset_section s directive = record {
  include_list = reset_list directive s.include_list;
  section = initial;
  last_header = [];
}

-- __init__
unfoldable pub include_state : IncludeState
unfolding reset_section
include_state =
    reset_section (record { include_list = [] ∷ []; section = initial; last_header = [] }) []

-- FindHeader; `none` is -1
unfoldable pub find_in : Text → List (Text × ℕ) → Option ℕ
find_in header [] = none
find_in header ((h, n) ∷ ps) = if text_eq h header then some n else find_in header ps

unfoldable pub find_lists : Text → List (List (Text × ℕ)) → Option ℕ
unfolding find_in
find_lists header [] = none
find_lists header (ps ∷ rest) = elim (find_in header ps) [
  | some n ↦ some n
  | none ↦ find_lists header rest
]

unfoldable pub find_header : IncludeState → Text → Option ℕ
find_header s header = find_lists header s.include_list

unfoldable pub set_last_header : IncludeState → Text → IncludeState
set_last_header s header_path = record s { last_header = header_path }

-- CanonicalizeAlphabeticalOrder; `lower` is the method lower of a Unicode text.
unfoldable pub canonicalize : (Text → Text) → Text → Text
unfolding replace
canonicalize lower path =
    lower (replace (codes "-") (codes "_") (replace (codes "-inl.h") (codes ".h") path))

abbrev word_ends : Text → Bool
word_ends [] = true
word_ends (c ∷ s) = not (is_word c)

-- Match(r'^\s*#\s*include\b', line)
unfoldable pub is_include : Text → Bool
unfolding skip_spaces starts_with is_word
is_include line =
    let s = skip_spaces line in
    let t = skip_spaces (drop 1 s) in
    starts_with (codes "#") s && starts_with (codes "include") t && word_ends (drop 7 t)

abbrev pub last_line : List Text → Option Text
last_line [] = none
last_line (l ∷ []) = some l
last_line (l ∷ m ∷ ls) = last_line (m ∷ ls)

-- elided[linenum - 1], which is the last line for the line 0; `none` is an IndexError
unfoldable pub line_before : List Text → ℕ → Option Text
line_before elided zero = last_line elided
line_before elided (suc n) = at elided n

-- IsInAlphabeticalOrder
unfoldable pub is_in_alphabetical_order : IncludeState → List Text → ℕ → Text → Option Bool
unfolding is_include line_before text_lt
is_in_alphabetical_order s elided linenum header_path =
    if text_lt header_path s.last_header
    then Option.map (λ l. not (is_include l)) (line_before elided linenum)
    else some true

-- The section that a header is in, and no message; a change of the section forgets the last header.
unfoldable pub enter : Section → IncludeState → IncludeState × Text
enter to s =
    if rank to == rank s.section then (s, []) else (record s { section = to; last_header = [] }, [])

unfoldable pub refuse : HeaderType → IncludeState → IncludeState × Text
unfolding header_name section_name
refuse t s = (
  record s { last_header = [] },
  cat (codes "Found " ∷ header_name t ∷ codes " after " ∷ section_name s.section ∷ []),
)

-- CheckNextIncludeOrder: the new state and the message, which is empty in the right order.
unfoldable pub check_next_include_order : HeaderType → IncludeState → IncludeState × Text
check_next_include_order c_sys s =
    if leb (rank s.section) (rank c_section) then enter c_section s else refuse c_sys s
check_next_include_order cpp_sys s =
    if leb (rank s.section) (rank cpp_section) then enter cpp_section s else refuse cpp_sys s
check_next_include_order likely_my s =
    if leb (rank s.section) (rank my_h) then enter my_h s else enter other_h s
check_next_include_order possible_my s =
    if leb (rank s.section) (rank my_h) then enter my_h s else enter other_h s
check_next_include_order other s = enter other_h s
