-- ===== src/Lint/Includes/Order.antt =====
-- Which headers _IncludeState of tools/cpplint.py finds out of order.
use vsm_cpp_sdk.Prelude.{
  ℕ, ◌≡◌, refl, sym, ap, ◌∙◌, Bool, true, false, ◌||◌, List, [], ◌∷◌, leb, ◌==◌, arith,
  if◌then◌else◌, not, Bool-cases, inl, inr, ◌<◌,
}
use vsm_cpp_sdk.Lint.Includes.{
  HeaderType, c_sys, cpp_sys, likely_my, possible_my, other, Section, initial, my_h, c_section,
  cpp_section, other_h, rank, IncludeState, enter, refuse, check_next_include_order, reset_section,
  set_last_header,
}
use vsm_cpp_sdk.Text.{Text}

-- What CheckIncludeLine does with the order of headers and their paths: CheckNextIncludeOrder, then
-- SetLastHeader.
unfoldable pub after : IncludeState → List (HeaderType × Text) → IncludeState
after s [] = s
after s ((h, path) ∷ hs) = after (set_last_header (check_next_include_order h s).0 path) hs

abbrev pub types : List (HeaderType × Text) → List HeaderType
types [] = []
types ((h, path) ∷ hs) = h ∷ types hs

-- The headers before the place: some C++ system header, some other header, some header of the file
-- itself behind a header that is none.
unfoldable pub is_cpp : HeaderType → Bool
is_cpp cpp_sys = true
is_cpp h = false

unfoldable pub is_other : HeaderType → Bool
is_other other = true
is_other h = false

unfoldable pub is_mine : HeaderType → Bool
is_mine likely_my = true
is_mine possible_my = true
is_mine h = false

unfoldable pub any : (HeaderType → Bool) → List HeaderType → Bool
any p [] = false
any p (h ∷ hs) = p h || any p hs

unfoldable pub mine_late : List HeaderType → Bool
mine_late [] = false
mine_late (h ∷ hs) = let rest = mine_late hs in if is_mine h then rest else any is_mine hs

-- A system header is late behind these.
unfoldable pub is_late : HeaderType → List HeaderType → Bool
is_late c_sys hs = any is_cpp hs || (any is_other hs || mine_late hs)
is_late cpp_sys hs = any is_other hs || mine_late hs
is_late h hs = false

-- The section that a header leads to.
next_section : HeaderType → Section → Section
next_section c_sys s = if leb (rank s) 2 then c_section else s
next_section cpp_sys s = if leb (rank s) 3 then cpp_section else s
next_section likely_my s = if leb (rank s) 1 then my_h else other_h
next_section possible_my s = if leb (rank s) 1 then my_h else other_h
next_section other s = other_h

same_rank : (a b : Section) → (rank a == rank b) ≡ true → a ≡ b
unfolding rank
same_rank a b h = ground arith

enter-section : (to : Section) (s : IncludeState) → (enter to s).0.section ≡ to
unfolding enter
enter-section to s = elim (Bool-cases (rank to == rank s.section)) [
  | inl same ↦ rw same (sym (same_rank to s.section same))
  | inr apart ↦ rw apart
]

enter-message : (to : Section) (s : IncludeState) → (enter to s).1 ≡ []
unfolding enter
enter-message to s = elim (Bool-cases (rank to == rank s.section)) [
  | inl same ↦ rw same
  | inr apart ↦ rw apart
]

choose :
    (b : Bool) (to : Section) (t : HeaderType) (s : IncludeState)
    → (if b then enter to s else refuse t s).0.section ≡ (if b then to else s.section)
choose true to t s = enter-section to s
choose false to t s = unfold refuse in refl

choose_entered :
    (b : Bool) (to or_to : Section) (s : IncludeState)
    → (if b then enter to s else enter or_to s).0.section ≡ (if b then to else or_to)
choose_entered true to or_to s = enter-section to s
choose_entered false to or_to s = enter-section or_to s

check-section :
    (h : HeaderType) (s : IncludeState)
    → (check_next_include_order h s).0.section ≡ next_section h s.section
unfolding check_next_include_order next_section rank
check-section c_sys s = choose _ c_section c_sys s
check-section cpp_sys s = choose _ cpp_section cpp_sys s
check-section likely_my s = choose_entered _ my_h other_h s
check-section possible_my s = choose_entered _ my_h other_h s
check-section other s = enter-section other_h s

sections : Section → List HeaderType → Section
sections s [] = s
sections s (h ∷ hs) = sections (next_section h s) hs

after-section :
    (s : IncludeState) (hs : List (HeaderType × Text))
    → (after s hs).section ≡ sections s.section (types hs)
unfolding after sections set_last_header
after-section s [] = refl
after-section s ((h, path) ∷ hs) =
    after-section (set_last_header (check_next_include_order h s).0 path) hs
    ∙ ap (λ t. sections t (types hs)) (check-section h s)

abbrev within : ℕ → Section → List HeaderType → Bool
within n s hs = leb (rank (sections s hs)) n

from_other : (n : ℕ) (hs : List HeaderType) → n < 4 → within n other_h hs ≡ false
unfolding sections rank next_section
from_other n [] h = ground arith
from_other n (c_sys ∷ hs) h = from_other n hs h
from_other n (_ ∷ hs) h = from_other n hs h

from_cpp :
    (hs : List HeaderType)
    → (within 2 cpp_section hs ≡ false)
      × (within 3 cpp_section hs ≡ not (any is_other hs || any is_mine hs))
unfolding sections rank next_section any is_other is_mine
from_cpp [] = (refl, refl)
from_cpp (c_sys ∷ hs) = from_cpp hs
from_cpp (cpp_sys ∷ hs) = from_cpp hs
from_cpp (_ ∷ hs) = (from_other 2 hs (omega arith), ground (arith, from_other 3 hs (omega arith)))

from_c :
    (hs : List HeaderType)
    → (within 2 c_section hs ≡ not (any is_cpp hs || (any is_other hs || any is_mine hs)))
      × (within 3 c_section hs ≡ not (any is_other hs || any is_mine hs))
unfolding sections rank next_section any is_cpp is_other is_mine
from_c [] = (refl, refl)
from_c (c_sys ∷ hs) = from_c hs
from_c (cpp_sys ∷ hs) = from_cpp hs
from_c (_ ∷ hs) =
    (ground (arith, from_other 2 hs (omega arith)), ground (arith, from_other 3 hs (omega arith)))

-- Behind headers of the file itself, or none.
abbrev FromStart : Section → List HeaderType → Type 0
FromStart s hs =
    (within 2 s hs ≡ not (any is_cpp hs || (any is_other hs || mine_late hs)))
    × (within 3 s hs ≡ not (any is_other hs || mine_late hs))

from_my : (hs : List HeaderType) → FromStart my_h hs
unfolding sections rank next_section any is_cpp is_other is_mine mine_late
from_my [] = (refl, refl)
from_my (c_sys ∷ hs) = from_c hs
from_my (cpp_sys ∷ hs) = from_cpp hs
from_my (likely_my ∷ hs) = from_my hs
from_my (possible_my ∷ hs) = from_my hs
from_my (other ∷ hs) =
    (ground (arith, from_other 2 hs (omega arith)), ground (arith, from_other 3 hs (omega arith)))

from_initial : (hs : List HeaderType) → FromStart initial hs
unfolding sections rank next_section any is_cpp is_other is_mine mine_late
from_initial [] = (refl, refl)
from_initial (c_sys ∷ hs) = from_c hs
from_initial (cpp_sys ∷ hs) = from_cpp hs
from_initial (likely_my ∷ hs) = from_my hs
from_initial (possible_my ∷ hs) = from_my hs
from_initial (other ∷ hs) =
    (ground (arith, from_other 2 hs (omega arith)), ground (arith, from_other 3 hs (omega arith)))

section-from :
    (s : IncludeState) (d : Text) (hs : List (HeaderType × Text))
    → (after (reset_section s d) hs).section ≡ sections initial (types hs)
unfolding reset_section
section-from s d hs = after-section (reset_section s d) hs

choose-message :
    (b late : Bool) (to : Section) (t : HeaderType) (s : IncludeState)
    → b ≡ not late
    → (if b then enter to s else refuse t s).1 ≡ (if late then (refuse t s).1 else [])
choose-message b false to t s e = rw e (enter-message to s)
choose-message b true to t s e = rw e

entered-message :
    (b : Bool) (to or_to : Section) (s : IncludeState)
    → (if b then enter to s else enter or_to s).1 ≡ []
entered-message true to or_to s = enter-message to s
entered-message false to or_to s = enter-message or_to s

-- After the headers `hs` since the start of a section CheckNextIncludeOrder reports a C system header
-- exactly if there was a C++ system header, another header, or a header of the file itself behind one
-- that is none; a C++ system header exactly in the last two cases; and no other header.
pub check_next_include_order-late :
    (s : IncludeState) (directive : Text) (h : HeaderType) (hs : List (HeaderType × Text))
    → let r = after (reset_section s directive) hs in
      (check_next_include_order h r).1 ≡ (if is_late h (types hs) then (refuse h r).1 else [])
unfolding check_next_include_order is_late rank
check_next_include_order-late s d c_sys hs =
    choose-message _ _ c_section c_sys _
      (ap (λ x. leb (rank x) 2) (section-from s d hs) ∙ (from_initial (types hs)).0)
check_next_include_order-late s d cpp_sys hs =
    choose-message _ _ cpp_section cpp_sys _
      (ap (λ x. leb (rank x) 3) (section-from s d hs) ∙ (from_initial (types hs)).1)
check_next_include_order-late s d likely_my hs = entered-message _ my_h other_h _
check_next_include_order-late s d possible_my hs = entered-message _ my_h other_h _
check_next_include_order-late s d other hs = enter-message other_h _
