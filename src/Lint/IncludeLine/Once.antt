-- ===== src/Lint/IncludeLine/Once.antt =====
-- CheckIncludeLine of tools/cpplint.py on a header that it records.
use vsm_cpp_sdk.Prelude.{
  ℕ, zero, suc, ◌<◌, ◌≡◌, refl, sym, ap, ◌∙◌, Bool, true, false, not, Option, none, some, List, [],
  ◌∷◌, ◌++◌, length, Bool-cases, inl, inr, arith, if◌then◌else◌,
}
use vsm_cpp_sdk.Text.{Text, codes, text_eq, text_eq_refl}
use vsm_cpp_sdk.Text.Find.{at, ends_with, text_lt}
use vsm_cpp_sdk.Lint.Nolint.{Report}
use vsm_cpp_sdk.Lint.Lines.{CleansedLines}
use vsm_cpp_sdk.Lint.Includes.{
  HeaderType, c_sys, cpp_sys, likely_my, possible_my, other, IncludeState, Section, add_last,
  find_in, find_lists, find_header, check_next_include_order, enter, refuse, is_include, last_line,
  line_before, is_in_alphabetical_order, set_last_header, canonicalize,
}
use vsm_cpp_sdk.Lint.IncludeLine.{
  classify_include, is_third_party, check_directory, included, order_reports, check_order,
  check_included, duplicate_report, check_include_line,
}

-- The order of the headers does not touch the list of them.
enter-list : (to : Section) (s : IncludeState) → (enter to s).0.include_list ≡ s.include_list
unfolding enter
enter-list to s = ground arith

by_if :
    (b : Bool) (x y : IncludeState × Text) (l : List (List (Text × ℕ)))
    → x.0.include_list ≡ l
    → y.0.include_list ≡ l
    → (if b then x else y).0.include_list ≡ l
by_if true x y l h k = h
by_if false x y l h k = k

refuse-list : (t : HeaderType) (s : IncludeState) → (refuse t s).0.include_list ≡ s.include_list
unfolding refuse
refuse-list t s = refl

pub check-list :
    (t : HeaderType) (s : IncludeState)
    → (check_next_include_order t s).0.include_list ≡ s.include_list
unfolding check_next_include_order
check-list c_sys s = by_if _ _ _ _ (enter-list _ s) (refuse-list _ s)
check-list cpp_sys s = by_if _ _ _ _ (enter-list _ s) (refuse-list _ s)
check-list likely_my s = by_if _ _ _ _ (enter-list _ s) (enter-list _ s)
check-list possible_my s = by_if _ _ _ _ (enter-list _ s) (enter-list _ s)
check-list other s = enter-list _ s

on_test :
    (b : Bool) (m n : ℕ) (x y : Option ℕ)
    → (if b then some m else x) ≡ none
    → (x ≡ none → y ≡ some n)
    → (if b then some m else y) ≡ some n
on_test true m n x y e h = ground (arith, e)
on_test false m n x y e h = h e

both_none :
    (o rest : Option ℕ)
    → (let r : Option ℕ = elim o [ some k ↦ some k | none ↦ rest ] in r ≡ none)
    → (o ≡ none) × (rest ≡ none)
both_none none rest e = (refl, e)
both_none (some k) rest e = ground (arith, e)

-- A header that is new is found where it is added.
find_in-append :
    (h : Text) (n : ℕ) (ps : List (Text × ℕ))
    → find_in h ps ≡ none
    → find_in h (ps ++ ((h, n) ∷ [])) ≡ some n
unfolding find_in
find_in-append h n [] e = rw (text_eq_refl h) refl
find_in-append h n ((g, m) ∷ ps) e =
    on_test (text_eq g h) m n (find_in h ps) (find_in h (ps ++ ((h, n) ∷ []))) e
      (find_in-append h n ps)

find_lists-add_last :
    (h : Text) (n : ℕ) (ps : List (Text × ℕ)) (pss : List (List (Text × ℕ)))
    → find_lists h (ps ∷ pss) ≡ none
    → find_lists h (add_last (h, n) (ps ∷ pss)) ≡ some n
unfolding find_lists add_last
find_lists-add_last h n ps [] e =
    let (new, _) = both_none (find_in h ps) none e in
    rw (find_in-append h n ps new, find_lists) refl
find_lists-add_last h n ps (qs ∷ pss) e =
    let (new, rest) = both_none (find_in h ps) (find_lists h (qs ∷ pss)) e in
    rw (new, find_lists-add_last h n qs pss rest, find_lists) refl

pub at_below : (xs : List Text) (i : ℕ) → i < length xs → (x : Text) × (at xs i ≡ some x)
unfolding at
at_below [] i h = ground arith
at_below (x ∷ xs) zero h = (x, refl)
at_below (x ∷ xs) (suc i) h = at_below xs i (omega arith)

line_before-some :
    (ls : List Text) (n : ℕ) → n < length ls → (l : Text) × (line_before ls n ≡ some l)
unfolding line_before
line_before-some ls zero h = last_some ls h
  where
    last_some : (ls : List Text) → 0 < length ls → (l : Text) × (last_line ls ≡ some l)
    last_some [] h = ground arith
    last_some (l ∷ []) h = (l, refl)
    last_some (l ∷ m ∷ ls) h = last_some (m ∷ ls) (omega arith)
line_before-some ls (suc n) h = at_below ls n (omega arith)

pub in_order-some :
    (s : IncludeState) (elided : List Text) (n : ℕ) (path : Text)
    → n < length elided
    → (b : Bool) × (is_in_alphabetical_order s elided n path ≡ some b)
unfolding is_in_alphabetical_order
in_order-some s elided n path h = elim (Bool-cases (text_lt path s.last_header)) [
  | inl e ↦
      let (l, k) = line_before-some elided n h in
      (not (is_include l), rw (e, k, is_in_alphabetical_order) refl)
  | inr e ↦ (true, rw (e, is_in_alphabetical_order) refl)
]

pub check_included-new :
    (lower : Text → Text) (filename repository : Text) (clean_lines : CleansedLines) (n : ℕ)
    (h : Text) (b : Bool) (s : IncludeState)
    → find_header s h ≡ none
    → ends_with (codes ".cc") h ≡ false
    → is_third_party h ≡ false
    → check_included lower filename repository clean_lines n h b s
      ≡ check_order lower repository clean_lines n h b s
unfolding check_included
check_included-new lower filename repository clean_lines n h b s new cc third =
    rw (new, cc, third, check_included) refl

pub check_included-old :
    (lower : Text → Text) (filename repository : Text) (clean_lines : CleansedLines) (m n : ℕ)
    (h : Text) (b : Bool) (s : IncludeState)
    → find_header s h ≡ some n
    → check_included lower filename repository clean_lines m h b s
      ≡ some (s, duplicate_report filename h m n ∷ [])
unfolding check_included
check_included-old lower filename repository clean_lines m n h b s found =
    rw (found, check_included) refl

abbrev pub entered_by : Text → ℕ → Text → Bool → IncludeState → IncludeState × Text
entered_by repository n h b s =
    check_next_include_order (classify_include repository h b)
      (record s { include_list = add_last (h, n) s.include_list })

pub check_order-some :
    (lower : Text → Text) (repository : Text) (clean_lines : CleansedLines) (n : ℕ) (h : Text)
    (b : Bool) (s : IncludeState) (in_order : Bool)
    → is_in_alphabetical_order
        (entered_by repository n h b s).0
        clean_lines.elided
        n
        (canonicalize lower h)
      ≡ some in_order
    → check_order lower repository clean_lines n h b s
      ≡ some (
        set_last_header (entered_by repository n h b s).0 (canonicalize lower h),
        order_reports repository n h (entered_by repository n h b s).1 in_order,
      )
unfolding check_order
check_order-some lower repository clean_lines n h b s in_order e = rw (e, check_order) refl

pub found_after :
    (lower : Text → Text) (repository : Text) (n : ℕ) (h : Text) (b : Bool) (s : IncludeState)
    (ps : List (Text × ℕ)) (pss : List (List (Text × ℕ)))
    → s.include_list ≡ ps ∷ pss
    → find_header s h ≡ none
    → find_header (set_last_header (entered_by repository n h b s).0 (canonicalize lower h)) h
      ≡ some n
unfolding find_header set_last_header
found_after lower repository n h b s ps pss l new =
    ap (find_lists h) (
      check-list (classify_include repository h b)
        (record s { include_list = add_last (h, n) s.include_list })
      ∙ ap (add_last (h, n)) l)
    ∙ find_lists-add_last h n ps pss (ap (find_lists h) (sym l) ∙ new)

pub check_include_line-some :
    (lower : Text → Text) (filename repository : Text) (clean_lines : CleansedLines) (n : ℕ)
    (s : IncludeState) (line h : Text) (b : Bool) (r : IncludeState × List Report)
    → at clean_lines.lines n ≡ some line
    → included line ≡ some (h, b)
    → check_included lower filename repository clean_lines n h b s ≡ some r
    → check_include_line lower filename repository clean_lines n s
      ≡ some (r.0, check_directory line n ++ r.1)
unfolding check_include_line
check_include_line-some lower filename repository clean_lines n s line h b r e i k =
    rw (e, i, k, check_include_line) refl
