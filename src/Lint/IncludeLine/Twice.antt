-- ===== src/Lint/IncludeLine/Twice.antt =====
-- CheckIncludeLine of tools/cpplint.py on a header that is included twice.
use vsm_cpp_sdk.Prelude.{
  ℕ, ◌<◌, ◌≡◌, refl, ap, ◌∙◌, Bool, true, false, not, ◌&&◌, Option, none, some, List, [], ◌∷◌, ◌++◌,
  length, Bool-cases, Option-cases, inl, inr, All, if◌then◌else◌,
}
use vsm_cpp_sdk.Text.{Text, codes, text_eq}
use vsm_cpp_sdk.Text.Find.{at, ◌>>=◌, ends_with}
use vsm_cpp_sdk.Text.Path.{dirname}
use vsm_cpp_sdk.Lint.Nolint.{Report}
use vsm_cpp_sdk.Lint.Lines.{CleansedLines}
use vsm_cpp_sdk.Lint.Includes.{
  IncludeState, add_last, find_in, find_lists, find_header, set_last_header, canonicalize,
}
use vsm_cpp_sdk.Lint.IncludeLine.{
  include_report, classify_include, is_third_party, check_directory, included, order_reports,
  check_order, check_included, duplicate_report, check_include_line,
}
use vsm_cpp_sdk.Lint.IncludeLine.Once.{
  check-list, at_below, in_order-some, check_included-new, check_included-old, check_order-some,
  found_after, check_include_line-some, entered_by,
}

-- A header that is found stays found, with its line.
find_in-keeps :
    (h : Text) (k : ℕ) (ps qs : List (Text × ℕ))
    → find_in h ps ≡ some k
    → find_in h (ps ++ qs) ≡ some k
unfolding find_in
find_in-keeps h k [] qs e = cc
find_in-keeps h k ((g, m) ∷ ps) qs e = elim (Bool-cases (text_eq g h)) [
  | inl same ↦ rw same (rw same at e)
  | inr apart ↦ rw apart (find_in-keeps h k ps qs (rw apart at e))
]

find_lists-keeps :
    (h : Text) (k : ℕ) (p : Text × ℕ) (pss : List (List (Text × ℕ)))
    → find_lists h pss ≡ some k
    → find_lists h (add_last p pss) ≡ some k
unfolding find_lists add_last
find_lists-keeps h k p [] e = cc
find_lists-keeps h k p (ps ∷ []) e = elim (Option-cases (find_in h ps)) [
  | inl new ↦ cc (rw (new, find_lists) at e)
  | inr (j, old) ↦ rw (find_in-keeps h j ps (p ∷ []) old, find_lists) (rw (old, find_lists) at e)
]
find_lists-keeps h k p (ps ∷ qs ∷ pss) e = elim (Option-cases (find_in h ps)) [
  | inl new ↦ rw (new, find_lists) (find_lists-keeps h k p (qs ∷ pss) (rw (new, find_lists) at e))
  | inr (j, old) ↦ rw (old, find_lists) (rw (old, find_lists) at e)
]

Keeps : IncludeState → IncludeState → Type 0
Keeps s t = (h : Text) (k : ℕ) → find_header s h ≡ some k → find_header t h ≡ some k

entered-Keeps :
    (lower : Text → Text) (repository : Text) (n : ℕ) (h : Text) (b : Bool) (s : IncludeState)
    → Keeps s (set_last_header (entered_by repository n h b s).0 (canonicalize lower h))
unfolding Keeps find_header set_last_header
entered-Keeps lower repository n h b s g k e =
    ap (find_lists g) (
      check-list (classify_include repository h b)
        (record s { include_list = add_last (h, n) s.include_list }))
    ∙ find_lists-keeps g k (h, n) s.include_list e

module _ (lower : Text → Text) (filename repository : Text) (clean_lines : CleansedLines) where
  -- What a call on a state returns: a state that keeps what was found.
  Runs : IncludeState → Option (IncludeState × List Report) → Type 0
  unfolding Keeps
  Runs s o =
      (after : IncludeState) × (reports : List Report) × (o ≡ some (after, reports)) × Keeps s after

  if-Runs :
      (s : IncludeState) (b : Bool) (reports : List Report)
      (o : Option (IncludeState × List Report))
      → Runs s o
      → Runs s (if b then some (s, reports) else o)
  unfolding Runs Keeps
  if-Runs s true reports o r = (s, reports, refl, λ h k e. e)
  if-Runs s false reports o r = r

  check_order-Runs :
      (n : ℕ) (h : Text) (b : Bool) (s : IncludeState)
      → n < length clean_lines.elided
      → Runs s (check_order lower repository clean_lines n h b s)
  unfolding Runs Keeps
  check_order-Runs n h b s el =
      let (in_order, ordered) =
        in_order-some (entered_by repository n h b s).0 clean_lines.elided n (canonicalize lower h)
          el in
      (
        set_last_header (entered_by repository n h b s).0 (canonicalize lower h),
        order_reports repository n h (entered_by repository n h b s).1 in_order,
        check_order-some lower repository clean_lines n h b s in_order ordered,
        entered-Keeps lower repository n h b s,
      )

  check_included-Runs :
      (n : ℕ) (h : Text) (b : Bool) (s : IncludeState)
      → n < length clean_lines.elided
      → Runs s (check_included lower filename repository clean_lines n h b s)
  unfolding check_included Runs Keeps
  check_included-Runs n h b s el = elim (Option-cases (find_header s h)) [
    | inl new ↦
        rw (new, check_included)
          (if-Runs s (ends_with (codes ".cc") h && not (text_eq (dirname repository) (dirname h)))
            (include_report n (codes "build/include")
                (codes "Do not include .cc files from other packages")
              ∷ [])
            _ (if-Runs s (is_third_party h) [] _ (check_order-Runs n h b s el)))
    | inr (k, old) ↦ rw (old, check_included) (s, _, refl, λ g j e. e)
  ]

  included-Runs :
      (n : ℕ) (s : IncludeState) (o : Option (Text × Bool))
      → n < length clean_lines.elided
      → Runs s (elim o [
        | none ↦ some (s, [])
        | some (include, is_system) ↦
            check_included lower filename repository clean_lines n include is_system s
      ])
  unfolding Runs Keeps
  included-Runs n s none el = (s, [], refl, λ h k e. e)
  included-Runs n s (some (h, b)) el = check_included-Runs n h b s el

  abbrev pub InFile : ℕ → Type 0
  InFile n = (n < length clean_lines.lines) × (n < length clean_lines.elided)

  check_include_line-Runs :
      (n : ℕ) (s : IncludeState)
      → InFile n
      → Runs s (check_include_line lower filename repository clean_lines n s)
  unfolding check_include_line Runs Keeps
  check_include_line-Runs n s (nl, el) =
      let (line, e) = at_below clean_lines.lines n nl in
      let (after, reports, q, keeps) = included-Runs n s (included line) el in
      (after, check_directory line n ++ reports, rw (e, q) refl, keeps)

  -- CheckIncludeLine on lines one after the other.
  unfoldable pub include_lines : List ℕ → IncludeState → Option (IncludeState × List Report)
  unfolding check_include_line
  include_lines [] s = some (s, [])
  include_lines (n ∷ ns) s = do
    (after, reports) ← check_include_line lower filename repository clean_lines n s
    (end, others) ← include_lines ns after
    some (end, reports ++ others)

  include_lines-Runs :
      (ns : List ℕ) (s : IncludeState) → All InFile ns → Runs s (include_lines ns s)
  unfolding include_lines Runs Keeps
  include_lines-Runs [] s a = (s, [], refl, λ h k e. e)
  include_lines-Runs (n ∷ ns) s (i, a) =
      let (after, reports, e, keeps) = check_include_line-Runs n s i in
      let (end, others, q, keeps') = include_lines-Runs ns after a in
      (end, reports ++ others, rw (e, q) refl, λ h k f. keeps' h k (keeps h k f))

  first_found :
      (n : ℕ) (s : IncludeState) (ps : List (Text × ℕ)) (pss : List (List (Text × ℕ)))
      (line h : Text) (b : Bool)
      → s.include_list ≡ ps ∷ pss
      → InFile n
      → at clean_lines.lines n ≡ some line
      → included line ≡ some (h, b)
      → find_header s h ≡ none
      → ends_with (codes ".cc") h ≡ false
      → is_third_party h ≡ false
      → (after : IncludeState) × (reports : List Report) × (check_include_line lower filename
            repository clean_lines n s
          ≡ some (after, reports))
        × (find_header after h ≡ some n)
  first_found n s ps pss line h b l (nl, el) e i new cc third =
      let (in_order, ordered) =
        in_order-some (entered_by repository n h b s).0 clean_lines.elided n (canonicalize lower h)
          el in
      let order = check_order-some lower repository clean_lines n h b s in_order ordered in
      let first =
        check_included-new lower filename repository clean_lines n h b s new cc third ∙ order in
      (
        set_last_header (entered_by repository n h b s).0 (canonicalize lower h),
        _,
        check_include_line-some lower filename repository clean_lines n s line h b _ e i first,
        found_after lower repository n h b s ps pss l new,
      )

  -- CheckIncludeLine on a line with a header that is new, no .cc file and of no third party, and then
  -- on any lines of the file, returns. A line that includes the header again is then reported with the
  -- line of the first one, and changes nothing.
  pub check_include_line-twice :
      (n m : ℕ) (ns : List ℕ) (s : IncludeState) (ps : List (Text × ℕ))
      (pss : List (List (Text × ℕ))) (line line' h : Text) (b b' : Bool)
      → s.include_list ≡ ps ∷ pss
      → InFile n
      → All InFile ns
      → at clean_lines.lines n ≡ some line
      → included line ≡ some (h, b)
      → at clean_lines.lines m ≡ some line'
      → included line' ≡ some (h, b')
      → find_header s h ≡ none
      → ends_with (codes ".cc") h ≡ false
      → is_third_party h ≡ false
      → (after : IncludeState) × (reports : List Report) × (include_lines (n ∷ ns) s
          ≡ some (after, reports))
        × (check_include_line lower filename repository clean_lines m after
            ≡ some (after, check_directory line' m ++ (duplicate_report filename h m n ∷ [])))
  unfolding include_lines Runs Keeps
  check_include_line-twice n m ns s ps pss line line' h b b' l el a e i e' i' new cc third =
      let (once, reports, q, found) = first_found n s ps pss line h b l el e i new cc third in
      let (after, others, q', keeps) = include_lines-Runs ns once a in
      (
        after,
        reports ++ others,
        rw (q, q') refl,
        check_include_line-some lower filename repository clean_lines m after line' h b' _ e' i' (
            check_included-old lower filename repository clean_lines m n h b' after
              (keeps h n found)),
      )
