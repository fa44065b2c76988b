-- ===== src/Lint/State/Counts.antt =====
-- The counts of errors that _CppLintState of tools/cpplint.py keeps.
use vsm_cpp_sdk.Prelude.{
  ℕ, suc, ◌+◌, ◌≡◌, refl, sym, ap, ap₂, ◌∙◌, ◌==◌, ◌++◌, append-nil, append_assoc, Option, none,
  some, List, [], ◌∷◌, if◌then◌else◌, length, arith, Bool-cases, Option-cases, inl, inr,
}
use vsm_cpp_sdk.Text.{Text, codes, text_eq, text_eq_iff}
use vsm_cpp_sdk.Text.Find.{split_from, split_on}
use vsm_cpp_sdk.Dict.{Dict, get, put, get-put}
use vsm_cpp_sdk.Lint.State.{
  CppLintState, first, count_key, bump, increment_error_count, reset_error_counts,
}

-- IncrementErrorCount for each category of a list.
unfoldable pub increment_all : CppLintState → List Text → CppLintState
increment_all s [] = s
increment_all s (c ∷ cs) = increment_all (increment_error_count s c) cs

-- Whether the key of a category is `k`.
unfoldable hit : Text → Option Text → ℕ
hit k none = 0
hit k (some j) = if text_eq j k then 1 else 0

-- How many of the categories are counted under the key `k`.
unfoldable counted : Text → Text → List Text → ℕ
counted counting k [] = 0
counted counting k (c ∷ cs) = hit k (count_key counting c) + counted counting k cs

abbrev pub or_zero : Option ℕ → ℕ
or_zero none = 0
or_zero (some n) = n

-- Writing what stands at the key `j`, plus one.
get-put-suc :
    (k j : Text) (v : ℕ) (d : Dict ℕ)
    → v ≡ suc (or_zero (get j d))
    → or_zero (get k (put j v d)) ≡ hit k (some j) + or_zero (get k d)
unfolding hit
get-put-suc k j v d h = rw (get-put j k v d) (elim (Bool-cases (text_eq j k)) [
  | inl same ↦ rw same (omega (arith, h, ap (λ i. or_zero (get i d)) ((text_eq_iff j k).0 same)))
  | inr other ↦ rw other (omega arith)
])

get-bump :
    (k : Text) (o : Option Text) (d : Dict ℕ)
    → or_zero (get k (bump o d)) ≡ hit k o + or_zero (get k d)
get-bump k none d = unfold bump hit in omega arith
get-bump k (some j) d = elim (Option-cases (get j d)) [
  | inl e ↦ bumped 1 (unfold bump in rw (e, bump)) (rw e)
  | inr (n, e) ↦ bumped (n + 1) (unfold bump in rw (e, bump)) (rw e (omega arith))
]
  where
    bumped :
        (v : ℕ)
        → bump (some j) d ≡ put j v d
        → v ≡ suc (or_zero (get j d))
        → or_zero (get k (bump (some j) d)) ≡ hit k (some j) + or_zero (get k d)
    bumped v e h = rw e (get-put-suc k j v d h)

increment_all-count :
    (s : CppLintState) (cs : List Text)
    → (increment_all s cs).error_count ≡ s.error_count + length cs
unfolding increment_all increment_error_count
increment_all-count s [] = omega arith
increment_all-count s (c ∷ cs) = omega (arith, increment_all-count (increment_error_count s c) cs)

increment_all-counted :
    (s : CppLintState) (k : Text) (cs : List Text)
    → or_zero (get k (increment_all s cs).errors_by_category)
      ≡ or_zero (get k s.errors_by_category) + counted s.counting k cs
unfolding increment_all increment_error_count counted
increment_all-counted s k [] = omega arith
increment_all-counted s k (c ∷ cs) = omega (
  arith,
  increment_all-counted (increment_error_count s c) k cs,
  get-bump k (count_key s.counting c) s.errors_by_category,
)

-- The part of a category before its first slash.
unfoldable pub top_of : Text → Text
top_of [] = []
top_of (c ∷ s) = if c == b'/' then [] else c ∷ top_of s

-- How many of the categories have the part `k`, as `part` has it.
unfoldable pub count_of : (Text → Text) → Text → List Text → ℕ
count_of part k [] = 0
count_of part k (c ∷ cs) = (if text_eq (part c) k then 1 else 0) + count_of part k cs

split_from-top : (cur s : Text) → first (split_from b'/' cur s) ≡ cur ++ top_of s
unfolding split_from top_of
split_from-top cur [] = sym (append-nil cur)
split_from-top cur (c ∷ s) = elim (Bool-cases (c == b'/')) [
  | inl slash ↦ rw (slash, split_from, top_of) (sym (append-nil cur))
  | inr plain ↦
      rw (plain, split_from, top_of)
        (split_from-top (cur ++ (c ∷ [])) s ∙ append_assoc cur (c ∷ []) (top_of s))
]

counted-top : (k : Text) (cs : List Text) → counted (codes "toplevel") k cs ≡ count_of top_of k cs
unfolding counted count_of count_key hit split_on text_eq
counted-top k [] = refl
counted-top k (c ∷ cs) =
    ap₂ (λ (t : Text) (n : ℕ). (if text_eq t k then 1 else 0) + n) (split_from-top [] c)
      (counted-top k cs)

counted-whole :
    (k : Text) (cs : List Text) → counted (codes "detailed") k cs ≡ count_of (λ c. c) k cs
unfolding counted count_of count_key hit text_eq
counted-whole k [] = refl
counted-whole k (c ∷ cs) = ap (λ n. (if text_eq c k then 1 else 0) + n) (counted-whole k cs)

counted-none : (k : Text) (cs : List Text) → counted (codes "total") k cs ≡ 0
unfolding counted count_key hit text_eq
counted-none k [] = refl
counted-none k (c ∷ cs) = omega (arith, counted-none k cs)

-- From the counts at zero, the total is the number of the errors. At the style "toplevel" the count of
-- each key is the number of the errors whose category is the key up to its first slash, and at
-- "detailed" the number of the errors whose category is the key; at "total" no key is counted.
pub increment_all-reset :
    (s : CppLintState) (cs : List Text)
    → let r = increment_all (reset_error_counts s) cs in
      (r.error_count ≡ length cs)
      × (s.counting ≡ codes "toplevel"
          → (k : Text) → or_zero (get k r.errors_by_category) ≡ count_of top_of k cs)
      × (s.counting ≡ codes "detailed"
          → (k : Text) → or_zero (get k r.errors_by_category) ≡ count_of (λ c. c) k cs)
      × (s.counting ≡ codes "total" → (k : Text) → or_zero (get k r.errors_by_category) ≡ 0)
unfolding reset_error_counts get
increment_all-reset s cs = (
  increment_all-count (reset_error_counts s) cs ∙ (omega arith),
  λ h k. under k ∙ ap (λ t. counted t k cs) h ∙ counted-top k cs,
  λ h k. under k ∙ ap (λ t. counted t k cs) h ∙ counted-whole k cs,
  λ h k. under k ∙ ap (λ t. counted t k cs) h ∙ counted-none k cs,
)
  where
    under :
        (k : Text)
        → or_zero (get k (increment_all (reset_error_counts s) cs).errors_by_category)
          ≡ counted s.counting k cs
    under k = increment_all-counted (reset_error_counts s) k cs ∙ (omega arith)
