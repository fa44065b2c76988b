-- ===== src/Dict.antt =====
-- Python's dict with texts as keys: the pairs in the order in which the keys came in.
use vsm_cpp_sdk.Prelude.{
  All, All-append, Bool-cases, inl, inr, false, ◌≡◌, refl, Option, none, some, List, [], ◌∷◌, ◌++◌,
  arith, if◌then◌else◌,
}
use vsm_cpp_sdk.Text.{Text, text_eq, text_eq_iff, text_eq_refl}

abbrev pub Dict {ℓ} : Type ℓ → Type ℓ
Dict V = List (Text × V)

module _ {ℓ} {V : Type ℓ} where
  -- d.get(k)
  unfoldable pub get : Text → Dict V → Option V
  get k [] = none
  get k ((j, v) ∷ d) = if text_eq j k then some v else get k d

  -- d[k] = v
  unfoldable pub put : Text → V → Dict V → Dict V
  put k v [] = (k, v) ∷ []
  put k v ((j, w) ∷ d) = if text_eq j k then (j, v) ∷ d else (j, w) ∷ put k v d

  unfoldable pub keys : Dict V → List Text
  keys [] = []
  keys ((k, v) ∷ d) = k ∷ keys d

  unfoldable pub values : Dict V → List V
  values [] = []
  values ((k, v) ∷ d) = v ∷ values d

  -- A lookup after a write: the new value at the key, and the old one elsewhere.
  pub get-put :
      (k j : Text) (v : V) (d : Dict V)
      → get j (put k v d) ≡ (if text_eq k j then some v else get j d)
  unfolding get put
  get-put k j v [] = refl
  get-put k j v ((i, w) ∷ d) =
      ground (arith, text_eq_iff k j, text_eq_iff i k, text_eq_iff i j, get-put k j v d)

  -- Writing a new key adds the pair at the end.
  pub put_new : (k : Text) (v : V) (d : Dict V) → get k d ≡ none → put k v d ≡ d ++ ((k, v) ∷ [])
  unfolding get put
  put_new k v [] h = refl
  put_new k v ((j, w) ∷ d) h = ground (arith, put_new k v d)

  pub keys-append : (d e : Dict V) → keys (d ++ e) ≡ keys d ++ keys e
  unfolding keys
  keys-append [] e = refl
  keys-append ((k, v) ∷ d) e = rw (keys-append d e)

  pub values-append : (d e : Dict V) → values (d ++ e) ≡ values d ++ values e
  unfolding values
  values-append [] e = refl
  values-append ((k, v) ∷ d) e = rw (values-append d e)

  -- Writing again at a key that came in last.
  pub put_last :
      (k : Text) (v w : V) (d : Dict V)
      → get k d ≡ none
      → put k w (d ++ ((k, v) ∷ [])) ≡ d ++ ((k, w) ∷ [])
  unfolding get put
  put_last k v w [] h = rw (text_eq_refl k)
  put_last k v w ((j, u) ∷ d) h = ground (arith, put_last k v w d)

  -- A missing key differs from every key.
  pub get-none : (k : Text) (d : Dict V) → get k d ≡ none → All (λ j. text_eq j k ≡ false) (keys d)
  unfolding get keys
  get-none k [] h = tt
  get-none k ((j, v) ∷ d) h = elim (Bool-cases (text_eq j k)) [
    | inl same ↦ cc (rw same at h)
    | inr other ↦ (other, get-none k d (rw other at h))
  ]

-- No two texts of a list are equal.
abbrev pub Distinct : List Text → Type 0
Distinct [] = Unit
Distinct (k ∷ ks) = All (λ j. text_eq k j ≡ false) ks × Distinct ks

pub Distinct-append :
    (ks : List Text) (k : Text)
    → Distinct ks
    → All (λ j. text_eq j k ≡ false) ks
    → Distinct (ks ++ (k ∷ []))
Distinct-append [] k h a = (tt, tt)
Distinct-append (j ∷ ks) k (hj, hks) (aj, aks) =
    (All-append (λ i. text_eq j i ≡ false) ks (k ∷ []) hj (aj, tt), Distinct-append ks k hks aks)

-- A write at a missing key keeps the keys distinct.
pub Distinct-put {ℓ} :
    {V : Type ℓ} (k : Text) (v : V) (d : Dict V)
    → get k d ≡ none
    → Distinct (keys d)
    → Distinct (keys (put k v d))
unfolding keys
Distinct-put k v d h a =
    rw (put_new k v d h)
      (rw (keys-append d ((k, v) ∷ [])) (Distinct-append (keys d) k a (get-none k d h)))

-- A text that differs from every key is missing.
pub none-get {ℓ} :
    {V : Type ℓ} (k : Text) (d : Dict V) → All (λ j. text_eq j k ≡ false) (keys d) → get k d ≡ none
unfolding get keys
none-get k [] h = refl
none-get k ((j, v) ∷ d) (hj, hd) = rw hj (none-get k d hd)

-- A text in the middle of distinct ones differs from those in front of it.
pub Distinct-middle :
    (ks : List Text) (k : Text) (js : List Text)
    → Distinct (ks ++ (k ∷ js))
    → All (λ j. text_eq j k ≡ false) ks
Distinct-middle [] k js h = tt
Distinct-middle (i ∷ ks) k js (hi, h) = (All-middle ks k js hi, Distinct-middle ks k js h)
  where
    All-middle :
        (ls : List Text) (l : Text) (ms : List Text)
        → All (λ j. text_eq i j ≡ false) (ls ++ (l ∷ ms))
        → text_eq i l ≡ false
    All-middle [] l ms (a, b) = a
    All-middle (j ∷ ls) l ms (a, b) = All-middle ls l ms b
