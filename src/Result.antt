-- ===== src/Result.antt =====
-- The exceptions of tools/mavgen/mavgen.py and tools/cpplint.py as values.
use mathlib.Core.Path.{subst}
use vsm_cpp_sdk.Prelude.{◌≡◌, refl, List, [], ◌∷◌}
use vsm_cpp_sdk.Text.{Text}

-- `raised` is the Exception of mavgen's function Error, the others are Python's own.
pub data Error : Type 0 where
  raised : Text → Error
  key_error value_error attribute_error type_error unbound_local eval_error assertion_error : Error

pub data Result {ℓ} (V : Type ℓ) : Type ℓ where
  ok : V → Result V
  err : Error → Result V

module _ {ℓ κ} {V : Type ℓ} {W : Type κ} where
  infixl 5 ◌>>=◌
  abbrev pub ◌>>=◌ : Result V → (V → Result W) → Result W
  err e >>= next = err e
  ok v >>= next = next v

  -- What a chain of two calls returns comes from what the first one returned.
  pub >>=-eq-ok :
      (r : Result V) (next : V → Result W) {w : W}
      → (r >>= next) ≡ ok w
      → (v : V) × (r ≡ ok v) × (next v ≡ ok w)
  >>=-eq-ok (err e) next h = cc
  >>=-eq-ok (ok v) next h = (v, refl, h)

infixl 5 ◌>>◌
abbrev pub ◌>>◌ {ℓ} : {W : Type ℓ} → Result (Unit {0}) → Result W → Result W
check >> rest = check >>= λ done. rest

-- A loop whose body may raise.
module _ {ℓ κ} {A : Type ℓ} {S : Type κ} (body : S → A → Result S) where
  unfoldable pub fold : S → List A → Result S
  fold s [] = ok s
  fold s (x ∷ xs) = do s' ← body s x; fold s' xs

-- A loop rule: what each round keeps, a loop that ends keeps.
module _ {ℓ κ μ} {A : Type ℓ} {S : Type κ} (body : S → A → Result S) (P : S → Type μ) where
  pub fold_inv :
      ((s s' : S) (x : A) → P s → body s x ≡ ok s' → P s')
      → (s s' : S) (xs : List A) → P s
      → fold body s xs ≡ ok s'
      → P s'
  unfolding fold
  fold_inv keep s s' [] h e = subst P (cc) h
  fold_inv keep s s' (x ∷ xs) h e =
      let (t, e1, e2) = >>=-eq-ok (body s x) (λ u. fold body u xs) e in
      fold_inv keep t s' xs (keep s t x h e1) e2

pub ok-injective {ℓ} : {A : Type ℓ} {a b : A} → ok a ≡ ok b → a ≡ b
ok-injective e = cc

-- A property of what a call returns, where the call is known to return that.
pub ok-subst {ℓ κ} : {A : Type ℓ} (P : A → Type κ) {a b : A} → ok a ≡ ok b → P a → P b
ok-subst P e h = subst P (ok-injective e) h
