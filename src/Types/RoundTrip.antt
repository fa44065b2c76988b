-- ===== src/Types/RoundTrip.antt =====
-- What MlType accepts, and what it reads.
use vsm_cpp_sdk.Prelude.{
  ℕ, ◌≡◌, refl, none, some, [], ◌∷◌, ◌++◌, Bool, true, false, All, all, all-All,
}
use vsm_cpp_sdk.Text.{Text, text_eq, is_word, is_digit}
use vsm_cpp_sdk.Text.Decimal.{scan, show, scan-show, show-IsDigit, show-cons}
use vsm_cpp_sdk.Result.{ok}
use vsm_cpp_sdk.Types.{
  TypeId, char, type_name, get_type_id, span, match_array, ml_type, count_of, bracket_of,
}

get_type_id-type_name : (t : TypeId) → get_type_id (type_name t) ≡ ok t
unfolding get_type_id text_eq
get_type_id-type_name char = refl
get_type_id-type_name _ = refl

module _ (p : ℕ → Bool) where
  abbrev Passes : ℕ → Type 0
  Passes c = p c ≡ true

  span-append :
      (w : Text) (c : ℕ) (r : Text)
      → All Passes w
      → p c ≡ false
      → span p (w ++ (c ∷ r)) ≡ (w, c ∷ r)
  unfolding span
  span-append [] c r h k = rw k
  span-append (d ∷ w) c r (hd, hw) k = rw (span-append w c r hw k, hd)

  span-All : (w : Text) → All Passes w → span p w ≡ (w, [])
  unfolding span
  span-All [] h = refl
  span-All (d ∷ w) (hd, hw) = rw (span-All w hw, hd)

type_name_words : (t : TypeId) → all is_word (type_name t) ≡ true
unfolding type_name is_word all
type_name_words char = refl
type_name_words _ = refl

type_name_cons : (t : TypeId) → (c : ℕ) × (s : Text) × (type_name t ≡ c ∷ s)
unfolding type_name
type_name_cons char = (_, _, refl)
type_name_cons _ = (_, _, refl)

-- The counts of brackets and of bases, once the spans are known.
count_of_cons :
    (w : Text) (c : ℕ) (s rest : Text) → w ≡ c ∷ s → count_of (w, b']' ∷ rest) ≡ scan 0 w
count_of_cons w c s rest e = rw e

bracket_of_cons :
    (w : Text) (c : ℕ) (s inner : Text) (n : ℕ)
    → w ≡ c ∷ s
    → count_of (span is_digit inner) ≡ some n
    → bracket_of (w, b'[' ∷ inner) ≡ some (w, n)
bracket_of_cons w c s inner n e h = rw e (rw h)

count_of-show : (n : ℕ) (rest : Text) → count_of (span is_digit (show n ++ (b']' ∷ rest))) ≡ some n
unfolding is_digit
count_of-show n rest =
    let (c, s, e) = show-cons n in
    rw (span-append is_digit (show n) b']' rest (show-IsDigit n) refl)
      (rw (count_of_cons (show n) c s rest e) (scan-show n))

match_array-show :
    (t : TypeId) (n : ℕ) (rest : Text)
    → match_array (type_name t ++ (b'[' ∷ (show n ++ (b']' ∷ rest)))) ≡ some (type_name t, n)
unfolding match_array
match_array-show t n rest =
    let (c, s, e) = type_name_cons t in
    rw
      (span-append is_word (type_name t) b'[' _ (all-All is_word (type_name t) (type_name_words t))
        (unfold is_word is_digit in refl))
      (bracket_of_cons (type_name t) c s _ n e (count_of-show n rest))

match_array_scalar : (t : TypeId) → match_array (type_name t) ≡ none
unfolding match_array
match_array_scalar t =
    let (c, s, e) = type_name_cons t in
    rw (span-All is_word (type_name t) (all-All is_word (type_name t) (type_name_words t))) (rw e)

-- Every type name of the table reads as the scalar of its ID. With a number in brackets behind it
-- the name reads as the array of that length, whatever text follows the bracket.
pub ml_type-type_name :
    (t : TypeId) (n : ℕ) (rest : Text)
    → (ml_type (type_name t) ≡ ok (record { id = t; num = none }))
      × (ml_type (type_name t ++ (b'[' ∷ (show n ++ (b']' ∷ rest))))
          ≡ ok (record { id = t; num = some n }))
unfolding ml_type
ml_type-type_name t n rest = (
  rw (match_array_scalar t, ml_type) (rw (get_type_id-type_name t)),
  rw (match_array-show t n rest, ml_type) (rw (get_type_id-type_name t)),
)
