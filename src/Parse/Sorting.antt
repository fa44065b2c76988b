-- ===== src/Parse/Sorting.antt =====
-- The order in which ParseMessage leaves the base fields of a message.
use mathlib.Core.List.{Perm}
use mathlib.Core.List.Perm
use vsm_cpp_sdk.Prelude.{
  ℕ, ◌+◌, ◌*◌, ◌≤◌, ◌≡◌, refl, ◌∙◌, List, [], ◌∷◌, ◌==◌, leb, if◌then◌else◌, All, arith, Bool-cases,
  inl, inr,
}
use vsm_cpp_sdk.Types.{get_count, get_size}
use vsm_cpp_sdk.Message.{Field}
use vsm_cpp_sdk.Message.Size.{bytes_of}
use vsm_cpp_sdk.Parse.{insert_field, wire_size, sort_fields}

abbrev size : Field → ℕ
size f = get_size f.type

-- Larger types stand first.
abbrev pub IsSorted : List Field → Type 0
IsSorted [] = Unit
IsSorted (f ∷ fs) = All (λ g. size g ≤ size f) fs × IsSorted fs

-- The fields of a list whose types have a given size, in their order.
unfoldable pub of_size : ℕ → List Field → List Field
of_size k [] = []
of_size k (f ∷ fs) = let rest = of_size k fs in if size f == k then f ∷ rest else rest

insert_field-All :
    (n : ℕ) (f : Field) (fs : List Field)
    → size f ≤ n
    → All (λ g. size g ≤ n) fs
    → All (λ g. size g ≤ n) (insert_field f fs)
unfolding insert_field
insert_field-All n f [] h k = (h, tt)
insert_field-All n f (g ∷ gs) h (kg, kgs) = elim (Bool-cases (leb (size g) (size f))) [
  | inl first ↦ rw first (h, (kg, kgs))
  | inr later ↦ rw later (kg, insert_field-All n f gs h kgs)
]

All-le : (m n : ℕ) (fs : List Field) → m ≤ n → All (λ g. size g ≤ m) fs → All (λ g. size g ≤ n) fs
All-le m n [] h k = tt
All-le m n (f ∷ fs) h (kf, kfs) = (omega arith, All-le m n fs h kfs)

insert_field-IsSorted : (f : Field) (fs : List Field) → IsSorted fs → IsSorted (insert_field f fs)
unfolding insert_field
insert_field-IsSorted f [] h = (tt, tt)
insert_field-IsSorted f (g ∷ gs) (hg, hgs) = elim (Bool-cases (leb (size g) (size f))) [
  | inl first ↦ rw first ((ground arith, All-le (size g) (size f) gs (ground arith) hg), (hg, hgs))
  | inr later ↦
      rw later (insert_field-All (size g) f gs (ground arith) hg, insert_field-IsSorted f gs hgs)
]

sort_fields-IsSorted : (fs : List Field) → IsSorted (sort_fields fs)
unfolding sort_fields
sort_fields-IsSorted [] = tt
sort_fields-IsSorted (f ∷ fs) = insert_field-IsSorted f (sort_fields fs) (sort_fields-IsSorted fs)

insert_field-perm : (f : Field) (fs : List Field) → Perm (insert_field f fs) (f ∷ fs)
unfolding insert_field
insert_field-perm f [] = Perm.refl (f ∷ [])
insert_field-perm f (g ∷ gs) = elim (Bool-cases (leb (size g) (size f))) [
  | inl first ↦ rw first (Perm.refl (f ∷ g ∷ gs))
  | inr later ↦ rw later (Perm.trans (Perm.cons g (insert_field-perm f gs)) (Perm.swap f g gs))
]

sort_fields-perm : (fs : List Field) → Perm (sort_fields fs) fs
unfolding sort_fields
sort_fields-perm [] = Perm.refl []
sort_fields-perm (f ∷ fs) =
    Perm.trans (insert_field-perm f (sort_fields fs)) (Perm.cons f (sort_fields-perm fs))

of_size-insert_field :
    (k : ℕ) (f : Field) (fs : List Field) → of_size k (insert_field f fs) ≡ of_size k (f ∷ fs)
unfolding insert_field of_size
of_size-insert_field k f [] = refl
of_size-insert_field k f (g ∷ gs) = ground (arith, of_size-insert_field k f gs)

of_size-cons :
    (k : ℕ) (f : Field) (fs gs : List Field)
    → of_size k fs ≡ of_size k gs
    → of_size k (f ∷ fs) ≡ of_size k (f ∷ gs)
unfolding of_size
of_size-cons k f fs gs h = ground arith

of_size-sort_fields : (k : ℕ) (fs : List Field) → of_size k (sort_fields fs) ≡ of_size k fs
unfolding sort_fields
of_size-sort_fields k [] = refl
of_size-sort_fields k (f ∷ fs) =
    of_size-insert_field k f (sort_fields fs)
    ∙ of_size-cons k f (sort_fields fs) fs (of_size-sort_fields k fs)

-- Sorting rearranges the fields so that no type is followed by a larger one, and keeps the order
-- of the fields of each size.
pub sort_fields_stable :
    (fs : List Field)
    → Perm (sort_fields fs) fs
      × IsSorted (sort_fields fs)
      × ((k : ℕ) → of_size k (sort_fields fs) ≡ of_size k fs)
sort_fields_stable fs =
    (sort_fields-perm fs, sort_fields-IsSorted fs, λ k. of_size-sort_fields k fs)

pub wire_size-eq-bytes_of : (n : ℕ) (fs : List Field) → wire_size n fs ≡ n + bytes_of fs
unfolding wire_size bytes_of
wire_size-eq-bytes_of n [] = omega arith
wire_size-eq-bytes_of n (f ∷ fs) =
    omega (arith, wire_size-eq-bytes_of (n + get_size f.type * get_count f.type) fs)
