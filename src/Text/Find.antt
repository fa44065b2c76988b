-- ===== src/Text/Find.antt =====
-- Searching in texts and lists: the methods startswith, endswith and find of Python's strings.
use vsm_cpp_sdk.Prelude.{
  ℕ, zero, suc, ◌≡◌, refl, Bool, true, false, ◌&&◌, ◌||◌, leb, ltb, ◌-◌, if◌then◌else◌, Option,
  none, some, List, [], ◌∷◌, ◌++◌, ◌==◌, length,
}
use vsm_cpp_sdk.Text.{Text, is_space}

infixl 5 ◌>>=◌
abbrev pub ◌>>=◌ {ℓ κ} : {A : Type ℓ} {B : Type κ} → Option A → (A → Option B) → Option B
none >>= next = none
some x >>= next = next x

-- s.startswith(p)
unfoldable pub starts_with : Text → Text → Bool
starts_with [] s = true
starts_with (c ∷ p) [] = false
starts_with (c ∷ p) (d ∷ s) = d == c && starts_with p s

-- p in s
unfoldable pub has_text : Text → Text → Bool
has_text p [] = starts_with p []
has_text p (c ∷ s) = starts_with p (c ∷ s) || has_text p s

-- s.split(sep) for a separator of one character
unfoldable pub split_from : ℕ → Text → Text → List Text
split_from sep cur [] = cur ∷ []
split_from sep cur (c ∷ s) = elim (c == sep) [
  | true ↦ cur ∷ split_from sep [] s
  | false ↦ split_from sep (cur ++ (c ∷ [])) s
]

unfoldable pub split_on : ℕ → Text → List Text
unfolding split_from
split_on sep s = split_from sep [] s

-- White space of unicode strings at Python 2.7, which strip() and isspace() go by.
unfoldable pub is_blank : ℕ → Bool
is_blank c =
    (leb 9 c && leb c 13)
    || (leb 28 c && leb c 32)
    || c == 0x85
    || c == 0xa0
    || c == 0x1680
    || c == 0x180e
    || (leb 0x2000 c && leb c 0x200a)
    || c == 0x2028
    || c == 0x2029
    || c == 0x202f
    || c == 0x205f
    || c == 0x3000

-- s.lstrip(), s.rstrip() and s.strip()
unfoldable pub lstrip : Text → Text
lstrip [] = []
lstrip (c ∷ s) = let rest = lstrip s in if is_blank c then rest else c ∷ s

abbrev end_blank : ℕ → Text → Text
end_blank c [] = if is_blank c then [] else c ∷ []
end_blank c (d ∷ s) = c ∷ d ∷ s

unfoldable pub rstrip : Text → Text
rstrip [] = []
rstrip (c ∷ s) = end_blank c (rstrip s)

unfoldable pub strip : Text → Text
unfolding lstrip rstrip is_blank
strip s = rstrip (lstrip s)

-- What \s* of the module re leaves.
unfoldable pub skip_spaces : Text → Text
skip_spaces [] = []
skip_spaces (c ∷ s) = let rest = skip_spaces s in if is_space c then rest else c ∷ s

-- s.replace(old, new) for a text `old` that is not empty, behind `k` characters that are replaced.
unfoldable pub replace_from : ℕ → Text → Text → Text → Text
replace_from k old new [] = []
replace_from (suc k) old new (c ∷ s) = replace_from k old new s
replace_from zero old new (c ∷ s) = elim (starts_with old (c ∷ s)) [
  | true ↦ new ++ replace_from (length old - 1) old new s
  | false ↦ c ∷ replace_from 0 old new s
]

unfoldable pub replace : Text → Text → Text → Text
unfolding replace_from starts_with
replace old new s = replace_from 0 old new s

-- s < t
unfoldable pub text_lt : Text → Text → Bool
text_lt s [] = false
text_lt [] (d ∷ t) = true
text_lt (c ∷ s) (d ∷ t) = ltb c d || (c == d && text_lt s t)

module _ {ℓ} {A : Type ℓ} where
  -- xs[i] for a number that is not negative; `none` is an IndexError
  unfoldable pub at : List A → ℕ → Option A
  at [] i = none
  at (x ∷ xs) zero = some x
  at (x ∷ xs) (suc i) = at xs i

  unfoldable pub reverse_onto : List A → List A → List A
  reverse_onto [] ys = ys
  reverse_onto (x ∷ xs) ys = reverse_onto xs (x ∷ ys)

  pub at-append : (xs ys : List A) (x : A) → at (xs ++ (x ∷ ys)) (length xs) ≡ some x
  unfolding at
  at-append [] ys x = refl
  at-append (y ∷ xs) ys x = at-append xs ys x

-- s.endswith(p)
unfoldable pub ends_with : Text → Text → Bool
unfolding reverse_onto starts_with
ends_with p s = starts_with (reverse_onto p []) (reverse_onto s [])
