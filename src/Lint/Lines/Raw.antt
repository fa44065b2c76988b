-- ===== src/Lint/Lines/Raw.antt =====
-- What CleanseRawStrings of tools/cpplint.py finds is shorter than the line it looks at.
use vsm_cpp_sdk.Prelude.{
  ℕ, zero, suc, ◌+◌, ◌≤◌, ◌<◌, ◌≡◌, refl, Bool, true, false, ◌||◌, Option, none, some, List, [],
  ◌∷◌, ◌==◌, length, drop, arith, Bool-cases, inl, inr,
}
use vsm_cpp_sdk.Text.{Text, is_word, is_space}
use vsm_cpp_sdk.Text.Find.{◌>>=◌, starts_with}
use vsm_cpp_sdk.Lint.Lines.{
  raw_prefixes, behind_prefix, raw_delimiter, raw_at, search_raw, behind_text,
}

-- What is left is shorter than `n`.
data Left (n : ℕ) : Option (Text × Text) → Type 0 where
  nothing : Left n none
  rest_of : (d rest : Text) → length rest < n → Left n (some (d, rest))

pub length-drop_le : (n : ℕ) (s : Text) → length (drop n s) ≤ length s
length-drop_le zero s = omega arith
length-drop_le (suc n) [] = omega arith
length-drop_le (suc n) (c ∷ s) = let ih = length-drop_le n s in omega (arith, ih)

Left-cons :
    (c : ℕ) {n : ℕ} {o : Option (Text × Text)}
    → Left n o
    → Left (suc n) (do (d, rest) ← o; some (c ∷ d, rest))
Left-cons c nothing = nothing
Left-cons c (rest_of d rest h) = rest_of (c ∷ d) rest (omega arith)

raw_delimiter-Left : (s : Text) → Left (length s) (raw_delimiter s)
unfolding raw_delimiter
raw_delimiter-Left [] = nothing
raw_delimiter-Left (c ∷ s) = elim (Bool-cases (c == b'(')) [
  | inl h ↦ rw (h, raw_delimiter) (rest_of [] s (omega arith))
  | inr h ↦ elim (Bool-cases (is_space c || (c == b'\\' || c == b')'))) [
    | inl b ↦ rw (h, b, raw_delimiter) nothing
    | inr b ↦ rw (h, b, raw_delimiter) (Left-cons c (raw_delimiter-Left s))
  ]
]

Left-le : {n m : ℕ} {o : Option (Text × Text)} → n ≤ m → Left n o → Left m o
Left-le h nothing = nothing
Left-le h (rest_of d rest k) = rest_of d rest (omega arith)

data Short (n : ℕ) : Option Text → Type 0 where
  no_text : Short n none
  text_of : (t : Text) → length t ≤ n → Short n (some t)

behind_prefix-Short : (ps : List Text) (s : Text) → Short (length s) (behind_prefix ps s)
unfolding behind_prefix
behind_prefix-Short [] s = no_text
behind_prefix-Short (p ∷ ps) s = elim (Bool-cases (starts_with p s)) [
  | inl h ↦ rw (h, behind_prefix) (text_of (drop (length p) s) (length-drop_le (length p) s))
  | inr h ↦ rw (h, behind_prefix) (behind_prefix-Short ps s)
]

delimiter-Left : {n : ℕ} {o : Option Text} → Short n o → Left n (do t ← o; raw_delimiter t)
delimiter-Left no_text = nothing
delimiter-Left (text_of t h) = Left-le h (raw_delimiter-Left t)

raw_at-Left : (in_word : Bool) (s : Text) → Left (length s) (raw_at in_word s)
unfolding raw_at
raw_at-Left true s = nothing
raw_at-Left false s = delimiter-Left (behind_prefix-Short raw_prefixes s)

-- What is in front of a raw string and behind its bracket.
pub data Found (n : ℕ) : Option (Text × (Text × Text)) → Type 0 where
  not_found : Found n none
  found :
      (before d rest : Text) → length before + length rest < n → Found n (some (before, (d, rest)))

Found-cons :
    (c : ℕ) {n : ℕ} {o : Option (Text × (Text × Text))}
    → Found n o
    → Found (suc n) (do (before, m) ← o; some (c ∷ before, m))
Found-cons c not_found = not_found
Found-cons c (found before d rest h) = found (c ∷ before) d rest (omega arith)

search_raw-first :
    (in_word : Bool) (c : ℕ) (s : Text) {o : Option (Text × Text)}
    → raw_at in_word (c ∷ s) ≡ o
    → Left (suc (length s)) o
    → Found (length s) (search_raw (is_word c) s)
    → Found (suc (length s)) (search_raw in_word (c ∷ s))
unfolding search_raw
search_raw-first in_word c s e nothing f = rw (e, search_raw) (Found-cons c f)
search_raw-first in_word c s e (rest_of d rest h) f =
    rw (e, search_raw) (found [] d rest (omega arith))

pub search_raw-Found : (in_word : Bool) (s : Text) → Found (length s) (search_raw in_word s)
search_raw-Found in_word [] = unfold search_raw in not_found
search_raw-Found in_word (c ∷ s) =
    search_raw-first in_word c s refl (raw_at-Left in_word (c ∷ s)) (search_raw-Found (is_word c) s)

-- What is behind the first `p`.
pub data After (p : Text) (n : ℕ) : Option Text → Type 0 where
  never : After p n none
  after : (t : Text) → length t + length p ≤ n → After p n (some t)

starts_with-drop :
    (p s : Text) → starts_with p s ≡ true → length (drop (length p) s) + length p ≡ length s
unfolding starts_with
starts_with-drop [] s h = omega arith
starts_with-drop (c ∷ p) [] h = cc
starts_with-drop (c ∷ p) (d ∷ s) h =
    let ih = starts_with-drop p s (ground arith) in omega (arith, ih)

After-suc : {p : Text} {n : ℕ} {o : Option Text} → After p n o → After p (suc n) o
After-suc never = never
After-suc (after t h) = after t (omega arith)

pub behind_text-After : (p s : Text) → After p (length s) (behind_text p s)
unfolding behind_text
behind_text-After p [] = never
behind_text-After p (c ∷ s) = elim (Bool-cases (starts_with p (c ∷ s))) [
  | inl h ↦
      let e = starts_with-drop p (c ∷ s) h in
      rw (h, behind_text) (after (drop (length p) (c ∷ s)) (omega (arith, e)))
  | inr h ↦ rw (h, behind_text) (After-suc (behind_text-After p s))
]
