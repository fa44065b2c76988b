-- ===== src/Lint/Brackets/Reverse.antt =====
-- What ReverseCloseExpression of tools/cpplint.py finds: an opening character, on the line it starts
-- from or above it.
use vsm_cpp_sdk.Prelude.{
  ℕ, zero, suc, ◌+◌, ◌≤◌, ◌≡◌, refl, sym, ap, ◌∙◌, subst, not, ◌||◌, none, some, List, [], ◌∷◌,
  ◌==◌, length, take, drop, take-append-drop, arith, Bool-cases, inl, inr,
}
use vsm_cpp_sdk.Text.{Text}
use vsm_cpp_sdk.Text.Find.{at, reverse_onto}
use vsm_cpp_sdk.Lint.Brackets.{Scan, found, failed, pending, is_close, Place}
use vsm_cpp_sdk.Lint.Brackets.Backward.{
  find_start, open_lines, cut, open_at, reverse_close_expression,
}
use vsm_cpp_sdk.Lint.Brackets.Opening.{
  Ends, no_end, no_start, ends_at, find_start-Ends, IsPlace, nowhere, somewhere, reverse_onto-twice,
  cut-reverse_onto, at-reverse_onto, reverse_onto_twice_nil,
}

-- The lines above, the nearest first, and those from a place on.
abbrev Above : List Text → List Text → Type 0
Above rows ls = (rest : List Text) × (rows ≡ reverse_onto ls rest)

Above-at :
    (rows : List Text) (l : Text) (ls : List Text)
    → Above rows (l ∷ ls)
    → at rows (length ls) ≡ some l
unfolding reverse_onto
Above-at rows l ls (rest, e) =
    ap (λ r. at r (length ls)) e
    ∙ (at-reverse_onto ls (l ∷ rest) 0 (length ls) (omega arith) ∙ (unfold at in refl))

Above-rest : (rows : List Text) (l : Text) (ls : List Text) → Above rows (l ∷ ls) → Above rows ls
unfolding reverse_onto
Above-rest rows l ls (rest, e) = (l ∷ rest, e)

open_lines-round :
    (rows : List Text) (n : ℕ) (l : Text) (ls : List Text) (t : ℕ) (s : List ℕ) (line : Text)
    {r : Scan}
    → ((stack : List ℕ) → IsPlace rows n (open_lines l ls stack))
    → length ls ≤ n
    → at rows (length ls) ≡ some l
    → find_start (reverse_onto l []) [] (t ∷ s) ≡ r
    → Ends l r
    → IsPlace rows n (open_lines line (l ∷ ls) (t ∷ s))
unfolding open_lines
open_lines-round rows n l ls t s line ih h a e no_end = rw (e, open_lines) (nowhere l 0)
open_lines-round rows n l ls t s line ih h a e (no_start stack) = rw (e, open_lines) (ih stack)
open_lines-round rows n l ls t s line ih h a e (ends_at p o) =
    rw (e, open_lines) (somewhere l (length ls) p h a o)

open_lines-IsPlace :
    (rows : List Text) (n : ℕ) (line : Text) (ls : List Text) (stack : List ℕ)
    → length ls ≤ n
    → Above rows ls
    → IsPlace rows n (open_lines line ls stack)
unfolding open_lines
open_lines-IsPlace rows n line [] stack h a = nowhere line 0
open_lines-IsPlace rows n line (l ∷ ls) [] h a = nowhere line 0
open_lines-IsPlace rows n line (l ∷ ls) (t ∷ s) h a =
    open_lines-round rows n l ls t s line
      (λ stack. open_lines-IsPlace rows n l ls stack (omega arith) (Above-rest rows l ls a))
      (omega arith) (Above-at rows l ls a) refl
      (subst (λ u. Ends u (find_start (reverse_onto l []) [] (t ∷ s))) (reverse_onto_twice_nil l)
        (find_start-Ends (reverse_onto l []) [] (t ∷ s)))

length-take : (n : ℕ) (xs : List Text) → length (take n xs) ≤ n
length-take zero xs = omega arith
length-take (suc n) [] = omega arith
length-take (suc n) (x ∷ xs) = let ih = length-take n xs in omega (arith, ih)

length-reverse_onto : (xs ys : List Text) → length (reverse_onto xs ys) ≡ length xs + length ys
unfolding reverse_onto
length-reverse_onto [] ys = omega arith
length-reverse_onto (x ∷ xs) ys = omega (arith, length-reverse_onto xs (x ∷ ys))

take-Above : (rows : List Text) (n : ℕ) → Above rows (reverse_onto (take n rows) [])
take-Above rows n = (
  drop n rows,
  sym (
      reverse_onto-twice (take n rows) [] (drop n rows)
      ∙ (unfold reverse_onto in take-append-drop n rows)),
)

open_at-found :
    (rows : List Text) (n : ℕ) (line : Text) {r : Scan}
    → at rows n ≡ some line
    → Ends line r
    → IsPlace rows n (elim r [
      | found p ↦ record { line = line; linenum = n; pos = some p }
      | failed ↦ record { line = line; linenum = 0; pos = none }
      | pending s ↦ open_lines line (reverse_onto (take n rows) []) s
    ])
open_at-found rows n line a no_end = nowhere line 0
open_at-found rows n line a (ends_at p o) = somewhere line n p (omega arith) a o
open_at-found rows n line a (no_start s) =
    open_lines-IsPlace rows n line (reverse_onto (take n rows) []) s
      (omega (arith, length-reverse_onto (take n rows) [], length-take n rows)) (take-Above rows n)

open_at-IsPlace :
    (rows : List Text) (n : ℕ) (line : Text) (pos c : ℕ)
    → at rows n ≡ some line
    → IsPlace rows n (open_at rows n line pos c)
unfolding open_at
open_at-IsPlace rows n line pos c a =
    let (before, after) = cut [] pos line in
    elim (Bool-cases (not (is_close c || c == b'>'))) [
      | inl h ↦ rw h (nowhere line 0)
      | inr h ↦ rw h (
          open_at-found rows n line a (
            subst (λ u. Ends u (find_start before after []))
              (cut-reverse_onto [] pos line ∙ (unfold reverse_onto in refl))
              (find_start-Ends before after [])))
    ]

-- From every character of a file ReverseCloseExpression returns. The place has no position, or it is
-- on the line of that character or above it, at a bracket that opens or a '<'.
pub reverse_close_expression-IsPlace :
    (rows : List Text) (linenum pos : ℕ) (line : Text) (c : ℕ)
    → at rows linenum ≡ some line
    → at line pos ≡ some c
    → (place : Place) × (reverse_close_expression rows linenum pos ≡ some place)
      × IsPlace rows linenum place
unfolding reverse_close_expression
reverse_close_expression-IsPlace rows linenum pos line c h k =
    (open_at rows linenum line pos c, rw (h, k) refl, open_at-IsPlace rows linenum line pos c h)
