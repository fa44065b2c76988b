-- ===== src/Lint/Brackets/Balanced.antt =====
-- Text with balanced brackets over lines, and what a round of FindEndOfExpressionInLine of
-- tools/cpplint.py does with a stack of pending '<' above an opening bracket.
use vsm_cpp_sdk.Prelude.{
  ℕ, zero, suc, ◌+◌, ◌≡◌, refl, false, List, [], ◌∷◌, ◌==◌, arith, Bool-cases, inl, inr,
}
use vsm_cpp_sdk.Text.{Text}
use vsm_cpp_sdk.Lint.Brackets.{
  Scan, found, failed, Round, next, is_open, is_close, pairs, drop_marks, popped, left_shift,
  end_less, end_greater, match_top, end_step, follows, ends_operator, is_arrow,
}

pub data Bracket : Type 0 where
  round square curly : Bracket

abbrev pub opening : Bracket → ℕ
opening round = b'('
opening square = b'['
opening curly = b'{'

abbrev pub closing : Bracket → ℕ
closing round = b')'
closing square = b']'
closing curly = b'}'

-- Text whose round, square and curly brackets are balanced, over lines: characters that are none of
-- them, ends of lines, and groups.
pub data Balanced : Type 0 where
  done : Balanced
  plain : (c : ℕ) → is_open c ≡ false → is_close c ≡ false → Balanced → Balanced
  line_end : Balanced → Balanced
  group : Bracket → Balanced → Balanced → Balanced

-- The text in front of the rest of a line and the lines below it: the line that it begins in, and
-- the lines below that.
unfoldable pub lines_of : Balanced → Text → List Text → Text × List Text
lines_of done l ls = (l, ls)
lines_of (plain c o k t) l ls = let (l', ls') = lines_of t l ls in (c ∷ l', ls')
lines_of (line_end t) l ls = let (l', ls') = lines_of t l ls in ([], l' ∷ ls')
lines_of (group b inner t) l ls =
    let (l', ls') = lines_of t l ls in
    let (l2, ls2) = lines_of inner (closing b ∷ l') ls' in (opening b ∷ l2, ls2)

-- The ends of lines in a text, and the column behind it if it begins at the column `i`.
unfoldable pub breaks : Balanced → ℕ
breaks done = 0
breaks (plain c o k t) = breaks t
breaks (line_end t) = suc (breaks t)
breaks (group b inner t) = breaks inner + breaks t

unfoldable pub column : Balanced → ℕ → ℕ
column done i = i
column (plain c o k t) i = column t (suc i)
column (line_end t) i = column t 0
column (group b inner t) i = column t (suc (column inner (suc i)))

-- Pending '<' above an opening bracket.
unfoldable pub angles : ℕ → List ℕ → List ℕ
angles zero s = s
angles (suc n) s = b'<' ∷ angles n s

drop_marks-angles :
    (n : ℕ) (b : Bracket) (s : List ℕ) → drop_marks b'<' (angles n (opening b ∷ s)) ≡ opening b ∷ s
unfolding angles drop_marks
drop_marks-angles zero round s = refl
drop_marks-angles zero square s = refl
drop_marks-angles zero curly s = refl
drop_marks-angles (suc n) b s = drop_marks-angles n b s

-- Above an opening bracket only pending '<' come and go.
abbrev pub Above : Bracket → List ℕ → Round → Type 0
Above b s r = (n : ℕ) × (r ≡ next (angles n (opening b ∷ s)))

pub popped-angles :
    (n : ℕ) (b : Bracket) (s : List ℕ) (r : Scan)
    → popped r (angles n (opening b ∷ s)) ≡ next (angles n (opening b ∷ s))
unfolding popped angles
popped-angles zero b s r = refl
popped-angles (suc n) b s r = refl

popped-Above :
    (n : ℕ) (b : Bracket) (s : List ℕ) (r : Scan) → Above b s (popped r (angles n (opening b ∷ s)))
popped-Above n b s r = (n, popped-angles n b s r)

left_shift-Above :
    (n : ℕ) (b : Bracket) (s : List ℕ) → Above b s (left_shift (angles n (opening b ∷ s)))
unfolding left_shift angles
left_shift-Above zero round s = (0, refl)
left_shift-Above zero square s = (0, refl)
left_shift-Above zero curly s = (0, refl)
left_shift-Above (suc n) b s = popped-Above n b s failed

end_less-Above :
    (before : Text) (n : ℕ) (b : Bracket) (s : List ℕ)
    → Above b s (end_less before (angles n (opening b ∷ s)))
unfolding end_less
end_less-Above before n b s = elim (Bool-cases (follows b'<' before)) [
  | inl f ↦ rw f (left_shift-Above n b s)
  | inr f ↦ elim (Bool-cases (ends_operator before)) [
    | inl o ↦ rw (f, o) (n, refl)
    | inr o ↦ rw (f, o) (suc n, unfold angles in refl)
  ]
]

end_greater-Above :
    (i : ℕ) (before : Text) (n : ℕ) (b : Bracket) (s : List ℕ)
    → Above b s (end_greater i before (angles n (opening b ∷ s)))
unfolding end_greater angles
end_greater-Above i before zero round s = (0, ground arith)
end_greater-Above i before zero square s = (0, ground arith)
end_greater-Above i before zero curly s = (0, ground arith)
end_greater-Above i before (suc n) b s = elim (Bool-cases (is_arrow before)) [
  | inl a ↦ rw a (suc n, refl)
  | inr a ↦ rw a (popped-Above n b s (found (i + 1)))
]

pub end_step-Above :
    (i : ℕ) (before : Text) (c n : ℕ) (b : Bracket) (s : List ℕ)
    → is_open c ≡ false
    → is_close c ≡ false
    → Above b s (end_step i before c (angles n (opening b ∷ s)))
unfolding end_step
end_step-Above i before c n b s o k = elim (Bool-cases (c == b'<')) [
  | inl less ↦ rw (o, less) (end_less-Above before n b s)
  | inr less ↦ elim (Bool-cases (c == b'>')) [
    | inl greater ↦ rw (o, less, k, greater) (end_greater-Above i before n b s)
    | inr greater ↦ elim (Bool-cases (c == b';')) [
      | inl semi ↦
          rw (o, less, k, greater, semi) (0, rw (drop_marks-angles n b s) (unfold angles in refl))
      | inr semi ↦ rw (o, less, k, greater, semi) (n, refl)
    ]
  ]
]

pub open_step :
    (i : ℕ) (before : Text) (b : Bracket) (s : List ℕ)
    → end_step i before (opening b) s ≡ next (opening b ∷ s)
unfolding end_step is_open
open_step i before round s = refl
open_step i before square s = refl
open_step i before curly s = refl

pub close_step :
    (i : ℕ) (before : Text) (n : ℕ) (b : Bracket) (s : List ℕ)
    → end_step i before (closing b) (angles n (opening b ∷ s)) ≡ popped (found (i + 1)) s
unfolding end_step is_open is_close pairs match_top
close_step i before n round s = rw (drop_marks-angles n round s) refl
close_step i before n square s = rw (drop_marks-angles n square s) refl
close_step i before n curly s = rw (drop_marks-angles n curly s) refl
