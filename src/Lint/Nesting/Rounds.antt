-- ===== src/Lint/Nesting/Rounds.antt =====
-- The rounds of NestingState.InTemplateArgumentList of tools/cpplint.py, and what each leaves.
use vsm_cpp_sdk.Prelude.{
  ℕ, zero, suc, ◌+◌, ◌-◌, ◌≤◌, ◌<◌, ◌≡◌, refl, ap, Bool, true, false, ◌||◌, Option, none, some,
  List, [], ◌∷◌, ◌==◌, leb, length, drop, if◌then◌else◌, arith, inl, inr,
}
use vsm_cpp_sdk.Text.{Text}
use vsm_cpp_sdk.Text.Find.{at}
use vsm_cpp_sdk.Lint.Brackets.{Place, close_at}
use vsm_cpp_sdk.Lint.Brackets.Ahead.{Behind, IsBehind, close_at-IsBehind}
use vsm_cpp_sdk.Lint.Nesting.Template.{
  Onward, return, go_on, argument_token, token_round, behind_closed, template_round, template_from,
  weight, in_template_argument_list, is_refusing, is_accepting,
}

weight_of : Option Text → ℕ → ℕ → ℕ
weight_of none pos rest = 0
weight_of (some line) pos rest = suc (length line - pos + rest)

-- What is left of the lines from a place on.
left : List Text → ℕ → ℕ → ℕ
unfolding weight_of
left elided n pos = weight_of (at elided n) pos (weight (drop (suc n) elided))

left-weight : (ls : List Text) (n pos : ℕ) → left ls n pos ≤ weight (drop n ls)
unfolding left weight_of at weight
left-weight [] n pos = omega arith
left-weight (l ∷ ls) zero pos = omega arith
left-weight (l ∷ ls) (suc n) pos = left-weight ls n pos

weight-drop : (ls : List Text) (m n : ℕ) → m ≤ n → weight (drop n ls) ≤ weight (drop m ls)
unfolding weight
weight-drop [] zero zero h = omega arith
weight-drop [] zero (suc n) h = omega arith
weight-drop [] (suc m) zero h = omega arith
weight-drop [] (suc m) (suc n) h = omega arith
weight-drop (l ∷ ls) zero zero h = omega arith
weight-drop (l ∷ ls) zero (suc n) h = omega (arith, weight-drop ls 0 n (omega arith))
weight-drop (l ∷ ls) (suc m) zero h = omega arith
weight-drop (l ∷ ls) (suc m) (suc n) h = weight-drop ls m n (omega arith)

-- The characters that a match takes.
Taken : Text → Option (ℕ × ℕ) → Type 0
Taken s none = Unit {0}
Taken s (some (k, c)) = (0 < k) × (k ≤ length s)

argument_token-Taken : (s : Text) → Taken s (argument_token s)
unfolding argument_token Taken
argument_token-Taken [] = tt
argument_token-Taken (c ∷ s) =
    elim (is_refusing c || is_accepting c || c == b'<')
      as (λ b. Taken (c ∷ s) (elim b [
        | true ↦ some (1, c)
        | false ↦ elim (argument_token s) [ none ↦ some (1, c) | some (n, d) ↦ some (suc n, d) ]
      ])) [
        | true ↦ (omega arith, omega arith)
        | false ↦ on_rest (argument_token s) (argument_token-Taken s)
      ]
  where
    on_rest :
        (o : Option (ℕ × ℕ))
        → Taken s o
        → Taken (c ∷ s) (elim o [ none ↦ some (1, c) | some (n, d) ↦ some (suc n, d) ])
    on_rest none h = (omega arith, omega arith)
    on_rest (some (n, d)) h = (omega arith, omega (arith, h.1))

-- A round leads on to a place from which less than `m` is left.
Down : List Text → ℕ → Onward → Type 0
Down elided m (return b) = Unit {0}
Down elided m (go_on l p) = left elided l p < m

Down-line :
    (elided : List Text) (n : ℕ) (line : Text) (pos : ℕ)
    → Down elided (suc (length line - pos + weight (drop (suc n) elided))) (go_on (suc n) 0)
unfolding Down
Down-line elided n line pos = omega (arith, left-weight elided (suc n) 0)

left-at :
    (elided : List Text) (n : ℕ) (line : Text) (pos : ℕ)
    → at elided n ≡ some line
    → left elided n pos ≡ suc (length line - pos + weight (drop (suc n) elided))
unfolding left weight_of
left-at elided n line pos l = rw l

Down-place :
    (elided : List Text) (n : ℕ) (line : Text) (pos i : ℕ) (p : Place)
    → at elided n ≡ some line
    → pos < i
    → pos < length line
    → IsBehind n (i - 1) p
    → Down elided (suc (length line - pos + weight (drop (suc n) elided))) (behind_closed p)
unfolding Down
Down-place elided n line pos i p l h k = closed p.pos
  where
    closed :
        (o : Option ℕ)
        → Behind n (i - 1) p.linenum o
        → Down elided
            (suc (length line - pos + weight (drop (suc n) elided)))
            (elim o [ none ↦ return false | some end_pos ↦ go_on p.linenum end_pos ])
    closed none b = tt
    closed (some end) (inl below) =
        omega (arith, left-weight elided p.linenum end, weight-drop elided (suc n) p.linenum below)
    closed (some end) (inr (same, beyond)) =
        omega (arith, ap (λ m. left elided m end) same, left-at elided n line end l)

if-Down :
    (elided : List Text) (m : ℕ) (b : Bool) (x y : Onward)
    → Down elided m x
    → Down elided m y
    → Down elided m (if b then x else y)
if-Down elided m true x y h k = h
if-Down elided m false x y h k = k

Down-next :
    (elided : List Text) (n : ℕ) (line : Text) (pos i : ℕ)
    → at elided n ≡ some line
    → pos < i
    → pos < length line
    → Down elided (suc (length line - pos + weight (drop (suc n) elided))) (go_on n (i + 1))
unfolding Down
Down-next elided n line pos i l h k = omega (arith, left-at elided n line (i + 1) l)

token_round-Down :
    (elided : List Text) (n : ℕ) (line : Text) (pos i token : ℕ)
    → at elided n ≡ some line
    → pos < i
    → pos < length line
    → Down elided
        (suc (length line - pos + weight (drop (suc n) elided)))
        (token_round elided n line i token)
unfolding token_round Down close_at
token_round-Down elided n line pos i token l h k =
    let closed =
      Down-place elided n line pos i (close_at elided n line (i - 1)) l h k
        (close_at-IsBehind elided n line (i - 1)) in
    let onward =
      if-Down elided _ (leb (length line) (i + 1)) _ (go_on n (i + 1)) (Down-line elided n line pos)
        (Down-next elided n line pos i l h k) in
    if-Down elided _ (is_refusing token) (return false) _ tt (
      if-Down elided _ (is_accepting token) (return true) _ tt
        (if-Down elided _ (token == b'<') _ _ closed onward))

length-drop : (n : ℕ) (s : Text) → length (drop n s) ≡ length s - n
length-drop zero s = omega arith
length-drop (suc n) [] = omega arith
length-drop (suc n) (c ∷ s) = omega (arith, length-drop n s)

template_round-Down :
    (elided : List Text) (n pos : ℕ) → Down elided (left elided n pos) (template_round elided n pos)
unfolding template_round left weight_of Down Taken
template_round-Down elided n pos = on_line (at elided n) refl
  where
    on_token :
        (line : Text) (o : Option (ℕ × ℕ))
        → at elided n ≡ some line
        → Taken (drop pos line) o
        → Down elided (suc (length line - pos + weight (drop (suc n) elided))) (elim o [
          | none ↦ go_on (suc n) 0
          | some (k, token) ↦ token_round elided n line (pos + k) token
        ])
    on_token line none l t = Down-line elided n line pos
    on_token line (some (k, token)) l t =
        token_round-Down elided n line pos (pos + k) token l (omega (arith, t.0))
          (omega (arith, t.0, t.1, length-drop pos line))

    on_line :
        (o : Option Text)
        → at elided n ≡ o
        → Down elided (weight_of o pos (weight (drop (suc n) elided))) (elim o [
          | none ↦ return false
          | some line ↦ elim (argument_token (drop pos line)) [
            | none ↦ go_on (suc n) 0
            | some (k, token) ↦ token_round elided n line (pos + k) token
          ]
        ])
    on_line none l = tt
    on_line (some line) l =
        on_token line (argument_token (drop pos line)) l (argument_token-Taken (drop pos line))

-- With more fuel than what is left of the lines the loop returns.
on_round :
    (elided : List Text) (m : ℕ) (f : ℕ → ℕ → Option Bool) (r : Onward)
    → Down elided m r
    → ((l p : ℕ) → left elided l p < m → (b : Bool) × (f l p ≡ some b))
    → (b : Bool) × (elim r [ return b ↦ some b | go_on l p ↦ f l p ] ≡ some b)
unfolding Down
on_round elided m f (return b) d ends = (b, refl)
on_round elided m f (go_on l p) d ends = ends l p d

template_from-some :
    (f : ℕ) (elided : List Text) (n pos : ℕ)
    → left elided n pos < f
    → (b : Bool) × (template_from f elided n pos ≡ some b)
unfolding template_from
template_from-some zero elided n pos h = ground arith
template_from-some (suc f) elided n pos h =
    on_round elided (left elided n pos) (template_from f elided) (template_round elided n pos)
      (template_round-Down elided n pos) (λ l p less. template_from-some f elided l p (omega arith))

-- InTemplateArgumentList returns at every place of every file.
pub in_template_argument_list-some :
    (elided : List Text) (linenum pos : ℕ)
    → (b : Bool) × (in_template_argument_list elided linenum pos ≡ some b)
unfolding in_template_argument_list
in_template_argument_list-some elided linenum pos =
    template_from-some (suc (weight (drop linenum elided))) elided linenum pos
      (omega (arith, left-weight elided linenum pos))
