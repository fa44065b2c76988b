-- ===== src/Lint/Brackets/Backward.antt =====
-- FindStartOfExpressionInLine and ReverseCloseExpression of tools/cpplint.py. The characters up to the
-- position stand in reverse order, that of the position first; those behind it in their order.
use vsm_cpp_sdk.Prelude.{
  ℕ, suc, Bool, false, not, ◌&&◌, ◌||◌, Option, none, some, List, [], ◌∷◌, ◌==◌, length, take,
  if◌then◌else◌, ◌≡◌, refl,
}
use vsm_cpp_sdk.Text.{Text, codes, is_space}
use vsm_cpp_sdk.Text.Find.{at, reverse_onto, ◌>>=◌}
use vsm_cpp_sdk.Lint.Brackets.{
  Scan, found, failed, pending, Round, next, leave, is_open, is_close, pairs, drop_marks, popped,
  match_top, need_stack, follows, ends_operator, Place,
}

-- What a round does: it goes one character back, or two, or returns.
pub data Turn : Type 0 where
  back : List ℕ → Turn
  hop : List ℕ → Turn
  halt : Scan → Turn

abbrev pub turn : Round → Turn
turn (next s) = back s
turn (leave r) = halt r

-- line[i - 1] and line[i:] match r'\s>=\s', where line[i] is '>'
unfoldable pub spaced_ge : ℕ → Text → Bool
spaced_ge d [] = false
spaced_ge d (c ∷ []) = false
spaced_ge d (c ∷ e ∷ after) = is_space d && c == b'=' && is_space e

-- A '>' of "->", " >= " or "operator>".
unfoldable pub is_operator : Text → Text → Bool
unfolding spaced_ge ends_operator
is_operator [] after = false
is_operator (d ∷ before) after = d == b'-' || spaced_ge d after || ends_operator (d ∷ before)

unfoldable pub start_greater : Text → Text → List ℕ → Turn
unfolding is_operator
start_greater before after stack =
    if is_operator before after then hop stack else back (b'>' ∷ stack)

unfoldable pub start_less : Text → List ℕ → Turn
unfolding popped
start_less before [] = back []
start_less before (t ∷ s) =
    if t == b'>' then turn (popped (found (length before)) s) else back (t ∷ s)

-- One round of FindStartOfExpressionInLine; the position is the length of `before`.
unfoldable pub start_step : Text → ℕ → Text → List ℕ → Turn
unfolding is_open is_close pairs drop_marks start_greater start_less match_top follows
start_step before c after stack =
    if is_close c
    then back (c ∷ stack)
    else if c == b'>'
    then start_greater before after stack
    else if c == b'<'
    then (if follows b'<' before then hop stack else start_less before stack)
    else if is_open c
    then turn (match_top (λ o. pairs c o) (length before) (drop_marks b'>' stack))
    else if c == b';'
    then turn (need_stack (drop_marks b'>' stack))
    else back stack

-- FindStartOfExpressionInLine
unfoldable pub find_start : Text → Text → List ℕ → Scan
unfolding start_step
find_start [] after stack = pending stack
find_start (c ∷ []) after stack = elim (start_step [] c after stack) [
  | back s ↦ pending s
  | hop s ↦ pending s
  | halt r ↦ r
]
find_start (c ∷ d ∷ before) after stack = elim (start_step (d ∷ before) c after stack) [
  | back s ↦ find_start (d ∷ before) (c ∷ after) s
  | hop s ↦ find_start before (d ∷ c ∷ after) s
  | halt r ↦ r
]

-- The loop of ReverseCloseExpression over the lines above the first one, the nearest first.
unfoldable pub open_lines : Text → List Text → List ℕ → Place
unfolding find_start
open_lines line [] stack = record { line = line; linenum = 0; pos = none }
open_lines line (l ∷ ls) [] = record { line = line; linenum = 0; pos = none }
open_lines line (l ∷ ls) (t ∷ s) = elim (find_start (reverse_onto l []) [] (t ∷ s)) [
  | found p ↦ record { line = l; linenum = length ls; pos = some p }
  | failed ↦ record { line = l; linenum = 0; pos = none }
  | pending stack ↦ open_lines l ls stack
]

-- The characters up to a position, in reverse order, and those behind it.
unfoldable pub cut : Text → ℕ → Text → Text × Text
cut before pos [] = (before, [])
cut before ℕ.zero (c ∷ s) = (c ∷ before, s)
cut before (suc n) (c ∷ s) = cut (c ∷ before) n s

unfoldable pub open_at : List Text → ℕ → Text → ℕ → ℕ → Place
open_at elided linenum line pos c =
    let (before, after) = cut [] pos line in
    if not (is_close c || c == b'>')
    then record { line = line; linenum = 0; pos = none }
    else elim (find_start before after []) [
      | found p ↦ record { line = line; linenum = linenum; pos = some p }
      | failed ↦ record { line = line; linenum = 0; pos = none }
      | pending s ↦ open_lines line (reverse_onto (take linenum elided) []) s
    ]

-- ReverseCloseExpression on the elided lines; `none` is an IndexError.
unfoldable pub reverse_close_expression : List Text → ℕ → ℕ → Option Place
reverse_close_expression elided linenum pos = do
  line ← at elided linenum
  c ← at line pos
  some (open_at elided linenum line pos c)

opened :
    reverse_close_expression (codes "f(a->b," ∷ codes "  c >= d)" ∷ []) 1 8
    ≡ some (record { line = codes "f(a->b,"; linenum = 0; pos = some 1 })
unfolding reverse_close_expression open_at cut find_start open_lines at reverse_onto is_space
opened = refl
