-- ===== src/Lint/Brackets.antt =====
-- FindEndOfExpressionInLine, CloseExpression, FindStartOfExpressionInLine and ReverseCloseExpression
-- of tools/cpplint.py. A stack is the list of its characters, the top first. A line is read from a
-- position on: the characters before it stand in reverse order, those from it on in their order.
pub mod Ahead
pub mod Balanced
pub mod Groups
pub mod Backward
pub mod Opening
pub mod Reverse
use vsm_cpp_sdk.Prelude.{
  ℕ, suc, ◌+◌, Bool, true, false, not, ◌&&◌, ◌||◌, Option, none, some, List, [], ◌∷◌, ◌==◌,
  if◌then◌else◌, length, take, drop,
}
use vsm_cpp_sdk.Text.{Text, codes, is_space, is_word}
use vsm_cpp_sdk.Text.Find.{starts_with, skip_spaces, at, reverse_onto, ◌>>=◌}

-- What a scan of one line returns: `found p` is (p, None), `failed` is (-1, None), and `pending s` is
-- (-1, s).
pub data Scan : Type 0 where
  found : ℕ → Scan
  failed : Scan
  pending : List ℕ → Scan

-- What a round of a scan does: it goes on with a stack, or returns.
pub data Round : Type 0 where
  next : List ℕ → Round
  leave : Scan → Round

unfoldable pub is_open : ℕ → Bool
is_open c = c == b'(' || c == b'[' || c == b'{'

unfoldable pub is_close : ℕ → Bool
is_close c = c == b')' || c == b']' || c == b'}'

-- An opening character and the closing one that belongs to it.
unfoldable pub pairs : ℕ → ℕ → Bool
pairs o c = (o == b'(' && c == b')') || (o == b'[' && c == b']') || (o == b'{' && c == b'}')

-- while stack and stack[-1] == mark: stack.pop()
unfoldable pub drop_marks : ℕ → List ℕ → List ℕ
drop_marks mark [] = []
drop_marks mark (t ∷ s) = let rest = drop_marks mark s in if t == mark then rest else t ∷ s

abbrev no_word : Text → Bool
no_word [] = true
no_word (c ∷ s) = not (is_word c)

-- Search(r'\boperator\s*$', line[0:i]), on the characters before `i` in reverse order.
unfoldable pub ends_operator : Text → Bool
unfolding skip_spaces starts_with is_space is_word
ends_operator before =
    let s = skip_spaces before in starts_with (codes "rotarepo") s && no_word (drop 8 s)

-- i > 0 and line[i - 1] == c
unfoldable pub follows : ℕ → Text → Bool
follows c [] = false
follows c (d ∷ before) = d == c

-- i > 0 and (line[i - 1] == '-' or Search(r'\boperator\s*$', line[0:i - 1]))
unfoldable pub is_arrow : Text → Bool
unfolding ends_operator
is_arrow [] = false
is_arrow (d ∷ before) = d == b'-' || ends_operator before

-- The stack without its top, which was the last one or not.
unfoldable pub popped : Scan → List ℕ → Round
popped r [] = leave r
popped r (t ∷ s) = next (t ∷ s)

-- A '<' behind a '<' ends a tentative template argument list.
unfoldable pub left_shift : List ℕ → Round
unfolding popped
left_shift [] = next []
left_shift (t ∷ s) = if t == b'<' then popped failed s else next (t ∷ s)

unfoldable pub end_less : Text → List ℕ → Round
unfolding left_shift follows ends_operator
end_less before stack =
    if follows b'<' before
    then left_shift stack
    else if ends_operator before
    then next stack
    else next (b'<' ∷ stack)

unfoldable pub end_greater : ℕ → Text → List ℕ → Round
unfolding is_arrow popped
end_greater i before [] = next []
end_greater i before (t ∷ s) =
    if is_arrow before
    then next (t ∷ s)
    else if t == b'<'
    then popped (found (i + 1)) s
    else next (t ∷ s)

-- A closing bracket against the top of the stack.
unfoldable pub match_top : (ℕ → Bool) → ℕ → List ℕ → Round
unfolding popped
match_top fits p [] = leave failed
match_top fits p (t ∷ s) = if fits t then popped (found p) s else leave failed

abbrev pub need_stack : List ℕ → Round
need_stack [] = leave failed
need_stack (t ∷ s) = next (t ∷ s)

-- One round of FindEndOfExpressionInLine, at the character `c` of the position `i`.
unfoldable pub end_step : ℕ → Text → ℕ → List ℕ → Round
unfolding is_open is_close pairs drop_marks end_less end_greater match_top
end_step i before c stack =
    if is_open c
    then next (c ∷ stack)
    else if c == b'<'
    then end_less before stack
    else if is_close c
    then match_top (λ o. pairs o c) (i + 1) (drop_marks b'<' stack)
    else if c == b'>'
    then end_greater i before stack
    else if c == b';'
    then need_stack (drop_marks b'<' stack)
    else next stack

-- FindEndOfExpressionInLine. It never skips a character.
unfoldable pub find_end : ℕ → Text → Text → List ℕ → Scan
unfolding end_step
find_end i before [] stack = pending stack
find_end i before (c ∷ rest) stack = elim (end_step i before c stack) [
  | next s ↦ find_end (suc i) (c ∷ before) rest s
  | leave r ↦ r
]

-- What CloseExpression and ReverseCloseExpression return: a line, its number, and a position, where
-- `none` is -1.
pub record Place : Type 0 where
  pub line : Text
  pub linenum : ℕ
  pub pos : Option ℕ

-- The loop of CloseExpression over the lines behind the first one; `total` is NumLines().
unfoldable pub close_lines : ℕ → Text → ℕ → List Text → List ℕ → Place
unfolding find_end
close_lines total line n [] stack = record { line = line; linenum = total; pos = none }
close_lines total line n (l ∷ ls) [] = record { line = line; linenum = total; pos = none }
close_lines total line n (l ∷ ls) (t ∷ s) = elim (find_end 0 [] l (t ∷ s)) [
  | found p ↦ record { line = l; linenum = suc n; pos = some p }
  | failed ↦ record { line = l; linenum = total; pos = none }
  | pending stack ↦ close_lines total l (suc n) ls stack
]

-- line[pos] not in '({[<' or Match(r'<[<=]', line[pos:])
unfoldable pub no_start : Text → Bool
unfolding is_open
no_start [] = true
no_start (c ∷ []) = not (is_open c || c == b'<')
no_start (c ∷ d ∷ s) = not (is_open c || c == b'<') || (c == b'<' && (d == b'<' || d == b'='))

-- CloseExpression on the elided lines; `none` is an IndexError.
unfoldable pub close_at : List Text → ℕ → Text → ℕ → Place
close_at elided linenum line pos =
    let total = length elided in
    if no_start (drop pos line)
    then record { line = line; linenum = total; pos = none }
    else elim (find_end pos (reverse_onto (take pos line) []) (drop pos line) []) [
      | found p ↦ record { line = line; linenum = linenum; pos = some p }
      | failed ↦ record { line = line; linenum = total; pos = none }
      | pending s ↦ close_lines total line linenum (drop (suc linenum) elided) s
    ]

unfoldable pub close_expression : List Text → ℕ → ℕ → Option Place
close_expression elided linenum pos = do
  line ← at elided linenum
  c ← at line pos
  some (close_at elided linenum line pos)
