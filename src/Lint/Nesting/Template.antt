-- ===== src/Lint/Nesting/Template.antt =====
-- NestingState.InTemplateArgumentList of tools/cpplint.py.
use vsm_cpp_sdk.Prelude.{
  ℕ, zero, suc, ◌+◌, ◌-◌, Bool, true, false, ◌||◌, Option, none, some, List, [], ◌∷◌, ◌==◌, leb,
  length, drop, if◌then◌else◌,
}
use vsm_cpp_sdk.Text.{Text}
use vsm_cpp_sdk.Text.Find.{at}
use vsm_cpp_sdk.Lint.Brackets.{Place, close_at}

-- What a round of the loop comes to: it returns, or goes on at a line and a position.
pub data Onward : Type 0 where
  return : Bool → Onward
  go_on : ℕ → ℕ → Onward

-- token in ('{', '}', ';') and token in ('>', '=', '[', ']', '.')
unfoldable pub is_refusing : ℕ → Bool
is_refusing c = c == b'{' || c == b'}' || c == b';'

unfoldable pub is_accepting : ℕ → Bool
is_accepting c = c == b'>' || c == b'=' || c == b'[' || c == b']' || c == b'.'

-- Match(r'^[^{};=\[\]\.<>]*(.)', s) on a text without line feeds: the length of what is matched and
-- its last character, the first one of the class or else the last one of the text.
unfoldable pub argument_token : Text → Option (ℕ × ℕ)
unfolding is_refusing is_accepting
argument_token [] = none
argument_token (c ∷ s) = elim (is_refusing c || is_accepting c || c == b'<') [
  | true ↦ some (1, c)
  | false ↦ elim (argument_token s) [ none ↦ some (1, c) | some (n, d) ↦ some (suc n, d) ]
]

-- A single '<': where the '>' that closes it leads to.
abbrev pub behind_closed : Place → Onward
behind_closed p = elim p.pos [ none ↦ return false | some end_pos ↦ go_on p.linenum end_pos ]

-- The round behind a match: `pos` is behind its last character `token`.
unfoldable pub token_round : List Text → ℕ → Text → ℕ → ℕ → Onward
unfolding is_refusing is_accepting close_at
token_round elided linenum line pos token =
    if is_refusing token
    then return false
    else if is_accepting token
    then return true
    else if token == b'<'
    then behind_closed (close_at elided linenum line (pos - 1))
    else if leb (length line) (pos + 1)
    then go_on (suc linenum) 0
    else go_on linenum (pos + 1)

-- A round of the loop.
unfoldable pub template_round : List Text → ℕ → ℕ → Onward
unfolding argument_token token_round
template_round elided linenum pos = elim (at elided linenum) [
  | none ↦ return false
  | some line ↦ elim (argument_token (drop pos line)) [
    | none ↦ go_on (suc linenum) 0
    | some (n, token) ↦ token_round elided linenum line (pos + n) token
  ]
]

-- The loop, with the rounds that are left as fuel; `none` when they run out.
unfoldable pub template_from : ℕ → List Text → ℕ → ℕ → Option Bool
unfolding template_round
template_from zero elided linenum pos = none
template_from (suc f) elided linenum pos = elim (template_round elided linenum pos) [
  | return b ↦ some b
  | go_on l p ↦ template_from f elided l p
]

-- The characters and the lines from a place on.
unfoldable pub weight : List Text → ℕ
weight [] = 0
weight (l ∷ ls) = suc (length l + weight ls)

-- InTemplateArgumentList; `none` is a loop that does not end
unfoldable pub in_template_argument_list : List Text → ℕ → ℕ → Option Bool
unfolding template_from weight
in_template_argument_list elided linenum pos =
    template_from (suc (weight (drop linenum elided))) elided linenum pos
