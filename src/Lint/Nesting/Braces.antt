-- ===== src/Lint/Nesting/Braces.antt =====
-- The last loop of NestingState.Update of tools/cpplint.py on text with balanced braces.
use vsm_cpp_sdk.Prelude.{
  ℕ, ◌≡◌, refl, ap, ◌∙◌, true, false, List, [], ◌∷◌, ◌++◌, append-nil, if◌then◌else◌, Bool-cases,
  inl, inr,
}
use vsm_cpp_sdk.Text.{Text}
use vsm_cpp_sdk.Text.Regex.{matches}
use vsm_cpp_sdk.Text.Regex.Syntax.{regex}
use vsm_cpp_sdk.Lint.Blocks.{
  Block, Here, new_block, new_extern_c, match_asm, block_asm, no_asm, check_end,
}
use vsm_cpp_sdk.Lint.Nesting.{seen_open_brace}
use vsm_cpp_sdk.Lint.Nesting.Update.{
  is_token, open_brace, drop_unseen, close_brace, on_token, consume,
}

-- Text whose braces are balanced, with ';' and ')' wherever they are.
pub data Nested : Type 0 where
  done : Nested
  other : (c : ℕ) → is_token c ≡ false → Nested → Nested
  semicolon parenthesis : Nested → Nested
  braces : Nested → Nested → Nested

-- The text in front of another one.
unfoldable pub text_of : Nested → Text → Text
text_of done s = s
text_of (other c _ t) s = c ∷ text_of t s
text_of (semicolon t) s = b';' ∷ text_of t s
text_of (parenthesis t) s = b')' ∷ text_of t s
text_of (braces t u) s = b'{' ∷ text_of t (b'}' ∷ text_of u s)

-- A block that an opening brace begins; at its end nothing is reported.
abbrev Begins : ℕ → Text → List Block → Block → Type 0
Begins n line s b =
    (open_brace n line s ≡ b ∷ s)
    × (b.seen_open_brace ≡ true)
    × ((here : Here) → check_end here b ≡ [])

open_brace-Begins :
    (n : ℕ) (line : Text) (s : List Block)
    → seen_open_brace s ≡ true
    → (b : Block) × Begins n line s b
unfolding open_brace check_end new_extern_c new_block
open_brace-Begins n line s h =
    elim (Bool-cases (matches (regex "^extern\\s*\"[^\"]*\"\\s*\\{") line)) [
      | inl e ↦ (new_extern_c n, (rw (h, e) refl, refl, λ here. refl))
      | inr e ↦ (
        record (new_block n true) { inline_asm = if match_asm line then block_asm else no_asm },
        (rw (h, e) refl, refl, λ here. refl),
      )
    ]

drop_unseen-seen : (s : List Block) → seen_open_brace s ≡ true → drop_unseen s ≡ s
unfolding drop_unseen seen_open_brace
drop_unseen-seen [] h = refl
drop_unseen-seen (b ∷ bs) h = rw h refl

consume-other :
    (here : Here) (c : ℕ) (line s : Text) (stack : List Block)
    → is_token c ≡ false
    → consume here line (c ∷ s) stack ≡ consume here line s stack
unfolding consume
consume-other here c line s stack k = rw (k, consume) refl

consume-open :
    (here : Here) (line s : Text) (stack : List Block)
    → consume here line (b'{' ∷ s) stack ≡ consume here s s (open_brace here.linenum line stack)
unfolding consume is_token on_token
consume-open here line s stack = refl

consume-close :
    (here : Here) (line s : Text) (b : Block) (bs : List Block)
    → consume here line (b'}' ∷ s) (b ∷ bs)
      ≡ ((consume here s s bs).0, check_end here b ++ (consume here s s bs).1)
unfolding consume is_token on_token close_brace
consume-close here line s b bs = refl

seen_top : (b : Block) (s : List Block) → b.seen_open_brace ≡ true → seen_open_brace (b ∷ s) ≡ true
unfolding seen_open_brace
seen_top b s h = h

-- The loop passes balanced text; it goes on in a line that begins somewhere in it.
passes :
    (here : Here) (t : Nested) (line s : Text) (stack : List Block)
    → seen_open_brace stack ≡ true
    → (l : Text) × (consume here line (text_of t s) stack ≡ consume here l s stack)
unfolding consume text_of is_token on_token
passes here done line s stack h = (line, refl)
passes here (other c k t) line s stack h =
    let (l, e) = passes here t line s stack h in
    (l, consume-other here c line (text_of t s) stack k ∙ e)
passes here (semicolon t) line s stack h =
    let rest = text_of t s in
    let (l, e) = passes here t rest s stack h in
    (l, ap (λ u. consume here rest rest u) (drop_unseen-seen stack h) ∙ e)
passes here (parenthesis t) line s stack h =
    let rest = text_of t s in
    let (l, e) = passes here t rest s stack h in
    (l, ap (λ u. consume here rest rest u) (drop_unseen-seen stack h) ∙ e)
passes here (braces t u) line s stack h =
    let (b, (opened, seen, silent)) = open_brace-Begins here.linenum line stack h in
    let behind = text_of u s in
    let inside = text_of t (b'}' ∷ behind) in
    let (l, e) = passes here t inside (b'}' ∷ behind) (b ∷ stack) (seen_top b stack seen) in
    let (l', e') = passes here u behind s stack h in
    let closed : consume here l (b'}' ∷ behind) (b ∷ stack) ≡ consume here behind behind stack =
      consume-close here l behind b stack
      ∙ ap (λ r. ((consume here behind behind stack).0, r ++ (consume here behind behind stack).1))
          (silent here) in
    (
      l',
      consume-open here line inside stack
          ∙ ap (λ u. consume here inside inside u) opened
          ∙ e
          ∙ closed
          ∙ e',
    )

consume_all :
    (here : Here) (line : Text) (t : Nested) (stack : List Block)
    → seen_open_brace stack ≡ true
    → consume here line (text_of t []) stack ≡ (stack, [])
unfolding consume
consume_all here line t stack h = (passes here t line [] stack h).1

open-unseen :
    (n : ℕ) (line : Text) (b : Block) (s : List Block)
    → b.seen_open_brace ≡ false
    → open_brace n line (b ∷ s) ≡ record b { seen_open_brace = true } ∷ s
unfolding open_brace seen_open_brace
open-unseen n line b s h = rw h refl

-- On a line with balanced braces the loop leaves a stack whose top has seen its brace as it was, and
-- reports nothing. Where the top waits for its brace, the first brace is its own: the block ends at
-- the brace that closes this one, with the reports of CheckEnd alone.
pub consume-Nested :
    (here : Here) (line : Text) (t u : Nested) (b : Block) (stack : List Block)
    → seen_open_brace stack ≡ true
    → b.seen_open_brace ≡ false
    → (consume here line (text_of t []) stack ≡ (stack, []))
      × (consume here line (text_of (braces t u) []) (b ∷ stack)
          ≡ (stack, check_end here (record b { seen_open_brace = true })))
unfolding text_of
consume-Nested here line t u b stack h unseen =
    let inside = text_of t (b'}' ∷ text_of u []) in
    let opened = record b { seen_open_brace = true } in
    let (l, e) =
      passes here t inside (b'}' ∷ text_of u []) (opened ∷ stack)
        (unfold seen_open_brace in refl) in
    let rest = consume_all here (text_of u []) u stack h in
    (
      consume_all here line t stack h,
      consume-open here line inside (b ∷ stack)
          ∙ ap (λ s. consume here inside inside s) (open-unseen here.linenum line b stack unseen)
          ∙ e
          ∙ consume-close here l (text_of u []) opened stack
          ∙ ap (λ r. (r.0, check_end here opened ++ r.1)) rest
          ∙ ap (λ r. (stack, r)) (append-nil (check_end here opened)),
    )
