-- ===== src/Lint/Brackets/Ahead.antt =====
-- What CloseExpression of tools/cpplint.py finds is behind the place that it begins at.
use vsm_cpp_sdk.Prelude.{
  ℕ, suc, ◌+◌, ◌≤◌, ◌<◌, ◌≡◌, refl, Bool, true, false, Option, none, some, List, [], ◌∷◌, ltb,
  length, drop, take, if◌then◌else◌, arith, inl, inr, ◌⊎◌,
}
use vsm_cpp_sdk.Text.{Text}
use vsm_cpp_sdk.Text.Find.{reverse_onto}
use vsm_cpp_sdk.Lint.Brackets.{
  Place, no_start, close_at, close_lines, find_end, Scan, found, failed, pending, Round, next,
  leave, end_step, pairs, popped, left_shift, end_less, end_greater, match_top, drop_marks,
  need_stack,
}

-- A scan that finds an end finds it behind the character `i`.
ahead : ℕ → Scan → Bool
ahead i (found p) = ltb i p
ahead i r = true

ahead_round : ℕ → Round → Bool
ahead_round i (next s) = true
ahead_round i (leave r) = ahead i r

popped-ahead :
    (i : ℕ) (r : Scan) (s : List ℕ) → ahead i r ≡ true → ahead_round i (popped r s) ≡ true
unfolding popped ahead_round
popped-ahead i r [] h = h
popped-ahead i r (t ∷ s) h = refl

left_shift-ahead : (i : ℕ) (s : List ℕ) → ahead_round i (left_shift s) ≡ true
unfolding left_shift ahead_round
left_shift-ahead i [] = refl
left_shift-ahead i (t ∷ s) = ground (arith, popped-ahead i failed s (unfold ahead in refl))

end_less-ahead : (i : ℕ) (b : Text) (s : List ℕ) → ahead_round i (end_less b s) ≡ true
unfolding end_less ahead_round
end_less-ahead i b s = ground (arith, left_shift-ahead i s)

end_greater-ahead : (i : ℕ) (b : Text) (s : List ℕ) → ahead_round i (end_greater i b s) ≡ true
unfolding end_greater ahead_round ahead
end_greater-ahead i b [] = refl
end_greater-ahead i b (t ∷ s) = ground (arith, popped-ahead i (found (i + 1)) s)

match_top-ahead :
    (i : ℕ) (fits : ℕ → Bool) (s : List ℕ) → ahead_round i (match_top fits (i + 1) s) ≡ true
unfolding match_top ahead_round ahead
match_top-ahead i fits [] = refl
match_top-ahead i fits (t ∷ s) = ground (arith, popped-ahead i (found (i + 1)) s)

need_stack-ahead : (i : ℕ) (s : List ℕ) → ahead_round i (need_stack s) ≡ true
unfolding ahead_round ahead
need_stack-ahead i [] = refl
need_stack-ahead i (t ∷ s) = refl

end_step-ahead : (i : ℕ) (b : Text) (c : ℕ) (s : List ℕ) → ahead_round i (end_step i b c s) ≡ true
unfolding end_step ahead_round
end_step-ahead i b c s = ground (
  arith,
  end_less-ahead i b s,
  end_greater-ahead i b s,
  match_top-ahead i (λ o. pairs o c) (drop_marks b'<' s),
  need_stack-ahead i (drop_marks b'<' s),
)

ahead-suc : (i : ℕ) (r : Scan) → ahead (suc i) r ≡ true → ahead i r ≡ true
unfolding ahead
ahead-suc i (found p) h = ground arith
ahead-suc i failed h = refl
ahead-suc i (pending s) h = refl

round_on :
    (i : ℕ) (scan : List ℕ → Scan)
    → ((s : List ℕ) → ahead i (scan s) ≡ true)
    → (r : Round) → ahead_round i r ≡ true
    → ahead i (elim r [ next s ↦ scan s | leave q ↦ q ]) ≡ true
unfolding ahead_round
round_on i scan h (next s) e = h s
round_on i scan h (leave q) e = e

find_end-ahead : (i : ℕ) (b rest : Text) (s : List ℕ) → ahead i (find_end i b rest s) ≡ true
unfolding find_end ahead
find_end-ahead i b [] s = refl
find_end-ahead i b (c ∷ rest) s =
    round_on i (find_end (suc i) (c ∷ b) rest)
      (λ t. ahead-suc i (find_end (suc i) (c ∷ b) rest t) (find_end-ahead (suc i) (c ∷ b) rest t))
      (end_step i b c s) (end_step-ahead i b c s)

-- The place behind an expression that begins at a line and a position is behind them.
abbrev pub Behind : ℕ → ℕ → ℕ → Option ℕ → Type 0
Behind n i l none = Unit {0}
Behind n i l (some end) = (n < l) ⊎ ((l ≡ n) × (i < end))

abbrev pub IsBehind : ℕ → ℕ → Place → Type 0
IsBehind n i p = Behind n i p.linenum p.pos

close_lines-IsBehind :
    (total : ℕ) (line : Text) (n : ℕ) (ls : List Text) (s : List ℕ) (m i : ℕ)
    → m ≤ n
    → IsBehind m i (close_lines total line n ls s)
unfolding close_lines
close_lines-IsBehind total line n [] s m i h = tt
close_lines-IsBehind total line n (l ∷ ls) [] m i h = tt
close_lines-IsBehind total line n (l ∷ ls) (t ∷ s) m i h =
    behind (λ stack. close_lines-IsBehind total l (suc n) ls stack m i (omega arith))
      (find_end 0 [] l (t ∷ s))
  where
    behind :
        ((stack : List ℕ) → IsBehind m i (close_lines total l (suc n) ls stack))
        → (r : Scan)
        → IsBehind m i (elim r [
          | found p ↦ record { line = l; linenum = suc n; pos = some p }
          | failed ↦ record { line = l; linenum = total; pos = none }
          | pending stack ↦ close_lines total l (suc n) ls stack
        ])
    behind on (found p) = inl (omega arith)
    behind on failed = tt
    behind on (pending stack) = on stack

pub close_at-IsBehind :
    (elided : List Text) (n : ℕ) (line : Text) (pos : ℕ)
    → IsBehind n pos (close_at elided n line pos)
unfolding close_at ahead
close_at-IsBehind elided n line pos =
    at_start (no_start (drop pos line))
      (find_end pos (reverse_onto (take pos line) []) (drop pos line) [])
      (find_end-ahead pos (reverse_onto (take pos line) []) (drop pos line) [])
  where
    at_scan :
        (r : Scan)
        → ahead pos r ≡ true
        → IsBehind n pos (elim r [
          | found p ↦ record { line = line; linenum = n; pos = some p }
          | failed ↦ record { line = line; linenum = length elided; pos = none }
          | pending s ↦ close_lines (length elided) line n (drop (suc n) elided) s
        ])
    at_scan (found p) h = inr (refl, ground (arith, h))
    at_scan failed h = tt
    at_scan (pending s) h =
        close_lines-IsBehind (length elided) line n (drop (suc n) elided) s n pos (omega arith)

    at_start :
        (b : Bool) (r : Scan)
        → ahead pos r ≡ true
        → IsBehind n pos (
            if b then record { line = line; linenum = length elided; pos = none } else elim r [
              | found p ↦ record { line = line; linenum = n; pos = some p }
              | failed ↦ record { line = line; linenum = length elided; pos = none }
              | pending s ↦ close_lines (length elided) line n (drop (suc n) elided) s
            ])
    at_start true r h = tt
    at_start false r h = at_scan r h
