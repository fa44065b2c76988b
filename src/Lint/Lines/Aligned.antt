-- ===== src/Lint/Lines/Aligned.antt =====
-- CleansedLines of tools/cpplint.py is made for every file, and its lists of lines are aligned.
use vsm_cpp_sdk.Prelude.{
  ℕ, zero, suc, ◌+◌, ◌-◌, ◌<◌, ◌≡◌, refl, ap, ◌∙◌, false, Option, none, some, List, [], ◌∷◌, ◌++◌,
  length, length-append, take, map, arith, Bool-cases, Option-cases, inl, inr,
}
use vsm_cpp_sdk.Text.{Text, codes}
use vsm_cpp_sdk.Text.Find.{skip_spaces}
use vsm_cpp_sdk.Lint.Strings.{collapse_strings}
use vsm_cpp_sdk.Lint.Strings.Collapsed.{collapse_strings-Collapsed}
use vsm_cpp_sdk.Lint.Cleanse.{cleanse_comments}
use vsm_cpp_sdk.Lint.Lines.{
  search_raw, is_commented, behind_text, RawRound, stop, again, raw_found, raw_round, raw_from,
  raw_line, raw_over, cleanse_raw_strings, CleansedLines, elide, cleansed_lines,
}
use vsm_cpp_sdk.Lint.Lines.Raw.{
  Found, not_found, found, search_raw-Found, After, never, after, behind_text-After,
}

-- A round ends the loop, or leaves a line shorter than `n`.
data Next (n : ℕ) : RawRound → Type 0 where
  stops : (l : Text) (d : Option Text) → Next n (stop l d)
  goes_on : (l : Text) → length l < n → Next n (again l)

behind-Next :
    (n : ℕ) (before d rest : Text) {o : Option Text}
    → length before + length rest < n
    → After (b')' ∷ (d ++ (b'"' ∷ []))) (length rest) o
    → Next n (elim o [
      | none ↦ stop (before ++ codes "\"\"") (some (b')' ∷ (d ++ (b'"' ∷ []))))
      | some r ↦ again (before ++ (codes "\"\"" ++ r))
    ])
behind-Next n before d rest h never = stops _ _
behind-Next n before d rest h (after r k) =
    goes_on (before ++ (codes "\"\"" ++ r))
      (omega (arith, length-append before (codes "\"\"" ++ r), length-append d (b'"' ∷ [])))

raw_found-Next :
    (n : ℕ) (line before d rest : Text)
    → length before + length rest < n
    → Next n (raw_found line (before, (d, rest)))
unfolding raw_found
raw_found-Next n line before d rest h = elim (Bool-cases (is_commented before)) [
  | inl c ↦ rw c (stops line none)
  | inr c ↦
      rw c (behind-Next n before d rest h (behind_text-After (b')' ∷ (d ++ (b'"' ∷ []))) rest))
]

raw_round-Next :
    (line : Text) {o : Option (Text × (Text × Text))}
    → search_raw false line ≡ o
    → Found (length line) o
    → Next (length line) (raw_round line)
unfolding raw_round
raw_round-Next line e not_found = rw (e, raw_round) (stops line none)
raw_round-Next line e (found before d rest h) =
    rw (e, raw_round) (raw_found-Next (length line) line before d rest h)

abbrev Runs : ℕ → Type 0
Runs f = (line : Text) → length line < f → (r : Text × Option Text) × (raw_from f line ≡ some r)

round-Runs :
    (f : ℕ)
    → Runs f
    → (line : Text) → length line < suc f
    → {r : RawRound} → raw_round line ≡ r
    → Next (length line) r
    → (r : Text × Option Text) × (raw_from (suc f) line ≡ some r)
unfolding raw_from
round-Runs f ih line h e (stops l d) = ((l, d), rw (e, raw_from) refl)
round-Runs f ih line h e (goes_on l k) =
    let (r, run) = ih l (omega arith) in (r, rw (e, raw_from) run)

raw_from-Runs : (f : ℕ) → Runs f
raw_from-Runs zero line h = elim h [ ]
raw_from-Runs (suc f) line h =
    round-Runs f (raw_from-Runs f) line h refl
      (raw_round-Next line refl (search_raw-Found false line))

raw_line-some :
    (o : Option Text) (line : Text) → (r : Text × Option Text) × (raw_line o line ≡ some r)
unfolding raw_line
raw_line-some none line = raw_from-Runs (suc (length line)) line (omega arith)
raw_line-some (some d) line = elim (Option-cases (behind_text d line)) [
  | inl e ↦ ((codes "\"\"", some d), rw (e, raw_line) refl)
  | inr (r, e) ↦
      let l = take (length line - length (skip_spaces line)) line ++ (codes "\"\"" ++ r) in
      let (out, run) = raw_from-Runs (suc (length l)) l (omega arith) in (out, rw (e, raw_line) run)
]

pub raw_over-length :
    (o : Option Text) (ls : List Text)
    → (out : List Text) × (raw_over o ls ≡ some out) × (length out ≡ length ls)
unfolding raw_over
raw_over-length o [] = ([], refl, refl)
raw_over-length o (l ∷ ls) =
    let ((line, next), e) = raw_line-some o l in
    let (rest, e', n) = raw_over-length next ls in (line ∷ rest, rw (e, e') refl, omega arith)

-- Each line with its strings collapsed and then its comments removed.
pub data Elided : List Text → List Text → Type 0 where
  no_line : Elided [] []
  line :
      {ls es : List Text} (l t : Text)
      → collapse_strings l ≡ some t
      → Elided ls es
      → Elided (l ∷ ls) (cleanse_comments t ∷ es)

elide-Elided :
    (ls : List Text)
    → (out : List Text) × (elide ls ≡ some out) × Elided ls out × (length out ≡ length ls)
unfolding elide
elide-Elided [] = ([], refl, no_line, refl)
elide-Elided (l ∷ ls) =
    let (t, e, c) = collapse_strings-Collapsed l in
    let (es, e', d, n) = elide-Elided ls in
    (cleanse_comments t ∷ es, rw (e, e') refl, line l t e d, omega arith)

length-map : (f : Text → Text) (ls : List Text) → length (map f ls) ≡ length ls
length-map f [] = refl
length-map f (l ∷ ls) = ap suc (length-map f ls)

-- CleansedLines is made for every file. Its four lists have the length of the file, `raw_lines` is the
-- file, `lines` is the one without raw strings with the comments of each line removed, and `elided`
-- that with the strings of each line collapsed and then its comments removed.
pub cleansed_lines-Elided :
    (ls : List Text)
    → (c : CleansedLines) × (cleansed_lines ls ≡ some c)
      × (c.raw_lines ≡ ls)
      × (cleanse_raw_strings ls ≡ some c.lines_without_raw_strings)
      × (c.lines ≡ map cleanse_comments c.lines_without_raw_strings)
      × Elided c.lines_without_raw_strings c.elided
      × (c.num_lines ≡ length ls)
      × (length c.lines_without_raw_strings ≡ length ls)
      × (length c.lines ≡ length ls)
      × (length c.elided ≡ length ls)
unfolding cleansed_lines cleanse_raw_strings
cleansed_lines-Elided ls =
    let (without, e, n) = raw_over-length none ls in
    let (es, e', d, n') = elide-Elided without in
    (
      record {
        elided = es;
        lines = map cleanse_comments without;
        raw_lines = ls;
        num_lines = length ls;
        lines_without_raw_strings = without;
      },
      rw (e, e') refl,
      refl,
      e,
      refl,
      d,
      refl,
      n,
      length-map cleanse_comments without ∙ n,
      n' ∙ n,
    )
