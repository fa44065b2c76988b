-- ===== src/Lint/Brackets/Groups.antt =====
-- The scan of FindEndOfExpressionInLine over bracketed groups: angle brackets, arrows, shifts and
-- semicolons inside a group never disturb the matching of its round, square and curly brackets.
use native.Mathlib.Numerals.{add-one}
use vsm_cpp_sdk.Prelude.{
  ℕ, zero, suc, ◌+◌, ◌≡◌, refl, sym, ap, ◌∙◌, subst, false, none, some, cons-ne-nil, drop,
  drop-append_length, take-append_length, List, [], ◌∷◌, ◌++◌, length, arith,
}
use vsm_cpp_sdk.Text.{Text}
use vsm_cpp_sdk.Text.Find.{at, at-append, reverse_onto}
use vsm_cpp_sdk.Lint.Brackets.Balanced.{
  Bracket, round, square, curly, opening, closing, Balanced, done, plain, line_end, group, lines_of,
  breaks, column, angles, popped-angles, end_step-Above, open_step, close_step,
}
use vsm_cpp_sdk.Lint.Brackets.{
  found, failed, pending, next, leave, is_open, popped, end_step, find_end, Place, close_lines,
  close_at, close_expression, no_start,
}

-- CloseExpression from the middle of a line on.
scan_on : ℕ → Text → ℕ → ℕ → Text → Text → List Text → List ℕ → Place
scan_on total line n i before rest ls stack = elim (find_end i before rest stack) [
  | found p ↦ record { line = line; linenum = n; pos = some p }
  | failed ↦ record { line = line; linenum = total; pos = none }
  | pending s ↦ close_lines total line n ls s
]

scan_on-next :
    (total : ℕ) (line : Text) (n i : ℕ) (before : Text) (c : ℕ) (rest : Text) (ls : List Text)
    (stack s : List ℕ)
    → end_step i before c stack ≡ next s
    → scan_on total line n i before (c ∷ rest) ls stack
      ≡ scan_on total line n (suc i) (c ∷ before) rest ls s
unfolding scan_on find_end
scan_on-next total line n i before c rest ls stack s e = rw (e, find_end, scan_on) refl

scan_on-line :
    (total : ℕ) (line : Text) (n i : ℕ) (before l : Text) (ls : List Text) (m : ℕ) (b : Bracket)
    (s : List ℕ)
    → scan_on total line n i before [] (l ∷ ls) (angles m (opening b ∷ s))
      ≡ scan_on total l (suc n) 0 [] l ls (angles m (opening b ∷ s))
unfolding scan_on find_end close_lines angles
scan_on-line total line n i before l ls zero b s = refl
scan_on-line total line n i before l ls (suc m) b s = refl

scan_on-close :
    (total : ℕ) (line : Text) (n i : ℕ) (before rest : Text) (ls : List Text) (m : ℕ) (b : Bracket)
    → scan_on total line n i before (closing b ∷ rest) ls (angles m (opening b ∷ []))
      ≡ record { line = line; linenum = n; pos = some (suc i) }
unfolding scan_on find_end
scan_on-close total line n i before rest ls m b =
    let e : end_step i before (closing b) (angles m (opening b ∷ [])) ≡ leave (found (suc i)) =
      close_step i before m b [] ∙ (unfold popped in ap (λ p. leave (found p)) (add-one i)) in
    rw (e, find_end, scan_on) refl

-- `line` is the line number `n` of the file, and `ls` are those below it.
abbrev Stands : List Text → ℕ → Text → List Text → Type 0
Stands rows n line ls = (at rows n ≡ some line) × (drop (suc n) rows ≡ ls)

Stands-suc :
    (rows : List Text) (n : ℕ) (l : Text) (ls : List Text)
    → drop (suc n) rows ≡ l ∷ ls
    → Stands rows (suc n) l ls
unfolding at
Stands-suc [] n l ls h = absurd (cons-ne-nil l ls (sym h))
Stands-suc (x ∷ []) zero l ls h = absurd (cons-ne-nil l ls (sym h))
Stands-suc (x ∷ y ∷ rows) zero l ls h = (cc, cc)
Stands-suc (x ∷ rows) (suc n) l ls h = Stands-suc rows n l ls h

module _ (rows : List Text) (total : ℕ) where
  -- The scan is in the line number `n` at the column `i`, with an opening bracket waiting.
  abbrev Reached : ℕ → ℕ → Bracket → List ℕ → Text → List Text → Place → Type 0
  Reached n i b s l ls r =
      (line : Text) × (before : Text) × (m : ℕ) × (r
        ≡ scan_on total line n i before l ls (angles m (opening b ∷ s)))
      × Stands rows n line ls

  -- From in front of a balanced text the scan comes behind it.
  scan_on-Reached :
      (t : Balanced) (line : Text) (n i : ℕ) (before : Text) (m : ℕ) (b : Bracket) (s : List ℕ)
      (l : Text) (ls : List Text)
      → Stands rows n line (lines_of t l ls).1
      → Reached (n + breaks t) (column t i) b s l ls (
          scan_on total line n i before
            (lines_of t l ls).0
            (lines_of t l ls).1
            (angles m (opening b ∷ s)))
  unfolding lines_of breaks column angles
  scan_on-Reached done line n i before m b s l ls h =
      let e : n ≡ n + 0 = omega arith in (line, before, m, rw (← e) refl, rw (← e) h)
  scan_on-Reached (plain c o k t) line n i before m b s l ls h =
      let (m', e) = end_step-Above i before c m b s o k in
      let (line', before', m2, q, st) =
        scan_on-Reached t line n (suc i) (c ∷ before) m' b s l ls h in
      (line', before', m2, scan_on-next total line n i before c _ _ _ _ e ∙ q, st)
  scan_on-Reached (line_end t) line n i before m b s l ls h =
      let (l', ls') = lines_of t l ls in
      let e : suc n + breaks t ≡ n + suc (breaks t) = omega arith in
      subst
        (λ k.
          Reached k (column t 0) b s l ls
            (scan_on total line n i before [] (l' ∷ ls') (angles m (opening b ∷ s))))
        e
        (let (line', before', m', q, st) =
            scan_on-Reached t l' (suc n) 0 [] m b s l ls (Stands-suc rows n l' ls' h.1) in
          (line', before', m', scan_on-line total line n i before l' ls' m b s ∙ q, st))
  scan_on-Reached (group b' inner t) line n i before m b s l ls h =
      let (l', ls') = lines_of t l ls in
      let (l2, ls2) = lines_of inner (closing b' ∷ l') ls' in
      let above = angles m (opening b ∷ s) in
      let (line1, before1, m1, q1, st1) =
        scan_on-Reached inner line n (suc i) (opening b' ∷ before) 0 b' above (closing b' ∷ l') ls'
          h in
      let j = column inner (suc i) in
      let (line2, before2, m2, q2, st2) =
        scan_on-Reached t line1 (n + breaks inner) (suc j) (closing b' ∷ before1) m b s l ls st1 in
      let e : n + breaks inner + breaks t ≡ n + (breaks inner + breaks t) = omega arith in
      subst
        (λ k.
          Reached k (column t (suc j)) b s l ls
            (scan_on total line n i before (opening b' ∷ l2) ls2 above))
        e
        (
          line2,
          before2,
          m2,
          scan_on-next total line n i before (opening b') l2 ls2 above (opening b' ∷ above)
                (open_step i before b' above)
              ∙ (q1
                  ∙ (scan_on-next total line1 (n + breaks inner) j before1 (closing b') l' ls'
                        (angles m1 (opening b' ∷ above)) above
                        (close_step j before1 m1 b' above ∙ popped-angles m b s (found (j + 1)))
                      ∙ q2)),
          st2,
        )

-- A line in the middle of the file.
Stands-middle :
    (above : List Text) (line : Text) (ls : List Text)
    → Stands (above ++ (line ∷ ls)) (length above) line ls
unfolding at
Stands-middle [] line ls = (refl, refl)
Stands-middle (x ∷ above) line ls = Stands-middle above line ls

no_start-bracket : (b : Bracket) (s : Text) → no_start (opening b ∷ s) ≡ false
unfolding no_start is_open
no_start-bracket round [] = refl
no_start-bracket round (d ∷ s) = refl
no_start-bracket square [] = refl
no_start-bracket square (d ∷ s) = refl
no_start-bracket curly [] = refl
no_start-bracket curly (d ∷ s) = refl

close_at-scan_on :
    (rows : List Text) (n : ℕ) (front : Text) (b : Bracket) (rest : Text)
    → close_at rows n (front ++ (opening b ∷ rest)) (length front)
      ≡ scan_on
          (length rows)
          (front ++ (opening b ∷ rest))
          n
          (length front)
          (reverse_onto front [])
          (opening b ∷ rest)
          (drop (suc n) rows)
          []
unfolding close_at scan_on
close_at-scan_on rows n front b rest =
    rw (drop-append_length front (opening b ∷ rest), take-append_length front (opening b ∷ rest))
      (rw (no_start-bracket b rest))

-- For a bracket that opens a balanced group, whatever angle brackets, arrows and semicolons stand in
-- it, CloseExpression finds the line of the closing bracket and the column behind it.
pub close_expression-group :
    (above : List Text) (front : Text) (b : Bracket) (inner : Balanced) (rest : Text)
    (below : List Text)
    → let (l, ls) = lines_of (group b inner done) rest below in
      let rows = above ++ ((front ++ l) ∷ ls) in
      let linenum = length above + breaks inner in
      (line : Text) × (at rows linenum ≡ some line)
      × (close_expression rows (length above) (length front)
          ≡ some (record {
            line = line;
            linenum = linenum;
            pos = some (suc (column inner (suc (length front))));
          }))
unfolding close_expression lines_of angles
close_expression-group above front b inner rest below =
    let (l, ls) = lines_of inner (closing b ∷ rest) below in
    let row = front ++ (opening b ∷ l) in
    let rows = above ++ (row ∷ ls) in
    let n = length above in
    let i = length front in
    let back = reverse_onto front [] in
    let stands = Stands-middle above row ls in
    let (line, before, m, q, st) =
      scan_on-Reached rows (length rows) inner row n (suc i) (opening b ∷ back) 0 b []
        (closing b ∷ rest) below stands in
    (
      line,
      st.0,
      rw (stands.0, at-append front l (opening b))
          (ap some (
            close_at-scan_on rows n front b l
            ∙ (scan_on-next (length rows) row n i back (opening b) l (drop (suc n) rows) []
                  (opening b ∷ []) (open_step i back b [])
                ∙ (ap
                      (λ xs.
                        scan_on (length rows) row n (suc i) (opening b ∷ back) l xs
                          (opening b ∷ []))
                      stands.1
                    ∙ (q
                        ∙ scan_on-close (length rows) line (n + breaks inner) (column inner (suc i))
                            before rest below m b))))),
    )
