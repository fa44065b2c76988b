-- ===== src/Lint/Nesting/File.antt =====
-- The stack of NestingState of tools/cpplint.py over the lines of a file.
use vsm_cpp_sdk.Prelude.{
  ◌<◌, ◌+◌, ◌-◌, zero, suc, ◌++◌, length, Option, ap, ℕ, suc, ◌≤◌, ◌≡◌, refl, subst, Option, some,
  List, [], ◌∷◌, ◌++◌, length, if◌then◌else◌, arith,
}
use vsm_cpp_sdk.Text.{Text}
use vsm_cpp_sdk.Text.Find.{◌>>=◌, at}
use vsm_cpp_sdk.Lint.Nolint.{Report}
use vsm_cpp_sdk.Lint.Lines.{CleansedLines}
use vsm_cpp_sdk.Lint.Blocks.{Block, Here}
use vsm_cpp_sdk.Lint.Nesting.{
  NestingState, PreprocessorInfo, preprocessor_info, see_else, nesting_state, Directive, if_line,
  else_line, endif_line, other_line, directive, turn, update_preprocessor,
}
use vsm_cpp_sdk.Lint.Nesting.Update.{update_stack, update_here, update, top}
use vsm_cpp_sdk.Lint.Nesting.Open.{Open, AllOpen, IsOpen, Open-le, AllOpen-le, by_if}
use vsm_cpp_sdk.Lint.Nesting.Reached.{stack-Open}
use vsm_cpp_sdk.Lint.Lines.{cleansed_lines}
use vsm_cpp_sdk.Lint.Lines.Aligned.{cleansed_lines-Elided}

-- UpdatePreprocessor
else-Open :
    (n : ℕ) (s : List Block) (p : PreprocessorInfo)
    → Open n s
    → Open n p.stack_before_else
    → Open n (see_else s p).stack_before_else
else-Open n s p o e = by_if (λ (q : PreprocessorInfo). Open n q.stack_before_else) _ _ _ e o

before-Open :
    (n : ℕ) (s : List Block) (p : PreprocessorInfo)
    → Open n p.stack_before_if
    → Open n (see_else s p).stack_before_if
before-Open n s p i = by_if (λ (q : PreprocessorInfo). Open n q.stack_before_if) _ _ _ i i

turn-IsOpen : (n : ℕ) (d : Directive) (s : NestingState) → IsOpen n s → IsOpen n (turn d s)
unfolding turn IsOpen AllOpen preprocessor_info
turn-IsOpen n if_line s (o, ps) = (o, (o, tt, ps))
turn-IsOpen n else_line s (o, ps) = on_else s.pp_stack ps
  where
    on_else :
        (pps : List PreprocessorInfo)
        → AllOpen n pps
        → (let r : NestingState = elim pps [
          | [] ↦ s
          | p ∷ ps ↦ record s { stack = p.stack_before_if; pp_stack = see_else s.stack p ∷ ps }
        ] in
            IsOpen n r)
    on_else [] h = (o, ps)
    on_else (p ∷ rest) (i, e, h) = (i, (before-Open n s.stack p i, else-Open n s.stack p o e, h))
turn-IsOpen n endif_line s (o, ps) = on_endif s.pp_stack ps
  where
    on_endif :
        (pps : List PreprocessorInfo)
        → AllOpen n pps
        → (let r : NestingState = elim pps [
          | [] ↦ s
          | p ∷ ps ↦ record s {
            stack = if p.seen_else then p.stack_before_else else s.stack;
            pp_stack = ps;
          }
        ] in
            IsOpen n r)
    on_endif [] h = (o, ps)
    on_endif (p ∷ rest) (i, e, h) = (by_if (Open n) p.seen_else p.stack_before_else s.stack e o, h)
turn-IsOpen n other_line s o = o

nesting_state-IsOpen : (n : ℕ) → IsOpen n nesting_state
unfolding IsOpen nesting_state Open AllOpen
nesting_state-IsOpen n = (tt, tt)

update-IsOpen :
    (clean_lines : CleansedLines) (n linenum : ℕ) (s : NestingState) (line raw : Text)
    → n ≤ linenum
    → at clean_lines.elided linenum ≡ some line
    → at clean_lines.raw_lines linenum ≡ some raw
    → IsOpen n s
    → (after : NestingState) × (reports : List Report) × (update clean_lines linenum s
        ≡ some (after, reports))
      × IsOpen linenum after
unfolding update update_here update_preprocessor IsOpen
update-IsOpen clean_lines n linenum s line raw h l r (o, ps) =
    let here : Here = record {
      elided = clean_lines.elided;
      linenum = linenum;
      line = line;
      raw_line = raw;
    } in
    let turned = turn (directive line) (record s { previous_stack_top = top s.stack }) in
    let (open_now, kept) =
      turn-IsOpen linenum (directive line) (record s { previous_stack_top = top s.stack })
        (Open-le n linenum s.stack h o, AllOpen-le n linenum s.pp_stack h ps) in
    (
      record turned { stack = (update_stack here turned.stack).0 },
      (update_stack here turned.stack).1,
      rw (l, r),
      (stack-Open here turned.stack open_now, kept),
    )

-- Update on the next `k` lines from the line `n` on, and what it reports.
unfoldable pub update_lines :
    CleansedLines → ℕ → ℕ → NestingState → Option (NestingState × List Report)
unfolding update
update_lines clean_lines zero n s = some (s, [])
update_lines clean_lines (suc k) n s = do
  (after, reports) ← update clean_lines n s
  (end, others) ← update_lines clean_lines k (suc n) after
  some (end, reports ++ others)

at_below : {A : Type 0} (xs : List A) (i : ℕ) → i < length xs → (x : A) × (at xs i ≡ some x)
unfolding at
at_below [] i h = ground arith
at_below (x ∷ xs) zero h = (x, refl)
at_below (x ∷ xs) (suc i) h = at_below xs i (omega arith)

update_lines-IsOpen :
    (clean_lines : CleansedLines) (k n m : ℕ) (s : NestingState)
    → m ≤ n - 1
    → k + n ≤ length clean_lines.elided
    → k + n ≤ length clean_lines.raw_lines
    → IsOpen m s
    → (end : NestingState) × (reports : List Report) × (update_lines clean_lines k n s
        ≡ some (end, reports))
      × IsOpen (k + n - 1) end
unfolding update_lines IsOpen
update_lines-IsOpen clean_lines zero n m s h l r (o, ps) =
    (s, [], refl, (Open-le m _ s.stack (omega arith) o, AllOpen-le m _ s.pp_stack (omega arith) ps))
update_lines-IsOpen clean_lines (suc k) n m s h l r o =
    let (line, el) = at_below clean_lines.elided n (omega arith) in
    let (raw, er) = at_below clean_lines.raw_lines n (omega arith) in
    let (after, reports, e, o') = update-IsOpen clean_lines m n s line raw (omega arith) el er o in
    let (end, others, e', o'') =
      update_lines-IsOpen clean_lines k (suc n) n after (omega arith) (omega arith) (omega arith)
        o' in
    (end, reports ++ others, rw (e, e') refl, subst (λ i. IsOpen i end) (omega arith) o'')

-- For every file Update returns at each line, and then the blocks in its stacks begin in the order of
-- the stack, none behind the last line, and only a class or a namespace waits for its brace or checks
-- the indentation.
pub update-IsOpen_file :
    (lines : List Text)
    → (clean_lines : CleansedLines) × (end : NestingState) × (reports : List Report)
      × (cleansed_lines lines ≡ some clean_lines)
      × (update_lines clean_lines (length lines) 0 nesting_state ≡ some (end, reports))
      × IsOpen (length lines - 1) end
update-IsOpen_file lines =
    let (c, e, raw, _, _, _, _, _, _, elided) = cleansed_lines-Elided lines in
    let (end, reports, e', o) =
      update_lines-IsOpen c (length lines) 0 0 nesting_state (omega arith) (omega (arith, elided))
        (omega (arith, ap length raw)) (nesting_state-IsOpen 0) in
    (c, end, reports, e, e', subst (λ i. IsOpen i end) (omega arith) o)
