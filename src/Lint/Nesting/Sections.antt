-- ===== src/Lint/Nesting/Sections.antt =====
-- Which lines of conditional sections NestingState.Update of tools/cpplint.py goes by.
use vsm_cpp_sdk.Prelude.{
  ◌≡◌, refl, sym, ap, ◌∙◌, List, [], ◌∷◌, ◌++◌, if◌then◌else◌, Bool-cases, inl, inr,
}
use vsm_cpp_sdk.Lint.Blocks.{Block, Here}
use vsm_cpp_sdk.Lint.Nesting.{
  NestingState, PreprocessorInfo, preprocessor_info, see_else, if_line, else_line, endif_line,
  other_line, directive, turn, update_preprocessor,
}
use vsm_cpp_sdk.Lint.Nesting.Update.{update_stack, update_here}

-- Lines whose conditional sections are well nested: a section is its #if, the lines of its first
-- branch, its other branches, and its #endif, and the lines behind it.
mutual
  pub data Sections : Type 0 where
    finished : Sections
    plain : (h : Here) → directive h.line ≡ other_line → Sections → Sections
    section :
        (h e : Here)
        → directive h.line ≡ if_line
        → directive e.line ≡ endif_line
        → Sections
        → Branches
        → Sections
        → Sections

  pub data Branches : Type 0 where
    no_branch : Branches
    branch : (h : Here) → directive h.line ≡ else_line → Sections → Branches → Branches

-- The lines in the order of the file.
unfoldable mutual
  pub written : Sections → List Here
  written finished = []
  written (plain h _ t) = h ∷ written t
  written (section h e _ _ first others t) =
      h ∷ (written first ++ (written_branches others ++ (e ∷ written t)))

  pub written_branches : Branches → List Here
  written_branches no_branch = []
  written_branches (branch h _ t others) = h ∷ (written t ++ written_branches others)

-- The lines without those from an #else or #elif up to the #endif.
unfoldable pub kept : Sections → List Here
kept finished = []
kept (plain h _ t) = h ∷ kept t
kept (section h e _ _ first others t) = h ∷ (kept first ++ (e ∷ kept t))

-- Update on one line after the other, and what it does to the stack alone.
unfoldable pub after : List Here → NestingState → NestingState
after [] s = s
after (h ∷ hs) s = after hs (update_here h s).0

unfoldable pub stacks : List Here → List Block → List Block
stacks [] stack = stack
stacks (h ∷ hs) stack = stacks hs (update_stack h stack).0

after-append : (xs ys : List Here) (s : NestingState) → after (xs ++ ys) s ≡ after ys (after xs s)
unfolding after
after-append [] ys s = refl
after-append (x ∷ xs) ys s = after-append xs ys (update_here x s).0

stacks-append : (xs ys : List Here) (s : List Block) → stacks (xs ++ ys) s ≡ stacks ys (stacks xs s)
unfolding stacks
stacks-append [] ys s = refl
stacks-append (x ∷ xs) ys s = stacks-append xs ys (update_stack x s).0

-- The stack that an #endif leaves.
abbrev restored : PreprocessorInfo → List Block → List Block
restored p stack = if p.seen_else then p.stack_before_else else stack

abbrev Is : NestingState → List Block → List PreprocessorInfo → Type 0
Is s stack pp = (s.stack ≡ stack) × (s.pp_stack ≡ pp)

-- A line of each kind.
on_other :
    (h : Here) (s : NestingState)
    → directive h.line ≡ other_line
    → Is (update_here h s).0 (update_stack h s.stack).0 s.pp_stack
unfolding update_here update_preprocessor turn
on_other h s d = (rw d, rw d)

on_if :
    (h : Here) (s : NestingState)
    → directive h.line ≡ if_line
    → Is (update_here h s).0 (update_stack h s.stack).0 (preprocessor_info s.stack ∷ s.pp_stack)
unfolding update_here update_preprocessor turn
on_if h s d = (rw d, rw d)

on_else :
    (h : Here) (s : NestingState) (p : PreprocessorInfo) (ps : List PreprocessorInfo)
    → directive h.line ≡ else_line
    → s.pp_stack ≡ p ∷ ps
    → (update_here h s).0.pp_stack ≡ see_else s.stack p ∷ ps
unfolding update_here update_preprocessor turn
on_else h s p ps d pp = rw (d, pp)

on_endif :
    (h : Here) (s : NestingState) (p : PreprocessorInfo) (ps : List PreprocessorInfo)
    → directive h.line ≡ endif_line
    → s.pp_stack ≡ p ∷ ps
    → Is (update_here h s).0 (update_stack h (restored p s.stack)).0 ps
unfolding update_here update_preprocessor turn
on_endif h s p ps d pp = (rw (d, pp), rw (d, pp))

restored-see :
    (p : PreprocessorInfo) (seen now : List Block)
    → restored (see_else seen p) now ≡ restored p seen
restored-see p seen now = elim (Bool-cases p.seen_else) [
  | inl saw ↦ rw saw
  | inr unseen ↦ rw unseen
]

mutual
  unfolding after stacks written kept preprocessor_info

  after-written :
      (t : Sections) (s : NestingState)
      → Is (after (written t) s) (stacks (kept t) s.stack) s.pp_stack
  after-written finished s = (refl, refl)
  after-written (plain h d t) s =
      let (st, pp) = on_other h s d in
      let (end, pps) = after-written t (update_here h s).0 in
      (end ∙ ap (stacks (kept t)) st, pps ∙ pp)
  after-written (section h e di de first others t) s =
      let s1 = (update_here h s).0 in
      let s2 = after (written first) s1 in
      let s3 = after (written_branches others) s2 in
      let s4 = (update_here e s3).0 in
      let (st1, pp1) = on_if h s di in
      let (st2, pp2) = after-written first s1 in
      let (p, pp3, same) =
        after-branches others s2 (preprocessor_info s.stack) s.pp_stack (pp2 ∙ pp1) in
      let (st4, pp4) = on_endif e s3 p s.pp_stack de pp3 in
      let (end, pps) = after-written t s4 in
      let split =
        after-append (written first) (written_branches others ++ (e ∷ written t)) s1
        ∙ after-append (written_branches others) (e ∷ written t) s2 in
      let under = same ∙ st2 ∙ ap (stacks (kept first)) st1 in
      let whole = stacks-append (kept first) (e ∷ kept t) (update_stack h s.stack).0 in
      (
        ap (λ x. x.stack) split
            ∙ end
            ∙ ap (stacks (kept t)) (st4 ∙ ap (λ x. (update_stack e x).0) under)
            ∙ sym whole,
        ap (λ x. x.pp_stack) split ∙ pps ∙ pp4,
      )

  after-branches :
      (b : Branches) (s : NestingState) (p : PreprocessorInfo) (ps : List PreprocessorInfo)
      → s.pp_stack ≡ p ∷ ps
      → (q : PreprocessorInfo) × ((after (written_branches b) s).pp_stack ≡ q ∷ ps)
        × (restored q (after (written_branches b) s).stack ≡ restored p s.stack)
  after-branches no_branch s p ps pp = (p, pp, refl)
  after-branches (branch h d t others) s p ps pp =
      let s1 = (update_here h s).0 in
      let s2 = after (written t) s1 in
      let pp2 = (after-written t s1).1 ∙ on_else h s p ps d pp in
      let (q, pp3, same) = after-branches others s2 (see_else s.stack p) ps pp2 in
      let split = after-append (written t) (written_branches others) s1 in
      (
        q,
        ap (λ x. x.pp_stack) split ∙ pp3,
        ap (λ x. restored q x.stack) split ∙ same ∙ restored-see p s.stack s2.stack,
      )

-- Update leaves a stack as if the lines of the branches behind the first one were not there and no
-- line were a directive, and it leaves the stack of the conditional sections as it was.
pub update_here-sections :
    (t : Sections) (s : NestingState)
    → ((after (written t) s).stack ≡ stacks (kept t) s.stack)
      × ((after (written t) s).pp_stack ≡ s.pp_stack)
update_here-sections = after-written
