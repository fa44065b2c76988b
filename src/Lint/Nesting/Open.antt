-- ===== src/Lint/Nesting/Open.antt =====
-- What holds of the blocks in the stack of NestingState of tools/cpplint.py at every line.
use vsm_cpp_sdk.Prelude.{
  ℕ, zero, suc, ◌≤◌, ◌≡◌, refl, sym, subst, Bool, true, false, not, ◌&&◌, Option, none, some, List,
  [], ◌∷◌, if◌then◌else◌, arith,
}
use vsm_cpp_sdk.Text.{Text}
use vsm_cpp_sdk.Lint.Blocks.{
  Block, Kind, class_info, namespace_info, block_info, extern_c_info, new_block, new_namespace,
  begun,
}
use vsm_cpp_sdk.Lint.Nesting.{NestingState, PreprocessorInfo}
use vsm_cpp_sdk.Lint.Nesting.Update.{
  count_parentheses, on_top, namespace_decl_match, enter_namespace, behind_brace, namespaces_from,
}

-- Only a class or a namespace waits for its brace, and these two alone check the indentation.
abbrev pub fits : Kind → Bool → Bool → Bool
fits (class_info c) seen checks = checks
fits (namespace_info name) seen checks = checks
fits k seen checks = seen && not checks

abbrev pub Fits : Block → Type 0
Fits b = fits b.kind b.seen_open_brace b.check_namespace_indentation ≡ true

-- Each block of the stack fits and begins at the line `n` or before it, and no later than the block
-- above it.
unfoldable pub Open : ℕ → List Block → Type 0
Open n [] = Unit {0}
Open n (b ∷ bs) = (b.starting_linenum ≤ n) × Fits b × Open b.starting_linenum bs

-- The same of the stacks that are kept for the conditional sections.
unfoldable pub AllOpen : ℕ → List PreprocessorInfo → Type 0
unfolding Open
AllOpen n [] = Unit {0}
AllOpen n (p ∷ ps) = Open n p.stack_before_if × Open n p.stack_before_else × AllOpen n ps

unfoldable pub IsOpen : ℕ → NestingState → Type 0
unfolding Open AllOpen
IsOpen n s = Open n s.stack × AllOpen n s.pp_stack

pub Open-le : (m n : ℕ) (s : List Block) → m ≤ n → Open m s → Open n s
unfolding Open
Open-le m n [] h o = o
Open-le m n (b ∷ bs) h (le, f, o) = (omega arith, f, o)

pub AllOpen-le : (m n : ℕ) (ps : List PreprocessorInfo) → m ≤ n → AllOpen m ps → AllOpen n ps
unfolding AllOpen
AllOpen-le m n [] h o = o
AllOpen-le m n (p ∷ ps) h (i, e, o) =
    (Open-le m n p.stack_before_if h i, Open-le m n p.stack_before_else h e, AllOpen-le m n ps h o)

-- A block in place of the top.
abbrev pub Same : Block → Block → Type 0
Same b c = (c.starting_linenum ≡ b.starting_linenum) × (Fits b → Fits c)

pub top-Open :
    (n : ℕ) (b c : Block) (bs : List Block) → Same b c → Open n (b ∷ bs) → Open n (c ∷ bs)
unfolding Open
top-Open n b c bs (same, keeps) (le, f, o) =
    (omega (arith, same), keeps f, subst (λ m. Open m bs) (sym same) o)

pub by_if : {A : Type 0} (P : A → Type 0) (b : Bool) (x y : A) → P x → P y → P (if b then x else y)
by_if P true x y h k = h
by_if P false x y h k = k

pub fits_seen :
    (k : Kind) (seen checks : Bool) → fits k seen checks ≡ true → fits k true checks ≡ true
fits_seen (class_info c) seen checks h = h
fits_seen (namespace_info name) seen checks h = h
fits_seen block_info seen checks h = ground arith
fits_seen extern_c_info seen checks h = ground arith

pub fits-begun :
    (line : Text) (k : Kind) (seen checks : Bool)
    → fits k seen checks ≡ true
    → fits (begun line k) seen checks ≡ true
unfolding begun
fits-begun line (class_info c) seen checks h = h
fits-begun line (namespace_info name) seen checks h = h
fits-begun line block_info seen checks h = h
fits-begun line extern_c_info seen checks h = h

pub count-Open :
    (n : ℕ) (line : Text) (s : List Block) → Open n s → Open n (on_top (count_parentheses line) s)
unfolding count_parentheses
count-Open n line [] o = o
count-Open n line (b ∷ bs) o = top-Open n b (count_parentheses line b) bs (refl, λ f. f) o

enter-Open :
    (n : ℕ) (name rest : Text) (behind : Option Text) (s : List Block)
    → Open n s
    → Open n (enter_namespace n name rest behind s).0
unfolding enter_namespace Open new_namespace new_block
enter-Open n name rest none s o = (omega arith, refl, o)
enter-Open n name rest (some behind) s o = (omega arith, refl, o)

pub namespaces-Open :
    (f n : ℕ) (line : Text) (s : List Block) → Open n s → Open n (namespaces_from f n line s).0
unfolding namespaces_from
namespaces-Open zero n line s o = o
namespaces-Open (suc f) n line s o =
    on_match (namespace_decl_match line) (λ rest t. namespaces-Open f n rest t)
  where
    on_match :
        (m : Option (Text × Text))
        → ((rest : Text) (t : List Block) → Open n t → Open n (namespaces_from f n rest t).0)
        → (let r : List Block × Text = elim m [
          | none ↦ (s, line)
          | some (name, rest) ↦
              let (entered, behind) = enter_namespace n name rest (behind_brace rest) s in
              namespaces_from f n behind entered
        ] in
            Open n r.0)
    on_match none on = o
    on_match (some (name, rest)) on =
        let (entered, behind) = enter_namespace n name rest (behind_brace rest) s in
        on behind entered (enter-Open n name rest (behind_brace rest) s o)
