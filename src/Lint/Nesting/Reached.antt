-- ===== src/Lint/Nesting/Reached.antt =====
-- The blocks in the stack of NestingState of tools/cpplint.py stay in order from line to line: what
-- Update does to them.
use vsm_cpp_sdk.Prelude.{
  ℕ, suc, ◌≡◌, refl, subst, Bool, true, false, not, Option, none, some, List, [], ◌∷◌, ◌++◌, length,
  if◌then◌else◌, arith,
}
use vsm_cpp_sdk.Text.{Text}
use vsm_cpp_sdk.Text.Regex.{MatchObject, group_text}
use vsm_cpp_sdk.Lint.Nolint.{Report}
use vsm_cpp_sdk.Lint.Blocks.{
  Block, Kind, class_info, namespace_info, block_info, extern_c_info, Here, new_block, new_extern_c,
  new_class, match_asm, block_asm, no_asm, check_begin,
}
use vsm_cpp_sdk.Lint.Nesting.{seen_open_brace}
use vsm_cpp_sdk.Lint.Nesting.Update.{
  count_parentheses, on_top, namespaces, class_declared, class_declaration, begin_block,
  class_access, access_of, update_access, open_brace, drop_unseen, close_brace, is_token, on_token,
  consume, update_stack,
}
use vsm_cpp_sdk.Lint.Nesting.Open.{
  fits, fits-begun, fits_seen, Open, Open-le, Same, top-Open, by_if, count-Open, namespaces-Open,
}

class-Open :
    (here : Here) (s : List Block) (line : Text) (m : Option MatchObject)
    → Open here.linenum s
    → Open here.linenum (class_declared here s line m).0
unfolding class_declared Open new_class new_block
class-Open here s line none o = o
class-Open here s line (some m) o =
    let entered : Open here.linenum (new_class (group_text m 3) (group_text m 2) here ∷ s) =
      (omega arith, refl, o) in
    by_if (λ (r : List Block × Text). Open here.linenum r.0) _
      (new_class (group_text m 3) (group_text m 2) here ∷ s, group_text m 4) (s, line) entered o

begin-Open : (here : Here) (n : ℕ) (s : List Block) → Open n s → Open n (begin_block here s)
unfolding begin_block check_begin
begin-Open here n [] o = o
begin-Open here n (b ∷ bs) o =
    top-Open n b _ bs
      (by_if (Same b) b.seen_open_brace b (check_begin here.line b) (refl, λ f. f)
        (refl, fits-begun here.line b.kind b.seen_open_brace b.check_namespace_indentation))
      o

access-Open :
    (here : Here) (line : Text) (n : ℕ) (s : List Block)
    → Open n s
    → Open n (update_access here line s).0
unfolding update_access access_of
access-Open here line n [] o = o
access-Open here line n (b ∷ bs) o = on_kind b.kind refl
  where
    on_kind : (k : Kind) → b.kind ≡ k → Open n (access_of here line b bs k).0
    on_kind (class_info c) e =
        let changed = (class_access here line c).0 in
        top-Open n b (record b { kind = class_info changed }) bs
          (refl, subst (λ k. fits k b.seen_open_brace b.check_namespace_indentation ≡ true) e) o
    on_kind (namespace_info name) e = o
    on_kind block_info e = o
    on_kind extern_c_info e = o

seen-Open :
    (n : ℕ) (s : List Block)
    → Open n s
    → Open n (on_top (λ b. record b { seen_open_brace = true }) s)
seen-Open n [] o = o
seen-Open n (b ∷ bs) o =
    top-Open n b (record b { seen_open_brace = true }) bs
      (refl, fits_seen b.kind b.seen_open_brace b.check_namespace_indentation) o

brace-Open : (n : ℕ) (line : Text) (s : List Block) → Open n s → Open n (open_brace n line s)
unfolding open_brace Open new_extern_c new_block
brace-Open n line s o =
    let extern_c : Open n (new_extern_c n ∷ s) = (omega arith, refl, o) in
    let block : Block = record (new_block n true) {
      inline_asm = if match_asm line then block_asm else no_asm;
    } in
    let other : Open n (block ∷ s) = (omega arith, refl, o) in
    by_if (Open n) (not (seen_open_brace s)) (on_top (λ b. record b { seen_open_brace = true }) s) _
      (seen-Open n s o) (by_if (Open n) _ (new_extern_c n ∷ s) (block ∷ s) extern_c other)

drop-Open : (n : ℕ) (s : List Block) → Open n s → Open n (drop_unseen s)
unfolding drop_unseen Open
drop-Open n [] o = o
drop-Open n (b ∷ bs) (le, f, o) =
    by_if (Open n) b.seen_open_brace (b ∷ bs) bs (le, f, o) (Open-le _ n bs le o)

close-Open : (here : Here) (n : ℕ) (s : List Block) → Open n s → Open n (close_brace here s).0
unfolding close_brace Open
close-Open here n [] o = o
close-Open here n (b ∷ bs) (le, f, o) = Open-le b.starting_linenum n bs le o

token-Open :
    (here : Here) (c : ℕ) (line : Text) (s : List Block)
    → Open here.linenum s
    → Open here.linenum (on_token here c line s).0
unfolding on_token
token-Open here c line s o =
    by_if (λ (r : List Block × List Report). Open here.linenum r.0) _ _ _
      (brace-Open here.linenum line s o)
      (by_if (λ (r : List Block × List Report). Open here.linenum r.0) _ _ _
        (close-Open here here.linenum s o) (drop-Open here.linenum s o))

consume-Open :
    (here : Here) (line rest : Text) (s : List Block)
    → Open here.linenum s
    → Open here.linenum (consume here line rest s).0
unfolding consume
consume-Open here line [] s o = o
consume-Open here line (c ∷ rest) s o =
    let (after, reports) = on_token here c line s in
    on_test (is_token c) (consume-Open here rest rest after (token-Open here c line s o))
      (consume-Open here line rest s o)
  where
    on_test :
        (b : Bool)
        → Open here.linenum (consume here rest rest (on_token here c line s).0).0
        → Open here.linenum (consume here line rest s).0
        → (let r : List Block × List Report = elim b [
          | true ↦
              let (after, reports) = on_token here c line s in
              let (end, others) = consume here rest rest after in (end, reports ++ others)
          | false ↦ consume here line rest s
        ] in
            Open here.linenum r.0)
    on_test true h k = h
    on_test false h k = k

declaration-Open :
    (here : Here) (s : List Block × Text)
    → Open here.linenum s.0
    → Open here.linenum (class_declaration here s).0
unfolding class_declaration
declaration-Open here (s, line) o = class-Open here s line _ o

pub stack-Open :
    (here : Here) (s : List Block) → Open here.linenum s → Open here.linenum (update_stack here s).0
unfolding update_stack namespaces
stack-Open here s o =
    let s1 = on_top (count_parentheses here.line) s in
    let s2 = namespaces here.linenum here.line s1 in
    let s3 = class_declaration here s2 in
    let s4 = begin_block here s3.0 in
    let s5 = update_access here s3.1 s4 in
    let counted = count-Open here.linenum here.line s o in
    let named : Open here.linenum s2.0 =
      namespaces-Open (suc (length here.line)) here.linenum here.line s1 counted in
    let declared = declaration-Open here s2 named in
    let begun = begin-Open here here.linenum s3.0 declared in
    consume-Open here s3.1 s3.1 s5.0 (access-Open here s3.1 here.linenum s4 begun)
