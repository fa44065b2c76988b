-- ===== src/Lint/FileChecks/Newline.antt =====
-- When CheckForNewlineAtEOF of tools/cpplint.py reports a file.
use vsm_cpp_sdk.Prelude.{
  ℕ, suc, ◌+◌, ◌≡◌, ◌↔◌, refl, sym, ap, ◌∙◌, Bool, true, false, not, List, [], ◌∷◌, ◌++◌, ◌==◌, ltb,
  length, length-append, Bool-cases, inl, inr, arith, if◌then◌else◌,
}
use vsm_cpp_sdk.Text.{Text}
use vsm_cpp_sdk.Text.Find.{split_from, split_on}
use vsm_cpp_sdk.Lint.Nolint.{Report}
use vsm_cpp_sdk.Lint.FileChecks.{ends_empty, check_for_newline_at_eof}

-- The lines of a file with a text, between the markers of ProcessFileData.
abbrev pub marked : Text → Text → Text → List Text
marked before behind text = before ∷ (split_on b'\n' text ++ (behind ∷ []))

-- A text that is empty or ends with a line feed.
unfoldable pub ends_line : Text → Bool
ends_line [] = true
ends_line (c ∷ []) = c == b'\n'
ends_line (c ∷ d ∷ s) = ends_line (d ∷ s)

abbrev empty : Text → Bool
empty [] = true
empty (c ∷ s) = false

-- The same of a line that has begun, and is empty or not, with the text behind it.
done : Bool → Text → Bool
done e [] = e
done e (c ∷ s) = done (c == b'\n') s

done-ends_line : (e : Bool) (c : ℕ) (s : Text) → done e (c ∷ s) ≡ ends_line (c ∷ s)
unfolding done ends_line
done-ends_line e c [] = refl
done-ends_line e c (d ∷ s) = done-ends_line (c == b'\n') d s

split_from-cons : (cur s : Text) → (l : Text) × (ls : List Text) × (split_from b'\n' cur s ≡ l ∷ ls)
unfolding split_from
split_from-cons cur [] = (cur, [], refl)
split_from-cons cur (c ∷ s) = elim (Bool-cases (c == b'\n')) [
  | inl e ↦ (cur, split_from b'\n' [] s, rw (e, split_from) refl)
  | inr e ↦ let (l, ls, k) = split_from-cons (cur ++ (c ∷ [])) s in (l, ls, rw (e, split_from) k)
]

ends_empty-cons :
    (x y l m : Text) (ls : List Text)
    → ends_empty (x ∷ y ∷ ((l ∷ ls) ++ (m ∷ []))) ≡ ends_empty (y ∷ ((l ∷ ls) ++ (m ∷ [])))
unfolding ends_empty
ends_empty-cons x y l m ls = refl

empty-append : (cur : Text) (c : ℕ) → empty (cur ++ (c ∷ [])) ≡ false
empty-append [] c = refl
empty-append (d ∷ cur) c = refl

ends_empty-split :
    (x cur s m : Text) → ends_empty (x ∷ (split_from b'\n' cur s ++ (m ∷ []))) ≡ done (empty cur) s
unfolding split_from done ends_empty
ends_empty-split x [] [] m = refl
ends_empty-split x (c ∷ cur) [] m = refl
ends_empty-split x cur (c ∷ s) m = elim (Bool-cases (c == b'\n')) [
  | inl e ↦
      let (l, ls, k) = split_from-cons [] s in
      rw (e, split_from, done)
        (ap (λ r. ends_empty (x ∷ cur ∷ (r ++ (m ∷ [])))) k
          ∙ ends_empty-cons x cur l m ls
          ∙ ap (λ r. ends_empty (cur ∷ (r ++ (m ∷ [])))) (sym k)
          ∙ ends_empty-split cur [] s m)
  | inr e ↦
      rw (e, split_from, done)
        (ends_empty-split x (cur ++ (c ∷ [])) s m ∙ ap (λ b. done b s) (empty-append cur c))
]

ends_empty-marked :
    (x text m : Text) → ends_empty (x ∷ (split_on b'\n' text ++ (m ∷ []))) ≡ ends_line text
unfolding split_on ends_line
ends_empty-marked x [] m = ends_empty-split x [] [] m ∙ unfold done in refl
ends_empty-marked x (c ∷ s) m = ends_empty-split x [] (c ∷ s) m ∙ done-ends_line true c s

three : (k n : ℕ) → n ≡ k + 1 → ltb (suc (suc n)) 3 ≡ false
three k n h = ground (arith, h)

if_reported : (b : Bool) (r : Report) → ((if not b then r ∷ [] else []) ≡ []) ↔ (b ≡ true)
if_reported true r = (λ _. refl, λ _. refl)
if_reported false r = (λ h. ground (arith, h), λ h. ground (arith, h))

marked-length : (x text m : Text) → ltb (length (marked x m text)) 3 ≡ false
unfolding split_on
marked-length x text m =
    let (l, ls, k) = split_from-cons [] text in
    ap (λ r. ltb (length (x ∷ (r ++ (m ∷ [])))) 3) k
    ∙ three _ (length (ls ++ (m ∷ []))) (length-append ls (m ∷ []))

-- A file is reported exactly if its text is not empty and does not end with a line feed.
pub check_for_newline_at_eof_iff :
    (before behind text : Text)
    → (check_for_newline_at_eof (marked before behind text) ≡ []) ↔ (ends_line text ≡ true)
unfolding check_for_newline_at_eof
check_for_newline_at_eof_iff before behind text =
    rw (marked-length before text behind, ends_empty-marked before text behind)
      (if_reported (ends_line text) _)
