-- ===== src/Lint/Comments/Whole.antt =====
-- The rounds of RemoveMultiLineComments in tools/cpplint.py, and the run over a whole file.
use vsm_cpp_sdk.Prelude.{
  ℕ, zero, suc, ◌+◌, ◌≤◌, ◌<◌, ◌≡◌, refl, sym, ap, ap₂, ◌∙◌, subst, Bool, true, false, inl, inr,
  List, [], ◌∷◌, ◌++◌, append_assoc, leb, length, length-append, drop-append_length, All-append,
  arith, Bool-cases, map,
}
use vsm_cpp_sdk.Text.{Text}
use vsm_cpp_sdk.Text.Find.{starts_with, has_text, strip, rstrip, lstrip, is_blank}
use vsm_cpp_sdk.Lint.Nolint.{Report}
use vsm_cpp_sdk.Lint.Comments.{
  begins_comment, ends_comment, next_line, next_comment_start, next_comment_end, dummy, remove_from,
  remove_multi_line_comments,
}
use vsm_cpp_sdk.Lint.Comments.Removed.{
  Fails, Search, absent, present, next_line-Search, Removed, clean, unclosed, cleared, Result, Goal,
  closing, closing-Result,
}

round-clean :
    (f : ℕ) (lines : List Text) (lineix : ℕ)
    → length lines ≤ next_comment_start lines lineix
    → remove_from (suc f) lines lineix ≡ (lines, [])
unfolding remove_from
round-clean f lines lineix h =
    let test : leb (length lines) (next_comment_start lines lineix) ≡ true = ground arith in
    elim (Bool-cases (leb (length lines) lineix)) [ inl a ↦ rw a refl | inr a ↦ rw (a, test) refl ]

round-closing :
    (f : ℕ) (lines : List Text) (lineix from : ℕ)
    → lineix < length lines
    → from ≡ next_comment_start lines lineix
    → from < length lines
    → remove_from (suc f) lines lineix ≡ closing f lines from (next_comment_end lines from)
unfolding remove_from
round-closing f lines lineix from h e b =
    let outside : leb (length lines) lineix ≡ false = ground arith in
    let found : leb (length lines) from ≡ false = ground arith in rw (sym e, outside, found) refl

round-Result :
    (f : ℕ)
    → Goal f
    → (pre rest : List Text) (from : ℕ) → length rest ≤ f
    → from ≡ next_comment_start (pre ++ rest) (length pre)
    → Search begins_comment (length pre) rest from
    → Result (remove_from (suc f) (pre ++ rest) (length pre)) pre rest
round-Result f ih pre rest from small e (absent ls k fails at) = (
  rest,
  [],
  round-clean f (pre ++ rest) (length pre) (omega (arith, length-append pre rest, e, at)),
  clean rest fails,
)
round-Result f ih pre rest from small e (present skip l more k fails t at) =
    let n : length (pre ++ (skip ++ (l ∷ more))) ≡ length pre + (length skip + suc (length more)) =
      length-append pre (skip ++ (l ∷ more))
      ∙ ap (λ n. length pre + n) (length-append skip (l ∷ more)) in
    let m : length (skip ++ (l ∷ more)) ≡ length skip + suc (length more) =
      length-append skip (l ∷ more) in
    let at' : from ≡ length (pre ++ skip) = at ∙ sym (length-append pre skip) in
    let same = append_assoc pre skip (l ∷ more) in
    let to = next_comment_end ((pre ++ skip) ++ (l ∷ more)) (length (pre ++ skip)) in
    let whole : remove_from (suc f) (pre ++ (skip ++ (l ∷ more))) (length pre)
        ≡ closing f ((pre ++ skip) ++ (l ∷ more)) (length (pre ++ skip)) to =
      round-closing f (pre ++ (skip ++ (l ∷ more))) (length pre) from (omega (arith, n)) e
        (omega (arith, n, at))
      ∙ ap₂ (λ ls i. closing f ls i (next_comment_end ls i)) (sym same) at' in
    subst (λ r. Result r pre (skip ++ (l ∷ more))) (sym whole)
      (closing-Result f ih pre skip (l ∷ more) l more to fails refl t (omega (arith, m)) (
        unfold next_comment_end in
        rw (drop-append_length (pre ++ skip) (l ∷ more))
          (next_line-Search ends_comment (length (pre ++ skip)) (l ∷ more))))

remove_from-Result : (f : ℕ) → Goal f
remove_from-Result zero pre rest h = elim h [ ]
remove_from-Result (suc f) pre rest h =
    round-Result f (remove_from-Result f) pre rest (next_comment_start (pre ++ rest) (length pre))
      (omega arith) refl
      (unfold next_comment_start in
        rw (drop-append_length pre rest) (next_line-Search begins_comment (length pre) rest))

-- RemoveMultiLineComments goes through all lines of a file and ends: it clears the lines of each
-- comment that begins outside of the ones before, from the line that begins it to the first that ends
-- it, and no others; a comment that is not ended is reported and stays.
pub remove_multi_line_comments_lem :
    (lines : List Text)
    → (out : List Text) × (reports : List Report) × (remove_multi_line_comments lines
        ≡ (out, reports))
      × Removed 0 lines out reports
unfolding remove_multi_line_comments
remove_multi_line_comments_lem lines =
    remove_from-Result (suc (length lines)) [] lines (omega arith)

map-dummy-begins_comment :
    (body : List Text) → Fails begins_comment (map (λ (l : Text). dummy) body)
unfolding begins_comment starts_with has_text strip rstrip lstrip is_blank
map-dummy-begins_comment [] = tt
map-dummy-begins_comment (l ∷ ls) = (refl, map-dummy-begins_comment ls)

Removed-begins_comment :
    {n : ℕ} {lines out : List Text} {reports : List Report}
    → Removed n lines out reports
    → reports ≡ []
    → Fails begins_comment out
Removed-begins_comment (clean ls f) e = f
Removed-begins_comment (unclosed skip l more f b g) e = cc
Removed-begins_comment (cleared skip body more out reports f c r) e =
    All-append (λ t. begins_comment t ≡ false) skip (map (λ (l : Text). dummy) body ++ out) f
      (All-append (λ t. begins_comment t ≡ false) (map (λ (l : Text). dummy) body) out
        (map-dummy-begins_comment body) (Removed-begins_comment r e))

next_line-absent :
    (test : Text → Bool) (n : ℕ) (ls : List Text)
    → Fails test ls
    → next_line test n ls ≡ n + length ls
unfolding next_line
next_line-absent test n [] f = omega arith
next_line-absent test n (l ∷ ls) (h, f) =
    let ih = next_line-absent test (suc n) ls f in rw h (omega (arith, ih))

-- Where RemoveMultiLineComments reports nothing, no line of its result begins a comment, and a second
-- run leaves the result as it is.
pub remove_multi_line_comments-twice :
    (lines out : List Text)
    → remove_multi_line_comments lines ≡ (out, [])
    → Fails begins_comment out × (remove_multi_line_comments out ≡ (out, []))
unfolding remove_multi_line_comments
remove_multi_line_comments-twice lines out e =
    let (out', reports, e', r) = remove_multi_line_comments_lem lines in
    let same : out' ≡ out = cc in
    let none_left : reports ≡ [] = cc in
    let f = subst (Fails begins_comment) same (Removed-begins_comment r none_left) in
    (
      f,
      round-clean (length out) out 0
          (unfold next_comment_start in omega (arith, next_line-absent begins_comment 0 out f)),
    )
