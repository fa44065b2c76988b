-- ===== src/Lint/Comments/Removed.antt =====
-- What RemoveMultiLineComments of tools/cpplint.py leaves of the lines of a file.
use vsm_cpp_sdk.Prelude.{
  ℕ, suc, ◌+◌, ◌-◌, ◌≤◌, ◌<◌, ◌≡◌, refl, sym, ap, ap₂, ◌∙◌, subst, Bool, true, false, inl, inr,
  List, [], ◌∷◌, ◌++◌, append_assoc, All, leb, length, length-append, drop-append_length,
  take-append_length, arith, Bool-cases, if◌then◌else◌, map,
}
use vsm_cpp_sdk.Text.{Text}
use vsm_cpp_sdk.Lint.Nolint.{Report}
use vsm_cpp_sdk.Lint.Comments.{
  begins_comment, ends_comment, next_line, dummy, clear_lines, clear_range, unclosed_report,
  remove_from,
}

abbrev pub Fails : (Text → Bool) → List Text → Type 0
Fails test = All (λ l. test l ≡ false)

-- No line passes a test, or there is a first one that does.
pub data Search (test : Text → Bool) (n : ℕ) : List Text → ℕ → Type 0 where
  absent : (ls : List Text) (k : ℕ) → Fails test ls → k ≡ n + length ls → Search test n ls k
  present :
      (front : List Text) (l : Text) (more : List Text) (k : ℕ)
      → Fails test front
      → test l ≡ true
      → k ≡ n + length front
      → Search test n (front ++ (l ∷ more)) k

later :
    {test : Text → Bool} {n k : ℕ} {ls : List Text} (l : Text)
    → test l ≡ false
    → Search test (suc n) ls k
    → Search test n (l ∷ ls) k
later l h (absent ls k f e) = absent (l ∷ ls) k (h, f) (omega arith)
later l h (present front m more k f t e) = present (l ∷ front) m more k (h, f) t (omega arith)

pub next_line-Search :
    (test : Text → Bool) (n : ℕ) (ls : List Text) → Search test n ls (next_line test n ls)
unfolding next_line
next_line-Search test n [] = absent [] n tt (omega arith)
next_line-Search test n (l ∷ ls) = elim (Bool-cases (test l)) [
  | inl h ↦ rw h (present [] l ls n tt h (omega arith))
  | inr h ↦ rw h (later l h (next_line-Search test (suc n) ls))
]

clear_lines-append :
    (xs ys : List Text) → clear_lines (length xs) (xs ++ ys) ≡ map (λ _. dummy) xs ++ ys
unfolding clear_lines
clear_lines-append [] ys = refl
clear_lines-append (x ∷ xs) ys = ap (λ zs. dummy ∷ zs) (clear_lines-append xs ys)

clear_range-append :
    (pre body more : List Text) (to : ℕ)
    → to ≡ length pre + length body
    → clear_range (pre ++ (body ++ more)) (length pre) to ≡ pre ++ (map (λ _. dummy) body ++ more)
unfolding clear_range
clear_range-append pre body more to e =
    let d : to - length pre ≡ length body = omega arith in
    rw (take-append_length pre (body ++ more), drop-append_length pre (body ++ more), d)
      (ap (λ zs. pre ++ zs) (clear_lines-append body more))

-- The lines of one comment: the first one begins it, and the last one is the first that ends it.
pub record IsComment (body : List Text) : Type 0 where
  pub first : Text
  pub others : List Text
  pub starts : body ≡ first ∷ others
  pub begins : begins_comment first ≡ true
  pub inside : List Text
  pub last : Text
  pub stops : body ≡ inside ++ (last ∷ [])
  pub open_before : All (λ l. ends_comment l ≡ false) inside
  pub ends : ends_comment last ≡ true

-- From the line number `n` on the lines become `out`, and what is reported. The lines of a comment are
-- cleared; lines outside of comments stay; a comment that is not ended is reported, and all stays
-- from there on.
pub data Removed : ℕ → List Text → List Text → List Report → Type 0 where
  clean : {n : ℕ} (ls : List Text) → All (λ l. begins_comment l ≡ false) ls → Removed n ls ls []
  unclosed :
      {n : ℕ} (skip : List Text) (l : Text) (more : List Text)
      → All (λ l. begins_comment l ≡ false) skip
      → begins_comment l ≡ true
      → All (λ l. ends_comment l ≡ false) (l ∷ more)
      → Removed n (skip ++ (l ∷ more)) (skip ++ (l ∷ more)) (unclosed_report (n + length skip) ∷ [])
  cleared :
      {n : ℕ} (skip body more out : List Text) (reports : List Report)
      → All (λ l. begins_comment l ≡ false) skip
      → IsComment body
      → Removed (n + length skip + length body) more out reports
      → Removed n (skip ++ (body ++ more)) (skip ++ (map (λ _. dummy) body ++ out)) reports

abbrev pub Result : List Text × List Report → List Text → List Text → Type 0
Result r pre rest =
    (out : List Text) × (reports : List Report) × (r ≡ (pre ++ out, reports))
    × Removed (length pre) rest out reports

abbrev pub Goal : ℕ → Type 0
Goal f =
    (pre rest : List Text)
    → length rest < f
    → Result (remove_from f (pre ++ rest) (length pre)) pre rest

-- What a round does once it has found the line that begins a comment.
abbrev pub closing : ℕ → List Text → ℕ → ℕ → List Text × List Report
closing f lines from to =
    if leb (length lines) to
    then (lines, unclosed_report from ∷ [])
    else remove_from f (clear_range lines from (to + 1)) (to + 1)

length-map-dummy : (xs : List Text) → length (map (λ (l : Text). dummy) xs) ≡ length xs
length-map-dummy [] = refl
length-map-dummy (x ∷ xs) = ap suc (length-map-dummy xs)

same_first :
    (inside : List Text) (last : Text) (rest : List Text) (l : Text) (more : List Text)
    → inside ++ (last ∷ rest) ≡ l ∷ more
    → (others : List Text) × (inside ++ (last ∷ []) ≡ l ∷ others)
same_first [] last rest l more e = ([], cc)
same_first (x ∷ inside) last rest l more e = (inside ++ (last ∷ []), cc)

pub closing-Result :
    (f : ℕ)
    → Goal f
    → (pre skip tail : List Text) (l : Text) (more : List Text) (to : ℕ)
    → All (λ l. begins_comment l ≡ false) skip
    → tail ≡ l ∷ more
    → begins_comment l ≡ true
    → length tail ≤ f
    → Search ends_comment (length (pre ++ skip)) tail to
    → Result (closing f ((pre ++ skip) ++ tail) (length (pre ++ skip)) to) pre (skip ++ tail)
closing-Result f ih pre skip tail l more to out e b small (absent ls k fails at_end) = (
  skip ++ tail,
  unclosed_report (length pre + length skip) ∷ [],
  let t : leb (length ((pre ++ skip) ++ tail)) to ≡ true =
        ground (arith, length-append (pre ++ skip) tail) in
      rw t (
        ap₂ (λ ls n. (ls, unclosed_report n ∷ [])) (append_assoc pre skip tail)
          (length-append pre skip)),
  subst
      (λ ls.
        Removed (length pre) (skip ++ ls) (skip ++ ls)
          (unclosed_report (length pre + length skip) ∷ []))
      (sym e) (unclosed skip l more out b (subst (Fails ends_comment) e fails)),
)
closing-Result f ih pre skip tail l more to out e b small (present inside last rest k fails t at) =
    let body = inside ++ (last ∷ []) in
    let gone = map (λ (l : Text). dummy) body in
    let whole : body ++ rest ≡ inside ++ (last ∷ rest) = append_assoc inside (last ∷ []) rest in
    let n : length body ≡ length inside + 1 = length-append inside (last ∷ []) in
    let total : length (inside ++ (last ∷ rest)) ≡ length inside + suc (length rest) =
      length-append inside (last ∷ rest) in
    let pre' = (pre ++ skip) ++ gone in
    let width : length pre' ≡ length pre + length skip + length body =
      omega
        (arith, length-append (pre ++ skip) gone, length-append pre skip, length-map-dummy body) in
    let (out', reports, q, r) = ih pre' rest (omega arith) in
    let before_end : leb (length ((pre ++ skip) ++ (inside ++ (last ∷ rest)))) to ≡ false =
      ground (arith, length-append (pre ++ skip) (inside ++ (last ∷ rest))) in
    let behind : to + 1 ≡ length pre' = omega (arith, width, length-append pre skip) in
    let range : clear_range ((pre ++ skip) ++ (inside ++ (last ∷ rest))) (length (pre ++ skip))
          (to + 1)
        ≡ pre' ++ rest =
      ap (λ ls. clear_range ((pre ++ skip) ++ ls) (length (pre ++ skip)) (to + 1)) (sym whole)
      ∙ (clear_range-append (pre ++ skip) body rest (to + 1) (omega arith)
          ∙ sym (append_assoc (pre ++ skip) gone rest)) in
    let (others, starts) = same_first inside last rest l more e in
    (
      skip ++ (gone ++ out'),
      reports,
      rw before_end (
          ap₂ (λ ls n. remove_from f ls n) range behind
          ∙ (q
              ∙ ap (λ ls. (ls, reports))
                  (append_assoc (pre ++ skip) gone out' ∙ append_assoc pre skip (gone ++ out')))),
      subst (λ ls. Removed (length pre) (skip ++ ls) (skip ++ (gone ++ out')) reports) whole
          (cleared skip body rest out' reports out
            (record {
              first = l;
              others = others;
              starts = starts;
              begins = b;
              inside = inside;
              last = last;
              stops = refl;
              open_before = fails;
              ends = t;
            })
            (subst (λ m. Removed m rest out' reports) width r)),
    )
