-- ===== src/Lint/Strings/Collapsed.antt =====
-- What _CollapseStrings of tools/cpplint.py makes of a line, and that it ends.
use vsm_cpp_sdk.Prelude.{
  ℕ, zero, suc, ◌≤◌, ◌<◌, ◌≡◌, refl, sym, ap, subst, Bool, true, false, not, ◌&&◌, Option, none,
  some, [], ◌∷◌, ◌++◌, ◌==◌, All, length, length-append, arith, Bool-cases, inl, inr, &&-true,
}
use vsm_cpp_sdk.Text.{Text}
use vsm_cpp_sdk.Text.Find.{◌>>=◌}
use vsm_cpp_sdk.Lint.Nolint.Global.{search_word}
use vsm_cpp_sdk.Lint.Strings.{
  is_quote, split_quote, behind, ends_number, literal, quoted, collapse_quote, collapse_round,
  collapse_from, collapse_strings, is_include_line, remove_escapes,
}

abbrev NoQuote : Text → Type 0
NoQuote = All (λ c. is_quote c ≡ false)

abbrev Without : ℕ → Text → Type 0
Without q = All (λ c. (c == q) ≡ false)

-- Whether a quote behind `head` stands between digits.
abbrev pub separates : Text → ℕ → Bool
separates head quote = not (quote == b'"') && ends_number head

-- The strings and characters of a line become empty, the separators of digits vanish, and from a
-- string that is not closed on the line on all stays.
pub data Collapsed : Text → Text → Type 0 where
  plain : (s : Text) → NoQuote s → Collapsed s s
  unclosed :
      (head : Text) (quote : ℕ) (tail : Text)
      → NoQuote head
      → is_quote quote ≡ true
      → separates head quote ≡ false
      → Without quote tail
      → Collapsed (head ++ (quote ∷ tail)) (head ++ (quote ∷ tail))
  closed :
      (head : Text) (quote : ℕ) (body rest out : Text)
      → NoQuote head
      → is_quote quote ≡ true
      → separates head quote ≡ false
      → Without quote body
      → Collapsed rest out
      → Collapsed
          (head ++ (quote ∷ (body ++ (quote ∷ rest))))
          ((head ++ (quote ∷ quote ∷ [])) ++ out)
  separated :
      (head : Text) (quote : ℕ) (tail rest out : Text) (kept : Text)
      → NoQuote head
      → separates head quote ≡ true
      → literal (quote ∷ tail) ≡ (kept, rest)
      → Collapsed rest out
      → Collapsed (head ++ (quote ∷ tail)) ((head ++ kept) ++ out)

data Split : Text → Option (Text × (ℕ × Text)) → Type 0 where
  no_quote : (s : Text) → NoQuote s → Split s none
  at_quote :
      (head : Text) (quote : ℕ) (tail : Text)
      → NoQuote head
      → is_quote quote ≡ true
      → Split (head ++ (quote ∷ tail)) (some (head, (quote, tail)))

Split-cons :
    (c : ℕ) {s : Text} {o : Option (Text × (ℕ × Text))}
    → is_quote c ≡ false
    → Split s o
    → Split (c ∷ s) (do (head, r) ← o; some (c ∷ head, r))
Split-cons c h (no_quote s f) = no_quote (c ∷ s) (h, f)
Split-cons c h (at_quote head quote tail f q) = at_quote (c ∷ head) quote tail (h, f) q

split_quote-Split : (s : Text) → Split s (split_quote s)
unfolding split_quote
split_quote-Split [] = no_quote [] tt
split_quote-Split (c ∷ s) = elim (Bool-cases (is_quote c)) [
  | inl q ↦ rw (q, split_quote) (at_quote [] c s tt q)
  | inr n ↦ rw (n, split_quote) (Split-cons c n (split_quote-Split s))
]

data Behind (q : ℕ) : Text → Option Text → Type 0 where
  nowhere : (t : Text) → Without q t → Behind q t none
  there : (body rest : Text) → Without q body → Behind q (body ++ (q ∷ rest)) (some rest)

Behind-cons :
    {q : ℕ} (c : ℕ) {t : Text} {o : Option Text}
    → (c == q) ≡ false
    → Behind q t o
    → Behind q (c ∷ t) o
Behind-cons c h (nowhere t f) = nowhere (c ∷ t) (h, f)
Behind-cons c h (there body rest f) = there (c ∷ body) rest (h, f)

behind-Behind : (q : ℕ) (t : Text) → Behind q t (behind q t)
unfolding behind
behind-Behind q [] = nowhere [] tt
behind-Behind q (c ∷ t) = elim (Bool-cases (c == q)) [
  | inl e ↦
      rw (e, behind)
        (let same : c ≡ q = ground arith in
          subst (λ d. Behind q (d ∷ t) (some t)) (sym same) (there [] t tt))
  | inr n ↦ rw (n, behind) (Behind-cons c n (behind-Behind q t))
]

literal-length : (s : Text) → length (literal s).1 ≤ length s
unfolding literal
literal-length [] = omega arith
literal-length (c ∷ s) = ground (arith, literal-length s)

ends_number-length : (head : Text) → ends_number head ≡ true → 0 < length head
unfolding ends_number search_word
ends_number-length [] h = cc
ends_number-length (c ∷ s) h = omega arith

-- A round: the loop ends with the right text, or it goes on with a shorter one.
data Case (s : Text) : Text × Option Text → Type 0 where
  final : (out : Text) → Collapsed s out → Case s (out, none)
  onward :
      (piece rest : Text)
      → length rest < length s
      → ((out : Text) → Collapsed rest out → Collapsed s (piece ++ out))
      → Case s (piece, some rest)

quoted-Case :
    (head : Text) (quote : ℕ) {tail : Text} {o : Option Text}
    → NoQuote head
    → is_quote quote ≡ true
    → separates head quote ≡ false
    → Behind quote tail o
    → Case (head ++ (quote ∷ tail)) (elim o [
      | none ↦ (head ++ (quote ∷ tail), none)
      | some rest ↦ (head ++ (quote ∷ quote ∷ []), some rest)
    ])
quoted-Case head quote n q d (nowhere tail f) =
    final (head ++ (quote ∷ tail)) (unclosed head quote tail n q d f)
quoted-Case head quote n q d (there body rest f) =
    onward (head ++ (quote ∷ quote ∷ [])) rest
      (omega (
        arith,
        length-append head (quote ∷ (body ++ (quote ∷ rest))),
        length-append body (quote ∷ rest),
      ))
      (λ out r. closed head quote body rest out n q d f r)

collapse_quote-Case :
    (head : Text) (quote : ℕ) (tail : Text)
    → NoQuote head
    → is_quote quote ≡ true
    → Case (head ++ (quote ∷ tail)) (collapse_quote (head ++ (quote ∷ tail)) head quote tail)
unfolding collapse_quote quoted
collapse_quote-Case head quote tail n q = elim (Bool-cases (separates head quote)) [
  | inl s ↦ rw s (
      onward (head ++ (literal (quote ∷ tail)).0) (literal (quote ∷ tail)).1
        (omega (
          arith,
          literal-length (quote ∷ tail),
          length-append head (quote ∷ tail),
          ends_number-length head (&&-true (not (quote == b'"')) (ends_number head) s).1,
        ))
        (λ out r.
          separated head quote tail (literal (quote ∷ tail)).1 out (literal (quote ∷ tail)).0 n s
            refl r))
  | inr d ↦ rw d (quoted-Case head quote n q d (behind-Behind quote tail))
]

collapse_round-Case :
    {s : Text} {o : Option (Text × (ℕ × Text))}
    → split_quote s ≡ o
    → Split s o
    → Case s (collapse_round s)
unfolding collapse_round
collapse_round-Case e (no_quote s n) = rw (e, collapse_round) (final s (plain s n))
collapse_round-Case e (at_quote head quote tail n q) =
    rw (e, collapse_round) (collapse_quote-Case head quote tail n q)

abbrev Total : ℕ → Type 0
Total f =
    (s : Text) → length s < f → (out : Text) × (collapse_from f s ≡ some out) × Collapsed s out

round-Total :
    (f : ℕ)
    → Total f
    → (s : Text) → length s < suc f
    → {r : Text × Option Text} → collapse_round s ≡ r
    → Case s r
    → (out : Text) × (collapse_from (suc f) s ≡ some out) × Collapsed s out
unfolding collapse_from
round-Total f ih s h e (final out c) =
    let e1 : (collapse_round s).1 ≡ none = ap (λ p. p.1) e in
    (out, rw (e1, collapse_from) (ap (λ p. some p.0) e), c)
round-Total f ih s h e (onward piece rest less c) =
    let (out, run, d) = ih rest (omega arith) in
    let e1 : (collapse_round s).1 ≡ some rest = ap (λ p. p.1) e in
    (piece ++ out, rw (e1, run, collapse_from) (ap (λ p. some (p.0 ++ out)) e), c out d)

collapse_from-Collapsed : (f : ℕ) → Total f
collapse_from-Collapsed zero s h = elim h [ ]
collapse_from-Collapsed (suc f) s h =
    round-Total f (collapse_from-Collapsed f) s h refl
      (collapse_round-Case refl (split_quote-Split s))

-- _CollapseStrings ends on every line. A line that includes a header stays; of any other one the
-- escaped characters are removed, then each string and each character on it becomes empty, the
-- separators of digits vanish, and from a string that is not closed on the line on all stays.
pub collapse_strings-Collapsed :
    (line : Text)
    → (out : Text) × (collapse_strings line ≡ some out)
      × ((is_include_line line ≡ true → out ≡ line)
          × (is_include_line line ≡ false → Collapsed (remove_escapes 0 line) out))
unfolding collapse_strings
collapse_strings-Collapsed line = elim (Bool-cases (is_include_line line)) [
  | inl h ↦ rw (h, collapse_strings) (line, refl, (λ _. refl, λ k. cc))
  | inr h ↦
      let s = remove_escapes 0 line in
      let (out, run, c) = collapse_from-Collapsed (suc (length s)) s (omega arith) in
      rw (h, collapse_strings) (out, run, (λ k. cc, λ _. c))
]
