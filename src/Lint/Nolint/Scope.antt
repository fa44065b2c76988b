-- ===== src/Lint/Nolint/Scope.antt =====
-- What a NOLINT comment of tools/cpplint.py suppresses.
use vsm_cpp_sdk.Prelude.{
  ℕ, ◌+◌, ◌≡◌, refl, sym, ap, ◌∙◌, Bool, true, false, not, ◌&&◌, ◌||◌, none, some, Option, List, [],
  ◌∷◌, ◌++◌, ◌==◌, if◌then◌else◌, All, all, arith, Bool-cases, inl, inr, append_assoc, append-nil,
  subst, &&-true,
}
use vsm_cpp_sdk.Text.{Text, codes, text_eq, text_eq_iff, is_word}
use vsm_cpp_sdk.Text.Find.{starts_with, has_text}
use vsm_cpp_sdk.Lint.Nolint.{
  error_categories, contains, Suppressions, same_key, on_line, is_suppressed, until_close,
  in_brackets, nolint_at, search_nolint, suppress, suppress_category, parse_nolint,
}

-- A line number under a key, at the end of the pairs.
on_line-append :
    (k j : Option Text) (n m : ℕ) (ps : List (Option Text × ℕ))
    → on_line k n (ps ++ ((j, m) ∷ [])) ≡ (on_line k n ps || (same_key j k && m == n))
unfolding on_line
on_line-append k j n m [] = ground arith
on_line-append k j n m ((i, p) ∷ ps) = ground (arith, on_line-append k j n m ps)

is_suppressed-suppress :
    (s : Suppressions) (t : Text) (m : ℕ) (c : Text) (n : ℕ)
    → is_suppressed (suppress (some t) m s) c n ≡ (is_suppressed s c n || (text_eq t c && m == n))
unfolding is_suppressed suppress same_key
is_suppressed-suppress s t m c n =
    rw (on_line-append (some c) (some t) n m s.lines, on_line-append none (some t) n m s.lines)
      (ground arith)

-- No closing bracket in a text.
abbrev open_text : Text → Bool
open_text = all (λ c. not (c == b')'))

until_close-append :
    (cur t rest : Text)
    → open_text t ≡ true
    → until_close cur (t ++ (b')' ∷ rest)) ≡ until_close (cur ++ t) (b')' ∷ rest)
unfolding all until_close
until_close-append cur [] rest h = ap (λ r. until_close r (b')' ∷ rest)) (sym (append-nil cur))
until_close-append cur (c ∷ t) rest h = elim (Bool-cases (c == b')')) [
  | inl close ↦ absurd (cc (rw close at h))
  | inr plain ↦
      rw (plain, until_close)
        (until_close-append (cur ++ (c ∷ [])) t rest (ground arith)
          ∙ ap (λ r. until_close r (b')' ∷ rest)) (append_assoc cur (c ∷ []) t))
]

until_close-open :
    (t rest : Text)
    → open_text t ≡ true
    → text_eq t [] ≡ false
    → until_close [] (t ++ (b')' ∷ rest)) ≡ some t
unfolding until_close text_eq
until_close-open [] rest h k = ground arith
until_close-open (c ∷ t) rest h k = until_close-append [] (c ∷ t) rest h

-- A category that a comment can name: it has a character, no closing bracket, and is not the star.
abbrev is_named : Text → Bool
is_named t = not (text_eq t (codes "*")) && (open_text t && not (text_eq t []))

contains-all :
    (p : Text → Bool) (t : Text) (us : List Text)
    → contains t us ≡ true
    → all p us ≡ true
    → p t ≡ true
unfolding contains all
contains-all p t [] h k = ground arith
contains-all p t (u ∷ us) h k = elim (Bool-cases (text_eq u t)) [
  | inl same ↦ subst (λ v. p v ≡ true) ((text_eq_iff u t).0 same) (&&-true (p u) (all p us) k).0
  | inr other ↦ contains-all p t us (rw other at h) (&&-true (p u) (all p us) k).1
]

error_categories-is_named : all is_named error_categories ≡ true
unfolding all error_categories text_eq
error_categories-is_named = refl

-- The comment itself, for the line that it stands on or for the next one.
abbrev pub comment : Bool → Text → Text → Text
comment next category rest =
    codes "NOLINT"
    ++ ((if next then codes "NEXTLINE" else []) ++ (b'(' ∷ (category ++ (b')' ∷ rest))))

nolint_at-comment :
    (next : Bool) (category rest : Text)
    → open_text category ≡ true
    → text_eq category [] ≡ false
    → nolint_at false (comment next category rest) ≡ some (next, some category)
unfolding nolint_at in_brackets starts_with is_word
nolint_at-comment true category rest h k =
    ap (λ o. some (true, o)) (until_close-open category rest h k)
nolint_at-comment false category rest h k =
    ap (λ o. some (false, o)) (until_close-open category rest h k)

search_nolint-comment :
    (next : Bool) (category rest : Text)
    → open_text category ≡ true
    → text_eq category [] ≡ false
    → search_nolint false (comment next category rest) ≡ some (next, some category)
unfolding search_nolint
search_nolint-comment next category rest h k =
    rw (nolint_at-comment next category rest h k, search_nolint) refl

-- A blank ends what a text without blanks can match.
starts_with-front :
    (p front s : Text)
    → All (λ c. (b' ' == c) ≡ false) p
    → starts_with p (front ++ (b' ' ∷ s)) ≡ starts_with p front
unfolding starts_with
starts_with-front [] front s h = refl
starts_with-front (c ∷ p) [] s (h, hs) = ap (λ b. b && starts_with p s) h
starts_with-front (c ∷ p) (d ∷ front) s (h, hs) =
    ap (λ b. d == c && b) (starts_with-front p front s hs)

nolint_at-other :
    (in_word : Bool) (s : Text)
    → starts_with (codes "NOLINT") s ≡ false
    → nolint_at in_word s ≡ none
unfolding nolint_at
nolint_at-other in_word s h = elim (Bool-cases in_word) [
  | inl w ↦ rw w refl
  | inr w ↦ rw (w, h) refl
]

neither : (a b : Bool) → (a || b) ≡ false → (a ≡ false) × (b ≡ false)
neither a b h = (ground arith, ground arith)

search_nolint-front :
    (in_word : Bool) (front s : Text)
    → has_text (codes "NOLINT") front ≡ false
    → search_nolint in_word (front ++ (b' ' ∷ s)) ≡ search_nolint false s
unfolding search_nolint is_word has_text
search_nolint-front in_word [] s h =
    rw (nolint_at-other in_word (b' ' ∷ s) (unfold starts_with in refl), search_nolint) refl
search_nolint-front in_word (c ∷ front) s h =
    let (first, rest) = neither (starts_with (codes "NOLINT") (c ∷ front)) _ h in
    let other : starts_with (codes "NOLINT") (c ∷ (front ++ (b' ' ∷ s))) ≡ false =
      starts_with-front (codes "NOLINT") (c ∷ front) s
        (refl, (refl, (refl, (refl, (refl, (refl, tt))))))
      ∙ first in
    rw (nolint_at-other in_word (c ∷ (front ++ (b' ' ∷ s))) other, search_nolint)
      (search_nolint-front (is_word c) front s rest)

parts : (a b c : Bool) → (not a && (b && not c)) ≡ true → (a ≡ false) × ((b ≡ true) × (c ≡ false))
parts a b c h = ground arith

-- A comment NOLINT(category) or NOLINTNEXTLINE(category) with one of the known categories, behind a
-- blank and text without NOLINT, suppresses that category on its line or on the next, and nothing
-- more, whatever follows it, also another such comment; it is not reported.
pub parse_nolint-comment :
    (s : Suppressions) (front : Text) (next : Bool) (category rest : Text) (linenum : ℕ)
    → has_text (codes "NOLINT") front ≡ false
    → contains category error_categories ≡ true
    → let r = parse_nolint s (front ++ (b' ' ∷ comment next category rest)) linenum in
      (r.1 ≡ [])
      × ((c : Text) (n : ℕ)
          → is_suppressed r.0 c n ≡ (
              is_suppressed s c n
              || (text_eq category c && (if next then linenum + 1 else linenum) == n)))
parse_nolint-comment s front next category rest linenum h known =
    let named = contains-all is_named category error_categories known error_categories-is_named in
    let (plain, (open_one, some_one)) =
      parts (text_eq category (codes "*")) (open_text category) (text_eq category []) named in
    let found : search_nolint false (front ++ (b' ' ∷ comment next category rest))
        ≡ some (next, some category) =
      search_nolint-front false front (comment next category rest) h
      ∙ search_nolint-comment next category rest open_one some_one in
    let line = if next then linenum + 1 else linenum in
    let done : suppress_category s linenum line (some category)
        ≡ (suppress (some category) line s, []) =
      unfold suppress_category in rw (plain, known) refl in
    let whole : parse_nolint s (front ++ (b' ' ∷ comment next category rest)) linenum
        ≡ (suppress (some category) line s, []) =
      unfold parse_nolint in rw (found, parse_nolint) done in
    rw whole (refl, λ c n. is_suppressed-suppress s category line c n)
