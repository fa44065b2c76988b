-- ===== src/Lint/Cleanse/Cleansed.antt =====
-- What CleanseComments of tools/cpplint.py leaves of a line.
use vsm_cpp_sdk.Prelude.{
  ℕ, zero, suc, ◌+◌, ◌-◌, ◌<◌, ◌≡◌, refl, sym, ap, ap₂, ◌∙◌, subst, true, false, Option, none, some,
  [], ◌∷◌, ◌++◌, append_assoc, ◌==◌, All, length, length-append, drop, drop-append_length,
  if◌then◌else◌, arith, Bool-cases, Option-cases, ◌⊎◌, inl, inr,
}
use vsm_cpp_sdk.Text.{Text, codes, is_space}
use vsm_cpp_sdk.Text.Find.{starts_with, has_text, skip_spaces}
use vsm_cpp_sdk.Lint.Cleanse.{
  behind_end, behind_comment, match_comment, remove_comments, begins_word,
}

abbrev Blank : Text → Type 0
Blank = All (λ c. is_space c ≡ true)

-- A comment with a text behind it.
abbrev pub comment : Text → Text → Text
comment body rest = b'/' ∷ b'*' ∷ (body ++ (b'*' ∷ b'/' ∷ rest))

-- Comments vanish, with blanks next to them; where a character stays, no comment begins.
pub data Cleansed : Text → Text → Type 0 where
  empty : Cleansed [] []
  kept :
      (c : ℕ) (s out : Text)
      → behind_comment (c ∷ s) ≡ none
      → Cleansed s out
      → Cleansed (c ∷ s) (c ∷ out)
  removed :
      (before body after rest out : Text)
      → Blank before
      → has_text (codes "*/") body ≡ false
      → Blank after
      → Cleansed rest out
      → Cleansed (before ++ comment body (after ++ rest)) out

skip_spaces-Blank : (s : Text) → (b : Text) × (s ≡ b ++ skip_spaces s) × Blank b
unfolding skip_spaces
skip_spaces-Blank [] = ([], refl, tt)
skip_spaces-Blank (c ∷ s) = elim (Bool-cases (is_space c)) [
  | inl h ↦ let (b, e, bs) = skip_spaces-Blank s in rw h (c ∷ b, ap (λ t. c ∷ t) e, (h, bs))
  | inr h ↦ rw h ([], refl, tt)
]

pub starts_with-two :
    (c d : ℕ) (s : Text) → starts_with (c ∷ d ∷ []) s ≡ true → s ≡ c ∷ d ∷ drop 2 s
unfolding starts_with
starts_with-two c d [] h = cc
starts_with-two c d (x ∷ []) h = absurd (ground arith)
starts_with-two c d (x ∷ y ∷ s) h =
    let e : x ≡ c = ground arith in let e' : y ≡ d = ground arith in ap₂ (λ v w. v ∷ w ∷ s) e e'

pub starts_with-front :
    (a b c : ℕ) (body t : Text)
    → starts_with (a ∷ b ∷ []) (c ∷ (body ++ t)) ≡ false
    → starts_with (a ∷ b ∷ []) (c ∷ body) ≡ false
unfolding starts_with
starts_with-front a b c [] t h = ground arith
starts_with-front a b c (d ∷ body) t h = h

behind_end-first :
    (s r : Text)
    → behind_end s ≡ some r
    → (body : Text) × (s ≡ body ++ (b'*' ∷ b'/' ∷ r)) × (has_text (codes "*/") body ≡ false)
unfolding has_text
behind_end-first [] r h = absurd (unfold behind_end in cc)
behind_end-first (c ∷ s) r h = elim (Bool-cases (starts_with (codes "*/") (c ∷ s))) [
  | inl q ↦
      let e : drop 1 s ≡ r = unfold behind_end in cc (rw (q, behind_end) at h) in
      ([], starts_with-two b'*' b'/' (c ∷ s) q ∙ ap (λ t. b'*' ∷ b'/' ∷ t) e, starts_with-nil)
  | inr q ↦
      let (body, e, f) = behind_end-first s r (unfold behind_end in (rw (q, behind_end) at h)) in
      let g =
        starts_with-front b'*' b'/' c body (b'*' ∷ b'/' ∷ r)
          (subst (λ t. starts_with (codes "*/") (c ∷ t) ≡ false) e q) in
      (c ∷ body, ap (λ t. c ∷ t) e, rw (g, f) refl)
]
  where
    starts_with-nil : starts_with (codes "*/") [] ≡ false
    starts_with-nil = unfold starts_with in refl

behind_comment-comment :
    (s r : Text)
    → behind_comment s ≡ some r
    → (body : Text) × (s ≡ comment body r) × (has_text (codes "*/") body ≡ false)
behind_comment-comment s r h = elim (Bool-cases (starts_with (codes "/*") s)) [
  | inl q ↦
      let (body, e, f) =
        behind_end-first (drop 2 s) r (unfold behind_comment in (rw (q, behind_comment) at h)) in
      (body, starts_with-two b'/' b'*' s q ∙ ap (λ t. b'/' ∷ b'*' ∷ t) e, f)
  | inr q ↦ absurd (unfold behind_comment in cc (rw (q, behind_comment) at h))
]

-- What a match of the pattern removes.
data Match (s : Text) : Option Text → Type 0 where
  no_match : behind_comment s ≡ none → Match s none
  matched :
      (before body after r : Text)
      → Blank before
      → has_text (codes "*/") body ≡ false
      → Blank after
      → s ≡ before ++ comment body (after ++ r)
      → Match s (some r)

skip_spaces-cases : (s : Text) → (skip_spaces s ≡ s) ⊎ (behind_comment s ≡ none)
unfolding skip_spaces behind_comment starts_with is_space
skip_spaces-cases [] = inl refl
skip_spaces-cases (c ∷ s) = elim (Bool-cases (is_space c)) [
  | inl h ↦ inr (let no : (c == b'/') ≡ false = ground arith in rw no refl)
  | inr h ↦ inl (rw h refl)
]

length-nil : (t : Text) → (length t == 0) ≡ true → t ≡ []
length-nil [] h = refl
length-nil (c ∷ t) h = absurd (ground arith)

-- The match of a comment behind blanks.
found-Match :
    (s r : Text)
    → ((skip_spaces s ≡ s) ⊎ (behind_comment s ≡ none))
    → behind_comment (skip_spaces s) ≡ some r
    → Match s (
        if length (skip_spaces r) == 0
        then some []
        else if length (skip_spaces s) == length s
        then some (skip_spaces r)
        else if begins_word r
        then none
        else some r)
found-Match s r same h =
    let (before, e, blank) = skip_spaces-Blank s in
    let (body, e', f) = behind_comment-comment (skip_spaces s) r h in
    let (after, e2, blank') = skip_spaces-Blank r in
    let whole : s ≡ before ++ comment body r = e ∙ ap (λ t. before ++ t) e' in
    let long : s ≡ before ++ comment body (after ++ skip_spaces r) =
      whole ∙ ap (λ t. before ++ comment body t) e2 in
    elim (Bool-cases (length (skip_spaces r) == 0)) [
      | inl z ↦
          let nil = length-nil (skip_spaces r) z in
          rw z (
            matched before body after [] blank f blank'
              (long ∙ ap (λ t. before ++ comment body (after ++ t)) nil))
      | inr z ↦ elim (Bool-cases (length (skip_spaces s) == length s)) [
        | inl y ↦ rw (z, y) (matched before body after (skip_spaces r) blank f blank' long)
        | inr y ↦ elim (Bool-cases (begins_word r)) [
          | inl w ↦
              rw (z, y, w)
                (no_match (elim same [
                  | inl k ↦
                      (let n : length (skip_spaces s) ≡ length s = ap length k in
                        absurd (ground arith))
                  | inr k ↦ k
                ]))
          | inr w ↦ rw (z, y, w) (matched before body [] r blank f tt whole)
        ]
      ]
    ]

match_comment-Match : (s : Text) → Match s (match_comment s)
unfolding match_comment
match_comment-Match s = elim (Option-cases (behind_comment (skip_spaces s))) [
  | inl n ↦
      rw (n, match_comment)
        (no_match (elim (skip_spaces-cases s) [
          | inl k ↦ subst (λ t. behind_comment t ≡ none) k n
          | inr k ↦ k
        ]))
  | inr (r, h) ↦ rw (h, match_comment) (found-Match s r (skip_spaces-cases s) h)
]

remove_comments-drop : (k : ℕ) (s : Text) → remove_comments k s ≡ remove_comments 0 (drop k s)
unfolding remove_comments
remove_comments-drop zero s = refl
remove_comments-drop (suc k) [] = refl
remove_comments-drop (suc k) (c ∷ s) = remove_comments-drop k s

abbrev pub Total : ℕ → Type 0
Total n = (s : Text) → length s < n → Cleansed s (remove_comments 0 s)

-- What goes with a match is not empty.
front-cons :
    (before : Text) (t : Text)
    → (y : ℕ) × (ys : Text) × ((r : Text) → before ++ (b'/' ∷ (t ++ r)) ≡ y ∷ (ys ++ r))
front-cons [] t = (b'/', t, λ r. refl)
front-cons (x ∷ xs) t =
    (x, xs ++ (b'/' ∷ t), λ r. ap (λ u. x ∷ u) (sym (append_assoc xs (b'/' ∷ t) r)))

comment-append :
    (body after r : Text)
    → comment body (after ++ r) ≡ b'/' ∷ ((b'*' ∷ (body ++ (b'*' ∷ b'/' ∷ after))) ++ r)
comment-append body after r =
    ap (λ u. b'/' ∷ b'*' ∷ u) (sym (append_assoc body (b'*' ∷ b'/' ∷ after) r))

round-Total :
    (n : ℕ)
    → Total n
    → (c : ℕ) (s : Text) → length (c ∷ s) < suc n
    → {o : Option Text} → match_comment (c ∷ s) ≡ o
    → Match (c ∷ s) o
    → Cleansed (c ∷ s) (remove_comments 0 (c ∷ s))
unfolding remove_comments
round-Total n ih c s h e (no_match f) =
    rw (e, remove_comments) (kept c s (remove_comments 0 s) f (ih s (omega arith)))
round-Total n ih c s h e (matched before body after r b f a whole) =
    let (y, ys, q) = front-cons before (b'*' ∷ (body ++ (b'*' ∷ b'/' ∷ after))) in
    let split : c ∷ s ≡ y ∷ (ys ++ r) =
      whole ∙ (ap (λ u. before ++ u) (comment-append body after r) ∙ q r) in
    let tail : s ≡ ys ++ r = ap (λ u. drop 1 u) split in
    let n1 : length s ≡ length ys + length r = ap length tail ∙ length-append ys r in
    let n2 : length s - length r ≡ length ys = omega arith in
    let left : drop (length s - length r) s ≡ r =
      ap₂ (λ k u. drop k u) n2 tail ∙ drop-append_length ys r in
    let run : remove_comments 0 (c ∷ s) ≡ remove_comments 0 r =
      rw (e, remove_comments)
        (remove_comments-drop (length s - length r) s ∙ ap (λ u. remove_comments 0 u) left) in
    subst (λ u. Cleansed u (remove_comments 0 (c ∷ s))) (sym whole)
      (subst (λ u. Cleansed (before ++ comment body (after ++ r)) u) (sym run)
        (removed before body after r (remove_comments 0 r) b f a (ih r (omega arith))))

pub remove_comments-Cleansed : (n : ℕ) → Total n
remove_comments-Cleansed zero s h = elim h [ ]
remove_comments-Cleansed (suc n) [] h = unfold remove_comments in empty
remove_comments-Cleansed (suc n) (c ∷ s) h =
    round-Total n (remove_comments-Cleansed n) c s h refl (match_comment-Match (c ∷ s))
