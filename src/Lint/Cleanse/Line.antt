-- ===== src/Lint/Cleanse/Line.antt =====
-- CleanseComments of tools/cpplint.py over a whole line: the comment up to the end, then the others.
use vsm_cpp_sdk.Prelude.{
  ℕ, suc, ◌≡◌, refl, sym, subst, true, false, Option, none, some, [], ◌∷◌, ◌++◌, length, drop,
  if◌then◌else◌, arith, Bool-cases, inl, inr,
}
use vsm_cpp_sdk.Text.{Text, codes}
use vsm_cpp_sdk.Text.Find.{starts_with, has_text, rstrip}
use vsm_cpp_sdk.Lint.Cleanse.{is_cpp_string, before_slashes, cleanse_comments}
use vsm_cpp_sdk.Lint.Cleanse.Cleansed.{Cleansed, remove_comments-Cleansed, starts_with-two}

-- The first "//" of a line, if there is one.
data Slashes : Text → Option Text → Type 0 where
  absent : (line : Text) → has_text (codes "//") line ≡ false → Slashes line none
  present :
      (code rest : Text)
      → has_text (codes "//") (code ++ (b'/' ∷ [])) ≡ false
      → Slashes (code ++ (b'/' ∷ b'/' ∷ rest)) (some code)

front :
    (c : ℕ) (code rest : Text)
    → starts_with (codes "//") (c ∷ (code ++ (b'/' ∷ b'/' ∷ rest))) ≡ false
    → starts_with (codes "//") (c ∷ (code ++ (b'/' ∷ []))) ≡ false
unfolding starts_with
front c [] rest h = h
front c (d ∷ code) rest h = h

Slashes-cons :
    (c : ℕ) {s : Text} {o : Option Text}
    → starts_with (codes "//") (c ∷ s) ≡ false
    → Slashes s o
    → Slashes (c ∷ s) (elim o [ none ↦ none | some t ↦ some (c ∷ t) ])
unfolding has_text
Slashes-cons c h (absent s f) = absent (c ∷ s) (rw (h, f) refl)
Slashes-cons c h (present code rest f) = present (c ∷ code) rest (rw (front c code rest h, f) refl)

before_slashes-Slashes : (line : Text) → Slashes line (before_slashes line)
unfolding before_slashes
before_slashes-Slashes [] = absent [] (unfold has_text starts_with in refl)
before_slashes-Slashes (c ∷ s) = elim (Bool-cases (starts_with (codes "//") (c ∷ s))) [
  | inl h ↦
      rw (h, before_slashes)
        (subst (λ u. Slashes u (some [])) (sym (starts_with-two b'/' b'/' (c ∷ s) h))
          (present [] (drop 2 (c ∷ s)) (unfold has_text starts_with in refl)))
  | inr h ↦ rw (h, before_slashes) (Slashes-cons c h (before_slashes-Slashes s))
]

-- What is left in front of the first "//": all of the line if there is none or it is in a string.
pub data Cut : Text → Text → Type 0 where
  whole : (line : Text) → has_text (codes "//") line ≡ false → Cut line line
  in_string :
      (code rest : Text)
      → has_text (codes "//") (code ++ (b'/' ∷ [])) ≡ false
      → is_cpp_string code ≡ true
      → Cut (code ++ (b'/' ∷ b'/' ∷ rest)) (code ++ (b'/' ∷ b'/' ∷ rest))
  cut :
      (code rest : Text)
      → has_text (codes "//") (code ++ (b'/' ∷ [])) ≡ false
      → is_cpp_string code ≡ false
      → Cut (code ++ (b'/' ∷ b'/' ∷ rest)) (rstrip code)

Slashes-Cut :
    (line : Text) {o : Option Text}
    → Slashes line o
    → Cut line
        (elim o [ none ↦ line | some code ↦ if is_cpp_string code then line else rstrip code ])
Slashes-Cut line (absent _ f) = whole line f
Slashes-Cut line (present code rest f) = elim (Bool-cases (is_cpp_string code)) [
  | inl s ↦ rw s (in_string code rest f s)
  | inr s ↦ rw s (cut code rest f s)
]

-- CleanseComments cuts the line at its first "//", unless that is in a string. Of what is left vanish
-- comments, with blanks next to them, and nothing else; a character stays only where no comment begins
-- in what is left. The characters that stay may form a comment of their own.
pub cleanse_comments-Cleansed :
    (line : Text) → (code : Text) × Cut line code × Cleansed code (cleanse_comments line)
unfolding cleanse_comments
cleanse_comments-Cleansed line =
    let code : Text = elim (before_slashes line) [
      | none ↦ line
      | some code ↦ if is_cpp_string code then line else rstrip code
    ] in
    (
      code,
      Slashes-Cut line (before_slashes-Slashes line),
      remove_comments-Cleansed (suc (length code)) code (omega arith),
    )
