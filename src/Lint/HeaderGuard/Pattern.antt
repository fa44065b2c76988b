-- ===== src/Lint/HeaderGuard/Pattern.antt =====
-- The pattern of the #endif line in CheckForHeaderGuard of tools/cpplint.py.
use vsm_cpp_sdk.Prelude.{
  ℕ, ◌≡◌, refl, ap, ◌∙◌, Bool, true, false, ◌||◌, ◌&&◌, [], ◌∷◌, ◌++◌, drop, drop-append_length,
  arith,
}
use vsm_cpp_sdk.Text.{Text, codes, is_space}
use vsm_cpp_sdk.Text.Find.{starts_with, skip_spaces, is_blank}
use vsm_cpp_sdk.Lint.HeaderGuard.{matches_endif, at_variable, behind_variable}

-- The line that the check looks for, and the one that its report asks for.
abbrev pub in_c : Text → Text
in_c v = codes "#endif /* " ++ (v ++ codes " */")

abbrev pub in_cpp : Text → Text
in_cpp v = codes "#endif  // " ++ v

-- The pattern of the last line.
starts_with-append : (p s : Text) → starts_with p (p ++ s) ≡ true
unfolding starts_with
starts_with-append [] s = refl
starts_with-append (c ∷ p) s = ground (arith, starts_with-append p s)

pub not_space : (c : ℕ) → is_blank c ≡ false → is_space c ≡ false
unfolding is_blank is_space
not_space c h = ground arith

at_variable-here : (v : Text) → at_variable v (v ++ codes " */") ≡ true
unfolding at_variable behind_variable starts_with skip_spaces is_space
at_variable-here v =
    rw (starts_with-append v (codes " */"), drop-append_length v (codes " */")) refl

or_true : (a b : Bool) → b ≡ true → (a || b) ≡ true
or_true a b h = ground arith

space_space : is_space b' ' ≡ true
unfolding is_space
space_space = refl

skip-to_word : (c : ℕ) (s : Text) → is_space c ≡ false → skip_spaces (b' ' ∷ c ∷ s) ≡ c ∷ s
unfolding skip_spaces
skip-to_word c s h = rw (space_space, h) refl

pub matches-in_c :
    (c : ℕ) (s : Text) → is_space c ≡ false → matches_endif (c ∷ s) (in_c (c ∷ s)) ≡ true
unfolding matches_endif starts_with skip_spaces is_space
matches-in_c c s h =
    let t = skip_spaces (b' ' ∷ c ∷ (s ++ codes " */")) in
    or_true (starts_with (codes "_UGCS_VSM") t && at_variable (c ∷ s) (drop 9 t))
      (at_variable (c ∷ s) t)
      (ap (at_variable (c ∷ s)) (skip-to_word c (s ++ codes " */") h) ∙ at_variable-here (c ∷ s))

pub matches-in_cpp : (v : Text) → matches_endif v (in_cpp v) ≡ false
unfolding matches_endif starts_with skip_spaces is_space
matches-in_cpp v = refl
