-- ===== src/Lint/HeaderGuard/Accepted.antt =====
-- Which #endif lines CheckForHeaderGuard of tools/cpplint.py accepts.
use vsm_cpp_sdk.Prelude.{ℕ, suc, ◌≡◌, refl, ap, ◌∙◌, Bool, false, ◌||◌, List, [], ◌∷◌, ◌++◌}
use vsm_cpp_sdk.Text.{Text, codes, text_eq}
use vsm_cpp_sdk.Text.Find.{starts_with, is_blank}
use vsm_cpp_sdk.Lint.HeaderGuard.{Guards, no_guards, split_words, see_words, see_endif, guards_from}

unfoldable pub has_blank : Text → Bool
unfolding is_blank
has_blank [] = false
has_blank (c ∷ s) = is_blank c || has_blank s

unfoldable pub any_endif : List Text → Bool
unfolding starts_with
any_endif [] = false
any_endif (l ∷ ls) = starts_with (codes "#endif") l || any_endif ls

-- The lines that ProcessFileData puts before and behind those of a file.
abbrev pub first_marker : Text
first_marker = codes "// marker so line numbers and indices both start at 1"

abbrev pub last_marker : Text
last_marker = codes "// marker so line numbers end in a known way"

-- What CheckForHeaderGuard gets of a header with the guard `v` and the last line `last`.
abbrev pub header : Text → List Text → Text → List Text
header v body last =
    first_marker
    ∷ (codes "#ifndef " ++ v)
    ∷ (codes "#define " ++ v)
    ∷ (body ++ (last ∷ last_marker ∷ []))

abbrev named : Text → Guards
named v = record { ifndef = v; ifndef_linenum = 1; define = v; endif = []; endif_linenum = 0 }

see_endif-other :
    (n : ℕ) (l : Text) (g : Guards) → starts_with (codes "#endif") l ≡ false → see_endif n l g ≡ g
unfolding see_endif
see_endif-other n l g h = rw h refl

abbrev closed : Text → ℕ → Text → Guards
closed v n last = record {
  ifndef = v;
  ifndef_linenum = 1;
  define = v;
  endif = last;
  endif_linenum = n;
}

abbrev half : Text → Guards
half v = record { ifndef = v; ifndef_linenum = 1; define = []; endif = []; endif_linenum = 0 }

begun :
    (v : Text)
    → see_endif 1 (codes "#ifndef " ++ v) (see_words 1 (codes "#ifndef" ∷ v ∷ []) no_guards)
      ≡ half v
unfolding see_endif see_words no_guards starts_with text_eq
begun v = refl

unmarked : starts_with (codes "#endif") last_marker ≡ false
unfolding starts_with
unmarked = refl

see_words-closed :
    (n m : ℕ) (ws : List Text) (last : Text) (c : ℕ) (s : Text)
    → see_words n ws (closed (c ∷ s) m last) ≡ closed (c ∷ s) m last
unfolding see_words
see_words-closed n m [] last c s = refl
see_words-closed n m (w ∷ []) last c s = refl
see_words-closed n m (w ∷ v ∷ ws) last c s = refl

behind :
    (n : ℕ) (last : Text) (c : ℕ) (s : Text)
    → guards_from (suc n) (last_marker ∷ []) (closed (c ∷ s) n last) ≡ closed (c ∷ s) n last
unfolding guards_from
behind n last c s =
    ap (see_endif (suc n) last_marker)
      (see_words-closed (suc n) n (split_words [] last_marker) last c s)
    ∙ see_endif-other (suc n) last_marker (closed (c ∷ s) n last) unmarked
