-- ===== src/Comment/Wrap.antt =====
-- How comments are wrapped.
use mathlib.Core.List.{flatten}
use vsm_cpp_sdk.Prelude.{
  subst, ◌+◌, ◌≤◌, ◌≡◌, refl, ap, ◌∙◌, inl, inr, true, false, List, [], ◌∷◌, ◌++◌, append_assoc,
  append-nil, map, ltb, if◌then◌else◌, length, length-append, All, arith, Bool-cases,
}
use vsm_cpp_sdk.Text.{Text, codes}
use vsm_cpp_sdk.Comment.{is_empty, max_len, wrap}

-- A line of words, a blank before each.
unfoldable pub spaced : List Text → Text
spaced [] = []
spaced (w ∷ ws) = codes " " ++ (w ++ spaced ws)

-- The words that are not empty.
unfoldable pub solid : List Text → List Text
solid [] = []
solid (w ∷ ws) = let rest = solid ws in if is_empty w then rest else w ∷ rest

-- A line of one word may have any length, a longer one has at most one byte more than max_len.
abbrev pub Fits : List Text → Type 0
Fits [] = ⊥
Fits (w ∷ []) = Unit
Fits (w ∷ v ∷ ws) = length (spaced (w ∷ v ∷ ws)) ≤ max_len + 1

spaced-append : (vs ws : List Text) → spaced (vs ++ ws) ≡ spaced vs ++ spaced ws
unfolding spaced
spaced-append [] ws = refl
spaced-append (v ∷ vs) ws = simp (spaced-append vs ws, append_assoc)

-- The lines that are written from a line of the words `g` on.
abbrev Wrapped : List Text → List Text → List Text → Type 0
Wrapped g ws ls =
    (gs : List (List Text)) × (ls ≡ map spaced gs) × (flatten gs ≡ g ++ solid ws) × All Fits gs

spaced_one : (w : Text) → spaced (w ∷ []) ≡ codes " " ++ w
unfolding spaced
spaced_one w = ap (λ s. codes " " ++ s) (append-nil w)

spaced_snoc : (g : List Text) (w : Text) → spaced (g ++ (w ∷ [])) ≡ spaced g ++ (codes " " ++ w)
spaced_snoc g w = spaced-append g (w ∷ []) ∙ ap (λ s. spaced g ++ s) (spaced_one w)

Fits-short : (v : Text) (vs : List Text) → length (spaced (v ∷ vs)) ≤ 73 → Fits (v ∷ vs)
Fits-short v [] h = tt
Fits-short v (u ∷ us) h = h

-- The test of the loop leaves room for the word and its blank.
Fits-snoc :
    (v : Text) (vs : List Text) (w : Text)
    → ltb max_len (length (spaced (v ∷ vs) ++ w)) ≡ false
    → Fits ((v ∷ vs) ++ (w ∷ []))
Fits-snoc v vs w h = Fits-short v (vs ++ (w ∷ [])) (
    rw (spaced_snoc (v ∷ vs) w) (
      ground (
        arith,
        length-append (spaced (v ∷ vs)) (codes " " ++ w),
        length-append (spaced (v ∷ vs)) w,
      )))

-- The three outcomes of a round.
Wrapped-empty :
    (g : List Text) (w : Text) (ws : List Text) (ls : List Text)
    → is_empty w ≡ true
    → Wrapped g ws ls
    → Wrapped g (w ∷ ws) ls
unfolding solid
Wrapped-empty g w ws ls e (gs, lines, all_words, fits) = (gs, lines, rw e all_words, fits)

Wrapped-full :
    (g : List Text) (w : Text) (ws : List Text) (ls : List Text)
    → is_empty w ≡ false
    → Fits g
    → Wrapped (w ∷ []) ws ls
    → Wrapped g (w ∷ ws) (spaced g ∷ ls)
unfolding solid flatten
Wrapped-full g w ws ls e f (gs, lines, all_words, fits) =
    (g ∷ gs, ap (λ xs. spaced g ∷ xs) lines, rw e (ap (λ xs. g ++ xs) all_words), (f, fits))

Wrapped-more :
    (g : List Text) (w : Text) (ws : List Text) (ls : List Text)
    → is_empty w ≡ false
    → Wrapped (g ++ (w ∷ [])) ws ls
    → Wrapped g (w ∷ ws) ls
unfolding solid
Wrapped-more g w ws ls e (gs, lines, all_words, fits) =
    (gs, lines, rw e (all_words ∙ append_assoc g (w ∷ []) (solid ws)), fits)

Wrapped-end_start : Wrapped [] [] []
unfolding solid flatten
Wrapped-end_start = ([], refl, refl, tt)

Wrapped-end : (g : List Text) → Fits g → Wrapped g [] (spaced g ∷ [])
unfolding solid flatten
Wrapped-end g f = (g ∷ [], refl, refl, (f, tt))

mutual
  unfolding wrap spaced

  -- From the start of a paragraph.
  wrap_start : (ws : List Text) → Wrapped [] ws (wrap [] ws)
  wrap_start [] = Wrapped-end_start
  wrap_start (w ∷ ws) = elim (Bool-cases (is_empty w)) [
    | inl e ↦ rw (e, wrap) (Wrapped-empty [] w ws _ e (wrap_start ws))
    | inr e ↦
        rw (e, wrap)
          (Wrapped-more [] w ws _ e
            (subst (λ l. Wrapped (w ∷ []) ws (wrap l ws)) (spaced_one w) (wrap_line w [] ws tt)))
  ]

  -- From a line that holds words.
  wrap_line :
      (v : Text) (vs ws : List Text)
      → Fits (v ∷ vs)
      → Wrapped (v ∷ vs) ws (wrap (spaced (v ∷ vs)) ws)
  wrap_line v vs [] f = Wrapped-end (v ∷ vs) f
  wrap_line v vs (w ∷ ws) f = elim (Bool-cases (is_empty w)) [
    | inl e ↦ rw (e, wrap) (Wrapped-empty (v ∷ vs) w ws _ e (wrap_line v vs ws f))
    | inr e ↦ elim (Bool-cases (ltb max_len (length (spaced (v ∷ vs) ++ w)))) [
      | inl full ↦
          rw (e, wrap)
            (rw (full, wrap)
              (Wrapped-full (v ∷ vs) w ws _ e f (
                subst (λ l. Wrapped (w ∷ []) ws (wrap l ws)) (spaced_one w)
                  (wrap_line w [] ws tt))))
      | inr room ↦
          rw (e, wrap)
            (rw (room, wrap)
              (Wrapped-more (v ∷ vs) w ws _ e (
                subst (λ l. Wrapped (v ∷ (vs ++ (w ∷ []))) ws (wrap l ws)) (spaced_snoc (v ∷ vs) w)
                  (wrap_line v (vs ++ (w ∷ [])) ws (Fits-snoc v vs w room)))))
    ]
  ]

-- The lines of a paragraph hold its words, in their order, each once: every line is some of the
-- words with a blank before each, and a line of two words or more has at most 73 bytes.
pub wrap_lem :
    (ws : List Text)
    → (gs : List (List Text)) × (wrap [] ws ≡ map spaced gs) × (flatten gs ≡ solid ws) × All Fits gs
wrap_lem ws = wrap_start ws
