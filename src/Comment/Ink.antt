-- ===== src/Comment/Ink.antt =====
-- A comment holds the text that it was made from.
use mathlib.Core.List.{flatten}
use vsm_cpp_sdk.Prelude.{
  ℕ, zero, suc, ◌≡◌, refl, sym, ap, ap₂, ◌∙◌, inl, inr, Bool, true, false, List, [], ◌∷◌, ◌++◌,
  append_assoc, append-nil, ltb, ◌==◌, ◌&&◌, not, if◌then◌else◌, length, arith, Bool-cases, ==_iff,
}
use vsm_cpp_sdk.Text.{Text, codes, is_space}
use vsm_cpp_sdk.Comment.{
  is_empty, max_len, paragraphs_from, paragraphs, words_from, words, wrap, comment_lines,
}

-- The bytes of a text that are not white space.
unfoldable pub ink : Text → Text
ink [] = []
ink (c ∷ s) = let rest = ink s in if is_space c then rest else c ∷ rest

ink-append : (s t : Text) → ink (s ++ t) ≡ ink s ++ ink t
unfolding ink
ink-append [] t = refl
ink-append (c ∷ s) t = ground (arith, ink-append s t)

ink_space : (c : ℕ) → is_space c ≡ true → ink (c ∷ []) ≡ []
unfolding ink
ink_space c h = rw h

ink_line_feed : (c : ℕ) → (c == b'\n') ≡ true → ink (c ∷ []) ≡ []
unfolding ink is_space
ink_line_feed c h = rw ((==_iff c b'\n').0 h)

-- Behind what is read, white space adds nothing and another byte moves over.
ink_skip : (c : ℕ) (s : Text) → ink (c ∷ []) ≡ [] → ink (c ∷ s) ≡ ink s
ink_skip c s h = ink-append (c ∷ []) s ∙ ap (λ t. t ++ ink s) h

ink_move : (cur s : Text) (c : ℕ) → ink (cur ++ (c ∷ [])) ++ ink s ≡ ink cur ++ ink (c ∷ s)
ink_move cur s c =
    ap (λ t. t ++ ink s) (ink-append cur (c ∷ []))
    ∙ (append_assoc (ink cur) (ink (c ∷ [])) (ink s)
        ∙ ap (λ t. ink cur ++ t) (sym (ink-append (c ∷ []) s)))

-- The ink of a list of texts.
abbrev ink_all : List Text → Text
ink_all ts = ink (flatten ts)

ink_all-cons : (t : Text) (ts : List Text) → ink_all (t ∷ ts) ≡ ink t ++ ink_all ts
unfolding flatten
ink_all-cons t ts = ink-append t (flatten ts)

ink_all_nil : ink_all [] ≡ []
unfolding flatten ink
ink_all_nil = refl

-- The last texts: one that may hold ink, and empty ones.
ink_all_one : (t : Text) → ink_all (t ∷ []) ≡ ink t ++ ink []
unfolding ink
ink_all_one t = ink_all-cons t [] ∙ ap (λ s. ink t ++ s) ink_all_nil

ink_all_two : (t : Text) → ink_all (t ∷ [] ∷ []) ≡ ink t ++ ink []
unfolding ink
ink_all_two t = ink_all-cons t ([] ∷ []) ∙ ap (λ s. ink t ++ s) (ink_all_one [])

words_from-ink :
    (cur : Text) (b : Bool) (s : Text) → ink_all (words_from cur b s) ≡ ink cur ++ ink s
unfolding words_from
words_from-ink cur true [] = ink_all_two cur
words_from-ink cur false [] = ink_all_one cur
words_from-ink cur true (c ∷ s) = elim (Bool-cases (is_space c)) [
  | inl e ↦
      rw (e, words_from)
        (words_from-ink cur true s ∙ ap (λ t. ink cur ++ t) (sym (ink_skip c s (ink_space c e))))
  | inr e ↦
      rw (e, words_from)
        (ink_all-cons cur _
          ∙ ap (λ t. ink cur ++ t) (words_from-ink (c ∷ []) false s ∙ sym (ink-append (c ∷ []) s)))
]
words_from-ink cur false (c ∷ s) = elim (Bool-cases (is_space c)) [
  | inl e ↦
      rw (e, words_from)
        (words_from-ink cur true s ∙ ap (λ t. ink cur ++ t) (sym (ink_skip c s (ink_space c e))))
  | inr e ↦ rw (e, words_from) (words_from-ink (cur ++ (c ∷ [])) false s ∙ ink_move cur s c)
]

ink_feed : (cur s : Text) → ink (cur ++ (b'\n' ∷ s)) ≡ ink cur ++ ink s
ink_feed cur s =
    ink-append cur (b'\n' ∷ s)
    ∙ ap (λ t. ink cur ++ t) (ink_skip b'\n' s (ink_line_feed b'\n' refl))

paragraphs_from-ink :
    (cur : Text) (n : ℕ) (s : Text) → ink_all (paragraphs_from cur n s) ≡ ink cur ++ ink s
unfolding paragraphs_from
paragraphs_from-ink cur zero [] = ink_all_one cur
paragraphs_from-ink cur (suc zero) [] =
    ink_all_one (cur ++ codes "\n") ∙ (ap (λ t. t ++ ink []) (ink_feed cur []) ∙ nothing (ink cur))
  where
    nothing : (t : Text) → (t ++ ink []) ++ ink [] ≡ t ++ ink []
    nothing t = unfold ink in append-nil (t ++ [])
paragraphs_from-ink cur (suc (suc n)) [] = ink_all_two cur
paragraphs_from-ink cur zero (c ∷ s) = elim (Bool-cases (c == b'\n')) [
  | inl e ↦
      rw (e, paragraphs_from)
        (paragraphs_from-ink cur 1 s
          ∙ ap (λ t. ink cur ++ t) (sym (ink_skip c s (ink_line_feed c e))))
  | inr e ↦ rw (e, paragraphs_from) (paragraphs_from-ink (cur ++ (c ∷ [])) 0 s ∙ ink_move cur s c)
]
paragraphs_from-ink cur (suc zero) (c ∷ s) = elim (Bool-cases (c == b'\n')) [
  | inl e ↦
      rw (e, paragraphs_from)
        (paragraphs_from-ink cur 2 s
          ∙ ap (λ t. ink cur ++ t) (sym (ink_skip c s (ink_line_feed c e))))
  | inr e ↦
      rw (e, paragraphs_from)
        (paragraphs_from-ink (cur ++ (b'\n' ∷ c ∷ [])) 0 s
          ∙ (ap (λ t. t ++ ink s) (ink_feed cur (c ∷ []) ∙ sym (ink-append cur (c ∷ [])))
              ∙ ink_move cur s c))
]
paragraphs_from-ink cur (suc (suc n)) (c ∷ s) = elim (Bool-cases (c == b'\n')) [
  | inl e ↦
      rw (e, paragraphs_from)
        (paragraphs_from-ink cur (suc (suc n)) s
          ∙ ap (λ t. ink cur ++ t) (sym (ink_skip c s (ink_line_feed c e))))
  | inr e ↦
      rw (e, paragraphs_from)
        (ink_all-cons cur _
          ∙ ap (λ t. ink cur ++ t) (paragraphs_from-ink (c ∷ []) 0 s ∙ sym (ink-append (c ∷ []) s)))
]

ink_blank : (w : Text) → ink (codes " " ++ w) ≡ ink w
ink_blank w = ink_skip b' ' w (unfold ink is_space in refl)

ink-is_empty : (w : Text) → is_empty w ≡ true → ink w ≡ []
ink-is_empty [] h = unfold ink in refl
ink-is_empty (c ∷ w) h = cc

wrap-ink : (cur : Text) (ws : List Text) → ink_all (wrap cur ws) ≡ ink cur ++ ink_all ws
unfolding wrap
wrap-ink cur [] = elim (Bool-cases (is_empty cur)) [
  | inl e ↦ rw (e, wrap) (rw (ink-is_empty cur e))
  | inr e ↦ rw (e, wrap) (ink_all-cons cur [])
]
wrap-ink cur (w ∷ ws) = elim (Bool-cases (is_empty w)) [
  | inl e ↦
      rw (e, wrap)
        (wrap-ink cur ws
          ∙ ap (λ t. ink cur ++ t)
              (sym (ink_all-cons w ws ∙ ap (λ t. t ++ ink_all ws) (ink-is_empty w e))))
  | inr e ↦
      rw (e, wrap)
        (elim (Bool-cases (not (is_empty cur) && ltb max_len (length (cur ++ w)))) [
          | inl full ↦
              rw (full, wrap)
                (ink_all-cons cur _
                  ∙ ap (λ t. ink cur ++ t)
                      (wrap-ink (codes " " ++ w) ws
                        ∙ (ap (λ t. t ++ ink_all ws) (ink_blank w) ∙ sym (ink_all-cons w ws))))
          | inr room ↦
              rw (room, wrap)
                (wrap-ink (cur ++ (codes " " ++ w)) ws
                  ∙ (ap (λ t. t ++ ink_all ws)
                        (ink-append cur (codes " " ++ w) ∙ ap (λ t. ink cur ++ t) (ink_blank w))
                      ∙ (append_assoc (ink cur) (ink w) (ink_all ws)
                          ∙ ap (λ t. ink cur ++ t) (sym (ink_all-cons w ws)))))
        ])
]

flatten-append : (ss ts : List Text) → flatten (ss ++ ts) ≡ flatten ss ++ flatten ts
unfolding flatten
flatten-append [] ts = refl
flatten-append (s ∷ ss) ts =
    rw (flatten-append ss ts) (sym (append_assoc s (flatten ss) (flatten ts)))

paragraph-ink : (p : Text) → ink_all (wrap [] (words_from [] false p)) ≡ ink p
unfolding ink
paragraph-ink p = wrap-ink [] (words_from [] false p) ∙ words_from-ink [] false p

comment_lines-ink : (ps : List Text) → ink_all (comment_lines ps) ≡ ink_all ps
unfolding comment_lines words
comment_lines-ink [] = refl
comment_lines-ink (p ∷ ps) =
    ap ink (flatten-append (wrap [] (words_from [] false p)) (comment_lines ps))
    ∙ (ink-append (flatten (wrap [] (words_from [] false p))) (flatten (comment_lines ps))
        ∙ (ap₂ (λ s t. s ++ t) (paragraph-ink p) (comment_lines-ink ps) ∙ sym (ink_all-cons p ps)))

-- The lines of a comment hold every byte of the text that is not white space, in its order, and no
-- other such byte.
pub comment_lines-paragraphs : (text : Text) → ink_all (comment_lines (paragraphs text)) ≡ ink text
unfolding paragraphs
comment_lines-paragraphs text =
    comment_lines-ink (paragraphs_from [] 0 text) ∙ (unfold ink in paragraphs_from-ink [] 0 text)
