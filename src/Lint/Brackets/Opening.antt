-- ===== src/Lint/Brackets/Opening.antt =====
-- What a search of FindStartOfExpressionInLine of tools/cpplint.py ends at: an opening character.
use vsm_cpp_sdk.Prelude.{
  ℕ, zero, suc, ◌+◌, ◌≤◌, ◌≡◌, refl, ap, ◌∙◌, Bool, true, false, ◌||◌, none, some, List, [], ◌∷◌,
  ◌++◌, ◌==◌, length, append-nil, if◌then◌else◌, arith, Bool-cases, inl, inr,
}
use vsm_cpp_sdk.Text.{Text}
use vsm_cpp_sdk.Text.Find.{at, reverse_onto}
use vsm_cpp_sdk.Lint.Brackets.{
  Scan, found, failed, pending, is_open, is_close, pairs, drop_marks, popped, match_top, need_stack,
  follows, Place,
}
use vsm_cpp_sdk.Lint.Brackets.Backward.{
  Turn, back, hop, halt, turn, is_operator, start_greater, start_less, start_step, find_start, cut,
}

-- A character that may open an expression.
abbrev pub opens : ℕ → Bool
opens c = is_open c || c == b'<'

-- A round only returns a position if it is that of such a character.
data Fine (n : ℕ) (good : Bool) : Turn → Type 0 where
  goes_back : (s : List ℕ) → Fine n good (back s)
  goes_far : (s : List ℕ) → Fine n good (hop s)
  gives_up : Fine n good (halt failed)
  finds : good ≡ true → Fine n good (halt (found n))

popped-Fine :
    (n : ℕ) (good : Bool) (s : List ℕ) → good ≡ true → Fine n good (turn (popped (found n) s))
unfolding popped
popped-Fine n good [] h = finds h
popped-Fine n good (t ∷ s) h = goes_back (t ∷ s)

match_top-Fine :
    (fits : ℕ → Bool) (n : ℕ) (good : Bool) (s : List ℕ)
    → good ≡ true
    → Fine n good (turn (match_top fits n s))
unfolding match_top
match_top-Fine fits n good [] h = gives_up
match_top-Fine fits n good (t ∷ s) h = elim (Bool-cases (fits t)) [
  | inl f ↦ rw (f, match_top) (popped-Fine n good s h)
  | inr f ↦ rw (f, match_top) gives_up
]

need_stack-Fine : (n : ℕ) (good : Bool) (s : List ℕ) → Fine n good (turn (need_stack s))
need_stack-Fine n good [] = gives_up
need_stack-Fine n good (t ∷ s) = goes_back (t ∷ s)

start_less-Fine :
    (before : Text) (good : Bool) (s : List ℕ)
    → good ≡ true
    → Fine (length before) good (start_less before s)
unfolding start_less
start_less-Fine before good [] h = goes_back []
start_less-Fine before good (t ∷ s) h = elim (Bool-cases (t == b'>')) [
  | inl f ↦ rw (f, start_less) (popped-Fine (length before) good s h)
  | inr f ↦ rw (f, start_less) (goes_back (t ∷ s))
]

if-Fine :
    (b : Bool) {n : ℕ} {good : Bool} {t u : Turn}
    → (b ≡ true → Fine n good t)
    → (b ≡ false → Fine n good u)
    → Fine n good (if b then t else u)
if-Fine true f g = f refl
if-Fine false f g = g refl

start_step-Fine :
    (before : Text) (c : ℕ) (after : Text) (stack : List ℕ)
    → Fine (length before) (opens c) (start_step before c after stack)
unfolding start_step start_greater
start_step-Fine before c after stack =
    if-Fine (is_close c) (λ _. goes_back (c ∷ stack))
      (λ _.
        if-Fine (c == b'>')
          (λ _.
            if-Fine (is_operator before after) (λ _. goes_far stack)
              (λ _. goes_back (b'>' ∷ stack)))
          (λ _.
            if-Fine (c == b'<')
              (λ h.
                if-Fine (follows b'<' before) (λ _. goes_far stack)
                  (λ _. start_less-Fine before (opens c) stack (ground (arith, h))))
              (λ _.
                if-Fine (is_open c)
                  (λ h.
                    match_top-Fine (λ o. pairs c o) (length before) (opens c)
                      (drop_marks b'>' stack) (rw h refl))
                  (λ _.
                    if-Fine (c == b';')
                      (λ _. need_stack-Fine (length before) (opens c) (drop_marks b'>' stack))
                      (λ _. goes_back stack)))))

pub at-reverse_onto {ℓ} :
    {A : Type ℓ} (xs ys : List A) (i n : ℕ)
    → n ≡ length xs + i
    → at (reverse_onto xs ys) n ≡ at ys i
unfolding at reverse_onto
at-reverse_onto [] ys i n h = ap (λ k. at ys k) (omega (arith, h))
at-reverse_onto (x ∷ xs) ys i n h = at-reverse_onto xs (x ∷ ys) (suc i) n (omega (arith, h))

-- A position of a line at which an expression may open.
abbrev pub Opens : Text → ℕ → Type 0
Opens line p = (c : ℕ) × (at line p ≡ some c) × (opens c ≡ true)

pub data Ends (line : Text) : Scan → Type 0 where
  no_end : Ends line failed
  no_start : (s : List ℕ) → Ends line (pending s)
  ends_at : (p : ℕ) → Opens line p → Ends line (found p)

here :
    (before : Text) (c : ℕ) (after : Text)
    → opens c ≡ true
    → Opens (reverse_onto before (c ∷ after)) (length before)
here before c after h =
    (c, at-reverse_onto before (c ∷ after) 0 (length before) (omega arith) ∙ (unfold at in refl), h)

find_start-one :
    (c : ℕ) (after : Text) (stack : List ℕ) {t : Turn}
    → start_step [] c after stack ≡ t
    → Fine 0 (opens c) t
    → Ends (c ∷ after) (find_start (c ∷ []) after stack)
unfolding find_start
find_start-one c after stack e (goes_back s) = rw (e, find_start) (no_start s)
find_start-one c after stack e (goes_far s) = rw (e, find_start) (no_start s)
find_start-one c after stack e gives_up = rw (e, find_start) no_end
find_start-one c after stack e (finds h) =
    rw (e, find_start) (ends_at 0 (c, (unfold at in refl), h))

find_start-more :
    (c d : ℕ) (before after : Text) (stack : List ℕ) {t : Turn}
    → ((s : List ℕ)
        → Ends (reverse_onto before (d ∷ c ∷ after)) (find_start (d ∷ before) (c ∷ after) s))
    → ((s : List ℕ)
        → Ends (reverse_onto before (d ∷ c ∷ after)) (find_start before (d ∷ c ∷ after) s))
    → start_step (d ∷ before) c after stack ≡ t
    → Fine (suc (length before)) (opens c) t
    → Ends (reverse_onto before (d ∷ c ∷ after)) (find_start (c ∷ d ∷ before) after stack)
unfolding find_start
find_start-more c d before after stack f g e (goes_back s) = rw (e, find_start) (f s)
find_start-more c d before after stack f g e (goes_far s) = rw (e, find_start) (g s)
find_start-more c d before after stack f g e gives_up = rw (e, find_start) no_end
find_start-more c d before after stack f g e (finds h) =
    rw (e, find_start)
      (ends_at (suc (length before)) (unfold reverse_onto in here (d ∷ before) c after h))

pub find_start-Ends :
    (before after : Text) (stack : List ℕ)
    → Ends (reverse_onto before after) (find_start before after stack)
unfolding reverse_onto
find_start-Ends [] after stack = unfold find_start in no_start stack
find_start-Ends (c ∷ []) after stack =
    find_start-one c after stack refl (start_step-Fine [] c after stack)
find_start-Ends (c ∷ d ∷ before) after stack =
    find_start-more c d before after stack (λ s. find_start-Ends (d ∷ before) (c ∷ after) s)
      (λ s. find_start-Ends before (d ∷ c ∷ after) s) refl
      (start_step-Fine (d ∷ before) c after stack)

-- A place without a position, or one on a line up to the number `n` at which an expression may open.
pub data IsPlace (rows : List Text) (n : ℕ) : Place → Type 0 where
  nowhere : (l : Text) (k : ℕ) → IsPlace rows n (record { line = l; linenum = k; pos = none })
  somewhere :
      (l : Text) (k p : ℕ)
      → k ≤ n
      → at rows k ≡ some l
      → Opens l p
      → IsPlace rows n (record { line = l; linenum = k; pos = some p })

pub reverse_onto-twice :
    {A : Type 0} (xs ys zs : List A)
    → reverse_onto (reverse_onto xs ys) zs ≡ reverse_onto ys (xs ++ zs)
unfolding reverse_onto
reverse_onto-twice [] ys zs = refl
reverse_onto-twice (x ∷ xs) ys zs = reverse_onto-twice xs (x ∷ ys) zs

pub cut-reverse_onto :
    (b : Text) (p : ℕ) (s : Text) → reverse_onto (cut b p s).0 (cut b p s).1 ≡ reverse_onto b s
unfolding cut reverse_onto
cut-reverse_onto b p [] = refl
cut-reverse_onto b zero (c ∷ s) = refl
cut-reverse_onto b (suc n) (c ∷ s) = cut-reverse_onto (c ∷ b) n s

pub reverse_onto_twice_nil : (l : Text) → reverse_onto (reverse_onto l []) [] ≡ l
unfolding reverse_onto
reverse_onto_twice_nil l = reverse_onto-twice l [] [] ∙ append-nil l
