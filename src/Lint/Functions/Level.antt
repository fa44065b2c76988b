-- ===== src/Lint/Functions/Level.antt =====
-- The confidence with which _FunctionState of tools/cpplint.py reports a long function.
use native.Mathlib.Nat.{pow-suc, one-le-pow}
use vsm_cpp_sdk.Prelude.{
  ℕ, zero, suc, ◌*◌, ◌/◌, ◌^◌, ◌≤◌, ◌<◌, ◌≡◌, ◌↔◌, ◌⊎◌, refl, ap, ◌∙◌, true, false, ◌||◌, [], ◌∷◌,
  ltb, if◌then◌else◌, arith, Bool-cases, inl, inr,
}
use vsm_cpp_sdk.Text.{Text, codes}
use vsm_cpp_sdk.Text.Find.{starts_with}
use vsm_cpp_sdk.Text.Int.{ℤ, pos, negsuc}
use vsm_cpp_sdk.Result.{Result, ok, err, value_error, ◌>>=◌}
use vsm_cpp_sdk.Lint.Functions.{
  FunctionState, log2_from, int_log2, exceeds, base_trigger, size_report, check_function,
}

log2_from_iff : (f n k : ℕ) → 0 < n → n ≤ f → (k ≤ log2_from f n) ↔ (2 ^ k ≤ n)
unfolding log2_from
log2_from_iff zero n k p h = absurd (omega arith)
log2_from_iff (suc f) n zero p h = (λ _. omega arith, λ _. omega arith)
log2_from_iff (suc f) n (suc k) p h = elim (Bool-cases (ltb n 2)) [
  | inl small ↦
      rw small
        (λ q. absurd (omega arith), λ q. absurd (ground (arith, pow-suc 2 k, one-le-pow k 2)))
  | inr large ↦
      let ih = log2_from_iff f (n / 2) k (ground arith) (ground arith) in
      rw large (
        λ q. let r = ih.0 (omega arith) in omega (arith, r, pow-suc 2 k),
        λ q. let r = ih.1 (omega (arith, pow-suc 2 k)) in omega (arith, r),
      )
]

-- Tests have a larger trigger than other functions.
abbrev pub trigger_of : Text → ℕ
trigger_of name =
    if starts_with (codes "TEST") name || starts_with (codes "Test") name then 400 else 250

-- The least trigger is one of two.
base_trigger-cases : (name : Text) → (trigger_of name ≡ 250) ⊎ (trigger_of name ≡ 400)
base_trigger-cases name = ground arith

quotient_iff :
    (lines base p : ℕ) → (base ≡ 250) ⊎ (base ≡ 400) → (p ≤ lines / base) ↔ (base * p ≤ lines)
quotient_iff lines base p (inl e) = rw e (λ h. omega arith, λ h. omega arith)
quotient_iff lines base p (inr e) = rw e (λ h. omega arith, λ h. omega arith)

-- The level of a long function.
abbrev level_of : ℕ → ℕ → ℕ
level_of lines base = let n = log2_from (lines / base) (lines / base) in if ltb 5 n then 5 else n

int_log2-pos : (n : ℕ) → 0 < n → int_log2 n ≡ ok (log2_from n n)
unfolding int_log2
int_log2-pos zero h = elim h [ ]
int_log2-pos (suc n) h = refl

level_of_iff :
    (lines base k : ℕ)
    → (base ≡ 250) ⊎ (base ≡ 400)
    → 0 < lines / base
    → k ≤ 5
    → (k ≤ level_of lines base) ↔ (base * 2 ^ k ≤ lines)
level_of_iff lines base k b p small =
    let (f, g) = log2_from_iff (lines / base) (lines / base) k p (omega arith) in
    let (f', g') = quotient_iff lines base (2 ^ k) b in
    let n = log2_from (lines / base) (lines / base) in
    elim (Bool-cases (ltb 5 n)) [
      | inl more ↦ rw more (λ h. f' (f (ground arith)), λ h. small)
      | inr less ↦ rw less (λ h. f' (f h), λ h. g (g' h))
    ]

-- More lines than the trigger `base` times two to the power of the verbosity.
abbrev pub Above : ℕ → ℕ → ℤ → Type 0
Above lines base (pos v) = base * 2 ^ v < lines
Above lines base (negsuc v) = base < lines * 2 ^ suc v

exceeds-true : (lines base : ℕ) (v : ℤ) → Above lines base v → exceeds lines base v ≡ true
unfolding exceeds
exceeds-true lines base (pos v) h = ground arith
exceeds-true lines base (negsuc v) h = ground arith

exceeds-false : (lines base : ℕ) (v : ℤ) → ¬ Above lines base v → exceeds lines base v ≡ false
unfolding exceeds
exceeds-false lines base (pos v) h = ground arith
exceeds-false lines base (negsuc v) h = ground arith

quotient-pos : (lines base : ℕ) → (base ≡ 250) ⊎ (base ≡ 400) → base ≤ lines → 0 < lines / base
quotient-pos lines base (inl e) h = rw e (omega (arith, (rw e at h)))
quotient-pos lines base (inr e) h = rw e (omega (arith, (rw e at h)))

quotient-zero : (lines base : ℕ) → (base ≡ 250) ⊎ (base ≡ 400) → lines < base → lines / base ≡ 0
quotient-zero lines base (inl e) h = rw e (omega (arith, (rw e at h)))
quotient-zero lines base (inr e) h = rw e (omega (arith, (rw e at h)))

trigger_of-eq : (name : Text) → base_trigger name ≡ trigger_of name
unfolding base_trigger
trigger_of-eq name = refl

check_function-above :
    (s : FunctionState) (v : ℤ) (linenum base : ℕ) (level : Result ℕ)
    → s.in_a_function ≡ true
    → base_trigger s.current_function ≡ base
    → exceeds s.lines_in_function base v ≡ true
    → int_log2 (s.lines_in_function / base) ≡ level
    → check_function s v linenum
      ≡ (do n ← level; ok (size_report s linenum (if ltb 5 n then 5 else n) base v ∷ []))
unfolding check_function
check_function-above s v linenum base level h e a l = rw (h, e, a, l)

-- Inside of a function, at every verbosity, with the trigger 400 for a test and 250 for another one:
-- nothing is reported up to the trigger times two to the power of the verbosity. Above it there is one
-- report, whose confidence is the greatest number up to 5 for which the trigger of that verbosity is
-- reached, if the lines reach the trigger itself; with fewer lines, which takes a negative verbosity,
-- Check raises a ValueError.
pub check_function_lem :
    (s : FunctionState) (v : ℤ) (linenum : ℕ)
    → s.in_a_function ≡ true
    → let base = trigger_of s.current_function in
      (¬ Above s.lines_in_function base v → check_function s v linenum ≡ ok [])
      × (Above s.lines_in_function base v
          → base ≤ s.lines_in_function
          → (level : ℕ) × (check_function s v linenum
              ≡ ok (size_report s linenum level base v ∷ []))
            × (level ≤ 5)
            × ((k : ℕ) → k ≤ 5 → (k ≤ level) ↔ (base * 2 ^ k ≤ s.lines_in_function)))
      × (Above s.lines_in_function base v
          → s.lines_in_function < base
          → check_function s v linenum ≡ err value_error)
unfolding check_function
check_function_lem s v linenum h =
    let base = trigger_of s.current_function in
    let named = trigger_of-eq s.current_function in
    let b = base_trigger-cases s.current_function in
    let lines = s.lines_in_function in
    (
      λ q. rw (h, named, exceeds-false lines base v q),
      λ q reached.
          let p = quotient-pos lines base b reached in
          (
            level_of lines base,
            check_function-above s v linenum base (ok (log2_from (lines / base) (lines / base))) h
                named (exceeds-true lines base v q) (int_log2-pos (lines / base) p),
            level-le (log2_from (lines / base) (lines / base)),
            λ k small. level_of_iff lines base k b p small,
          ),
      λ q few.
          check_function-above s v linenum base (err value_error) h named
            (exceeds-true lines base v q)
            (ap int_log2 (quotient-zero lines base b few) ∙ unfold int_log2 in refl),
    )
  where
    level-le : (n : ℕ) → (if ltb 5 n then 5 else n) ≤ 5
    level-le n = ground arith
