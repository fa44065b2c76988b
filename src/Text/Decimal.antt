-- ===== src/Text/Decimal.antt =====
-- Decimal numbers in texts: '%d' % n and int(s), and the integers that they print and read.
use vsm_cpp_sdk.Prelude.{
  All, Bool-cases, inl, inr, ℕ, zero, suc, ◌+◌, ◌-◌, ◌*◌, ◌/◌, ◌%◌, ◌<◌, ◌≡◌, ◌&&◌, true, refl,
  ◌&&◌, Option, none, some, List, [], ◌∷◌, arith, ltb, leb, if◌then◌else◌,
}

-- The last digit is written first; a number below the fuel has fewer digits than that.
emit : ℕ → ℕ → List ℕ → List ℕ
emit zero n out = out
emit (suc f) n out =
    let rest = emit f (n / 10) ((b'0' + n % 10) ∷ out) in
    if ltb n 10 then (b'0' + n) ∷ out else rest

-- '%d' % n and str(n)
unfoldable pub show : ℕ → List ℕ
unfolding emit
show n = emit (suc n) n []

-- The value of a text of digits behind the value `n`; `none` at another byte.
unfoldable pub scan : ℕ → List ℕ → Option ℕ
scan n [] = some n
scan n (c ∷ s) = if leb b'0' c && leb c b'9' then scan (n * 10 + (c - b'0')) s else none

scan_digit : (n d : ℕ) (s : List ℕ) → d < 10 → scan n ((b'0' + d) ∷ s) ≡ scan (n * 10 + d) s
unfolding scan
scan_digit n d s h = ground arith

scan-emit : (f n : ℕ) (out : List ℕ) → n < f → scan 0 (emit f n out) ≡ scan n out
unfolding emit
scan-emit zero n out h = elim h [ ]
scan-emit (suc f) n out h = ground (
  arith,
  scan_digit 0 n out,
  scan_digit (n / 10) (n % 10) out,
  scan-emit f (n / 10) ((b'0' + n % 10) ∷ out),
)

-- Reading the print of a number gives the number.
pub scan-show : (n : ℕ) → scan 0 (show n) ≡ some n
unfolding show scan
scan-show n = scan-emit (suc n) n [] (omega arith)

show_runs : show 2018 ≡ b'2' ∷ b'0' ∷ b'1' ∷ b'8' ∷ []
unfolding show
show_runs = refl

abbrev IsDigit : ℕ → Type 0
IsDigit c = (leb b'0' c && leb c b'9') ≡ true

IsDigit-byte : (d : ℕ) → d < 10 → IsDigit (b'0' + d)
IsDigit-byte d h = ground arith

emit-IsDigit : (f n : ℕ) (out : List ℕ) → n < f → All IsDigit out → All IsDigit (emit f n out)
unfolding emit
emit-IsDigit zero n out h k = elim h [ ]
emit-IsDigit (suc f) n out h k = elim (Bool-cases (ltb n 10)) [
  | inl last ↦ rw last (IsDigit-byte n (ground arith), k)
  | inr more ↦ rw more (
      emit-IsDigit f (n / 10) ((b'0' + n % 10) ∷ out) (ground arith)
        (IsDigit-byte (n % 10) (omega arith), k))
]

-- The print of a number is digits.
pub show-IsDigit : (n : ℕ) → All IsDigit (show n)
unfolding show
show-IsDigit n = emit-IsDigit (suc n) n [] (omega arith) tt

-- Whatever the fuel, the print is one byte at least in front of what is there.
emit-cons : (f n e : ℕ) (out : List ℕ) → (c : ℕ) × (s : List ℕ) × (emit f n (e ∷ out) ≡ c ∷ s)
unfolding emit
emit-cons zero n e out = (e, out, refl)
emit-cons (suc f) n e out = elim (Bool-cases (ltb n 10)) [
  | inl last ↦ rw last (b'0' + n, e ∷ out, refl)
  | inr more ↦ rw more (emit-cons f (n / 10) (b'0' + n % 10) (e ∷ out))
]

pub show-cons : (n : ℕ) → (c : ℕ) × (s : List ℕ) × (show n ≡ c ∷ s)
unfolding show emit
show-cons n = elim (Bool-cases (ltb n 10)) [
  | inl last ↦ rw last (b'0' + n, [], refl)
  | inr more ↦ rw more (emit-cons n (n / 10) (b'0' + n % 10) [])
]
