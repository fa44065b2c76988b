-- ===== src/Crc/Xor.antt =====
-- Laws of the exclusive or of native numbers, from the recursion on binary digits that it stands for.
use Prim.Native.Nat.{
  bit_xor, bit_and, bit_xor-bitwise, bit_and-bitwise, digits, bitwise, min, differ,
}
use native.Mathlib.Nat.{le_refl, pow-suc, one-le-pow}
use vsm_cpp_sdk.Prelude.{
  ℕ, zero, suc, ◌+◌, ◌*◌, ◌/◌, ◌%◌, ◌≤◌, ◌<◌, ◌^◌, ◌-◌, ap, ◌∙◌, sym, ◌≡◌, refl, arith,
}

-- More fuel than the first number changes nothing.
module _ (z : ℕ → ℕ) (f : ℕ → ℕ → ℕ) where
  enough : (k l a b : ℕ) → a ≤ k → a ≤ l → digits z f k a b ≡ digits z f l a b
  enough zero zero a b p q = refl
  enough zero (suc l) zero b p q = refl
  enough zero (suc l) (suc a) b p q = absurd (omega arith)
  enough (suc k) zero zero b p q = refl
  enough (suc k) zero (suc a) b p q = absurd (omega arith)
  enough (suc k) (suc l) zero b p q = refl
  enough (suc k) (suc l) (suc a) b p q =
      rw (enough k l (suc a / 2) (b / 2) (omega arith) (omega arith))

  lowest :
      (m n : ℕ)
      → bitwise z f (suc m) n ≡ bitwise z f (suc m / 2) (n / 2) * 2 + f (suc m % 2) (n % 2)
  lowest m n = omega (arith, enough m (suc m / 2) (suc m / 2) (n / 2) (omega arith) (le_refl _))

zero-xor : (b : ℕ) → bit_xor 0 b ≡ b
zero-xor b = bit_xor-bitwise 0 b

differ_bits : (x y : ℕ) → x < 2 → y < 2 → differ x y ≡ (x + y) % 2
differ_bits zero y h k = omega arith
differ_bits (suc zero) zero h k = refl
differ_bits (suc zero) (suc zero) h k = refl
differ_bits (suc zero) (suc (suc y)) h k = absurd (omega arith)
differ_bits (suc (suc x)) y h k = absurd (omega arith)

-- The lowest digit of a sum without carry.
xor_step : (a b : ℕ) → bit_xor a b ≡ bit_xor (a / 2) (b / 2) * 2 + (a % 2 + b % 2) % 2
xor_step zero b = omega (arith, zero-xor b, zero-xor (b / 2))
xor_step (suc a) b = simp bit_xor-bitwise (
    omega (
      arith,
      lowest (λ y. y) differ a b,
      differ_bits (suc a % 2) (b % 2) (omega arith) (omega arith),
    ))

pub xor_half : (a b : ℕ) → bit_xor a b / 2 ≡ bit_xor (a / 2) (b / 2)
xor_half a b = omega (arith, xor_step a b)

pub xor_parity : (a b : ℕ) → bit_xor a b % 2 ≡ (a % 2 + b % 2) % 2
xor_parity a b = omega (arith, xor_step a b)

-- Numbers with equal halves and equal parities are equal.
by_digits : (a b : ℕ) → a / 2 ≡ b / 2 → a % 2 ≡ b % 2 → a ≡ b
by_digits a b h k = omega arith

xor_assoc_below :
    (k a b c : ℕ) → a ≤ k → b ≤ k → c ≤ k → bit_xor (bit_xor a b) c ≡ bit_xor a (bit_xor b c)
xor_assoc_below zero zero zero zero p q r = refl
xor_assoc_below zero zero zero (suc c) p q r = absurd (omega arith)
xor_assoc_below zero zero (suc b) c p q r = absurd (omega arith)
xor_assoc_below zero (suc a) b c p q r = absurd (omega arith)
xor_assoc_below (suc k) a b c p q r =
    by_digits _ _
      (simp xor_half
        (xor_assoc_below k (a / 2) (b / 2) (c / 2) (omega arith) (omega arith) (omega arith)))
      (omega (
        arith,
        xor_parity (bit_xor a b) c,
        xor_parity a b,
        xor_parity a (bit_xor b c),
        xor_parity b c,
      ))

pub xor_assoc : (a b c : ℕ) → bit_xor (bit_xor a b) c ≡ bit_xor a (bit_xor b c)
xor_assoc a b c = xor_assoc_below (a + b + c) a b c (omega arith) (omega arith) (omega arith)

xor_comm_below : (k a b : ℕ) → a ≤ k → b ≤ k → bit_xor a b ≡ bit_xor b a
xor_comm_below zero zero zero p q = refl
xor_comm_below zero zero (suc b) p q = absurd (omega arith)
xor_comm_below zero (suc a) b p q = absurd (omega arith)
xor_comm_below (suc k) a b p q =
    by_digits _ _ (simp xor_half (xor_comm_below k (a / 2) (b / 2) (omega arith) (omega arith)))
      (omega (arith, xor_parity a b, xor_parity b a))

pub xor_comm : (a b : ℕ) → bit_xor a b ≡ bit_xor b a
xor_comm a b = xor_comm_below (a + b) a b (omega arith) (omega arith)

-- A sum without carry of numbers of `k` digits has `k` digits.
pub xor_lt : (k a b : ℕ) → a < 2 ^ k → b < 2 ^ k → bit_xor a b < 2 ^ k
xor_lt zero zero zero p q = omega arith
xor_lt zero zero (suc b) p q = absurd (omega arith)
xor_lt zero (suc a) b p q = absurd (omega arith)
xor_lt (suc k) a b p q = omega (
  arith,
  pow-suc 2 k,
  xor_step a b,
  xor_lt k (a / 2) (b / 2) (omega (arith, pow-suc 2 k)) (omega (arith, pow-suc 2 k)),
)

shift-suc : (q k : ℕ) → q * 2 ^ suc k ≡ 2 * (q * 2 ^ k)
shift-suc q k = omega (arith, ap (λ (t : ℕ). q * t) (pow-suc 2 k))

-- Where the digits do not meet it is a sum.
pub xor_fields : (k q r : ℕ) → r < 2 ^ k → bit_xor (q * 2 ^ k) r ≡ q * 2 ^ k + r
xor_fields zero q r h =
    let e : r ≡ 0 = omega arith in
    rw e (omega (arith, xor_comm (q * 2 ^ 0) 0, zero-xor (q * 2 ^ 0)))
xor_fields (suc k) q r h = ground (
  arith,
  xor_step (q * 2 ^ suc k) r,
  shift-suc q k,
  pow-suc 2 k,
  xor_fields k q (r / 2) (omega (arith, pow-suc 2 k)),
)

and_step : (a b : ℕ) → bit_and a b ≡ bit_and (a / 2) (b / 2) * 2 + min (a % 2) (b % 2)
and_step zero b = simp bit_and-bitwise (omega arith)
and_step (suc a) b = simp bit_and-bitwise (lowest (λ y. 0) min a b)

and-zero_below : (k a : ℕ) → a ≤ k → bit_and a 0 ≡ 0
and-zero_below k zero h = refl
and-zero_below zero (suc a) h = absurd (omega arith)
and-zero_below (suc k) (suc a) h =
    omega (arith, and_step (suc a) 0, and-zero_below k (suc a / 2) (omega arith))

-- A mask of `k` ones keeps the lowest `k` digits.
mask_fields : (k q r : ℕ) → r < 2 ^ k → bit_and (q * 2 ^ k + r) (2 ^ k - 1) ≡ r
mask_fields zero q r h = omega (arith, and-zero_below _ (q * 2 ^ 0 + r) (le_refl _))
mask_fields (suc k) q r h = ground (
  arith,
  and_step (q * 2 ^ suc k + r) (2 ^ suc k - 1),
  shift-suc q k,
  pow-suc 2 k,
  one-le-pow k 2,
  mask_fields k q (r / 2) (omega (arith, pow-suc 2 k)),
)

pub and_byte : (a : ℕ) → bit_and a 0xff ≡ a % 256
and_byte a =
    let e : a ≡ a / 256 * 2 ^ 8 + a % 256 = omega arith in
    ap (λ x. bit_and x 0xff) e ∙ mask_fields 8 (a / 256) (a % 256) (omega arith)

pub and_word : (a : ℕ) → bit_and a 0xffff ≡ a % 65536
and_word a =
    let e : a ≡ a / 65536 * 2 ^ 16 + a % 65536 = omega arith in
    ap (λ x. bit_and x 0xffff) e ∙ mask_fields 16 (a / 65536) (a % 65536) (omega arith)

pub xor-zero : (a : ℕ) → bit_xor a 0 ≡ a
xor-zero a = xor_comm a 0 ∙ zero-xor a

-- A number cancels itself.
xor-self_below : (k a : ℕ) → a ≤ k → bit_xor a a ≡ 0
xor-self_below k zero h = refl
xor-self_below zero (suc a) h = absurd (omega arith)
xor-self_below (suc k) (suc a) h =
    omega (arith, xor_step (suc a) (suc a), xor-self_below k (suc a / 2) (omega arith))

pub xor_swap : (a b c : ℕ) → bit_xor a (bit_xor b c) ≡ bit_xor b (bit_xor a c)
xor_swap a b c = sym (xor_assoc a b c) ∙ ap (λ x. bit_xor x c) (xor_comm a b) ∙ xor_assoc b a c

pub xor_cancel : (a b : ℕ) → bit_xor a (bit_xor a b) ≡ b
xor_cancel a b =
    sym (xor_assoc a a b) ∙ ap (λ x. bit_xor x b) (xor-self_below a a (le_refl _)) ∙ zero-xor b
