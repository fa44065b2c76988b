-- ===== src/Crc/Reference.antt =====
-- The checksum of x25crc against the shift register of CRC-16/MCRF4XX: reflected polynomial 0x8408,
-- one digit at a time, lowest first.
use Prim.Native.Nat.{bit_xor, bit_and}
use native.Mathlib.Nat.{mod-eq_of_lt}
use native.Mathlib.Decide.{dec_lt}
use vsm_cpp_sdk.Prelude.{
  ℕ, zero, suc, ◌+◌, ◌*◌, ◌/◌, ◌%◌, ◌<◌, ◌^◌, ◌≡◌, ap, ◌∙◌, refl, sym, Bool, true, ◌&&◌, [], ◌∷◌,
  ◌++◌, All, arith, ◌==◌, ==_iff, if◌then◌else◌, Bool-cases, inl, inr, &&-true,
}
use vsm_cpp_sdk.Text.{Text}
use vsm_cpp_sdk.Crc.{step, accumulate, init}
use vsm_cpp_sdk.Crc.Xor.{
  xor_assoc, xor_comm, xor_half, xor_parity, xor_lt, xor_fields, xor-zero, xor_swap, and_byte,
  and_word,
}

-- One shift of the register.
unfoldable pub shift : ℕ → ℕ
shift r = if r % 2 == 1 then bit_xor (r / 2) 0x8408 else r / 2

unfoldable pub shifts : ℕ → ℕ → ℕ
unfolding shift
shifts zero r = r
shifts (suc k) r = shifts k (shift r)

-- The register takes a byte in at its low end and is shifted eight times.
unfoldable pub feed : ℕ → ℕ → ℕ
feed r b = shifts 8 (bit_xor r b)

unfoldable pub register : ℕ → Text → ℕ
unfolding feed
register r [] = r
register r (b ∷ bs) = register (feed r b) bs

-- What a shift adds, by the digit that leaves.
abbrev toggle : ℕ → ℕ
toggle p = if p == 1 then 0x8408 else 0

shift-eq-toggle : (r : ℕ) → shift r ≡ bit_xor (r / 2) (toggle (r % 2))
unfolding shift
shift-eq-toggle r = elim (Bool-cases (r % 2 == 1)) [
  | inl odd ↦ rw odd
  | inr even ↦ rw even (sym (xor-zero (r / 2)))
]

toggle-add : (x y : ℕ) → x < 2 → y < 2 → toggle ((x + y) % 2) ≡ bit_xor (toggle x) (toggle y)
toggle-add zero zero h k = refl
toggle-add zero (suc zero) h k = refl
toggle-add (suc zero) zero h k = refl
toggle-add (suc zero) (suc zero) h k = refl
toggle-add x (suc (suc y)) h k = absurd (omega arith)
toggle-add (suc (suc x)) y h k = absurd (omega arith)

regroup : (p q s t : ℕ) → bit_xor (bit_xor p q) (bit_xor s t) ≡ bit_xor (bit_xor p s) (bit_xor q t)
regroup p q s t = simp xor_assoc (ap (λ x. bit_xor p x) (xor_swap q s t))

shift-xor : (a b : ℕ) → shift (bit_xor a b) ≡ bit_xor (shift a) (shift b)
shift-xor a b =
    rw (shift-eq-toggle (bit_xor a b), shift-eq-toggle a, shift-eq-toggle b, xor_half, xor_parity)
      (rw (toggle-add (a % 2) (b % 2) (omega arith) (omega arith)) (regroup _ _ _ _))

-- The register is linear.
shifts-xor : (k a b : ℕ) → shifts k (bit_xor a b) ≡ bit_xor (shifts k a) (shifts k b)
unfolding shifts
shifts-xor zero a b = refl
shifts-xor (suc k) a b = rw (shift-xor a b) (shifts-xor k (shift a) (shift b))

shift_even : (q : ℕ) → shift (q * 2) ≡ q
unfolding shift
shift_even q = ground arith

-- Eight shifts of a byte at the high end bring it to the low end.
shifts_high : (h : ℕ) → shifts 8 (h * 256) ≡ h
unfolding shifts
shifts_high h =
    let e : h * 256 ≡ h * 2 * 2 * 2 * 2 * 2 * 2 * 2 * 2 = omega arith in
    rw e (
      rw
        (
          shift_even (h * 2 * 2 * 2 * 2 * 2 * 2 * 2),
          shift_even (h * 2 * 2 * 2 * 2 * 2 * 2),
          shift_even (h * 2 * 2 * 2 * 2 * 2),
          shift_even (h * 2 * 2 * 2 * 2),
          shift_even (h * 2 * 2 * 2),
          shift_even (h * 2 * 2),
          shift_even (h * 2),
        )
        (shift_even h))

-- What a round of the program adds for the byte `x`.
abbrev nibble : ℕ → ℕ
nibble x = bit_and (bit_xor x (x * 2 ^ 4)) 0xff

abbrev added : ℕ → ℕ
added x = bit_xor (bit_xor (nibble x * 2 ^ 8) (nibble x * 2 ^ 3)) (nibble x / 2 ^ 4)

-- A test of every number below a bound, and what it says of one of them.
holds_below : (ℕ → Bool) → ℕ → Bool
holds_below test zero = true
holds_below test (suc bound) = holds_below test bound && test bound

holds_below-at :
    (test : ℕ → Bool) (bound x : ℕ) → x < bound → holds_below test bound ≡ true → test x ≡ true
unfolding holds_below
holds_below-at test zero x small h = absurd (omega arith)
holds_below-at test (suc bound) x small h =
    let (below, last) = &&-true (holds_below test bound) (test bound) h in
    elim (dec_lt x bound) [
      | yes p ↦ holds_below-at test bound x p below
      | no p ↦ let e : x ≡ bound = omega arith in rw e last
    ]

added_table : holds_below (λ x. added x == shifts 8 x) 256 ≡ true
unfolding holds_below shifts
added_table = refl

added-eq-shifts : (x : ℕ) → x < 256 → added x ≡ shifts 8 x
added-eq-shifts x h = (==_iff _ _).0 (holds_below-at _ 256 x h added_table)

added_small : holds_below (λ x. added x / 65536 == 0) 256 ≡ true
unfolding holds_below
added_small = refl

added-lt : (x : ℕ) → x < 256 → added x < 2 ^ 16
added-lt x h = let e = (==_iff _ _).0 (holds_below-at _ 256 x h added_small) in omega (arith, e)

-- A round, with the byte that meets the low end of the register named.
step-eq-added :
    (accum b : ℕ)
    → step accum b ≡ bit_and (bit_xor (accum / 256) (added (bit_xor b (accum % 256)))) 0xffff
unfolding step
step-eq-added accum b = rw (and_byte accum) (simp xor_assoc)

-- A word and a byte: the byte meets the low end alone.
split : (r b : ℕ) → bit_xor r b ≡ bit_xor (r / 256 * 256) (bit_xor b (r % 256))
split r b =
    let e : r ≡ r / 256 * 2 ^ 8 + r % 256 = omega arith in
    ap (λ x. bit_xor x b) (e ∙ sym (xor_fields 8 (r / 256) (r % 256) (omega arith)))
    ∙ (xor_assoc _ _ b ∙ ap (λ x. bit_xor (r / 256 * 256) x) (xor_comm (r % 256) b))

-- One round of the loop is one byte of the shift register.
step-eq-feed : (accum b : ℕ) → accum < 65536 → b < 256 → step accum b ≡ feed accum b
unfolding feed
step-eq-feed accum b h k =
    let x : ℕ = bit_xor b (accum % 256) in
    let small : x < 2 ^ 8 = xor_lt 8 b (accum % 256) k (omega arith) in
    let fits : bit_xor (accum / 256) (added x) < 2 ^ 16 =
      xor_lt 16 (accum / 256) (added x) (omega arith) (added-lt x small) in
    rw (step-eq-added accum b, split accum b, shifts-xor 8 (accum / 256 * 256) x, shifts_high)
      (rw (← added-eq-shifts x small) (rw and_word (mod-eq_of_lt fits)))

step-lt : (accum b : ℕ) → step accum b < 65536
unfolding step
step-lt accum b = rw and_word (omega arith)

-- The checksum is a 16-bit value.
pub accumulate-lt : (crc : ℕ) (buf : Text) → crc < 65536 → accumulate crc buf < 65536
unfolding accumulate
accumulate-lt crc [] h = h
accumulate-lt crc (b ∷ buf) h = accumulate-lt (step crc b) buf (step-lt crc b)

-- From a 16-bit value and on bytes, `accumulate` is the shift register.
accumulate-eq-register :
    (crc : ℕ) (buf : Text)
    → crc < 65536
    → All (λ b. b < 256) buf
    → accumulate crc buf ≡ register crc buf
unfolding accumulate register
accumulate-eq-register crc [] h k = refl
accumulate-eq-register crc (b ∷ buf) h (hb, hbuf) =
    rw (← step-eq-feed crc b h hb) (accumulate-eq-register (step crc b) buf (step-lt crc b) hbuf)

-- Adding two texts one after the other is adding their concatenation.
pub accumulate-append :
    (crc : ℕ) (s t : Text) → accumulate crc (s ++ t) ≡ accumulate (accumulate crc s) t
unfolding accumulate
accumulate-append crc [] t = refl
accumulate-append crc (b ∷ s) t = accumulate-append (step crc b) s t

-- The object that `x25crc(buf)` makes holds the shift register's value from the seed 0xffff.
pub init-eq-register :
    (buf : Text) → All (λ b. b < 256) buf → (init buf ≡ register 0xffff buf) × (init buf < 65536)
unfolding init
init-eq-register buf h =
    (accumulate-eq-register 0xffff buf (omega arith) h, accumulate-lt 0xffff buf (omega arith))

-- Two bytes xor-ed are a byte.
pub fold-lt : (crc : ℕ) → crc < 65536 → bit_xor (bit_and crc 0xff) (crc / 2 ^ 8) < 256
fold-lt crc h = rw and_byte (xor_lt 8 (crc % 256) (crc / 256) (omega arith) (omega arith))
