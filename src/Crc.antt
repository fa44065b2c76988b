-- ===== src/Crc.antt =====
-- The class x25crc of tools/mavgen/mavgen.py.
mod Xor
pub mod Reference
use Prim.Native.Nat.{bit_xor, bit_and}
use vsm_cpp_sdk.Prelude.{ℕ, ◌+◌, ◌*◌, ◌/◌, ◌^◌, ◌≡◌, refl, List, [], ◌∷◌}
use vsm_cpp_sdk.Text.{Text, codes}

-- One round of the loop of `accumulate`: shifts are products and quotients by powers of two.
unfoldable pub step : ℕ → ℕ → ℕ
step accum b =
    let tmp = bit_xor b (bit_and accum 0xff) in
    let tmp = bit_and (bit_xor tmp (tmp * 2 ^ 4)) 0xff in
    let accum =
      bit_xor (bit_xor (bit_xor (accum / 2 ^ 8) (tmp * 2 ^ 8)) (tmp * 2 ^ 3)) (tmp / 2 ^ 4) in
    bit_and accum 0xffff

-- accumulate: the bytes of a text are added to `self.crc`.
unfoldable pub accumulate : ℕ → Text → ℕ
unfolding step
accumulate crc [] = crc
accumulate crc (b ∷ buf) = accumulate (step crc b) buf

-- __init__
unfoldable pub init : Text → ℕ
unfolding accumulate
init buf = accumulate 0xffff buf
