-- ===== src/Text.antt =====
-- Texts of tools/mavgen/mavgen.py: byte strings of Python 2.7, as lists of byte values.
pub mod Decimal
pub mod Int
pub mod Find
pub mod Path
pub mod Regex
use Prim.Native.Char.{code}
use vsm_cpp_sdk.Prelude.{
  ℕ, ◌+◌, ◌-◌, String, ◌≡◌, refl, ◌↔◌, Bool, true, false, ◌&&◌, ◌||◌, List, [], ◌∷◌, ◌++◌, map,
  arith, leb, ◌==◌, if◌then◌else◌,
}

abbrev pub Text : Type 0
Text = List ℕ

-- The bytes of an ASCII literal.
abbrev pub codes : String → Text
codes String.[] = []
codes (String.◌∷◌ c s) = code c ∷ codes s

-- Lines of a literal, each with its line feed.
abbrev pub lines : List String → Text
lines [] = []
lines (s ∷ ss) = codes s ++ (b'\n' ∷ lines ss)

-- s == t
unfoldable pub text_eq : Text → Text → Bool
text_eq [] [] = true
text_eq [] (d ∷ t) = false
text_eq (c ∷ s) [] = false
text_eq (c ∷ s) (d ∷ t) = c == d && text_eq s t

pub text_eq_iff : (s t : Text) → (text_eq s t ≡ true) ↔ (s ≡ t)
unfolding text_eq
text_eq_iff [] [] = ground arith
text_eq_iff [] (d ∷ t) = ground arith
text_eq_iff (c ∷ s) [] = ground arith
text_eq_iff (c ∷ s) (d ∷ t) = ground (arith, text_eq_iff s t)

pub text_eq_refl : (s : Text) → text_eq s s ≡ true
text_eq_refl s = (text_eq_iff s s).1 refl

-- str.lower and str.capitalize on bytes
unfoldable pub lower_byte : ℕ → ℕ
lower_byte c = if leb b'A' c && leb c b'Z' then c + 32 else c

unfoldable pub upper_byte : ℕ → ℕ
upper_byte c = if leb b'a' c && leb c b'z' then c - 32 else c

unfoldable pub lower : Text → Text
unfolding lower_byte
lower = map lower_byte

unfoldable pub capitalize : Text → Text
unfolding upper_byte lower
capitalize [] = []
capitalize (c ∷ s) = upper_byte c ∷ lower s

-- Texts written one after the other.
unfoldable pub cat : List Text → Text
cat [] = []
cat (t ∷ ts) = t ++ cat ts

-- What a loop writes for each element.
unfoldable pub for_each {ℓ} : {A : Type ℓ} → (A → Text) → List A → Text
for_each f [] = []
for_each f (x ∷ xs) = f x ++ for_each f xs

-- sep.join(parts)
unfoldable pub join : Text → List Text → Text
join sep [] = []
join sep (p ∷ []) = p
join sep (p ∷ q ∷ ps) = p ++ (sep ++ join sep (q ∷ ps))

-- The classes \s, \w and \d of the module re on bytes.
unfoldable pub is_space : ℕ → Bool
is_space c = c == b' ' || (leb 9 c && leb c 13)

unfoldable pub is_digit : ℕ → Bool
is_digit c = leb b'0' c && leb c b'9'

unfoldable pub is_word : ℕ → Bool
unfolding is_digit
is_word c = is_digit c || (leb b'a' c && leb c b'z') || (leb b'A' c && leb c b'Z') || c == b'_'
