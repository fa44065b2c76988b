-- ===== src/Text/Int.antt =====
-- Python's integers, their print '%d' % n, and int(s) of Python 2.7 in base ten.
use vsm_cpp_sdk.Prelude.{
  ℕ, zero, suc, ◌+◌, ◌≡◌, refl, Bool, ◌&&◌, ◌||◌, Option, none, some, List, [], ◌∷◌, leb, ◌==◌,
  if◌then◌else◌,
}
use vsm_cpp_sdk.Text.Decimal.{show, scan}

-- `negsuc n` is -(n + 1).
pub data ℤ : Type 0 where
  pos : ℕ → ℤ
  negsuc : ℕ → ℤ

-- n + 1
unfoldable pub next : ℤ → ℤ
next (pos n) = pos (n + 1)
next (negsuc zero) = pos 0
next (negsuc (suc n)) = negsuc n

-- '%d' % n
unfoldable pub show_int : ℤ → List ℕ
show_int (pos n) = show n
show_int (negsuc n) = b'-' ∷ show (n + 1)

space : ℕ → Bool
space c = c == b' ' || (leb 9 c && leb c 13)

-- s.lstrip() and s.rstrip()
lstrip : List ℕ → List ℕ
lstrip [] = []
lstrip (c ∷ s) = if space c then lstrip s else c ∷ s

trim : ℕ → List ℕ → List ℕ
trim c [] = if space c then [] else c ∷ []
trim c (d ∷ s) = c ∷ d ∷ s

rstrip : List ℕ → List ℕ
rstrip [] = []
rstrip (c ∷ s) = trim c (rstrip s)

-- One digit at least.
digits : List ℕ → Option ℕ
digits [] = none
digits (c ∷ s) = scan 0 (c ∷ s)

negate : ℕ → ℤ
negate zero = pos 0
negate (suc n) = negsuc n

abbrev to_int : (ℕ → ℤ) → Option ℕ → Option ℤ
to_int f none = none
to_int f (some n) = some (f n)

signed : List ℕ → Option ℤ
signed [] = none
signed (c ∷ s) =
    if c == b'-'
    then to_int negate (digits s)
    else if c == b'+'
    then to_int pos (digits s)
    else to_int pos (digits (c ∷ s))

-- int(s); `none` is its ValueError
unfoldable pub read_int : List ℕ → Option ℤ
unfolding lstrip rstrip trim space signed digits negate
read_int s = signed (rstrip (lstrip s))

read_int_runs : read_int (b' ' ∷ b'-' ∷ b'4' ∷ b'2' ∷ b'\n' ∷ []) ≡ some (negsuc 41)
unfolding read_int scan
read_int_runs = refl

read_int_refuses : read_int (b'4' ∷ b' ' ∷ b'2' ∷ []) ≡ none
unfolding read_int scan
read_int_refuses = refl
