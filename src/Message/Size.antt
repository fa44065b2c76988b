-- ===== src/Message/Size.antt =====
-- The bytes that the fields of a message take on the wire.
use vsm_cpp_sdk.Prelude.{ℕ, ◌+◌, ◌*◌, ◌≡◌, refl, List, [], ◌∷◌, ◌++◌, arith, if◌then◌else◌}
use vsm_cpp_sdk.Text.{codes, text_eq}
use vsm_cpp_sdk.Types.{TypeId, char, type_name, get_name, get_size, size_of, get_count}
use vsm_cpp_sdk.Message.{Field, field_size}

unfoldable pub bytes_of : List Field → ℕ
bytes_of [] = 0
bytes_of (f ∷ fs) = get_size f.type * get_count f.type + bytes_of fs

pub bytes_of-append : (fs gs : List Field) → bytes_of (fs ++ gs) ≡ bytes_of fs + bytes_of gs
unfolding bytes_of
bytes_of-append [] gs = omega arith
bytes_of-append (f ∷ fs) gs = omega (arith, bytes_of-append fs gs)

char_or_sized :
    (t : TypeId) (n : ℕ)
    → (if text_eq (type_name t) (codes "char") then n else size_of t * n) ≡ size_of t * n
unfolding type_name text_eq size_of
char_or_sized char n = omega arith
char_or_sized _ n = refl

-- The size of a field is that of its type times its count, strings included.
pub field_size-eq : (f : Field) → field_size f ≡ get_size f.type * get_count f.type
unfolding field_size get_name get_size
field_size-eq f = char_or_sized f.type.id (get_count f.type)
