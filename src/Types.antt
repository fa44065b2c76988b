-- ===== src/Types.antt =====
-- The class MlType of tools/mavgen/mavgen.py: the types of message fields.
pub mod RoundTrip
use vsm_cpp_sdk.Prelude.{
  ℕ, ◌+◌, ◌*◌, ◌≡◌, refl, Option, none, some, List, [], ◌∷◌, ◌++◌, ◌==◌, if◌then◌else◌, Bool,
}
use vsm_cpp_sdk.Text.{Text, codes, text_eq, is_word, is_digit}
use vsm_cpp_sdk.Text.Decimal.{scan}
use vsm_cpp_sdk.Result.{Result, ok, err, raised, value_error, ◌>>=◌}

-- The ID values.
pub data TypeId : Type 0 where
  char uint8 int8 uint16 int16 uint32 int32 uint64 int64 float double uint8_version : TypeId

abbrev pub all_types : List TypeId
all_types =
    char ∷ uint8 ∷ int8 ∷ uint16 ∷ int16 ∷ uint32 ∷ int32 ∷ uint64 ∷ int64 ∷ float ∷ double
    ∷ uint8_version ∷ []

-- MlType.names[id]
unfoldable pub type_name : TypeId → Text
type_name char = codes "char"
type_name uint8 = codes "uint8_t"
type_name int8 = codes "int8_t"
type_name uint16 = codes "uint16_t"
type_name int16 = codes "int16_t"
type_name uint32 = codes "uint32_t"
type_name int32 = codes "int32_t"
type_name uint64 = codes "uint64_t"
type_name int64 = codes "int64_t"
type_name float = codes "float"
type_name double = codes "double"
type_name uint8_version = codes "uint8_t_mavlink_version"

-- The first ID whose name is the given one: `name not in names` and `names.index(name)`.
index : Text → List TypeId → Option TypeId
unfolding type_name
index name [] = none
index name (t ∷ ts) = if text_eq (type_name t) name then some t else index name ts

abbrev or_unknown : Text → Option TypeId → Result TypeId
or_unknown name none = err (raised (codes "Unknown type name: " ++ name))
or_unknown name (some t) = ok t

-- MlType.GetTypeId
unfoldable pub get_type_id : Text → Result TypeId
unfolding index
get_type_id name = or_unknown name (index name all_types)

-- MlType._GetSize
unfoldable pub size_of : TypeId → ℕ
size_of char = 1
size_of uint8 = 1
size_of int8 = 1
size_of uint16 = 2
size_of int16 = 2
size_of uint32 = 4
size_of int32 = 4
size_of uint64 = 8
size_of int64 = 8
size_of float = 4
size_of double = 8
size_of uint8_version = 1

-- The object: `num` is the length of an array, `none` for a scalar.
pub record MlType : Type 0 where
  pub id : TypeId
  pub num : Option ℕ

-- The longest prefix of bytes that pass a test, and the rest: a greedy `x+` of a regular expression.
module _ (p : ℕ → Bool) where
  abbrev longer : ℕ → Text × Text → Text × Text
  longer c (w, r) = (c ∷ w, r)

  unfoldable pub span : Text → Text × Text
  span [] = ([], [])
  span (c ∷ s) = let more = longer c (span s) in if p c then more else ([], c ∷ s)

-- The rest behind a given byte.
abbrev behind : ℕ → Text → Option Text
behind d [] = none
behind d (c ∷ s) = if c == d then some s else none

abbrev count_of : Text × Text → Option ℕ
count_of ([], r) = none
count_of (c ∷ w, r) = elim (behind b']' r) [ none ↦ none | some _ ↦ scan 0 (c ∷ w) ]

abbrev bracket_of : Text × Text → Option (Text × ℕ)
bracket_of ([], r) = none
bracket_of (c ∷ w, r) = elim (behind b'[' r) [
  | none ↦ none
  | some s ↦ elim (count_of (span is_digit s)) [ none ↦ none | some n ↦ some (c ∷ w, n) ]
]

-- re.match('(\\w+)\\[(\\d+)\\]', name): the two groups, the second through int. The match is
-- anchored at the start of the name only. A shorter `\w+` or `\d+` is followed by a byte of its own
-- class and so never by the bracket: the greedy match is the only one.
unfoldable pub match_array : Text → Option (Text × ℕ)
unfolding span
match_array name = bracket_of (span is_word name)

-- MlType.__init__
unfoldable pub ml_type : Text → Result MlType
ml_type name = elim (match_array name) [
  | none ↦ (do t ← get_type_id name; ok (record { id = t; num = none }))
  | some (base, n) ↦ (do t ← get_type_id base; ok (record { id = t; num = some n }))
]

-- MlType.GetSize and GetName
unfoldable pub get_size : MlType → ℕ
unfolding size_of
get_size t = size_of t.id

unfoldable pub get_name : MlType → Text
unfolding type_name
get_name t = type_name t.id

-- MlType.GetCount
unfoldable pub get_count : MlType → ℕ
get_count t = elim t.num [ none ↦ 1 | some n ↦ n ]

-- MlType.GetCppName
unfoldable pub cpp_name : TypeId → Text
cpp_name char = codes "Char"
cpp_name uint8 = codes "Uint8"
cpp_name int8 = codes "Int8"
cpp_name uint16 = codes "Uint16"
cpp_name int16 = codes "Int16"
cpp_name uint32 = codes "Uint32"
cpp_name int32 = codes "Int32"
cpp_name uint64 = codes "Uint64"
cpp_name int64 = codes "Int64"
cpp_name float = codes "Float"
cpp_name double = codes "Double"
cpp_name uint8_version = codes "Uint8_version"

-- MlType.GetCppId
unfoldable pub cpp_id : TypeId → Text
cpp_id char = codes "CHAR"
cpp_id uint8 = codes "UINT8"
cpp_id int8 = codes "INT8"
cpp_id uint16 = codes "UINT16"
cpp_id int16 = codes "INT16"
cpp_id uint32 = codes "UINT32"
cpp_id int32 = codes "INT32"
cpp_id uint64 = codes "UINT64"
cpp_id int64 = codes "INT64"
cpp_id float = codes "FLOAT"
cpp_id double = codes "DOUBLE"
cpp_id uint8_version = codes "UINT8_VERSION"

-- MlType.GetCrcName: the name that enters the CRC extra byte.
unfoldable pub crc_name : TypeId → Text
crc_name uint8_version = codes "uint8_t"
crc_name char = codes "char"
crc_name uint8 = codes "uint8_t"
crc_name int8 = codes "int8_t"
crc_name uint16 = codes "uint16_t"
crc_name int16 = codes "int16_t"
crc_name uint32 = codes "uint32_t"
crc_name int32 = codes "int32_t"
crc_name uint64 = codes "uint64_t"
crc_name int64 = codes "int64_t"
crc_name float = codes "float"
crc_name double = codes "double"
