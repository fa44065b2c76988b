-- ===== src/Message.antt =====
-- The class MlMessage of tools/mavgen/mavgen.py.
pub mod Size
pub mod Checksum
use Prim.Native.Nat.{bit_xor, bit_and}
use vsm_cpp_sdk.Prelude.{
  ℕ, ◌+◌, ◌*◌, ◌/◌, ◌^◌, Option, none, some, List, [], ◌∷◌, ◌++◌, ltb, if◌then◌else◌, take,
}
use vsm_cpp_sdk.Text.{Text, codes, text_eq, lower, capitalize}
use vsm_cpp_sdk.Text.Int.{ℤ}
use vsm_cpp_sdk.Result.{Result, ok, err, value_error, ◌>>=◌, fold}
use vsm_cpp_sdk.Types.{MlType, get_size, get_count, get_name, crc_name, ml_type}
use vsm_cpp_sdk.Crc
use vsm_cpp_sdk.Model.{MlFile, filter_name}

-- MlMessage.Field
pub record Field : Type 0 where
  pub name : Text
  pub type : MlType
  pub description : Option Text

-- MlMessage.Field.__init__
unfoldable pub field : Text → Text → Option Text → Result Field
unfolding filter_name
field name type_text description = do
  t ← ml_type type_text
  ok (record { name = filter_name name; type = t; description = description })

-- MlMessage.Field.GetSize
unfoldable pub field_size : Field → ℕ
field_size f =
    if text_eq (get_name f.type) (codes "char")
    then get_count f.type
    else get_size f.type * get_count f.type

-- The attribute crcExtraByte does not exist before it is calculated; here it is 0 until then.
pub record MlMessage : Type 0 where
  pub file : MlFile
  pub name : Text
  pub id : ℤ
  pub description : Option Text
  pub fields : List Field
  pub extensions_start : Option ℕ
  pub len_v1 : ℕ
  pub len_v2 : ℕ
  pub crc_extra_byte : ℕ

-- MlMessage.__init__
unfoldable pub ml_message : MlFile → Text → ℤ → MlMessage
unfolding filter_name
ml_message file name id = record {
  file = file;
  name = filter_name name;
  id = id;
  description = none;
  fields = [];
  extensions_start = none;
  len_v1 = 0;
  len_v2 = 0;
  crc_extra_byte = 0;
}

-- MlMessage.AddField
unfoldable pub add_field : MlMessage → Text → Text → Option Text → Result MlMessage
add_field m name type_text description = do
  f ← field name type_text description
  ok (record m { fields = m.fields ++ (f ∷ []) })

-- MlMessage.GetCppName
unfoldable pub message_cpp_name : MlMessage → Text
message_cpp_name m = capitalize (lower m.name)

-- chr(n) of Python 2.7
unfoldable pub chr : ℕ → Result Text
chr n = if ltb n 256 then ok (n ∷ []) else err value_error

-- The variables of the loop of _CalculateCrcExtraByte.
pub record CrcLoop : Type 0 where
  pub len_v1 : ℕ
  pub crc : ℕ

unfoldable pub crc_length : ℕ → Option ℕ → Result ℕ
unfolding chr
crc_length crc none = ok crc
crc_length crc (some n) = do c ← chr n; ok (Crc.accumulate crc c)

-- One round: a base field adds its size, its type's name, its name and its array length.
unfoldable pub crc_field : CrcLoop → Field → Result CrcLoop
crc_field s f = do
  let crc = Crc.accumulate s.crc (crc_name f.type.id ++ codes " ")
  let crc = Crc.accumulate crc (f.name ++ codes " ")
  crc ← crc_length crc f.type.num
  ok (record { len_v1 = s.len_v1 + get_size f.type * get_count f.type; crc = crc })

abbrev pub or_zero : Option ℕ → ℕ
or_zero none = 0
or_zero (some n) = n

-- MlMessage._CalculateCrcExtraByte; ParseMessage calls it with `extensions_start` set and at most
-- the number of fields, so the fields before it are the first ones of the list.
unfoldable pub calculate_crc : MlMessage → Result MlMessage
calculate_crc m = do
  s ←
      fold crc_field (record { len_v1 = m.len_v1; crc = Crc.init (m.name ++ codes " ") })
        (take (or_zero m.extensions_start) m.fields)
  ok (record m { len_v1 = s.len_v1; crc_extra_byte = bit_xor (bit_and s.crc 0xff) (s.crc / 2 ^ 8) })
