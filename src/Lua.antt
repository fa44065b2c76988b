-- ===== src/Lua.antt =====
-- The generator of the Wireshark dissector of tools/mavgen/mavgen.py.
pub mod Script
pub mod Payload
pub mod Descriptions
pub mod Values
pub mod Fields
use vsm_cpp_sdk.Prelude.{
  ℕ, zero, suc, ◌+◌, ◌*◌, Bool, true, false, Option, none, some, List, [], ◌∷◌, ◌++◌, ◌==◌, ltb,
  ◌&&◌, if◌then◌else◌,
}
use vsm_cpp_sdk.Text.{Text, codes, lines, cat, for_each, text_eq}
use vsm_cpp_sdk.Text.Decimal.{show}
use vsm_cpp_sdk.Text.Int.{ℤ, pos, next, show_int}
use vsm_cpp_sdk.Result.{Result, ok, err, attribute_error, unbound_local, ◌>>=◌}
use vsm_cpp_sdk.Dict.{Dict}
use vsm_cpp_sdk.Types.{MlType, get_name, get_count, get_size}
use vsm_cpp_sdk.Model.{MlFile, MlEnum, Entry}
use vsm_cpp_sdk.Message.{MlMessage, Field, field_size}
use vsm_cpp_sdk.Parse.{Opts}
use vsm_cpp_sdk.Emit.{items, snds}

-- What a loop writes whose body may raise.
unfoldable pub write_each {ℓ} : {A : Type ℓ} → (A → Result Text) → List A → Result Text
write_each f [] = ok []
write_each f (x ∷ xs) = do t ← f x; rest ← write_each f xs; ok (t ++ rest)

-- The values of the entries of an enum, each missing one next to the one before it.
unfoldable pub lua_values : ℤ → List Entry → List (ℤ × Text)
lua_values val [] = []
lua_values val (item ∷ rest) =
    let v : ℤ = elim item.value [ none ↦ val | some x ↦ x ] in
    (v, item.name) ∷ lua_values (next v) rest

unfoldable pub lua_row : ℤ × Text → Text
lua_row (v, name) = cat (codes "[" ∷ show_int v ∷ codes "] = '" ∷ name ∷ codes "',\n" ∷ [])

-- One round of the loop of GenerateLuaOutput over the enums.
unfoldable pub lua_enum : MlEnum → Text
unfolding lua_values lua_row
lua_enum m = cat (
    codes "enum_"
    ∷ m.name
    ∷ codes " = {\n"
    ∷ for_each lua_row (lua_values (pos 0) m.entries)
    ∷ codes "}\n\n"
    ∷ [])

unfoldable pub message_row : Text × MlMessage → Text
message_row (name, m) = cat (codes "[" ∷ show_int m.id ∷ codes "] = '" ∷ name ∷ codes "',\n" ∷ [])

-- The numbers from `i` on, `n` of them: range(i, i + n).
unfoldable pub range : ℕ → ℕ → List ℕ
range i zero = []
range i (suc n) = i ∷ range (i + 1) n

-- A call of addle: the field, the offset in the payload and the size.
unfoldable pub addle_call : Text → Text → Text → ℕ → ℕ → Text
addle_call name field_name index_text offset size = cat (
    codes "    addle(f."
    ∷ name
    ∷ codes "_"
    ∷ field_name
    ∷ index_text
    ∷ codes ", buffer, tree, offset, "
    ∷ show offset
    ∷ codes ", "
    ∷ show size
    ∷ codes ", len)\n"
    ∷ [])

-- The calls that generate_field_dissector writes for a field, as offsets and sizes, and the offset
-- that it returns. `count` is 1 for a string. With no element the loop never sets `size`, and the
-- return raises.
unfoldable pub element_count : Field → ℕ
element_count f = if text_eq (get_name f.type) (codes "char") then 1 else get_count f.type

unfoldable pub element_size : Field → ℕ
element_size f = if ltb 1 (element_count f) then get_size f.type else field_size f

unfoldable pub field_calls : Text → Field → ℕ → Text
field_calls name f offset =
    for_each
      (λ i.
        addle_call name f.name (if ltb 1 (element_count f) then codes "_" ++ show i else [])
          (offset + i * element_size f) (element_size f))
      (range 0 (element_count f))

-- generate_field_dissector
unfoldable pub generate_field_dissector : Text → Field → ℕ → Result (Text × ℕ)
generate_field_dissector name f offset =
    if element_count f == 0
    then err unbound_local
    else ok (field_calls name f offset, offset + element_count f * element_size f)

-- The loop of generate_payload_dissector over the fields.
unfoldable pub payload_calls : Text → ℕ → List Field → Result Text
payload_calls name offset [] = ok []
payload_calls name offset (f ∷ fs) = do
  (t, offset') ← generate_field_dissector name f offset
  rest ← payload_calls name offset' fs
  ok (t ++ rest)

unfoldable pub fields_length : ℕ → List Field → ℕ
fields_length n [] = n
fields_length n (f ∷ fs) = fields_length (n + field_size f) fs

-- generate_payload_dissector
unfoldable pub generate_payload_dissector : MlMessage → Result Text
generate_payload_dissector m = do
  calls ← payload_calls m.name 0 m.fields
  ok (
      cat (
        codes "\n-- "
        ∷ m.name
        ∷ codes "\nfunction myfuncs.dissect_payload_"
        ∷ show_int m.id
        ∷ codes "(buffer, tree, offset, len)\n"
        ∷ calls
        ∷ codes "    return "
        ∷ show (fields_length 0 m.fields)
        ∷ codes "\nend\n"
        ∷ []))
