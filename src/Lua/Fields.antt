-- ===== src/Lua/Fields.antt =====
-- The fields of the dissector: Get_enum_from_feld, lua_type, generate_lua_msg_fields and
-- GenerateLuaOutput of tools/mavgen/mavgen.py.
use vsm_cpp_sdk.Prelude.{
  ℕ, true, false, Option, none, some, List, [], ◌∷◌, ◌++◌, ◌==◌, ltb, ◌&&◌, ◌||◌, if◌then◌else◌,
  ◌≡◌, refl,
}
use vsm_cpp_sdk.Text.{Text, codes, cat, for_each, text_eq}
use vsm_cpp_sdk.Text.Decimal.{show}
use vsm_cpp_sdk.Result.{Result, ok, err, attribute_error, ◌>>=◌}
use vsm_cpp_sdk.Dict.{Dict, get}
use vsm_cpp_sdk.Types.{get_name, get_count, get_size}
use vsm_cpp_sdk.Message.{MlMessage, Field}
use vsm_cpp_sdk.Parse.{Opts}
use vsm_cpp_sdk.Emit.{items, snds}
use vsm_cpp_sdk.Lua.{write_each, lua_enum, message_row, range, generate_payload_dissector}
use vsm_cpp_sdk.Lua.Script.{script_start, script_frames, script_body, script_end}

-- The table of Get_enum_from_feld.
unfoldable pub enum_table : Dict Text
enum_table =
    (codes "autopilot", codes "MAV_AUTOPILOT")
    ∷ (codes "base_mode", codes "MAV_MODE")
    ∷ (codes "system_status", codes "MAV_STATE")
    ∷ (codes "MISSION_ACKtype", codes "MAV_MISSION_RESULT")
    ∷ (codes "HEARTBEATtype", codes "MAV_TYPE")
    ∷ (codes "param_type", codes "MAV_PARAM_TYPE")
    ∷ (codes "command", codes "MAV_CMD")
    ∷ (codes "frame", codes "MAV_FRAME")
    ∷ (codes "result", codes "MAV_RESULT")
    ∷ (codes "mode", codes "MAV_MODE")
    ∷ (codes "nav_mode", codes "MAV_NAV_MODE")
    ∷ (codes "mount_mode", codes "MAV_MOUNT_MODE")
    ∷ (codes "severity", codes "MAV_SEVERITY")
    ∷ []

-- Get_enum_from_feld: the field of one message, or any field of the name.
unfoldable pub get_enum_from_field : MlMessage → Field → Option Text
unfolding enum_table
get_enum_from_field m f = elim (get (m.name ++ f.name) enum_table) [
  | some e ↦ some e
  | none ↦ get f.name enum_table
]

-- s.replace('_t', '')
unfoldable pub drop_t : Text → Text
drop_t [] = []
drop_t (c ∷ []) = c ∷ []
drop_t (c ∷ d ∷ s) = elim (c == b'_' && d == b't') [ true ↦ drop_t s | false ↦ c ∷ drop_t (d ∷ s) ]

-- lua_type
unfoldable pub lua_type : Text → Text
unfolding drop_t
lua_type t =
    if text_eq t (codes "char") || text_eq t (codes "uint8_t_mavlink_version")
    then codes "uint8"
    else drop_t t

-- The declaration of one element of a field.
unfoldable pub proto_field : Text → Text → Text → Text → Text → Option Text → Text
proto_field name field_name index_text ltype array_text enum_name = cat (
    codes "f."
    ∷ name
    ∷ codes "_"
    ∷ field_name
    ∷ index_text
    ∷ codes " = ProtoField."
    ∷ ltype
    ∷ codes "(\"mavlink_proto."
    ∷ name
    ∷ codes "_"
    ∷ field_name
    ∷ index_text
    ∷ codes "\", \""
    ∷ field_name
    ∷ array_text
    ∷ codes " ("
    ∷ ltype
    ∷ codes ")\""
    ∷ (elim enum_name [ none ↦ [] | some e ↦ codes ", base.DEC, enum_" ++ e ])
    ∷ codes ")\n"
    ∷ [])

-- The loop over the elements. The enum is named for values of up to four bytes.
unfoldable pub proto_fields : Text → Field → Text → ℕ → Option Text → Text
unfolding range proto_field
proto_fields name f ltype count enum_name =
    for_each
      (λ i.
        proto_field name f.name (if ltb 1 count then codes "_" ++ show i else []) ltype
          (if ltb 1 count then cat (codes "[" ∷ show i ∷ codes "]" ∷ []) else [])
          (if ltb 4 (get_size f.type) then none else enum_name))
      (range 0 count)

-- The declarations of a field; a string is one element.
unfoldable pub field_declarations : MlMessage → Field → Text
unfolding lua_type proto_fields get_enum_from_field
field_declarations m f =
    let is_string = text_eq (get_name f.type) (codes "char") && ltb 1 (get_count f.type) in
    proto_fields m.name f (if is_string then codes "string" else lua_type (get_name f.type))
      (if is_string then 1 else get_count f.type) (get_enum_from_field m f)

-- A field without a description raises, at the `replace` that prepares it. The text that this makes
-- is not written.
unfoldable pub lua_field : MlMessage → Field → Result Text
lua_field m f = elim f.description [
  | none ↦ err attribute_error
  | some d ↦ ok (field_declarations m f)
]

-- generate_lua_msg_fields
unfoldable pub generate_lua_msg_fields : MlMessage → Result Text
unfolding lua_field field_declarations write_each
generate_lua_msg_fields m = do t ← write_each (lua_field m) m.fields; ok (t ++ codes "\n")

-- GenerateLuaOutput: auto_mavlink_dissector.lua
unfoldable pub generate_lua_output : (List Text → List Text) → Opts → Result Text
unfolding generate_lua_msg_fields script_start script_frames script_body script_end
generate_lua_output order o = do
  fields ← write_each generate_lua_msg_fields (snds (items order o.messages))
  dissectors ← write_each generate_payload_dissector (snds (items order o.messages))
  ok (
      cat (
        script_start
        ∷ codes "messageName = {\n"
        ∷ for_each message_row (items order o.messages)
        ∷ codes "}\n"
        ∷ for_each lua_enum (snds (items order o.enums))
        ∷ fields
        ∷ dissectors
        ∷ script_frames
        ∷ script_body
        ∷ script_end
        ∷ []))

lua_types : lua_type (codes "uint16_t") ≡ codes "uint16"
unfolding lua_type text_eq
lua_types = refl
