-- ===== src/Tests/Output.antt =====
-- The theorems on checksums, sorting, comments and generated files at small inputs.
use mathlib.Core.List.{Perm, flatten}
use vsm_cpp_sdk.Prelude.{ℕ, ◌≡◌, ◌<◌, ◌↔◌, refl, none, some, List, [], ◌∷◌, ◌++◌, arith, map, All}
use vsm_cpp_sdk.Text.{Text, codes, for_each, text_eq}
use vsm_cpp_sdk.Text.Decimal.{show}
use vsm_cpp_sdk.Text.Int.{ℤ, pos, negsuc}
use vsm_cpp_sdk.Result.{ok}
use vsm_cpp_sdk.Dict.{Distinct, keys}
use vsm_cpp_sdk.Types.{TypeId, ml_type, type_name, get_name, get_count, crc_name}
use vsm_cpp_sdk.Types.RoundTrip.{ml_type-type_name}
use vsm_cpp_sdk.Crc
use vsm_cpp_sdk.Crc.Reference.{register, init-eq-register}
use vsm_cpp_sdk.Model.{MlEnum, Entry, merge}
use vsm_cpp_sdk.Message.{MlMessage, Field, calculate_crc}
use vsm_cpp_sdk.Message.Checksum.{
  message_text, fields_text, field_text, length_text, extra_byte, calculate_crc-register,
}
use vsm_cpp_sdk.Parse.{sort_fields}
use vsm_cpp_sdk.Parse.Enums.{IsEnum, entry_name, merge_lem}
use vsm_cpp_sdk.Parse.Sorting.{IsSorted, of_size, sort_fields_stable}
use vsm_cpp_sdk.Parse.Declared.{parse_message-IsFinished}
use vsm_cpp_sdk.Comment.{wrap, comment_lines, paragraphs}
use vsm_cpp_sdk.Comment.Wrap.{spaced, solid, Fits, wrap_lem}
use vsm_cpp_sdk.Comment.Ink.{ink, comment_lines-paragraphs}
use vsm_cpp_sdk.Lua.{generate_payload_dissector, lua_enum, element_count}
use vsm_cpp_sdk.Lua.Fields.{generate_lua_msg_fields}
use vsm_cpp_sdk.Lua.Payload.{
  Call, call_text, Chain, HasElements, dissector_text, payload_dissector-Chain,
}
use vsm_cpp_sdk.Lua.Values.{Numbered, py_enum_text, lua_enum_text, generate_py_enum-Numbered}
use vsm_cpp_sdk.Lua.Descriptions.{Described, generate_lua_msg_fields_iff}
use vsm_cpp_sdk.Python.{generate_py_enum}
use vsm_cpp_sdk.Tests.{
  runs, common, heartbeat, heartbeat_message, heartbeat_parsed, mav_x, plain_entry, scalar,
}

ml_type-type_name_example :
    (ml_type (type_name TypeId.char) ≡ ok (record { id = TypeId.char; num = none }))
    × (ml_type (type_name TypeId.char ++ (b'[' ∷ (show 16 ++ (b']' ∷ codes "x"))))
        ≡ ok (record { id = TypeId.char; num = some 16 }))
ml_type-type_name_example = ml_type-type_name TypeId.char 16 (codes "x")

-- The check value of CRC-16/MCRF4XX.
check_value : Crc.init (codes "123456789") ≡ 0x6f91
unfolding Crc.init Crc.accumulate Crc.step
check_value = refl

init-eq-register_example :
    (Crc.init (codes "123456789") ≡ register 0xffff (codes "123456789"))
    × (Crc.init (codes "123456789") < 65536)
init-eq-register_example = init-eq-register (codes "123456789") (omega arith)

-- HEARTBEAT before its checksum.
abbrev unchecked : MlMessage
unchecked = record heartbeat_message { len_v1 = 0; crc_extra_byte = 0 }

checked : calculate_crc unchecked ≡ ok heartbeat_message
unfolding runs
checked = refl

unchecked_bytes : All (λ b. b < 256) (message_text unchecked)
unfolding message_text fields_text field_text length_text crc_name
unchecked_bytes = omega arith

calculate_crc-register_example :
    (50 ≡ extra_byte (register 0xffff (message_text unchecked))) × (50 < 256)
calculate_crc-register_example =
    calculate_crc-register unchecked heartbeat_message checked unchecked_bytes

abbrev other_enum : MlEnum
other_enum = record mav_x {
  entries = plain_entry (codes "C") ∷ [];
  entries_names = (codes "C", plain_entry (codes "C")) ∷ [];
}

mav_x-IsEnum : IsEnum mav_x
unfolding keys text_eq
mav_x-IsEnum = record { named = refl; distinct = ((refl, tt), (tt, tt)) }

merge_lem_example :
    ((r : MlEnum)
      → merge mav_x other_enum ≡ ok r
      → (r.entries ≡ mav_x.entries ++ other_enum.entries) × IsEnum r)
    × (((r : MlEnum) × (merge mav_x other_enum ≡ ok r))
        ↔ Distinct (map entry_name mav_x.entries ++ map entry_name other_enum.entries))
merge_lem_example = merge_lem mav_x other_enum mav_x-IsEnum

abbrev three_fields : List Field
three_fields =
    scalar (codes "a") TypeId.uint8
    ∷ scalar (codes "b") TypeId.uint32
    ∷ scalar (codes "c") TypeId.uint8
    ∷ []

sort_fields_stable_example :
    Perm (sort_fields three_fields) three_fields
    × IsSorted (sort_fields three_fields)
    × ((k : ℕ) → of_size k (sort_fields three_fields) ≡ of_size k three_fields)
sort_fields_stable_example = sort_fields_stable three_fields

wrap_lem_example :
    (gs : List (List Text)) × (wrap [] (codes "a" ∷ [] ∷ codes "b" ∷ []) ≡ map spaced gs)
    × (flatten gs ≡ solid (codes "a" ∷ [] ∷ codes "b" ∷ []))
    × All Fits gs
wrap_lem_example = wrap_lem (codes "a" ∷ [] ∷ codes "b" ∷ [])

comment_lines-paragraphs_example :
    ink (flatten (comment_lines (paragraphs (codes "a b\n\nc")))) ≡ ink (codes "a b\n\nc")
comment_lines-paragraphs_example = comment_lines-paragraphs (codes "a b\n\nc")

heartbeat-HasElements : HasElements heartbeat_message.fields
unfolding element_count get_name get_count type_name text_eq
heartbeat-HasElements = omega arith

payload_dissector-Chain_example :
    (cs : List Call) × (generate_payload_dissector heartbeat_message
      ≡ ok (dissector_text heartbeat_message (for_each (call_text heartbeat_message.name) cs) 9))
    × Chain 0 cs 9
payload_dissector-Chain_example =
    payload_dissector-Chain
      (parse_message-IsFinished common heartbeat heartbeat_message heartbeat_parsed).0
      heartbeat_message
      (parse_message-IsFinished common heartbeat heartbeat_message heartbeat_parsed).2
      heartbeat-HasElements

abbrev valued : Entry
valued = record { name = codes "V"; value = some (negsuc 1); description = none; params = [] }

abbrev valued_enum : MlEnum
valued_enum = record mav_x { entries = valued ∷ mav_x.entries }

generate_py_enum-Numbered_example :
    (ws : List (Entry × ℤ)) × Numbered (pos 0) 0 valued_enum.entries ws
    × (generate_py_enum valued_enum ≡ py_enum_text valued_enum ws)
    × (lua_enum valued_enum ≡ lua_enum_text valued_enum ws)
generate_py_enum-Numbered_example = generate_py_enum-Numbered valued_enum

generate_lua_msg_fields_iff_example :
    ((t : Text) × (generate_lua_msg_fields heartbeat_message ≡ ok t))
    ↔ Described heartbeat_message.fields
generate_lua_msg_fields_iff_example = generate_lua_msg_fields_iff heartbeat_message
