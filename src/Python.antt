-- ===== src/Python.antt =====
-- The Python generator of tools/mavgen/mavgen.py.
pub mod Messages
use vsm_cpp_sdk.Prelude.{ℕ, ◌+◌, Option, none, some, List, [], ◌∷◌, ◌++◌}
use vsm_cpp_sdk.Text.{Text, codes, lines, cat, for_each}
use vsm_cpp_sdk.Text.Int.{ℤ, pos, next, show_int}
use vsm_cpp_sdk.Dict.{Dict}
use vsm_cpp_sdk.Model.{MlEnum, Entry}
use vsm_cpp_sdk.Message.{MlMessage}
use vsm_cpp_sdk.Parse.{Opts}
use vsm_cpp_sdk.Comment.{format_py_comment}
use vsm_cpp_sdk.Emit.{items, snds, entry_comment}

unfoldable pub py_description : ℕ → Option Text → Text
py_description n none = []
py_description n (some d) = format_py_comment n d

-- The loop over the entries: the value of each, the last one plus one where there is none.
unfoldable pub py_values : ℤ → List Entry → List (Entry × ℤ)
py_values cur_value [] = []
py_values cur_value (e ∷ rest) =
    let value : ℤ = elim e.value [ none ↦ cur_value | some v ↦ v ] in
    (e, value) ∷ py_values (next value) rest

unfoldable pub py_entry : Entry × ℤ → Text
py_entry (e, value) = cat (
    format_py_comment 1 (entry_comment e)
    ∷ codes "    "
    ∷ e.name
    ∷ codes " = "
    ∷ show_int value
    ∷ codes "\n"
    ∷ [])

-- GeneratePyEnum
unfoldable pub generate_py_enum : MlEnum → Text
unfolding py_description py_values py_entry
generate_py_enum m = cat (
    py_description 0 m.description
    ∷ codes "class "
    ∷ m.name
    ∷ codes ":\n"
    ∷ for_each py_entry (py_values (pos 0) m.entries)
    ∷ codes "\n\n"
    ∷ [])

unfoldable pub py_message_id : MlMessage → Text
unfolding py_description
py_message_id m = cat (
    py_description 1 m.description
    ∷ codes "    "
    ∷ m.name
    ∷ codes " = "
    ∷ show_int m.id
    ∷ codes "\n"
    ∷ [])

-- GenerateMessageIdPyEnum
unfoldable pub generate_message_id_py_enum : (List Text → List Text) → Opts → Text
unfolding py_message_id
generate_message_id_py_enum order o = cat (
    format_py_comment 0 (codes "Mavlink message identifier.")
    ∷ codes "class MESSAGE_ID:\n"
    ∷ for_each py_message_id (snds (items order o.messages))
    ∷ codes "\n\n"
    ∷ [])

-- A line of the list of enums: the key of the dict.
unfoldable pub list_entry : Text × MlEnum → Text
list_entry (enum_name, m) = cat (codes "    " ∷ enum_name ∷ codes ",\n" ∷ [])

-- GeneratePyEnums
unfoldable pub generate_py_enums : (List Text → List Text) → Opts → Text
unfolding generate_py_enum generate_message_id_py_enum list_entry
generate_py_enums order o = cat (
    format_py_comment 0 (codes "Common enumerations")
    ∷ codes "\n\n"
    ∷ for_each generate_py_enum (snds (items order o.enums))
    ∷ generate_message_id_py_enum order o
    ∷ codes "enumList = [\n"
    ∷ for_each list_entry (items order o.enums)
    ∷ codes "    MESSAGE_ID,\n]\n\n"
    ∷ [])
