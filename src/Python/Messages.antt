-- ===== src/Python/Messages.antt =====
-- The message classes of the Python generator of tools/mavgen/mavgen.py.
use vsm_cpp_sdk.Prelude.{none, some, List, [], ◌∷◌, ◌++◌, map}
use vsm_cpp_sdk.Text.{Text, codes, lines, cat, for_each, join, lower, capitalize}
use vsm_cpp_sdk.Text.Decimal.{show}
use vsm_cpp_sdk.Types.{cpp_id}
use vsm_cpp_sdk.Message.{MlMessage, Field}
use vsm_cpp_sdk.Parse.{Opts}
use vsm_cpp_sdk.Comment.{format_py_comment}
use vsm_cpp_sdk.Emit.{items, snds}
use vsm_cpp_sdk.Python.{py_description, generate_py_enums}

-- msg.name.lower().capitalize()
unfoldable pub class_name : MlMessage → Text
class_name m = capitalize (lower m.name)

unfoldable pub field_line : Field → Text
unfolding py_description
field_line f = cat (
    py_description 2 f.description
    ∷ codes "        fd_"
    ∷ f.name
    ∷ codes " = MsgFieldDesc('"
    ∷ f.name
    ∷ codes "', MsgFieldType(MsgFieldType."
    ∷ cpp_id f.type.id
    ∷ codes ", "
    ∷ show (elim f.type.num [ none ↦ 1 | some n ↦ n ])
    ∷ codes "))\n"
    ∷ [])

unfoldable pub field_desc : Field → Text
field_desc f = codes "fd_" ++ f.name

-- GeneratePyMessage
unfoldable pub generate_py_message : MlMessage → Text
unfolding py_description class_name field_line field_desc
generate_py_message m = cat (
    py_description 1 m.description
    ∷ codes "    class "
    ∷ class_name m
    ∷ codes ":\n"
    ∷ codes "        name = '"
    ∷ m.name
    ∷ codes "'\n"
    ∷ codes "        id = MESSAGE_ID."
    ∷ m.name
    ∷ codes "\n"
    ∷ codes "        crcExtraByte = "
    ∷ show m.crc_extra_byte
    ∷ codes "\n"
    ∷ for_each field_line m.fields
    ∷ codes "        fieldDescs = ["
    ∷ join (codes ", ") (map field_desc m.fields)
    ∷ codes "]\n\n"
    ∷ [])

-- The classes that stand in front of the messages.
unfoldable pub message_classes : Text
message_classes = lines (
    "" ∷ "class MsgFieldType:" ∷ "    def __init__(self, id, numElements):" ∷ "        self.id = id"
    ∷ "        self.numElements = numElements" ∷ "        " ∷ "    # ID values for MAVLink types"
    ∷ "    CHAR = 0" ∷ "    UINT8 = 1" ∷ "    INT8 = 2" ∷ "    UINT16 = 3" ∷ "    INT16 = 4"
    ∷ "    UINT32 = 5" ∷ "    INT32 = 6" ∷ "    UINT64 = 7" ∷ "    INT64 = 8" ∷ "    FLOAT = 9"
    ∷ "    DOUBLE = 10" ∷ "    UINT8_VERSION = 11" ∷ "" ∷ "class MsgFieldDesc:"
    ∷ "    def __init__(self, name, type):" ∷ "        self.name = name"
    ∷ "        self.type = type" ∷ "        " ∷ "class Msg:" ∷ "" ∷ [])

unfoldable pub list_line : MlMessage → Text
unfolding class_name
list_line m = cat (codes "        " ∷ class_name m ∷ codes ",\n" ∷ [])

-- GeneratePyMessages
unfoldable pub generate_py_messages : (List Text → List Text) → Opts → Text
unfolding generate_py_message message_classes list_line
generate_py_messages order o = cat (
    message_classes
    ∷ for_each generate_py_message (snds (items order o.messages))
    ∷ codes "    list = [\n"
    ∷ for_each list_line (snds (items order o.messages))
    ∷ codes "        ]\n\n"
    ∷ [])

-- GeneratePythonOutput: auto_mavlink.py
unfoldable pub generate_python_output : (List Text → List Text) → Opts → Text
unfolding generate_py_messages
generate_python_output order o = cat (
    format_py_comment 0 (
      lines (
        "" ∷ "Do not edit! This file is automatically generated by mavgen.py tool." ∷ ""
        ∷ "Definitions for MAVLink protocol." ∷ []))
    ∷ codes "\n"
    ∷ generate_py_enums order o
    ∷ generate_py_messages order o
    ∷ [])
