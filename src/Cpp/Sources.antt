-- ===== src/Cpp/Sources.antt =====
-- The source file of the messages: GenerateMessageImpl, GenerateMessageExtraBytes and
-- GenerateMsgsImpl of tools/mavgen/mavgen.py.
use vsm_cpp_sdk.Prelude.{◌+◌, true, Option, none, some, List, [], ◌∷◌, ◌++◌, length}
use vsm_cpp_sdk.Text.{Text, codes, lines, cat, for_each}
use vsm_cpp_sdk.Text.Decimal.{show}
use vsm_cpp_sdk.Types.{cpp_id}
use vsm_cpp_sdk.Message.{MlMessage, Field}
use vsm_cpp_sdk.Parse.{Opts, FileEntry}
use vsm_cpp_sdk.Comment.{format_comment}
use vsm_cpp_sdk.Emit.{items, snds, lower_name, namespace_prefix, in_namespace}
use vsm_cpp_sdk.Cpp.{notice}

-- A row of the descriptor: name, type and number of elements.
unfoldable pub descriptor_row : Field → Text
descriptor_row f = cat (
    codes "{\""
    ∷ f.name
    ∷ codes "\", "
    ∷ cpp_id f.type.id
    ∷ codes ", "
    ∷ show (elim f.type.num [ none ↦ 1 | some n ↦ n ])
    ∷ codes "},\n"
    ∷ [])

unfoldable pub reset_call : Field → Text
reset_call f = cat (codes "    " ∷ f.name ∷ codes ".Reset();\n" ∷ [])

-- GenerateMessageImpl
unfoldable pub generate_message_impl : MlMessage → Text
unfolding descriptor_row reset_call
generate_message_impl m =
    let namespace = namespace_prefix m.file.namespace in
    cat (
      codes "mavlink::internal::Field_descriptor mavlink::"
      ∷ namespace
      ∷ codes "internal::pld_desc_"
      ∷ lower_name m
      ∷ codes "[] = {\n"
      ∷ for_each descriptor_row m.fields
      ∷ codes "{nullptr, NONE, 0}\n"
      ∷ codes "};\n\n"
      ∷ codes "const char mavlink::"
      ∷ namespace
      ∷ codes "internal::pld_name_"
      ∷ lower_name m
      ∷ codes "["
      ∷ show (length m.name + 1)
      ∷ codes "] = \""
      ∷ m.name
      ∷ codes "\";\n\n"
      ∷ codes "void\nmavlink::"
      ∷ namespace
      ∷ codes "internal::Pld_struct_"
      ∷ lower_name m
      ∷ codes "::Reset() {\n"
      ∷ for_each reset_call m.fields
      ∷ codes "}\n\n"
      ∷ [])

-- A row of the map of CRC extra bytes and lengths.
unfoldable pub extra_row : Text → MlMessage → Text
extra_row prefix m = cat (
    codes "{"
    ∷ prefix
    ∷ codes "MESSAGE_ID::"
    ∷ m.name
    ∷ codes ",\n    {"
    ∷ show m.crc_extra_byte
    ∷ codes ", "
    ∷ show m.len_v1
    ∷ codes "}},\n"
    ∷ [])

-- The map of the extension class holds the messages of files without a namespace.
abbrev global_row : Option Text → MlMessage → Text
global_row none m = extra_row [] m
global_row (some ns) m = []

unfoldable pub extension_map : List MlMessage → Text → Text
unfolding extra_row
extension_map ms ns =
    let class = cat (codes "Extension_" ∷ ns ∷ codes "_type_helper" ∷ []) in
    cat (
      codes "using "
      ∷ class
      ∷ codes " = ::ugcs::vsm::mavlink::"
      ∷ ns
      ∷ codes "::Extension;\n"
      ∷ codes "const "
      ∷ class
      ∷ codes " "
      ∷ class
      ∷ codes "::instance;\n"
      ∷ codes "const std::map<MESSAGE_ID_TYPE, Extra_byte_length_pair> "
      ∷ class
      ∷ codes "::crc_extra_bytes_length_map = {\n"
      ∷ for_each (extra_row (ns ++ codes "::")) ms
      ∷ codes "};\n\n"
      ∷ [])

-- GenerateMessageExtraBytes
unfoldable pub generate_message_extra_bytes : (List Text → List Text) → Opts → Text
unfolding extension_map extra_row
generate_message_extra_bytes order o = cat (
    codes "const std::map<MESSAGE_ID_TYPE, Extra_byte_length_pair> "
    ∷ codes "mavlink::Extension::crc_extra_bytes_length_map = {\n"
    ∷ for_each (λ (m : MlMessage). global_row m.file.namespace m) (snds (items order o.messages))
    ∷ codes "};\n\n"
    ∷ for_each (λ (f : FileEntry). in_namespace (extension_map f.messages) f.file.namespace)
        (snds (items order o.files))
    ∷ [])

-- GenerateMsgsImpl: auto_mavlink_messages.cpp
unfoldable pub generate_msgs_impl : (List Text → List Text) → Opts → Text
unfolding generate_message_extra_bytes generate_message_impl
generate_msgs_impl order o = cat (
    format_comment 0 true (notice (codes "Messages"))
    ∷ lines (
        "" ∷ "#include <ugcs/vsm/mavlink.h>" ∷ "#include <map>" ∷ "" ∷ "using namespace ugcs::vsm;"
        ∷ "using namespace ugcs::vsm::mavlink;" ∷ "" ∷ [])
    ∷ generate_message_extra_bytes order o
    ∷ for_each generate_message_impl (snds (items order o.messages))
    ∷ [])
