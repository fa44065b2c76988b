-- ===== src/Cpp/Messages.antt =====
-- The header of the messages: GenerateMessage and GenerateMsgsHdr of tools/mavgen/mavgen.py.
use vsm_cpp_sdk.Prelude.{
  ℕ, suc, ◌+◌, Bool, true, false, Option, none, some, List, [], ◌∷◌, ◌++◌, ◌==◌, if◌then◌else◌,
  length,
}
use vsm_cpp_sdk.Text.{Text, codes, lines, cat, for_each}
use vsm_cpp_sdk.Text.Decimal.{show}
use vsm_cpp_sdk.Types.{MlType, cpp_name}
use vsm_cpp_sdk.Message.{MlMessage, Field}
use vsm_cpp_sdk.Parse.{Opts, FileEntry}
use vsm_cpp_sdk.Comment.{format_comment}
use vsm_cpp_sdk.Emit.{
  items, snds, lower_name, open_namespace, close_namespace, namespace_prefix, in_namespace,
}
use vsm_cpp_sdk.Cpp.{description_comment, notice, open_namespaces, close_namespaces}

-- The C++ type of a field.
unfoldable pub type_text : MlType → Text
type_text t = elim t.num [
  | none ↦ cpp_name t.id
  | some n ↦ cat (codes "Value_array<" ∷ cpp_name t.id ∷ codes ", " ∷ show n ∷ codes ">" ∷ [])
]

unfoldable pub member : Field → Text
unfolding type_text
member f = cat (
    description_comment 1 f.description
    ∷ codes "    "
    ∷ type_text f.type
    ∷ codes " "
    ∷ f.name
    ∷ codes ";\n"
    ∷ [])

abbrev is_start : Option ℕ → ℕ → Bool
is_start none i = false
is_start (some n) i = i == n

-- The loop over the fields from the index `i` on, with the line in front of the first extension.
unfoldable pub members : Option ℕ → ℕ → List Field → Text
unfolding member
members start i [] = []
members start i (f ∷ fs) =
    (if is_start start i then codes "\n    /* Message extensions */\n\n" else [])
    ++ (member f ++ members start (suc i) fs)

unfoldable pub struct_name : MlMessage → Text
struct_name m = codes "Pld_struct_" ++ lower_name m

-- The structure of the payload and the declarations of its descriptor and name.
unfoldable pub payload_struct : MlMessage → Text
unfolding struct_name members
payload_struct m = cat (
    codes "namespace internal {\n"
    ∷ codes "struct "
    ∷ struct_name m
    ∷ codes " {\n"
    ∷ format_comment 1 true (codes "Reset all fields to UgCS default values")
    ∷ codes "    void\n    Reset();\n"
    ∷ format_comment 1 true (codes "Return message size on wire without extensions")
    ∷ codes "    size_t\n    Get_size_v1() const {return "
    ∷ show m.len_v1
    ∷ codes ";}\n"
    ∷ format_comment 1 true (codes "Return max message size on wire with extensions")
    ∷ codes "    size_t\n    Get_size_v2() const {return "
    ∷ show m.len_v2
    ∷ codes ";}\n"
    ∷ members m.extensions_start 0 m.fields
    ∷ codes "} __PACKED;\n\n"
    ∷ codes "extern mavlink::internal::Field_descriptor pld_desc_"
    ∷ lower_name m
    ∷ codes "["
    ∷ show (length m.fields + 1)
    ∷ codes "];\n\n"
    ∷ codes "extern const char pld_name_"
    ∷ lower_name m
    ∷ codes "["
    ∷ show (length m.name + 1)
    ∷ codes "];\n\n"
    ∷ codes "} /* namespace internal */\n\n"
    ∷ [])

-- The identifier of a message in its file's enum.
unfoldable pub message_id_name : MlMessage → Text
message_id_name m = cat (namespace_prefix m.file.namespace ∷ codes "MESSAGE_ID::" ∷ m.name ∷ [])

unfoldable pub payload_typedef : MlMessage → Text
unfolding struct_name message_id_name
payload_typedef m = cat (
    format_comment 0 true (codes "@see internal::" ++ struct_name m)
    ∷ codes "typedef Payload<internal::"
    ∷ struct_name m
    ∷ codes ",\n                internal::pld_desc_"
    ∷ lower_name m
    ∷ codes ",\n                internal::pld_name_"
    ∷ lower_name m
    ∷ codes ",\n                "
    ∷ message_id_name m
    ∷ codes ",\n                "
    ∷ show m.crc_extra_byte
    ∷ codes ">\n    Pld_"
    ∷ lower_name m
    ∷ codes ";\n"
    ∷ [])

unfoldable pub type_mapper : MlMessage → Text
type_mapper m = cat (
    codes "\ntemplate<>\nstruct Payload_type_mapper<"
    ∷ message_id_name m
    ∷ in_namespace (λ ns. cat (codes ", " ∷ ns ∷ codes "::Extension" ∷ [])) m.file.namespace
    ∷ codes "> {\n    typedef "
    ∷ namespace_prefix m.file.namespace
    ∷ codes "Pld_"
    ∷ lower_name m
    ∷ codes " type;\n};\n\n\n"
    ∷ [])

-- GenerateMessage
unfoldable pub generate_message : MlMessage → Text
unfolding payload_struct payload_typedef type_mapper
generate_message m = cat (
    description_comment 0 m.description
    ∷ open_namespace m.file.namespace
    ∷ payload_struct m
    ∷ payload_typedef m
    ∷ close_namespace m.file.namespace
    ∷ type_mapper m
    ∷ [])

-- The class Extension of a file with a namespace.
unfoldable pub extension_class : Text → Text
extension_class ns = cat (
    codes "\nnamespace "
    ∷ ns
    ∷ codes " {\n"
    ∷ lines (
        "class Extension: public mavlink::Extension {" ∷ "public:" ∷ "    Extension() {}"
        ∷ "    static const Extension &" ∷ "    Get() {" ∷ "        return instance;" ∷ "    }" ∷ ""
        ∷ "    std::string" ∷ "    Get_name() const override {" ∷ [])
    ∷ codes "        return \""
    ∷ ns
    ∷ codes "\";\n"
    ∷ lines (
        "    }" ∷ "" ∷ "    const std::map<MESSAGE_ID_TYPE, Extra_byte_length_pair> *"
        ∷ "    Get_crc_extra_byte_map() const override {"
        ∷ "        return &crc_extra_bytes_length_map;" ∷ "    }" ∷ "" ∷ "private:"
        ∷ "    static const Extension instance;" ∷ [])
    ∷ codes "    static const std::map<MESSAGE_ID_TYPE, Extra_byte_length_pair> "
    ∷ codes "crc_extra_bytes_length_map;\n};\n} /* namespace "
    ∷ ns
    ∷ codes " */\n\n"
    ∷ [])

-- GenerateMsgsHdr: auto_mavlink_messages.h
unfoldable pub generate_msgs_hdr : (List Text → List Text) → Opts → Text
unfolding generate_message extension_class
generate_msgs_hdr order o = cat (
    format_comment 0 true (notice (codes "Messages"))
    ∷ lines (
        "" ∷ "#ifndef _AUTO_MAVLINK_MESSAGES_H_" ∷ "#define _AUTO_MAVLINK_MESSAGES_H_" ∷ ""
        ∷ "#include <map>" ∷ "#include <string>" ∷ [])
    ∷ open_namespaces
    ∷ for_each (λ (f : FileEntry). in_namespace extension_class f.file.namespace)
        (snds (items order o.files))
    ∷ for_each generate_message (snds (items order o.messages))
    ∷ close_namespaces
    ∷ codes "#endif  // _AUTO_MAVLINK_MESSAGES_H_\n"
    ∷ [])
