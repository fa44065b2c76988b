-- ===== src/Cpp.antt =====
-- The C++ generator of tools/mavgen/mavgen.py: the header of the enums. The children have the rest.
pub mod Messages
pub mod Sources
use vsm_cpp_sdk.Prelude.{ℕ, ◌+◌, true, Option, none, some, List, [], ◌∷◌, ◌++◌}
use vsm_cpp_sdk.Text.{Text, codes, lines, cat, for_each}
use vsm_cpp_sdk.Text.Int.{ℤ, show_int}
use vsm_cpp_sdk.Dict.{Dict}
use vsm_cpp_sdk.Model.{MlFile, MlEnum, Entry}
use vsm_cpp_sdk.Message.{MlMessage}
use vsm_cpp_sdk.Parse.{Opts, FileEntry}
use vsm_cpp_sdk.Comment.{format_comment}
use vsm_cpp_sdk.Emit.{items, snds, entry_comment, open_namespace, close_namespace}

-- FormatComment(f, description, indent) if there is a description
unfoldable pub description_comment : ℕ → Option Text → Text
description_comment n none = []
description_comment n (some d) = format_comment n true d

-- The end of an entry: its value, if it has one.
unfoldable pub enum_value : Option ℤ → Text
enum_value none = codes ",\n"
enum_value (some v) = cat (codes " = " ∷ show_int v ∷ codes ",\n" ∷ [])

unfoldable pub enum_entry : Entry → Text
unfolding enum_value
enum_entry e =
    cat (format_comment 1 true (entry_comment e) ∷ codes "    " ∷ e.name ∷ enum_value e.value ∷ [])

-- GenerateEnum
unfoldable pub generate_enum : MlEnum → Text
unfolding description_comment enum_entry
generate_enum m = cat (
    open_namespace m.file.namespace
    ∷ description_comment 0 m.description
    ∷ codes "enum "
    ∷ m.name
    ∷ codes " {\n"
    ∷ for_each enum_entry m.entries
    ∷ codes "};\n"
    ∷ close_namespace m.file.namespace
    ∷ codes "\n"
    ∷ [])

unfoldable pub message_id : MlMessage → Text
unfolding description_comment
message_id m = cat (
    description_comment 1 m.description
    ∷ codes "    "
    ∷ m.name
    ∷ codes " = "
    ∷ show_int m.id
    ∷ codes ",\n"
    ∷ [])

unfoldable pub file_ids : FileEntry → Text
unfolding message_id
file_ids f = cat (
    open_namespace f.file.namespace
    ∷ codes "enum MESSAGE_ID: MESSAGE_ID_TYPE {\n"
    ∷ for_each message_id f.messages
    ∷ codes "};\n"
    ∷ close_namespace f.file.namespace
    ∷ codes "\n"
    ∷ [])

-- GenerateMessageIdEnum
unfoldable pub generate_message_id_enum : (List Text → List Text) → Opts → Text
unfolding file_ids
generate_message_id_enum order o =
    format_comment 0 true (codes "Mavlink message identifier.")
    ++ for_each file_ids (snds (items order o.files))

-- The notice at the top of a generated file.
unfoldable pub notice : Text → Text
notice what = cat (
    lines (
      "" ∷ "Copyright (c) 2018, Smart Projects Holdings Ltd" ∷ "All rights reserved."
      ∷ "See LICENSE file for license details." ∷ ""
      ∷ "!!!Do not edit!!! This file is automatically generated by mavgen.py tool." ∷ "" ∷ [])
    ∷ what
    ∷ codes " definitions for MAVLink protocol.\n"
    ∷ [])

abbrev pub open_namespaces : Text
open_namespaces =
    lines ("" ∷ "namespace ugcs {" ∷ "namespace vsm {" ∷ "namespace mavlink {" ∷ "" ∷ [])

abbrev pub close_namespaces : Text
close_namespaces =
    lines ("} /* namespace mavlink */" ∷ "} /* namespace vsm */" ∷ "} /* namespace ugcs */" ∷ [])

-- GenerateEnums: auto_mavlink_enums.h
unfoldable pub generate_enums : (List Text → List Text) → Opts → Text
unfolding generate_enum generate_message_id_enum notice
generate_enums order o = cat (
    format_comment 0 true (notice (codes "Enumerations"))
    ∷ lines ("" ∷ "#ifndef _AUTO_MAVLINK_ENUMS_H_" ∷ "#define _AUTO_MAVLINK_ENUMS_H_" ∷ [])
    ∷ open_namespaces
    ∷ for_each generate_enum (snds (items order o.enums))
    ∷ generate_message_id_enum order o
    ∷ close_namespaces
    ∷ codes "#endif  // _AUTO_MAVLINK_ENUMS_H_\n"
    ∷ [])
