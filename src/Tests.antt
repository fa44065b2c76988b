-- ===== src/Tests.antt =====
-- Tests on small inputs and the theorems at them: a definition file with the message HEARTBEAT and an
-- enum, as tools/mavgen/mavgen.py reads it from resources/mavlink/common.xml.
mod Lines
mod Files
mod Checks
mod Nesting
mod Lint
mod Output
use vsm_cpp_sdk.Prelude.{ℕ, ◌≡◌, refl, false, none, some, List, [], ◌∷◌}
use vsm_cpp_sdk.Text.{Text, codes, text_eq, is_word}
use vsm_cpp_sdk.Text.Decimal.{scan}
use vsm_cpp_sdk.Text.Int.{ℤ, pos, read_int}
use vsm_cpp_sdk.Result.{Result, ok, err, value_error, fold}
use vsm_cpp_sdk.Dict.{get, put}
use vsm_cpp_sdk.Xml.{Element, element, nil, cons, children, attr, attr?, find, tag, attrib, text_of}
use vsm_cpp_sdk.Types.{
  TypeId, ml_type, match_array, span, get_type_id, get_size, get_count, crc_name,
}
use vsm_cpp_sdk.Crc
use vsm_cpp_sdk.Model.{
  MlFile, ml_file, MlEnum, Entry, ml_enum, merge, qualified_name, entry, add_entry, add_parameter,
  has_param, filter_name,
}
use vsm_cpp_sdk.Message.{
  MlMessage, Field, add_field, field, ml_message, calculate_crc, crc_field, crc_length,
}
use vsm_cpp_sdk.Parse.{
  Opts, parse_message, parse_input, int, message_child, finish_message, parse_file, parse_root,
  parse_enums, enum_element, parse_enum, enum_child, parse_enum_entry, entry_child, add_enum,
  parse_messages, message_element, add_message,
}
use vsm_cpp_sdk.Parse.Input.{IsConsistent, parse_input-IsConsistent}
use vsm_cpp_sdk.Parse.Finish.{IsFinished}
use vsm_cpp_sdk.Parse.Declared.{declared, declared_start, start_in, parse_message-IsFinished}

abbrev leaf : Text → List (Text × Text) → Element
leaf tag attributes = element tag attributes (some (codes "Text.")) nil

abbrev field_element : Text → Text → Element
field_element name type_text =
    leaf (codes "field") ((codes "name", name) ∷ (codes "type", type_text) ∷ [])

abbrev pub heartbeat : Element
heartbeat =
    element (codes "message") ((codes "id", codes "0") ∷ (codes "name", codes "HEARTBEAT") ∷ [])
      none
      (cons (field_element (codes "type") (codes "uint8_t")) (
        cons (field_element (codes "autopilot") (codes "uint8_t")) (
          cons (field_element (codes "base_mode") (codes "uint8_t")) (
            cons (field_element (codes "custom_mode") (codes "uint32_t")) (
              cons (field_element (codes "system_status") (codes "uint8_t")) (
                cons (field_element (codes "mavlink_version") (codes "uint8_t_mavlink_version"))
                  nil))))))

abbrev pub common : MlFile
common = record { path = codes "common.xml"; name = codes "common"; namespace = none }

abbrev pub scalar : Text → TypeId → Field
scalar name id = record {
  name = name;
  type = record { id = id; num = none };
  description = some (codes "Text.");
}

-- The extra byte of HEARTBEAT is 50, and custom_mode comes first on the wire.
abbrev pub heartbeat_message : MlMessage
heartbeat_message = record {
  file = common;
  name = codes "HEARTBEAT";
  id = pos 0;
  description = none;
  fields =
      scalar (codes "custom_mode") TypeId.uint32
      ∷ scalar (codes "type") TypeId.uint8
      ∷ scalar (codes "autopilot") TypeId.uint8
      ∷ scalar (codes "base_mode") TypeId.uint8
      ∷ scalar (codes "system_status") TypeId.uint8
      ∷ scalar (codes "mavlink_version") TypeId.uint8_version
      ∷ [];
  extensions_start = some 6;
  len_v1 = 9;
  len_v2 = 9;
  crc_extra_byte = 50;
}

-- All that a run of the parser computes with.
abbrev pub runs : ℕ
unfolding parse_message attr attr? find int read_int scan fold message_child add_field field
    ml_message filter_name text_eq tag attrib children text_of ml_type match_array span is_word
    get_type_id finish_message calculate_crc crc_field crc_length get_size get_count crc_name
    Crc.accumulate Crc.init parse_input parse_file parse_root parse_enums enum_element parse_enum
    enum_child parse_enum_entry entry_child add_enum parse_messages message_element add_message get
    put qualified_name entry ml_enum add_entry merge add_parameter has_param ml_file
runs = 0

pub heartbeat_parsed : parse_message common heartbeat ≡ ok heartbeat_message
unfolding runs
heartbeat_parsed = refl

-- The definition file: an enum of two entries, and the message.
abbrev entry_element : Text → Element
entry_element name = leaf (codes "entry") ((codes "name", name) ∷ [])

abbrev pub root : Element
root = element (codes "mavlink") [] none (
    cons
      (element (codes "enums") [] none (
        cons
          (element (codes "enum") ((codes "name", codes "MAV_X") ∷ []) none
            (cons (entry_element (codes "A")) (cons (entry_element (codes "B")) nil)))
          nil))
      (cons (element (codes "messages") [] none (cons heartbeat nil)) nil))

abbrev pub no_eval : Text → Result ℤ
no_eval s = err value_error

abbrev pub read_root : Text → Result Element
read_root path = ok root

abbrev pub plain_entry : Text → Entry
plain_entry name = record { name = name; value = none; description = none; params = [] }

abbrev pub common_file : MlFile
common_file = record { path = codes "common.xml"; name = codes "common"; namespace = none }

abbrev pub mav_x : MlEnum
mav_x = record {
  file = common_file;
  name = codes "MAV_X";
  description = none;
  entries = plain_entry (codes "A") ∷ plain_entry (codes "B") ∷ [];
  entries_names = (codes "A", plain_entry (codes "A")) ∷ (codes "B", plain_entry (codes "B")) ∷ [];
}

abbrev pub parsed : Opts
parsed = record {
  merge_ext = false;
  enums = (codes "MAV_X", mav_x) ∷ [];
  messages = (codes "HEARTBEAT", heartbeat_message) ∷ [];
  files =
      (codes "common.xml", record { file = common_file; messages = heartbeat_message ∷ [] }) ∷ [];
}

pub file_parsed : parse_input no_eval read_root false (codes "common.xml" ∷ []) ≡ ok parsed
unfolding runs
file_parsed = refl

parse_input-IsConsistent_example : IsConsistent parsed
parse_input-IsConsistent_example =
    parse_input-IsConsistent no_eval read_root false (codes "common.xml" ∷ []) parsed file_parsed

parse_message-IsFinished_example :
    (fs : List Field) × (declared (children heartbeat) ≡ ok fs)
    × IsFinished fs heartbeat_message
    × (heartbeat_message.extensions_start
        ≡ some (start_in fs (declared_start 0 none (children heartbeat))))
parse_message-IsFinished_example =
    parse_message-IsFinished common heartbeat heartbeat_message heartbeat_parsed
