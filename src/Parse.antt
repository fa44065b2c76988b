-- ===== src/Parse.antt =====
-- The functions ParseEnumEntry to ParseInput of tools/mavgen/mavgen.py: from XML to the objects.
-- `eval` is Python's evaluator on the value attribute of an enum entry, `read_xml` is ET.parse with
-- getroot on a path. The global `opts` is a record that the functions take and return.
pub mod Enums
pub mod Input
pub mod EnumState
pub mod MessageState
pub mod Sorting
pub mod Loop
pub mod Finish
pub mod Declared
use vsm_cpp_sdk.Prelude.{
  ℕ, ◌+◌, ◌*◌, Option, none, some, List, [], ◌∷◌, ◌++◌, Bool, leb, length, take, drop,
  if◌then◌else◌,
}
use vsm_cpp_sdk.Text.{Text, codes, text_eq}
use vsm_cpp_sdk.Text.Int.{ℤ, read_int}
use vsm_cpp_sdk.Result.{Result, ok, err, raised, value_error, ◌>>=◌, fold}
use vsm_cpp_sdk.Dict.{Dict, get, put}
use vsm_cpp_sdk.Xml.{Element, tag, attrib, text_of, children, attr, attr?, find}
use vsm_cpp_sdk.Types.{get_size, get_count}
use vsm_cpp_sdk.Model.{
  MlFile, ml_file, qualified_name, Entry, entry, add_parameter, MlEnum, ml_enum, add_entry, merge,
}
use vsm_cpp_sdk.Message.{MlMessage, Field, ml_message, add_field, calculate_crc}

-- int(text)
unfoldable pub int : Text → Result ℤ
int s = elim (read_int s) [ none ↦ err value_error | some n ↦ ok n ]

unfoldable pub entry_child : Entry → Element → Result Entry
entry_child x e =
    if text_eq (tag e) (codes "description")
    then ok (record x { description = text_of e })
    else if text_eq (tag e) (codes "param")
    then (do i ← attr (codes "index") (attrib e); n ← int i; add_parameter x n (text_of e))
    else ok x

module _ (eval : Text → Result ℤ) where
  abbrev value_of : Option Text → Result (Option ℤ)
  value_of none = ok none
  value_of (some v) = do n ← eval v; ok (some n)

  unfoldable pub parse_enum_entry : Element → Result Entry
  parse_enum_entry e_entry = do
    name ← attr (codes "name") (attrib e_entry)
    value ← value_of (attr? (codes "value") (attrib e_entry))
    fold entry_child (entry name value) (children e_entry)

  unfoldable pub enum_child : MlEnum → Element → Result MlEnum
  enum_child m e =
      if text_eq (tag e) (codes "description")
      then ok (record m { description = text_of e })
      else if text_eq (tag e) (codes "entry")
      then (do x ← parse_enum_entry e; add_entry m x)
      else ok m

  unfoldable pub parse_enum : MlFile → Element → Result MlEnum
  parse_enum file e_enum = do
    name ← attr (codes "name") (attrib e_enum)
    fold enum_child (ml_enum file name) (children e_enum)

-- What `opts.files` holds for a path: the file and its list of messages.
pub record FileEntry : Type 0 where
  pub file : MlFile
  pub messages : List MlMessage

-- The part of `opts` that the parser reads and writes.
pub record Opts : Type 0 where
  pub merge_ext : Bool
  pub enums : Dict MlEnum
  pub messages : Dict MlMessage
  pub files : Dict FileEntry

-- An enum of a known name is merged into the object that is there, any other one is added.
unfoldable pub add_enum : Opts → MlEnum → Result Opts
add_enum o m =
    let name = qualified_name o.merge_ext m.file m.name in
    elim (get name o.enums) [
      | none ↦ ok (record o { enums = put name m o.enums })
      | some old ↦ (do new ← merge old m; ok (record o { enums = put name new o.enums }))
    ]

unfoldable pub enum_element : (Text → Result ℤ) → MlFile → Opts → Element → Result Opts
enum_element eval file o e_enum =
    if text_eq (tag e_enum) (codes "enum")
    then (do m ← parse_enum eval file e_enum; add_enum o m)
    else ok o

unfoldable pub parse_enums : (Text → Result ℤ) → MlFile → Opts → Element → Result Opts
parse_enums eval file o e_enums = fold (enum_element eval file) o (children e_enums)

unfoldable pub message_child : MlMessage → Element → Result MlMessage
message_child m e =
    if text_eq (tag e) (codes "description")
    then ok (record m { description = text_of e })
    else if text_eq (tag e) (codes "field")
    then (do
      name ← attr (codes "name") (attrib e)
      type_text ← attr (codes "type") (attrib e)
      add_field m name type_text (text_of e))
    else if text_eq (tag e) (codes "extensions")
    then ok (record m { extensions_start = some (length m.fields) })
    else ok m

-- sorted(fields, key = size of the type, reverse = True): larger types first, and Python keeps the
-- order of fields whose types have one size.
unfoldable pub insert_field : Field → List Field → List Field
insert_field f [] = f ∷ []
insert_field f (g ∷ gs) =
    if leb (get_size g.type) (get_size f.type) then f ∷ g ∷ gs else g ∷ insert_field f gs

unfoldable pub sort_fields : List Field → List Field
unfolding insert_field
sort_fields [] = []
sort_fields (f ∷ fs) = insert_field f (sort_fields fs)

abbrev pub start_of : MlMessage → ℕ
start_of m = elim m.extensions_start [ none ↦ length m.fields | some n ↦ n ]

-- The slice assignment: the base fields sorted, the extension fields where they are.
unfoldable pub sort_base : MlMessage → MlMessage
unfolding sort_fields
sort_base m =
    let start = start_of m in
    record m {
      fields = sort_fields (take start m.fields) ++ drop start m.fields;
      extensions_start = some start;
    }

-- The sum of the sizes of fields.
unfoldable pub wire_size : ℕ → List Field → ℕ
wire_size n [] = n
wire_size n (f ∷ fs) = wire_size (n + get_size f.type * get_count f.type) fs

-- What follows the loop over the children in ParseMessage.
unfoldable pub finish_message : MlMessage → Result MlMessage
unfolding sort_base wire_size
finish_message m =
    let m = sort_base m in calculate_crc (record m { len_v2 = wire_size m.len_v2 m.fields })

unfoldable pub parse_message : MlFile → Element → Result MlMessage
parse_message file e_msg = do
  name ← attr (codes "name") (attrib e_msg)
  id_text ← attr (codes "id") (attrib e_msg)
  id ← int id_text
  m ← fold message_child (ml_message file name id) (children e_msg)
  finish_message m

-- The message has entered the list of its file by the constructor of MlMessage.
unfoldable pub add_message : Opts → List MlMessage → MlMessage → Result (Opts × List MlMessage)
add_message o ms m =
    let name = qualified_name o.merge_ext m.file m.name in
    elim (get name o.messages) [
      | none ↦ ok (record o { messages = put name m o.messages }, ms ++ (m ∷ []))
      | some _ ↦ err (raised (codes "Conflicting message name: " ++ name))
    ]

unfoldable pub message_element :
    MlFile → Opts × List MlMessage → Element → Result (Opts × List MlMessage)
message_element file (o, ms) e_msg =
    if text_eq (tag e_msg) (codes "message")
    then (do m ← parse_message file e_msg; add_message o ms m)
    else ok (o, ms)

unfoldable pub parse_messages : MlFile → Opts → Element → Result (Opts × List MlMessage)
parse_messages file o e_messages = fold (message_element file) (o, []) (children e_messages)

abbrev pub file_enums : (Text → Result ℤ) → MlFile → Opts → Option Element → Result Opts
file_enums eval file o none = ok o
file_enums eval file o (some e) = parse_enums eval file o e

abbrev pub file_messages : MlFile → Opts → Option Element → Result (Opts × List MlMessage)
file_messages file o none = ok (o, [])
file_messages file o (some e) = parse_messages file o e

-- The object in `opts.files` with the messages that were added to it.
abbrev pub filed : Text → MlFile → Opts × List MlMessage → Opts
filed xml_file file (o, ms) = record o {
  files = put xml_file (record { file = file; messages = ms }) o.files;
}

-- The sections of one file: the enums, then the messages.
unfoldable pub parse_root : (Text → Result ℤ) → Text → MlFile → Opts → Element → Result Opts
parse_root eval xml_file file o root = do
  o ← file_enums eval file o (find (codes "enums") (children root))
  s ← file_messages file o (find (codes "messages") (children root))
  ok (filed xml_file file s)

module _ (eval : Text → Result ℤ) (read_xml : Text → Result Element) where
  -- One round of the loop of ParseInput. The entry of `opts.files` is the object to which the
  -- messages are added; it is written before and after them.
  unfoldable pub parse_file : Opts → Text → Result Opts
  parse_file o xml_file = elim (get xml_file o.files) [
    | some _ ↦ err (raised (codes "File already specfied: " ++ xml_file))
    | none ↦ (do
      let file = ml_file xml_file
      root ← read_xml xml_file
      parse_root eval xml_file file (filed xml_file file (o, [])) root)
  ]

  unfoldable pub parse_input : Bool → List Text → Result Opts
  parse_input merge_ext xml_def =
      fold parse_file (record { merge_ext = merge_ext; enums = []; messages = []; files = [] })
        xml_def
