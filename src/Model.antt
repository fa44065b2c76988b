-- ===== src/Model.antt =====
-- The classes MlFile and MlEnum of tools/mavgen/mavgen.py.

use vsm_cpp_sdk.Prelude.{
  ◌-◌, Option, none, some, List, [], ◌∷◌, ◌++◌, Bool, true, false, ltb, ◌==◌, ◌&&◌, if◌then◌else◌,
  length, take, drop,
}
use vsm_cpp_sdk.Text.{Text, codes, text_eq}
use vsm_cpp_sdk.Text.Int.{ℤ, show_int}
use vsm_cpp_sdk.Result.{Result, ok, err, raised, fold}
use vsm_cpp_sdk.Dict.{Dict, get, put}

-- FilterName with the map namesFilter.
unfoldable pub filter_name : Text → Text
filter_name name = if text_eq name (codes "DEBUG") then codes "DEBUG_VALUE" else name

-- What the other objects read of an MlFile. Its lists of objects stand beside it in `FileEntry` of
-- Parse; the list of enums is written and never read by the program, and is left out.
pub record MlFile : Type 0 where
  pub path : Text
  pub name : Text
  pub namespace : Option Text

-- os.path.basename: what follows the last slash.
base : Text → Text → Text
base acc [] = acc
base acc (c ∷ s) = if c == b'/' then base [] s else base (acc ++ (c ∷ [])) s

unfoldable pub basename : Text → Text
unfolding base
basename path = base [] path

-- The name without its last four bytes, where these are '.xml'.
unfoldable pub strip_xml : Text → Text
strip_xml name =
    let n = length name in
    if ltb 4 n && text_eq (drop (n - 4) name) (codes ".xml") then take (n - 4) name else name

-- The map namespaceMap, the global namespace of 'common', and the name itself for the others.
unfoldable pub namespace_of : Text → Option Text
namespace_of name =
    if text_eq name (codes "ardupilotmega")
    then some (codes "apm")
    else if text_eq name (codes "sphengineering")
    then some (codes "sph")
    else if text_eq name (codes "common")
    then none
    else some name

-- MlFile.__init__
unfoldable pub ml_file : Text → MlFile
unfolding basename strip_xml namespace_of
ml_file path =
    let name = strip_xml (basename path) in
    record { path = path; name = name; namespace = namespace_of name }

-- GetQualifiedName of MlEnum and of MlMessage.
unfoldable pub qualified_name : Bool → MlFile → Text → Text
qualified_name merge_ext file name =
    if merge_ext
    then name
    else elim file.namespace [ none ↦ name | some ns ↦ ns ++ (codes "::" ++ name) ]

-- MlEnum.Entry, its parameters as pairs in the order in which their indices came in.
pub record Entry : Type 0 where
  pub name : Text
  pub value : Option ℤ
  pub description : Option Text
  pub params : List (ℤ × Option Text)

-- MlEnum.Entry.__init__
unfoldable pub entry : Text → Option ℤ → Entry
unfolding filter_name
entry name value = record {
  name = filter_name name;
  value = value;
  description = none;
  params = [];
}

abbrev pub int_eq : ℤ → ℤ → Bool
int_eq (ℤ.pos a) (ℤ.pos b) = a == b
int_eq (ℤ.pos a) (ℤ.negsuc b) = false
int_eq (ℤ.negsuc a) (ℤ.pos b) = false
int_eq (ℤ.negsuc a) (ℤ.negsuc b) = a == b

-- index in self.params
unfoldable pub has_param : ℤ → List (ℤ × Option Text) → Bool
has_param i [] = false
has_param i ((j, d) ∷ ps) = if int_eq j i then true else has_param i ps

-- MlEnum.Entry.AddParameter
unfoldable pub add_parameter : Entry → ℤ → Option Text → Result Entry
add_parameter e i description =
    if has_param i e.params
    then err
        (raised (codes "Duplicated index " ++ (show_int i ++ (codes " in enum entry " ++ e.name))))
    else ok (record e { params = e.params ++ ((i, description) ∷ []) })

pub record MlEnum : Type 0 where
  pub file : MlFile
  pub name : Text
  pub description : Option Text
  pub entries : List Entry
  pub entries_names : Dict Entry

-- MlEnum.__init__
unfoldable pub ml_enum : MlFile → Text → MlEnum
unfolding filter_name
ml_enum file name = record {
  file = file;
  name = filter_name name;
  description = none;
  entries = [];
  entries_names = [];
}

-- MlEnum.AddEntry
unfoldable pub add_entry : MlEnum → Entry → Result MlEnum
add_entry m e = elim (get e.name m.entries_names) [
  | none ↦
      ok
        (record m { entries = m.entries ++ (e ∷ []); entries_names = put e.name e m.entries_names })
  | some _ ↦ err (
      raised (
        codes "Conflicting enum entry name: "
        ++ (e.name ++ (codes " (enum " ++ (m.name ++ codes ")")))))
]

-- MlEnum.Merge
unfoldable pub merge : MlEnum → MlEnum → Result MlEnum
merge m other = fold add_entry m other.entries
