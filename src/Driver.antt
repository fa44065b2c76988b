-- ===== src/Driver.antt =====
-- The driver of tools/mavgen/mavgen.py: Main after the options are parsed, GenerateOutput and
-- GenerateCppOutput. The run is the list of its effects on the file system, in order.
use vsm_cpp_sdk.Prelude.{Bool, Option, none, some, List, [], ◌∷◌, ◌++◌, ◌==◌, if◌then◌else◌}
use vsm_cpp_sdk.Text.{Text, codes, text_eq}
use vsm_cpp_sdk.Text.Int.{ℤ}
use vsm_cpp_sdk.Result.{Result, ok, err, raised, ◌>>=◌, ◌>>◌}
use vsm_cpp_sdk.Xml.{Element}
use vsm_cpp_sdk.Parse.{Opts, parse_input}
use vsm_cpp_sdk.Cpp.{generate_enums}
use vsm_cpp_sdk.Cpp.Messages.{generate_msgs_hdr}
use vsm_cpp_sdk.Cpp.Sources.{generate_msgs_impl}
use vsm_cpp_sdk.Lua.Fields.{generate_lua_output}
use vsm_cpp_sdk.Python.Messages.{generate_python_output}

-- The values of the command line options.
pub record Options : Type 0 where
  pub xml_def : List Text
  pub output_dir : Option Text
  pub schema : Option Text
  pub lang : Text
  pub merge_ext : Bool

-- What a run does to the file system.
pub data Effect : Type 0 where
  mkdir : Text → Effect
  write_file : Text → Text → Effect

-- What the program takes from outside: Python's evaluator, the XML parser, the schema validation of
-- minixsv, the iteration order of dicts, and the directories that exist.
pub record World : Type 0 where
  pub eval : Text → Result ℤ
  pub read_xml : Text → Result Element
  pub validate : Text → Text → Result (Unit {0})
  pub order : List Text → List Text
  pub exists : Text → Bool

-- os.path.join(a, b) for a relative b
unfoldable pub slash : Text → Text → Text
slash [] b = b
slash (c ∷ []) b = if c == b'/' then c ∷ b else c ∷ b'/' ∷ b
slash (c ∷ d ∷ s) b = c ∷ slash (d ∷ s) b

-- if not os.path.exists(dir): os.mkdir(dir)
unfoldable pub ensure_dir : (Text → Bool) → Text → List Effect
ensure_dir exists dir = if exists dir then [] else mkdir dir ∷ []

-- GenerateCppOutput
unfoldable pub generate_cpp_output : World → Opts → Text → List Effect
unfolding ensure_dir slash
generate_cpp_output w o output_dir =
    let include_dir = slash output_dir (codes "include") in
    let ugcs_dir = slash include_dir (codes "ugcs") in
    let headers_dir = slash ugcs_dir (codes "vsm") in
    ensure_dir w.exists include_dir
    ++ (ensure_dir w.exists ugcs_dir
        ++ (ensure_dir w.exists headers_dir
            ++ (write_file (slash headers_dir (codes "auto_mavlink_enums.h"))
                  (generate_enums w.order o)
                ∷ write_file (slash headers_dir (codes "auto_mavlink_messages.h"))
                    (generate_msgs_hdr w.order o)
                ∷ write_file (slash output_dir (codes "auto_mavlink_messages.cpp"))
                    (generate_msgs_impl w.order o)
                ∷ [])))

-- GenerateOutput by the language. A generator that raises leaves a part of its file, which is not
-- modelled: the run is the error.
unfoldable pub generate_lang : World → Opts → Text → Text → Result (List Effect)
unfolding slash
generate_lang w o output_dir lang =
    if text_eq lang (codes "C++")
    then ok (generate_cpp_output w o output_dir)
    else if text_eq lang (codes "Python")
    then ok (
        write_file (slash output_dir (codes "auto_mavlink.py")) (generate_python_output w.order o)
        ∷ [])
    else if text_eq lang (codes "Lua")
    then (do
      t ← generate_lua_output w.order o
      ok (write_file (slash output_dir (codes "auto_mavlink_dissector.lua")) t ∷ []))
    else err (raised (codes "Invalid language specified"))

unfoldable pub generate_output : World → Opts → Text → Text → Result (List Effect)
generate_output w o output_dir lang = do
  effects ← generate_lang w o output_dir lang
  ok (ensure_dir w.exists output_dir ++ effects)

-- ValidateInput: every file against the schema.
unfoldable pub validate_input : World → Text → List Text → Result (Unit {0})
validate_input w schema [] = ok tt
validate_input w schema (f ∷ fs) = do w.validate f schema; validate_input w schema fs

-- if opts.schema: an empty path is no schema
abbrev pub check_schema : World → Option Text → List Text → Result (Unit {0})
check_schema w none fs = ok tt
check_schema w (some []) fs = ok tt
check_schema w (some (c ∷ s)) fs = validate_input w (c ∷ s) fs

abbrev pub need_files : List Text → Result (Unit {0})
need_files [] = err (raised (codes "XML input files should be specified"))
need_files (f ∷ fs) = ok tt

abbrev pub need_dir : Option Text → Result Text
need_dir none = err (raised (codes "C++ output directory should be specified"))
need_dir (some d) = ok d

-- Main
unfoldable pub main : World → Options → Result (List Effect)
main w opts = do
  need_files opts.xml_def
  output_dir ← need_dir opts.output_dir
  check_schema w opts.schema opts.xml_def
  o ← parse_input w.eval w.read_xml opts.merge_ext opts.xml_def
  generate_output w o output_dir opts.lang
