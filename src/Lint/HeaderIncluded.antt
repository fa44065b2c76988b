-- ===== src/Lint/HeaderIncluded.antt =====
-- CheckHeaderFileIncluded of tools/cpplint.py.
use vsm_cpp_sdk.Prelude.{
  ℕ, ◌-◌, true, false, ◌||◌, Option, none, some, List, [], ◌∷◌, ◌++◌, ◌==◌, length, take,
  if◌then◌else◌,
}
use vsm_cpp_sdk.Text.{Text, codes, cat}
use vsm_cpp_sdk.Text.Find.{◌>>=◌, has_text}
use vsm_cpp_sdk.Text.Regex.{found_in}
use vsm_cpp_sdk.Text.Regex.Syntax.{regex}
use vsm_cpp_sdk.Lint.Nolint.{Report}
use vsm_cpp_sdk.Lint.Reports.{report}
use vsm_cpp_sdk.Lint.FileInfo.{Paths, repository_name, base_name, extension}

-- The loops of CheckHeaderFileIncluded: `none` if the header is included, or else the line of the
-- first include whose number is not 0.
unfoldable pub included_in : Text → ℕ → List (Text × ℕ) → Option ℕ
unfolding has_text
included_in headername first_include [] = some first_include
included_in headername first_include ((f, n) ∷ fs) =
    let rest = included_in headername (if first_include == 0 then n else first_include) fs in
    if has_text headername f || has_text f headername then none else rest

unfoldable pub included_in_lists : Text → ℕ → List (List (Text × ℕ)) → Option ℕ
unfolding included_in
included_in_lists headername first_include [] = some first_include
included_in_lists headername first_include (fs ∷ rest) = do
  first ← included_in headername first_include fs
  included_in_lists headername first rest

abbrev header_report : Text → Text → Option ℕ → List Report
header_report name headername none = []
header_report name headername (some first_include) =
    report first_include (codes "build/include") 5
      (cat (name ∷ codes " should include its header file " ∷ headername ∷ []))
    ∷ []

-- CheckHeaderFileIncluded; `none` is a RepositoryName that does not return
unfoldable pub check_header_file_included :
    Paths → Text → List (List (Text × ℕ)) → Option (List Report)
unfolding repository_name base_name extension found_in regex included_in_lists
check_header_file_included files filename include_list = do
  name ← repository_name files filename
  elim (found_in (regex "(_test|_unittest|_regtest)$") (base_name name)) [
    | true ↦ some []
    | false ↦
        let headerfile = take (length filename - length (extension name)) filename ++ codes ".h" in
        elim (files.exists headerfile) [
          | false ↦ some []
          | true ↦ do
            headername ← repository_name files headerfile
            some (header_report name headername (included_in_lists headername 0 include_list))
        ]
  ]
