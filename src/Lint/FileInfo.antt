-- ===== src/Lint/FileInfo.antt =====
-- The class FileInfo of tools/cpplint.py: the parts of a file's path from the top of its repository.
pub mod Climb
use vsm_cpp_sdk.Prelude.{
  ℕ, zero, suc, ◌+◌, Bool, true, false, ◌||◌, Option, none, some, ◌∷◌, ◌++◌, length, drop,
  if◌then◌else◌,
}
use vsm_cpp_sdk.Text.{Text, codes, text_eq}
use vsm_cpp_sdk.Text.Find.{◌>>=◌, replace}
use vsm_cpp_sdk.Text.Path.{split_path, dirname, splitext, path_join, commonprefix}

-- The file system: os.path.abspath and os.path.exists.
pub record Paths : Type 0 where
  pub abspath : Text → Text
  pub exists : Text → Bool

-- os.path.exists(os.path.join(dir, name))
unfoldable pub has : Paths → Text → Text → Bool
unfolding path_join
has files name dir = files.exists (path_join dir name)

-- FullName
unfoldable pub full_name : Paths → Text → Text
unfolding replace
full_name files filename = replace (codes "\\") (codes "/") (files.abspath filename)

-- The loop up a checkout of SVN, with fuel: the directory that it ends at.
unfoldable pub svn_root : Paths → ℕ → Text → Text → Option Text
unfolding has dirname
svn_root files zero root_dir one_up_dir = none
svn_root files (suc f) root_dir one_up_dir = elim (has files (codes ".svn") one_up_dir) [
  | false ↦ some root_dir
  | true ↦ svn_root files f (dirname root_dir) (dirname one_up_dir)
]

unfoldable pub is_root : Paths → Text → Bool
unfolding has
is_root files dir =
    has files (codes ".git") dir || has files (codes ".hg") dir || has files (codes ".svn") dir

-- The loop up to the last directory, with fuel: the highest one that is the top of a checkout.
unfoldable pub top_root : Paths → ℕ → Text → Text → Option Text
unfolding is_root dirname text_eq
top_root files zero root_dir current_dir = none
top_root files (suc f) root_dir current_dir = elim (text_eq current_dir (dirname current_dir)) [
  | true ↦ some root_dir
  | false ↦
      top_root files f (if is_root files current_dir then current_dir else root_dir)
        (dirname current_dir)
]

-- fullname[len(os.path.commonprefix([root_dir, project_dir])) + 1:]
unfoldable pub below_root : Text → Text → Text → Text
unfolding commonprefix
below_root fullname project_dir root_dir =
    drop (length (commonprefix root_dir project_dir) + 1) fullname

-- RepositoryName; `none` is a loop that does not end
unfoldable pub repository_name : Paths → Text → Option Text
unfolding full_name has svn_root top_root is_root below_root
repository_name files filename =
    let fullname = full_name files filename in
    let project_dir = dirname fullname in
    let fuel = suc (suc (length fullname)) in
    elim (files.exists fullname) [
      | false ↦ some fullname
      | true ↦ elim (has files (codes ".svn") project_dir) [
        | true ↦ do
          root_dir ← svn_root files fuel project_dir (dirname project_dir)
          some (below_root fullname project_dir root_dir)
        | false ↦ do
          root_dir ← top_root files fuel project_dir project_dir
          some (
              if is_root files root_dir then below_root fullname project_dir root_dir else fullname)
      ]
    ]

-- Split
unfoldable pub split_name : Text → Text × Text × Text
unfolding split_path splitext
split_name googlename =
    let (project, rest) = split_path googlename in
    let (name, ext) = splitext rest in (project, name, ext)

-- BaseName and Extension, of the name that RepositoryName gives
unfoldable pub base_name : Text → Text
unfolding split_name
base_name googlename = (split_name googlename).1

unfoldable pub extension : Text → Text
unfolding split_name
extension googlename = (split_name googlename).2

-- NoExtension
unfoldable pub no_extension : Text → Text
unfolding split_name
no_extension googlename =
    let (project, name, ext) = split_name googlename in project ++ (b'/' ∷ name)
