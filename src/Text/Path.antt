-- ===== src/Text/Path.antt =====
-- The functions split, dirname, splitext, join, normpath and commonprefix of Python's os.path on POSIX.
use vsm_cpp_sdk.Prelude.{
  ℕ, Bool, true, not, ◌&&◌, Option, none, some, List, [], ◌∷◌, ◌++◌, ◌==◌, if◌then◌else◌,
}
use vsm_cpp_sdk.Text.{Text, codes, text_eq, join}
use vsm_cpp_sdk.Text.Find.{starts_with, ends_with, split_on, reverse_onto}

-- What stands before the last `c` of a text, and behind it.
unfoldable pub around_last : ℕ → Text → Option (Text × Text)
around_last c [] = none
around_last c (d ∷ s) = elim (around_last c s) [
  | some (before, behind) ↦ some (d ∷ before, behind)
  | none ↦ if d == c then some ([], s) else none
]

-- s.rstrip('/')
unfoldable pub drop_slashes : Text → Text
drop_slashes [] = []
drop_slashes (c ∷ s) = elim (drop_slashes s) [
  | [] ↦ if c == b'/' then [] else c ∷ []
  | d ∷ t ↦ c ∷ d ∷ t
]

-- The head of a path, without the slashes at its end if it has more than these.
abbrev pub head_of : Text → Text → Text
head_of head [] = head
head_of head (c ∷ s) = c ∷ s

unfoldable pub split_path : Text → Text × Text
unfolding around_last drop_slashes
split_path p = elim (around_last b'/' p) [
  | none ↦ ([], p)
  | some (before, behind) ↦
      let head = before ++ (b'/' ∷ []) in (head_of head (drop_slashes head), behind)
]

unfoldable pub dirname : Text → Text
unfolding split_path
dirname p = (split_path p).0

abbrev all_dots : Text → Bool
all_dots [] = true
all_dots (c ∷ s) = c == b'.' && all_dots s

-- The extension of a name without slashes, which does not begin at a leading dot.
unfoldable pub splitext_name : Text → Text × Text
unfolding around_last
splitext_name name = elim (around_last b'.' name) [
  | none ↦ (name, [])
  | some (before, behind) ↦ if all_dots before then (name, []) else (before, b'.' ∷ behind)
]

unfoldable pub splitext : Text → Text × Text
unfolding around_last splitext_name
splitext p = elim (around_last b'/' p) [
  | none ↦ splitext_name p
  | some (before, name) ↦ let (root, ext) = splitext_name name in (before ++ (b'/' ∷ root), ext)
]

abbrev pub with_slash : Text → Text
with_slash [] = []
with_slash (c ∷ s) = if ends_with (codes "/") (c ∷ s) then c ∷ s else c ∷ (s ++ codes "/")

unfoldable pub path_join : Text → Text → Text
unfolding starts_with ends_with
path_join a b = if starts_with (codes "/") b then b else with_slash a ++ b

unfoldable pub commonprefix : Text → Text → Text
commonprefix [] t = []
commonprefix (c ∷ s) [] = []
commonprefix (c ∷ s) (d ∷ t) = let rest = commonprefix s t in if c == d then c ∷ rest else []

abbrev is_up : Text → Bool
is_up p = text_eq p (codes "..")

abbrev is_stay : Text → Bool
is_stay [] = true
is_stay (c ∷ s) = text_eq (c ∷ s) (codes ".")

abbrev go_up : Bool → List Text → List Text
go_up absolute [] = if absolute then [] else codes ".." ∷ []
go_up absolute (p ∷ ps) = if is_up p then codes ".." ∷ p ∷ ps else ps

-- The components of a path without those that cancel, the last one first.
unfoldable pub components : Bool → List Text → List Text → List Text
unfolding text_eq
components absolute done [] = done
components absolute done (p ∷ ps) =
    let next = if is_stay p then done else if is_up p then go_up absolute done else p ∷ done in
    components absolute next ps

unfoldable pub slashes : Text → Text
unfolding starts_with
slashes p =
    if starts_with (codes "//") p && not (starts_with (codes "///") p)
    then codes "//"
    else if starts_with (codes "/") p
    then codes "/"
    else []

abbrev or_dot : Text → Text
or_dot [] = codes "."
or_dot (c ∷ s) = c ∷ s

unfoldable pub normpath : Text → Text
unfolding components slashes split_on join reverse_onto starts_with
normpath p = or_dot (
    slashes p
    ++ join (codes "/")
        (reverse_onto (components (starts_with (codes "/") p) [] (split_on b'/' p)) []))
