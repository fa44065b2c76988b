-- ===== src/Lint/Cleanse.antt =====
-- IsCppString and CleanseComments of tools/cpplint.py.
pub mod Cleansed
pub mod Line
use vsm_cpp_sdk.Prelude.{
  ℕ, zero, suc, ◌+◌, ◌-◌, ◌%◌, Bool, true, false, not, ◌&&◌, Option, none, some, List, [], ◌∷◌,
  ◌==◌, leb, drop, take, length, if◌then◌else◌,
}
use vsm_cpp_sdk.Text.{Text, codes, is_word}
use vsm_cpp_sdk.Text.Find.{starts_with, skip_spaces, replace, rstrip}

-- s.count(p) for a text `p` that is not empty, behind `k` characters that are counted already.
unfoldable pub count_from : ℕ → Text → Text → ℕ
count_from k p [] = 0
count_from (suc k) p (c ∷ s) = count_from k p s
count_from zero p (c ∷ s) = elim (starts_with p (c ∷ s)) [
  | true ↦ suc (count_from (length p - 1) p s)
  | false ↦ count_from 0 p s
]

-- IsCppString; the difference of the counts is taken modulo 2, so that no sign matters.
unfoldable pub is_cpp_string : Text → Bool
unfolding count_from replace
is_cpp_string line =
    let s = replace (codes "\\\\") (codes "XX") line in
    (count_from 0 (codes "\"") s + count_from 0 (codes "\\\"") s + count_from 0 (codes "'\"'") s)
      % 2
    == 1

-- What stands behind the first "*/" of a text.
unfoldable pub behind_end : Text → Option Text
unfolding starts_with
behind_end [] = none
behind_end (c ∷ s) = elim (starts_with (codes "*/") (c ∷ s)) [
  | true ↦ some (drop 1 s)
  | false ↦ behind_end s
]

-- _RE_PATTERN_C_COMMENTS at the front of a text, and what is behind it.
unfoldable pub behind_comment : Text → Option Text
unfolding behind_end starts_with
behind_comment s = if starts_with (codes "/*") s then behind_end (drop 2 s) else none

abbrev pub begins_word : Text → Bool
begins_word [] = false
begins_word (c ∷ s) = is_word c

-- What _RE_PATTERN_CLEANSE_LINE_C_COMMENTS leaves of a text that it matches at the front: a comment
-- that ends the line goes with the blanks on both sides; else one with the blanks behind it, or with
-- those in front of it if no word follows.
unfoldable pub match_comment : Text → Option Text
unfolding skip_spaces behind_comment
match_comment s =
    let t = skip_spaces s in
    elim (behind_comment t) [
      | none ↦ none
      | some r ↦
          if length (skip_spaces r) == 0
          then some []
          else if length t == length s
          then some (skip_spaces r)
          else if begins_word r
          then none
          else some r
    ]

-- Its sub('', line), behind `k` characters that are removed.
unfoldable pub remove_comments : ℕ → Text → Text
unfolding match_comment
remove_comments k [] = []
remove_comments (suc k) (c ∷ s) = remove_comments k s
remove_comments zero (c ∷ s) = elim (match_comment (c ∷ s)) [
  | some r ↦ remove_comments (length s - length r) s
  | none ↦ c ∷ remove_comments 0 s
]

-- What stands before the first "//".
unfoldable pub before_slashes : Text → Option Text
unfolding starts_with
before_slashes [] = none
before_slashes (c ∷ s) = elim (starts_with (codes "//") (c ∷ s)) [
  | true ↦ some []
  | false ↦ elim (before_slashes s) [ none ↦ none | some t ↦ some (c ∷ t) ]
]

-- CleanseComments
unfoldable pub cleanse_comments : Text → Text
unfolding before_slashes is_cpp_string remove_comments rstrip
cleanse_comments line = remove_comments 0 (elim (before_slashes line) [
  | none ↦ line
  | some code ↦ if is_cpp_string code then line else rstrip code
])
