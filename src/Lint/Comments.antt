-- ===== src/Lint/Comments.antt =====
-- The removal of comments over several lines in tools/cpplint.py: FindNextMultiLineCommentStart to
-- RemoveMultiLineComments. The list of lines, which the code changes in place, is returned.
pub mod Removed
pub mod Whole
use vsm_cpp_sdk.Prelude.{
  ℕ, zero, suc, ◌+◌, ◌-◌, Bool, true, false, not, ◌&&◌, List, [], ◌∷◌, ◌++◌, leb, ltb, length, take,
  drop, if◌then◌else◌,
}
use vsm_cpp_sdk.Text.{Text, codes}
use vsm_cpp_sdk.Text.Find.{starts_with, ends_with, has_text, strip}
use vsm_cpp_sdk.Lint.Nolint.{Report}

-- A line that begins a comment which goes beyond it.
unfoldable pub begins_comment : Text → Bool
unfolding starts_with has_text strip
begins_comment line =
    let s = strip line in starts_with (codes "/*") s && not (has_text (codes "*/") (drop 2 s))

unfoldable pub ends_comment : Text → Bool
unfolding ends_with strip
ends_comment line = ends_with (codes "*/") (strip line)

-- The first line from the number `n` on that passes a test, or the number of lines; `ls` are the
-- lines from `n` on.
unfoldable pub next_line : (Text → Bool) → ℕ → List Text → ℕ
next_line test n [] = n
next_line test n (l ∷ ls) = let rest = next_line test (suc n) ls in if test l then n else rest

-- FindNextMultiLineCommentStart and FindNextMultiLineCommentEnd
unfoldable pub next_comment_start : List Text → ℕ → ℕ
next_comment_start lines lineix = next_line begins_comment lineix (drop lineix lines)

unfoldable pub next_comment_end : List Text → ℕ → ℕ
next_comment_end lines lineix = next_line ends_comment lineix (drop lineix lines)

abbrev pub dummy : Text
dummy = codes "/**/"

unfoldable pub clear_lines : ℕ → List Text → List Text
clear_lines zero ls = ls
clear_lines (suc n) [] = []
clear_lines (suc n) (l ∷ ls) = dummy ∷ clear_lines n ls

-- RemoveMultiLineCommentsFromRange
unfoldable pub clear_range : List Text → ℕ → ℕ → List Text
clear_range lines from to = take from lines ++ clear_lines (to - from) (drop from lines)

abbrev pub unclosed_report : ℕ → Report
unclosed_report lineix = record {
  linenum = lineix + 1;
  category = codes "readability/multiline_comment";
  confidence = 5;
  message = codes "Could not find end of multi-line comment";
}

-- The loop of RemoveMultiLineComments, with the rounds that are left as fuel.
unfoldable pub remove_from : ℕ → List Text → ℕ → List Text × List Report
remove_from zero lines lineix = (lines, [])
remove_from (suc f) lines lineix =
    let lineix_begin = next_comment_start lines lineix in
    let lineix_end = next_comment_end lines lineix_begin in
    let rest = remove_from f (clear_range lines lineix_begin (lineix_end + 1)) (lineix_end + 1) in
    if leb (length lines) lineix
    then (lines, [])
    else if leb (length lines) lineix_begin
    then (lines, [])
    else if leb (length lines) lineix_end
    then (lines, unclosed_report lineix_begin ∷ [])
    else rest

-- RemoveMultiLineComments; each round passes a line at least.
unfoldable pub remove_multi_line_comments : List Text → List Text × List Report
remove_multi_line_comments lines = remove_from (suc (length lines)) lines 0
