-- ===== src/Tests/Lines.antt =====
-- The theorems on the cleansing of lines in tools/cpplint.py at small inputs.
use vsm_cpp_sdk.Prelude.{map, length, ℕ, ◌≡◌, refl, true, false, some, List, [], ◌∷◌}
use vsm_cpp_sdk.Text.{Text, codes, is_word, is_digit, is_space}
use vsm_cpp_sdk.Text.Find.{
  starts_with, lstrip, rstrip, is_blank, skip_spaces, replace, replace_from,
}
use vsm_cpp_sdk.Lint.Nolint.Global.{search_word}
use vsm_cpp_sdk.Lint.Strings.{
  collapse_strings, is_include_line, remove_escapes, escape_length, collapse_from, collapse_round,
  split_quote, collapse_quote, quoted, behind, ends_number, number_at, literal, run_length, is_hex,
}
use vsm_cpp_sdk.Lint.Strings.Collapsed.{Collapsed, collapse_strings-Collapsed}
use vsm_cpp_sdk.Lint.Cleanse.{
  cleanse_comments, before_slashes, is_cpp_string, count_from, remove_comments, match_comment,
  behind_comment, behind_end,
}
use vsm_cpp_sdk.Lint.Cleanse.Cleansed.{Cleansed}
use vsm_cpp_sdk.Lint.Cleanse.Line.{Cut, cleanse_comments-Cleansed}
use vsm_cpp_sdk.Lint.Lines.{
  CleansedLines, cleansed_lines, cleanse_raw_strings, raw_over, raw_line, raw_from, raw_round,
  raw_found, search_raw, raw_at, behind_prefix, raw_delimiter, is_commented, reaches_comment,
  advance, behind_text,
}
use vsm_cpp_sdk.Lint.Lines.Aligned.{Elided, cleansed_lines-Elided}

-- _CollapseStrings of x = "a//b" + 1'000 + '"';
abbrev string_line : Text
string_line = codes "x = \"a//b\" + 1'000 + '\"';"

abbrev string_runs : ℕ
unfolding collapse_strings is_include_line remove_escapes escape_length collapse_from collapse_round
    split_quote collapse_quote quoted behind ends_number search_word number_at literal is_word
    is_digit is_space skip_spaces starts_with run_length is_hex
string_runs = 0

string_line_run : collapse_strings string_line ≡ some (codes "x = \"\" + 1000 + '';")
unfolding string_runs is_space
string_line_run = refl

collapse_strings-Collapsed_example :
    (out : Text) × (collapse_strings string_line ≡ some out)
    × ((is_include_line string_line ≡ true → out ≡ string_line)
        × (is_include_line string_line ≡ false → Collapsed (remove_escapes 0 string_line) out))
collapse_strings-Collapsed_example = collapse_strings-Collapsed string_line

-- CleanseComments of a = b /* c */ + d; // e
abbrev comment_line : Text
comment_line = codes "a = b /* c */ + d; // e"

comment_line_run : cleanse_comments comment_line ≡ codes "a = b + d;"
unfolding cleanse_comments before_slashes is_cpp_string count_from replace replace_from
    remove_comments match_comment behind_comment behind_end string_runs is_space is_blank lstrip
    rstrip
comment_line_run = refl

cleanse_comments-Cleansed_example :
    (code : Text) × Cut comment_line code × Cleansed code (cleanse_comments comment_line)
cleanse_comments-Cleansed_example = cleanse_comments-Cleansed comment_line

-- A file with a raw string over three lines
abbrev raw_file : List Text
raw_file = codes "x = R\"(a" ∷ codes "b" ∷ codes ")\"; // c" ∷ []

abbrev raw_runs : ℕ
unfolding cleanse_raw_strings raw_over raw_line raw_from raw_round raw_found search_raw raw_at
    behind_prefix raw_delimiter is_commented reaches_comment advance behind_text string_runs
    is_space
raw_runs = 0

raw_file_run :
    cleanse_raw_strings raw_file ≡ some (codes "x = \"\"" ∷ codes "\"\"" ∷ codes "\"\"; // c" ∷ [])
unfolding raw_runs is_space
raw_file_run = refl

cleansed_lines-Elided_example :
    (c : CleansedLines) × (cleansed_lines raw_file ≡ some c)
    × (c.raw_lines ≡ raw_file)
    × (cleanse_raw_strings raw_file ≡ some c.lines_without_raw_strings)
    × (c.lines ≡ map cleanse_comments c.lines_without_raw_strings)
    × Elided c.lines_without_raw_strings c.elided
    × (c.num_lines ≡ 3)
    × (length c.lines_without_raw_strings ≡ 3)
    × (length c.lines ≡ 3)
    × (length c.elided ≡ 3)
cleansed_lines-Elided_example = cleansed_lines-Elided raw_file
