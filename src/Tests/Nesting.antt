-- ===== src/Tests/Nesting.antt =====
-- The theorems on the nesting of blocks in tools/cpplint.py at small inputs.
use vsm_cpp_sdk.Prelude.{Bool, ℕ, ◌≡◌, refl, true, some, List, [], ◌∷◌}
use vsm_cpp_sdk.Text.{Text, codes, is_word, is_digit, is_space}
use vsm_cpp_sdk.Text.Find.{reverse_onto}
use vsm_cpp_sdk.Text.Regex.{
  run, rounds, fewer, at_word_end, re_match, re_search, re_search_from, matches, found_in,
}
use vsm_cpp_sdk.Text.Regex.Syntax.{
  regex, regex_of, class_of, class_item, class_items, token, tokens, assemble,
}
use vsm_cpp_sdk.Lint.Lines.{CleansedLines, cleansed_lines}
use vsm_cpp_sdk.Lint.Nolint.{Report}
use vsm_cpp_sdk.Lint.Blocks.{Block, Here, new_class, check_end}
use vsm_cpp_sdk.Lint.Nesting.{NestingState, nesting_state, directive, seen_open_brace}
use vsm_cpp_sdk.Lint.Nesting.Template.{in_template_argument_list}
use vsm_cpp_sdk.Lint.Nesting.Rounds.{in_template_argument_list-some}
use vsm_cpp_sdk.Lint.Nesting.Update.{is_token, consume}
use vsm_cpp_sdk.Lint.Nesting.Braces.{
  Nested, done, other, semicolon, braces, text_of, consume-Nested,
}
use vsm_cpp_sdk.Lint.Nesting.Sections.{
  Sections, finished, plain, section, no_branch, branch, written, kept, after, stacks,
  update_here-sections,
}
use vsm_cpp_sdk.Lint.Nesting.Open.{IsOpen}
use vsm_cpp_sdk.Lint.Nesting.File.{update_lines, update-IsOpen_file}

-- A class with a branch for its head, in two namespaces.
abbrev header : List Text
header =
    codes "namespace a { namespace b {"
    ∷ codes "#ifdef X"
    ∷ codes "class C : public D {"
    ∷ codes "#else"
    ∷ codes "class C {"
    ∷ codes "#endif"
    ∷ codes " public:"
    ∷ codes "  void f() { if (x) { g(); } }"
    ∷ codes "private:"
    ∷ codes "  DISALLOW_COPY_AND_ASSIGN(C);"
    ∷ codes "  int x;"
    ∷ codes " };"
    ∷ codes "}  // namespace c"
    ∷ []

update-IsOpen_file_example :
    (clean_lines : CleansedLines) × (end : NestingState) × (reports : List Report) × (cleansed_lines
        header
      ≡ some clean_lines)
    × (update_lines clean_lines 13 0 nesting_state ≡ some (end, reports))
    × IsOpen 12 end
update-IsOpen_file_example = update-IsOpen_file header

-- All that the matcher computes with.
abbrev engine : ℕ
unfolding is_word is_digit is_space reverse_onto run rounds fewer at_word_end re_match re_search
    re_search_from regex regex_of class_of class_item class_items token tokens assemble matches
    found_in directive
engine = 0

abbrev line_at : ℕ → Text → Here
line_at n line = record { elided = header; linenum = n; line = line; raw_line = line }

abbrev swig : Sections
unfolding engine
swig =
    section (line_at 1 (codes "#ifdef X")) (line_at 5 (codes "#endif")) refl refl
      (plain (line_at 2 (codes "class C : public D {")) refl finished)
      (branch (line_at 3 (codes "#else")) refl (plain (line_at 4 (codes "class C {")) refl finished)
        no_branch)
      (plain (line_at 11 (codes " };")) refl finished)

update_here-sections_example :
    ((after (written swig) nesting_state).stack ≡ stacks (kept swig) nesting_state.stack)
    × ((after (written swig) nesting_state).pp_stack ≡ nesting_state.pp_stack)
update_here-sections_example = update_here-sections swig nesting_state

abbrev parameters : List Text
parameters = codes "template <class A" ∷ codes "  , class B>" ∷ []

in_template_argument_list-some_example :
    (b : Bool) × (in_template_argument_list parameters 0 17 ≡ some b)
in_template_argument_list-some_example = in_template_argument_list-some parameters 0 17

-- x;{y}
abbrev statements : Nested
unfolding is_token
statements = other b'x' refl (semicolon (braces (other b'y' refl done) done))

abbrev class_c : Block
class_c = new_class (codes "C") (codes "class") (line_at 2 (codes "class C {"))

consume-Nested_example :
    (consume (line_at 2 (codes "class C {")) [] (text_of statements []) [] ≡ ([], []))
    × (consume
          (line_at 2 (codes "class C {"))
          []
          (text_of (braces statements done) [])
          (class_c ∷ [])
        ≡ (
          [],
          check_end (line_at 2 (codes "class C {")) (record class_c { seen_open_brace = true }),
        ))
unfolding new_class seen_open_brace
consume-Nested_example =
    consume-Nested (line_at 2 (codes "class C {")) [] statements done class_c [] refl refl
