-- ===== src/Lint/StyleChecks.antt =====
-- Checks of tools/cpplint.py on blank lines and namespaces: IsBlankLine, GetPreviousNonBlankLine,
-- CheckSectionSpacing, IsBlockInNameSpace, ShouldCheckNamespaceIndentation and
-- CheckItemIndentationInNamespace; and CheckMakePairUsesDeduction and CheckPrintf. The number of a line
-- is one of the file.
pub mod Previous
use vsm_cpp_sdk.Prelude.{
  ℕ, zero, suc, ◌+◌, ◌-◌, Bool, true, false, not, ◌&&◌, ◌||◌, Option, none, some, List, [], ◌∷◌,
  ◌++◌, ◌==◌, leb, ltb, length, take, drop, if◌then◌else◌,
}
use vsm_cpp_sdk.Text.{Text, codes, text_eq, cat}
use vsm_cpp_sdk.Text.Find.{at, ◌>>=◌, reverse_onto, has_text, is_blank}
use vsm_cpp_sdk.Text.Regex.{re_match, re_search, found_in, matches, group_text, MatchObject}
use vsm_cpp_sdk.Text.Regex.Syntax.{regex}
use vsm_cpp_sdk.Lint.Nolint.{Report}
use vsm_cpp_sdk.Lint.Reports.{report, report_if}
use vsm_cpp_sdk.Lint.Brackets.{Place, close_expression}
use vsm_cpp_sdk.Lint.FileInfo.{Paths, repository_name, base_name, extension}
use vsm_cpp_sdk.Lint.Blocks.{Block, ClassInfo}
use vsm_cpp_sdk.Lint.Nesting.{is_macro_definition, is_forward_class_declaration, is_namespace}

-- IsBlankLine
unfoldable pub is_blank_line : Text → Bool
unfolding is_blank
is_blank_line [] = true
is_blank_line (c ∷ s) = is_blank c && is_blank_line s

-- The loop of GetPreviousNonBlankLine over the lines before a line, the nearest one first; the number
-- of a line is that of the lines behind it in the list.
unfoldable pub previous_from : List Text → Option (Text × ℕ)
unfolding is_blank_line
previous_from [] = none
previous_from (l ∷ ls) = if is_blank_line l then previous_from ls else some (l, length ls)

-- GetPreviousNonBlankLine of the number of a line of the file; `none` is ('', -1)
unfoldable pub get_previous_non_blank_line : List Text → ℕ → Option (Text × ℕ)
unfolding previous_from reverse_onto
get_previous_non_blank_line elided linenum = previous_from (reverse_onto (take linenum elided) [])

-- The line that ends the head of a class, among the lines from the number `i` on, or `start`.
unfoldable pub class_head_end : ℕ → ℕ → List Text → ℕ
unfolding found_in regex
class_head_end start i [] = start
class_head_end start i (l ∷ ls) =
    if found_in (regex "\\{\\s*$") l then i else class_head_end start (suc i) ls

abbrev needs_blank : Text → Bool
needs_blank l =
    not (is_blank_line l)
    && (not (found_in (regex "\\b(class|struct)\\b") l) && not (found_in (regex "\\\\$") l))

-- CheckSectionSpacing, on the cleansed lines, for a class that begins at `starting_linenum`
unfoldable pub check_section_spacing : List Text → ClassInfo → ℕ → ℕ → Option (List Report)
unfolding re_match regex group_text is_blank_line found_in class_head_end
check_section_spacing lines c starting_linenum linenum =
    if leb (c.last_line - starting_linenum) 24 || leb linenum starting_linenum then some [] else (do
      line ← at lines linenum
      prev_line ← at lines (linenum - 1)
      elim (re_match (regex "\\s*(public|protected|private):") line) [
        | none ↦ some []
        | some m ↦
            let end_class_head =
              class_head_end starting_linenum starting_linenum
                (take (linenum - starting_linenum) (drop starting_linenum lines)) in
            some (
              report_if (needs_blank prev_line && ltb end_class_head (linenum - 1)) (
                report linenum (codes "whitespace/blank_line") 3 (
                  cat (
                    codes "\""
                    ∷ group_text m 1
                    ∷ codes ":\" should be preceded by a blank line"
                    ∷ []))))
      ])

-- IsBlockInNameSpace
unfoldable pub is_block_in_name_space : List Block → Bool → Bool
is_block_in_name_space [] is_forward_declaration = false
is_block_in_name_space (b ∷ []) is_forward_declaration =
    is_forward_declaration && is_namespace b.kind
is_block_in_name_space (b ∷ c ∷ bs) is_forward_declaration =
    if is_forward_declaration
    then is_namespace b.kind
    else b.check_namespace_indentation && is_namespace c.kind

-- ShouldCheckNamespaceIndentation; `none` is an IndexError
unfoldable pub should_check_namespace_indentation : List Block → Bool → List Text → ℕ → Option Bool
unfolding is_forward_class_declaration is_macro_definition is_block_in_name_space
should_check_namespace_indentation stack is_namespace_indent_item raw_lines_no_comments linenum = do
  is_forward_declaration ← is_forward_class_declaration raw_lines_no_comments linenum
  is_macro ← is_macro_definition raw_lines_no_comments linenum
  some (
      (is_namespace_indent_item || is_forward_declaration)
      && (not is_macro && is_block_in_name_space stack is_forward_declaration))

-- CheckItemIndentationInNamespace
unfoldable pub check_item_indentation : Text → ℕ → List Report
unfolding matches regex
check_item_indentation line linenum = report_if (matches (regex "^\\s+") line) (
    report linenum (codes "runtime/indentation_namespace") 4
      (codes "Do not indent within a namespace"))

-- CheckMakePairUsesDeduction
unfoldable pub check_make_pair : ℕ → Text → List Report
unfolding found_in regex
check_make_pair linenum line = report_if (found_in (regex "\\bmake_pair\\s*<") line) (
    report linenum (codes "build/explicit_make_pair") 4 (
      cat (
        codes "For C++11-compatibility, omit template arguments from make_pair"
        ∷ codes " OR use pair directly OR if appropriate, construct a pair directly"
        ∷ [])))

-- CheckPrintf
abbrev snprintf_report : ℕ → Option MatchObject → List Report
snprintf_report linenum none = []
snprintf_report linenum (some m) = report_if (not (text_eq (group_text m 2) (codes "0"))) (
    report linenum (codes "runtime/printf") 3 (
      cat (
        codes "If you can, use sizeof("
        ∷ group_text m 1
        ∷ codes ") instead of "
        ∷ group_text m 2
        ∷ codes " as the 2nd arg to snprintf."
        ∷ [])))

abbrev copy_report : ℕ → Option MatchObject → List Report
copy_report linenum none = []
copy_report linenum (some m) =
    report linenum (codes "runtime/printf") 4
      (codes "Almost always, snprintf is better than " ++ group_text m 1)
    ∷ []

unfoldable pub check_printf : ℕ → Text → List Report
unfolding re_search found_in regex group_text text_eq
check_printf linenum line =
    snprintf_report linenum (re_search (regex "snprintf\\s*\\(([^,]*),\\s*([0-9]*)\\s*,") line)
    ++ (report_if (found_in (regex "\\bsprintf\\s*\\(") line) (
          report linenum (codes "runtime/printf") 5
            (codes "Never use sprintf. Use snprintf instead."))
        ++ copy_report linenum (re_search (regex "\\b(strcpy|strcat)\\s*\\(") line))
