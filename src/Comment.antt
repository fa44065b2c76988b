-- ===== src/Comment.antt =====
-- FormatComment and FormatPyComment of tools/mavgen/mavgen.py. What a function writes to its file is
-- the text that it returns.
pub mod Wrap
pub mod Ink
use vsm_cpp_sdk.Prelude.{
  ℕ, zero, suc, ◌+◌, Bool, true, false, List, [], ◌∷◌, ◌++◌, ltb, ◌==◌, ◌&&◌, not, if◌then◌else◌,
  length, ◌≡◌, refl,
}
use vsm_cpp_sdk.Text.{Text, codes, is_space}

-- re.split('\n\n+', text): a run of two or more line feeds separates, a single one is kept. The
-- arguments are the paragraph so far and the number of line feeds behind it.
unfoldable pub paragraphs_from : Text → ℕ → Text → List Text
paragraphs_from cur zero [] = cur ∷ []
paragraphs_from cur (suc zero) [] = (cur ++ codes "\n") ∷ []
paragraphs_from cur (suc (suc n)) [] = cur ∷ [] ∷ []
paragraphs_from cur zero (c ∷ s) = elim (c == b'\n') [
  | true ↦ paragraphs_from cur 1 s
  | false ↦ paragraphs_from (cur ++ (c ∷ [])) 0 s
]
paragraphs_from cur (suc zero) (c ∷ s) = elim (c == b'\n') [
  | true ↦ paragraphs_from cur 2 s
  | false ↦ paragraphs_from (cur ++ (b'\n' ∷ c ∷ [])) 0 s
]
paragraphs_from cur (suc (suc n)) (c ∷ s) = elim (c == b'\n') [
  | true ↦ paragraphs_from cur (suc (suc n)) s
  | false ↦ cur ∷ paragraphs_from (c ∷ []) 0 s
]

unfoldable pub paragraphs : Text → List Text
unfolding paragraphs_from
paragraphs text = paragraphs_from [] 0 text

-- re.split('\\s+', paragraph): the arguments are the word so far and whether white space follows it.
unfoldable pub words_from : Text → Bool → Text → List Text
words_from cur true [] = cur ∷ [] ∷ []
words_from cur false [] = cur ∷ []
words_from cur true (c ∷ s) = elim (is_space c) [
  | true ↦ words_from cur true s
  | false ↦ cur ∷ words_from (c ∷ []) false s
]
words_from cur false (c ∷ s) = elim (is_space c) [
  | true ↦ words_from cur true s
  | false ↦ words_from (cur ++ (c ∷ [])) false s
]

unfoldable pub words : Text → List Text
unfolding words_from is_space
words paragraph = words_from [] false paragraph

abbrev pub is_empty : Text → Bool
is_empty [] = true
is_empty (c ∷ s) = false

abbrev pub max_len : ℕ
max_len = 72

-- The lines that the loop over the words of a paragraph writes, from the line `cur_line` on.
unfoldable pub wrap : Text → List Text → List Text
wrap cur_line [] = if is_empty cur_line then [] else cur_line ∷ []
wrap cur_line (word ∷ rest) = elim (is_empty word) [
  | true ↦ wrap cur_line rest
  | false ↦ elim (not (is_empty cur_line) && ltb max_len (length (cur_line ++ word))) [
    | true ↦ cur_line ∷ wrap (codes " " ++ word) rest
    | false ↦ wrap (cur_line ++ (codes " " ++ word)) rest
  ]
]

-- The lines of all paragraphs.
unfoldable pub comment_lines : List Text → List Text
unfolding wrap words
comment_lines [] = []
comment_lines (p ∷ ps) = wrap [] (words p) ++ comment_lines ps

unfoldable pub indentation : ℕ → Text
indentation zero = []
indentation (suc n) = codes "    " ++ indentation n

-- Each line of a C++ comment is followed by the start of the next one.
unfoldable pub cpp_lines : Text → List Text → Text
cpp_lines indent [] = []
cpp_lines indent (l ∷ ls) = l ++ (codes "\n" ++ (indent ++ (codes " *" ++ cpp_lines indent ls)))

-- FormatComment(f, text, indent, doc)
unfoldable pub format_comment : ℕ → Bool → Text → Text
unfolding cpp_lines comment_lines paragraphs indentation
format_comment n doc [] = []
format_comment n doc (c ∷ s) =
    let indent = indentation n in
    indent
    ++ (codes "/*"
        ++ ((if doc then codes "*" else [])
            ++ (cpp_lines indent (comment_lines (paragraphs (c ∷ s))) ++ codes "/\n")))

unfoldable pub py_lines : Text → List Text → Text
py_lines indent [] = []
py_lines indent (l ∷ ls) = indent ++ (codes "#" ++ (l ++ (codes "\n" ++ py_lines indent ls)))

-- FormatPyComment(f, text, indent)
unfoldable pub format_py_comment : ℕ → Text → Text
unfolding py_lines comment_lines paragraphs indentation
format_py_comment n text = py_lines (indentation n) (comment_lines (paragraphs text))

comment_runs :
    format_comment 1 true (codes "Mavlink  message\n\n\nidentifier.")
    ≡ codes "    /** Mavlink message\n     * identifier.\n     */\n"
unfolding format_comment
comment_runs = refl

py_comment_runs : format_py_comment 0 (codes "\nDo not edit!\n") ≡ codes "# Do not edit!\n"
unfolding format_py_comment
py_comment_runs = refl
