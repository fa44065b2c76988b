-- ===== src/Lint/Nesting/Update.antt =====
-- NestingState.Update of tools/cpplint.py.
use vsm_cpp_sdk.Prelude.{
  ℕ, zero, suc, ◌+◌, Bool, true, false, not, ◌&&◌, ◌||◌, Option, none, some, List, [], ◌∷◌, ◌++◌,
  ◌==◌, length, drop, if◌then◌else◌,
}
use vsm_cpp_sdk.Text.{Text, codes, cat, is_word}
use vsm_cpp_sdk.Text.Find.{at, ◌>>=◌, starts_with, skip_spaces}
use vsm_cpp_sdk.Text.Regex.{MatchObject, re_match, matches, group_text}
use vsm_cpp_sdk.Text.Regex.Syntax.{regex}
use vsm_cpp_sdk.Lint.Nolint.{Report}
use vsm_cpp_sdk.Lint.Lines.{CleansedLines}
use vsm_cpp_sdk.Lint.Blocks.{
  Kind, InlineAsm, no_asm, inside_asm, end_asm, block_asm, match_asm, count, shift, equals,
  ClassInfo, Block, class_info, Here, new_block, new_extern_c, new_class, new_namespace,
  check_begin, check_end, parent,
}
use vsm_cpp_sdk.Lint.Nesting.{NestingState, seen_open_brace, update_preprocessor}
use vsm_cpp_sdk.Lint.Nesting.Template.{in_template_argument_list}

-- The state of inline assembly, from whether the parentheses change, whether one is open or none,
-- and whether the line begins such a block.
unfoldable pub next_asm : Bool → Bool → Bool → Bool → InlineAsm → InlineAsm
next_asm changed once closed begins block_asm = block_asm
next_asm changed once closed begins inside_asm = if closed then end_asm else inside_asm
next_asm changed once closed begins a = if changed && once && begins then inside_asm else no_asm

-- The count of parentheses in the innermost block.
unfoldable pub count_parentheses : Text → Block → Block
unfolding count shift equals next_asm match_asm
count_parentheses line b =
    let opened = count b'(' line in
    let closed = count b')' line in
    let now = shift b.open_parentheses opened closed in
    record b {
      open_parentheses = now;
      inline_asm =
          next_asm (not (opened == closed)) (equals now 1) (equals now 0) (match_asm line)
            b.inline_asm;
    }

abbrev pub on_top : (Block → Block) → List Block → List Block
on_top f [] = []
on_top f (b ∷ bs) = f b ∷ bs

abbrev in_name : ℕ → Bool
in_name c = c == b':' || is_word c

unfoldable pub name_part : Text → Text
unfolding is_word
name_part [] = []
name_part (c ∷ s) = if in_name c then c ∷ name_part s else []

abbrev pub no_word : Text → Bool
no_word [] = true
no_word (c ∷ s) = not (is_word c)

-- Match(r'^\s*namespace\b\s*([:\w]+)?(.*)$', line) on a text without line feeds: both groups, where
-- a name that is missing is empty.
unfoldable pub namespace_decl_match : Text → Option (Text × Text)
unfolding skip_spaces starts_with name_part is_word
namespace_decl_match line =
    let s = drop 9 (skip_spaces line) in
    let t = skip_spaces s in
    let name = name_part t in
    if starts_with (codes "namespace") (skip_spaces line) && no_word s
    then some (name, drop (length name) t)
    else none

-- What stands behind the first '{'.
unfoldable pub behind_brace : Text → Option Text
behind_brace [] = none
behind_brace (c ∷ s) = let rest = behind_brace s in if c == b'{' then some s else rest

-- The namespace of a match on the stack, and the line behind its brace if it has one.
unfoldable pub enter_namespace : ℕ → Text → Text → Option Text → List Block → List Block × Text
unfolding new_namespace
enter_namespace linenum name rest none stack = (new_namespace name linenum ∷ stack, rest)
enter_namespace linenum name rest (some behind) stack =
    (record (new_namespace name linenum) { seen_open_brace = true } ∷ stack, behind)

-- The loop over the namespaces at the front of a line, with fuel: the stack and the rest of the line.
unfoldable pub namespaces_from : ℕ → ℕ → Text → List Block → List Block × Text
unfolding namespace_decl_match behind_brace enter_namespace
namespaces_from zero linenum line stack = (stack, line)
namespaces_from (suc f) linenum line stack = elim (namespace_decl_match line) [
  | none ↦ (stack, line)
  | some (name, rest) ↦
      let (entered, behind) = enter_namespace linenum name rest (behind_brace rest) stack in
      namespaces_from f linenum behind entered
]

-- Each round takes a word from the line.
unfoldable pub namespaces : ℕ → Text → List Block → List Block × Text
unfolding namespaces_from
namespaces linenum line stack = namespaces_from (suc (length line)) linenum line stack

abbrev no_parentheses : List Block → Bool
no_parentheses [] = true
no_parentheses (b ∷ bs) = equals b.open_parentheses 0

-- What a loop returned, if it did.
abbrev returned : Option Bool → Bool
returned none = false
returned (some b) = b

-- A declaration of a class that is matched at the front of what is left of the line.
unfoldable pub class_declared : Here → List Block → Text → Option MatchObject → List Block × Text
unfolding group_text equals in_template_argument_list new_class
class_declared here stack line none = (stack, line)
class_declared here stack line (some m) =
    if no_parentheses stack
      && not
          (returned (in_template_argument_list here.elided here.linenum (length (group_text m 1))))
    then (new_class (group_text m 3) (group_text m 2) here ∷ stack, group_text m 4)
    else (stack, line)

unfoldable pub class_declaration : Here → List Block × Text → List Block × Text
unfolding re_match regex class_declared
class_declaration here (stack, line) = class_declared here stack line (
    re_match
      (regex
        "^(\\s*(?:template\\s*<[\\w\\s<>,:]*>\\s*)?(class|struct)\\s+(?:[A-Z_]+\\s+)*(\\w+(?:::\\w+)*))(.*)$")
      line)

-- CheckBegin on the innermost block that has no brace yet.
unfoldable pub begin_block : Here → List Block → List Block
unfolding check_begin
begin_block here [] = []
begin_block here (b ∷ bs) = (if b.seen_open_brace then b else check_begin here.line b) ∷ bs

-- The access control of a class, with the report on its indentation.
unfoldable pub class_access : Here → Text → ClassInfo → ClassInfo × List Report
unfolding re_match matches regex group_text parent
class_access here line c =
    elim (re_match
      (regex "^(.*)\\b(public|private|protected|signals)(\\s+(?:slots\\s*)?)?:(?:[^:]|$)") line) [
        | none ↦ (c, [])
        | some m ↦
            let indent = group_text m 1 in
            (
              record c { access = group_text m 2 },
              if length indent == c.class_indent + 1 || matches (regex "^\\s*$") indent
                  then []
                  else record {
                    linenum = here.linenum;
                    category = codes "whitespace/indent";
                    confidence = 3;
                    message = cat (
                        group_text m 2
                        ∷ group_text m 3
                        ∷ codes ": should be indented +1 space inside "
                        ∷ parent c
                        ∷ []);
                  }
                    ∷ [],
            )
      ]

unfoldable pub access_of : Here → Text → Block → List Block → Kind → List Block × List Report
unfolding class_access
access_of here line b bs (class_info c) =
    let (changed, reports) = class_access here line c in
    (record b { kind = class_info changed } ∷ bs, reports)
access_of here line b bs k = (b ∷ bs, [])

unfoldable pub update_access : Here → Text → List Block → List Block × List Report
unfolding access_of
update_access here line [] = ([], [])
update_access here line (b ∷ bs) = access_of here line b bs b.kind

-- The '{' of a line that begins with `line`.
unfoldable pub open_brace : ℕ → Text → List Block → List Block
unfolding seen_open_brace matches regex new_extern_c new_block match_asm
open_brace linenum line stack =
    if not (seen_open_brace stack)
    then on_top (λ b. record b { seen_open_brace = true }) stack
    else if matches (regex "^extern\\s*\"[^\"]*\"\\s*\\{") line
    then new_extern_c linenum ∷ stack
    else record (new_block linenum true) {
      inline_asm = if match_asm line then block_asm else no_asm;
    }
      ∷ stack

-- A ';' or ')' drops a block that has no brace yet.
unfoldable pub drop_unseen : List Block → List Block
drop_unseen [] = []
drop_unseen (b ∷ bs) = if b.seen_open_brace then b ∷ bs else bs

unfoldable pub close_brace : Here → List Block → List Block × List Report
unfolding check_end
close_brace here [] = ([], [])
close_brace here (b ∷ bs) = (bs, check_end here b)

unfoldable pub is_token : ℕ → Bool
is_token c = c == b'{' || c == b';' || c == b')' || c == b'}'

-- A round of the last loop, on a token of the line that begins with `line`.
unfoldable pub on_token : Here → ℕ → Text → List Block → List Block × List Report
unfolding open_brace drop_unseen close_brace
on_token here c line stack =
    if c == b'{'
    then (open_brace here.linenum line stack, [])
    else if c == b'}'
    then close_brace here stack
    else (drop_unseen stack, [])

-- The last loop: it looks for the next token from a character of the line on.
unfoldable pub consume : Here → Text → Text → List Block → List Block × List Report
unfolding is_token on_token
consume here line [] stack = (stack, [])
consume here line (c ∷ s) stack = elim (is_token c) [
  | true ↦
      let (after, reports) = on_token here c line stack in
      let (end, others) = consume here s s after in (end, reports ++ others)
  | false ↦ consume here line s stack
]

-- What Update does behind UpdatePreprocessor, which is to the stack alone.
unfoldable pub update_stack : Here → List Block → List Block × List Report
unfolding count_parentheses namespaces class_declaration begin_block update_access consume
update_stack here before =
    let counted = on_top (count_parentheses here.line) before in
    let (stack, line) = class_declaration here (namespaces here.linenum here.line counted) in
    let (declared, reports) = update_access here line (begin_block here stack) in
    let (end, others) = consume here line line declared in (end, reports ++ others)

abbrev pub top : List Block → Option Block
top [] = none
top (b ∷ bs) = some b

unfoldable pub update_here : Here → NestingState → NestingState × List Report
unfolding update_preprocessor update_stack
update_here here s =
    let turned = update_preprocessor here.line (record s { previous_stack_top = top s.stack }) in
    let (end, reports) = update_stack here turned.stack in (record turned { stack = end }, reports)

-- Update; `none` is an IndexError. Both lists have as many lines.
unfoldable pub update : CleansedLines → ℕ → NestingState → Option (NestingState × List Report)
unfolding update_here
update clean_lines linenum s = do
  line ← at clean_lines.elided linenum
  raw ← at clean_lines.raw_lines linenum
  some (
      update_here
        (record { elided = clean_lines.elided; linenum = linenum; line = line; raw_line = raw }) s)
