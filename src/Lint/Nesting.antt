-- ===== src/Lint/Nesting.antt =====
-- The class NestingState of tools/cpplint.py, with _PreprocessorInfo: the stack of the blocks that are
-- open at a line. A stack is a list with its top first. Update is in Nesting.Update, the loop of
-- InTemplateArgumentList in Nesting.Template.
pub mod Braces
pub mod File
pub mod Open
pub mod Reached
pub mod Rounds
pub mod Sections
pub mod Template
pub mod Update
use vsm_cpp_sdk.Prelude.{
  ℕ, zero, suc, Bool, true, false, not, ◌||◌, Option, none, some, List, [], ◌∷◌, ◌++◌,
  if◌then◌else◌,
}
use vsm_cpp_sdk.Text.{Text, codes}
use vsm_cpp_sdk.Text.Find.{at, ◌>>=◌}
use vsm_cpp_sdk.Text.Regex.{found_in, matches}
use vsm_cpp_sdk.Text.Regex.Syntax.{regex}
use vsm_cpp_sdk.Lint.Nolint.{Report}
use vsm_cpp_sdk.Lint.Blocks.{
  Block, Kind, block_info, class_info, namespace_info, extern_c_info, no_asm,
}

-- IsMacroDefinition and IsForwardClassDeclaration; `none` is an IndexError
unfoldable pub is_macro_definition : List Text → ℕ → Option Bool
unfolding found_in regex
is_macro_definition clean_lines linenum = do
  line ← at clean_lines linenum
  elim (found_in (regex "^#define") line) [
    | true ↦ some true
    | false ↦ elim linenum [
      | zero ↦ some false
      | suc n ↦ do before ← at clean_lines n; some (found_in (regex "\\\\$") before)
    ]
  ]

unfoldable pub is_forward_class_declaration : List Text → ℕ → Option Bool
unfolding matches regex
is_forward_class_declaration clean_lines linenum = do
  line ← at clean_lines linenum
  some (matches (regex "^\\s*(\\btemplate\\b)*.*class\\s+\\w+;\\s*$") line)

pub record PreprocessorInfo : Type 0 where
  pub stack_before_if : List Block
  pub stack_before_else : List Block
  pub seen_else : Bool

-- The top of the stack before the last Update is kept as it was then: what reads it asks for the
-- class of the block, which never changes.
pub record NestingState : Type 0 where
  pub stack : List Block
  pub previous_stack_top : Option Block
  pub pp_stack : List PreprocessorInfo

-- _PreprocessorInfo.__init__
unfoldable pub preprocessor_info : List Block → PreprocessorInfo
preprocessor_info stack_before_if = record {
  stack_before_if = stack_before_if;
  stack_before_else = [];
  seen_else = false;
}

-- NestingState.__init__
unfoldable pub nesting_state : NestingState
nesting_state = record { stack = []; previous_stack_top = none; pp_stack = [] }

-- SeenOpenBrace
unfoldable pub seen_open_brace : List Block → Bool
seen_open_brace [] = true
seen_open_brace (b ∷ bs) = b.seen_open_brace

abbrev top_kind : (Kind → Bool) → List Block → Bool
top_kind test [] = false
top_kind test (b ∷ bs) = test b.kind

abbrev pub is_class : Kind → Bool
is_class (class_info c) = true
is_class k = false

abbrev pub is_namespace : Kind → Bool
is_namespace (namespace_info name) = true
is_namespace k = false

abbrev pub is_extern_c : Kind → Bool
is_extern_c extern_c_info = true
is_extern_c k = false

-- InNamespaceBody, InExternC, InClassDeclaration and InAsmBlock
unfoldable pub in_namespace_body : NestingState → Bool
in_namespace_body s = top_kind is_namespace s.stack

unfoldable pub in_extern_c : NestingState → Bool
in_extern_c s = top_kind is_extern_c s.stack

unfoldable pub in_class_declaration : NestingState → Bool
in_class_declaration s = top_kind is_class s.stack

abbrev in_asm : List Block → Bool
in_asm [] = false
in_asm (b ∷ bs) = elim b.inline_asm [ no_asm ↦ false | _ ↦ true ]

unfoldable pub in_asm_block : NestingState → Bool
in_asm_block s = in_asm s.stack

-- What UpdatePreprocessor takes a line for.
pub data Directive : Type 0 where
  if_line else_line endif_line other_line : Directive

unfoldable pub directive : Text → Directive
unfolding matches regex
directive line =
    if matches (regex "^\\s*#\\s*(if|ifdef|ifndef)\\b") line
    then if_line
    else if matches (regex "^\\s*#\\s*(else|elif)\\b") line
    then else_line
    else if matches (regex "^\\s*#\\s*endif\\b") line
    then endif_line
    else other_line

-- The first #else or #elif keeps the stack up to it, each one restores the stack before the #if.
abbrev pub see_else : List Block → PreprocessorInfo → PreprocessorInfo
see_else stack p =
    if p.seen_else then p else record p { seen_else = true; stack_before_else = stack }

unfoldable pub turn : Directive → NestingState → NestingState
unfolding preprocessor_info
turn if_line s = record s { pp_stack = preprocessor_info s.stack ∷ s.pp_stack }
turn else_line s = elim s.pp_stack [
  | [] ↦ s
  | p ∷ ps ↦ record s { stack = p.stack_before_if; pp_stack = see_else s.stack p ∷ ps }
]
turn endif_line s = elim s.pp_stack [
  | [] ↦ s
  | p ∷ ps ↦ record s {
    stack = if p.seen_else then p.stack_before_else else s.stack;
    pp_stack = ps;
  }
]
turn other_line s = s

-- UpdatePreprocessor
unfoldable pub update_preprocessor : Text → NestingState → NestingState
unfolding directive turn
update_preprocessor line = turn (directive line)

-- InnermostClass
unfoldable pub innermost_class : List Block → Option Block
innermost_class [] = none
innermost_class (b ∷ bs) = if is_class b.kind then some b else innermost_class bs

-- What CheckCompletedBlocks reports of a block.
unfoldable pub incomplete : Block → List Report
incomplete b = elim b.kind [
  | class_info c ↦
      record {
        linenum = b.starting_linenum;
        category = codes "build/class";
        confidence = 5;
        message = codes "Failed to find complete declaration of class " ++ c.name;
      }
      ∷ []
  | namespace_info name ↦
      record {
        linenum = b.starting_linenum;
        category = codes "build/namespaces";
        confidence = 5;
        message = codes "Failed to find complete declaration of namespace " ++ name;
      }
      ∷ []
  | _ ↦ []
]

-- CheckCompletedBlocks, from the bottom of the stack to its top
unfoldable pub check_completed_blocks : List Block → List Report
unfolding incomplete
check_completed_blocks [] = []
check_completed_blocks (b ∷ bs) = check_completed_blocks bs ++ incomplete b
