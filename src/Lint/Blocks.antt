-- ===== src/Lint/Blocks.antt =====
-- _BlockInfo, _ExternCInfo, _ClassInfo, _NamespaceInfo, GetIndentLevel and _MATCH_ASM of
-- tools/cpplint.py: the blocks of a file that braces make. What an operation reports is a list.
use vsm_cpp_sdk.Prelude.{
  ℕ, suc, ◌+◌, ◌-◌, Bool, true, false, not, ◌&&◌, ◌||◌, none, some, List, [], ◌∷◌, ◌++◌, ◌==◌, leb,
  ltb, length, take, drop, if◌then◌else◌,
}
use vsm_cpp_sdk.Text.{Text, codes, text_eq, cat, is_digit}
use vsm_cpp_sdk.Text.Int.{ℤ, pos, negsuc}
use vsm_cpp_sdk.Text.Find.{reverse_onto}
use vsm_cpp_sdk.Text.Regex.{Regex, re_match, re_search, found_in, matches, group_text}
use vsm_cpp_sdk.Text.Regex.Syntax.{regex, regex_of}
use vsm_cpp_sdk.Lint.Nolint.{Report}

-- _NO_ASM, _INSIDE_ASM, _END_ASM and _BLOCK_ASM
pub data InlineAsm : Type 0 where
  no_asm inside_asm end_asm block_asm : InlineAsm

unfoldable pub match_asm : Text → Bool
unfolding matches regex
match_asm =
    matches (regex "^\\s*(?:asm|_asm|__asm|__asm__)(?:\\s+(volatile|__volatile__))?\\s*[{(]")

-- s.count(c)
unfoldable pub count : ℕ → Text → ℕ
count c [] = 0
count c (d ∷ s) = let rest = count c s in if d == c then suc rest else rest

-- z + a - b
unfoldable pub shift : ℤ → ℕ → ℕ → ℤ
shift (pos n) a b = if leb b (n + a) then pos (n + a - b) else negsuc (b - (n + a) - 1)
shift (negsuc n) a b = if leb (n + 1 + b) a then pos (a - (n + 1 + b)) else negsuc (n + b - a)

unfoldable pub equals : ℤ → ℕ → Bool
equals (pos n) m = n == m
equals (negsuc n) m = false

-- GetIndentLevel
unfoldable pub get_indent_level : Text → ℕ
unfolding re_match regex group_text
get_indent_level line = elim (re_match (regex "^( *)\\S") line) [
  | none ↦ 0
  | some m ↦ length (group_text m 1)
]

-- What _ClassInfo adds to _BlockInfo.
pub record ClassInfo : Type 0 where
  pub name : Text
  pub is_derived : Bool
  pub access : Text
  pub is_struct : Bool
  pub class_indent : ℕ
  pub last_line : ℕ

-- The class of a block; that of a namespace holds its name.
pub data Kind : Type 0 where
  block_info extern_c_info : Kind
  class_info : ClassInfo → Kind
  namespace_info : Text → Kind

pub record Block : Type 0 where
  pub starting_linenum : ℕ
  pub seen_open_brace : Bool
  pub open_parentheses : ℤ
  pub inline_asm : InlineAsm
  pub check_namespace_indentation : Bool
  pub kind : Kind

-- The elided lines of a file, and one of its lines: its number, its elided and its raw text.
pub record Here : Type 0 where
  pub elided : List Text
  pub linenum : ℕ
  pub line : Text
  pub raw_line : Text

-- _BlockInfo.__init__
unfoldable pub new_block : ℕ → Bool → Block
new_block linenum seen_open_brace = record {
  starting_linenum = linenum;
  seen_open_brace = seen_open_brace;
  open_parentheses = pos 0;
  inline_asm = no_asm;
  check_namespace_indentation = false;
  kind = block_info;
}

-- _ExternCInfo.__init__
unfoldable pub new_extern_c : ℕ → Block
unfolding new_block
new_extern_c linenum = record (new_block linenum true) { kind = extern_c_info }

-- The loop of _ClassInfo.__init__ over the lines from the number `i` on.
unfoldable pub class_end : ℕ → ℤ → List Text → ℕ
unfolding shift equals count
class_end i depth [] = 0
class_end i depth (l ∷ ls) =
    let d = shift depth (count b'{' l) (count b'}' l) in
    let rest = class_end (suc i) d ls in if equals d 0 then i else rest

-- _ClassInfo.__init__
unfoldable pub new_class : Text → Text → Here → Block
unfolding new_block class_end get_indent_level
new_class name class_or_struct here =
    let is_struct = text_eq class_or_struct (codes "struct") in
    record (new_block here.linenum false) {
      check_namespace_indentation = true;
      kind = class_info (record {
        name = name;
        is_derived = false;
        access = if is_struct then codes "public" else codes "private";
        is_struct = is_struct;
        class_indent = get_indent_level here.raw_line;
        last_line = class_end here.linenum (pos 0) (drop here.linenum here.elided);
      });
    }

-- _NamespaceInfo.__init__, where a name that is missing is empty
unfoldable pub new_namespace : Text → ℕ → Block
unfolding new_block
new_namespace name linenum = record (new_block linenum false) {
  check_namespace_indentation = true;
  kind = namespace_info name;
}

-- CheckBegin
unfoldable pub derived : Text → ClassInfo → ClassInfo
unfolding found_in regex
derived line c =
    if found_in (regex "(^|[^:]):($|[^:])") line then record c { is_derived = true } else c

unfoldable pub begun : Text → Kind → Kind
unfolding derived
begun line (class_info c) = class_info (derived line c)
begun line k = k

unfoldable pub check_begin : Text → Block → Block
unfolding begun
check_begin line b = record b { kind = begun line b.kind }

-- The loop of _ClassInfo.CheckEnd over lines in reverse order, the first one with the number `i`.
unfoldable pub check_last : Regex → ℕ → Bool → List Text → List Report
unfolding re_search matches regex group_text
check_last r i seen_last_thing_in_class [] = []
check_last r i seen_last_thing_in_class (l ∷ ls) =
    let seen = not (matches (regex "^\\s*$") l) || seen_last_thing_in_class in
    let rest = check_last r (i - 1) seen ls in
    elim (re_search r l) [
      | none ↦ rest
      | some m ↦
          if seen_last_thing_in_class
          then record {
            linenum = i;
            category = codes "readability/constructors";
            confidence = 3;
            message = group_text m 1 ++ codes " should be the last thing in the class";
          }
            ∷ []
          else []
    ]

-- 'struct ' + name or 'class ' + name
unfoldable pub parent : ClassInfo → Text
parent c = (if c.is_struct then codes "struct " else codes "class ") ++ c.name

unfoldable pub check_brace : Here → ClassInfo → List Report
unfolding re_match regex group_text parent
check_brace here c = elim (re_match (regex "^( *)\\}") here.line) [
  | none ↦ []
  | some m ↦
      if length (group_text m 1) == c.class_indent
      then []
      else record {
        linenum = here.linenum;
        category = codes "whitespace/indent";
        confidence = 3;
        message = codes "Closing brace should be aligned with beginning of " ++ parent c;
      }
        ∷ []
]

-- _ClassInfo.CheckEnd
unfoldable pub check_class_end : Here → ℕ → ClassInfo → List Report
unfolding check_last check_brace regex_of reverse_onto
check_class_end here starting_linenum c =
    let disallow = cat (
      codes "\\b(DISALLOW_COPY_AND_ASSIGN|DISALLOW_IMPLICIT_CONSTRUCTORS)\\("
      ∷ c.name
      ∷ codes "\\)"
      ∷ []) in
    let before = reverse_onto (take here.linenum here.elided) [] in
    check_last (regex_of disallow) (here.linenum - 1) false
      (take (here.linenum - 1 - starting_linenum) before)
    ++ check_brace here c

-- re.escape, for a text without NUL
unfoldable pub re_escape : Text → Text
unfolding is_digit
re_escape [] = []
re_escape (c ∷ s) =
    if is_digit c || (leb b'a' c && leb c b'z') || (leb b'A' c && leb c b'Z')
    then c ∷ re_escape s
    else b'\\' ∷ c ∷ re_escape s

abbrev namespace_report : ℕ → Text → List Report
namespace_report linenum message =
    record {
      linenum = linenum;
      category = codes "readability/namespace";
      confidence = 5;
      message = message;
    }
    ∷ []

unfoldable pub check_named : Here → Text → List Report
unfolding matches regex_of re_escape
check_named here name =
    let closed = cat (
      codes "^\\s*};*\\s*(//|/\\*).*\\bnamespace\\s+"
      ∷ re_escape name
      ∷ codes "[\\*/\\.\\\\\\s]*$"
      ∷ []) in
    if matches (regex_of closed) here.raw_line
    then []
    else namespace_report here.linenum
        (codes "Namespace should be terminated with \"// namespace " ++ (name ++ codes "\""))

unfoldable pub check_anonymous : Here → List Report
unfolding matches regex
check_anonymous here =
    if matches (regex "^\\s*};*\\s*(//|/\\*).*\\bnamespace[\\*/\\.\\\\\\s]*$") here.raw_line
    then []
    else if matches (regex "^\\s*}.*\\b(namespace anonymous|anonymous namespace)\\b") here.raw_line
    then namespace_report here.linenum (
        cat (
          codes "Anonymous namespace should be terminated with \"// namespace\""
          ∷ codes " or \"// anonymous namespace\""
          ∷ []))
    else namespace_report here.linenum
        (codes "Anonymous namespace should be terminated with \"// namespace\"")

-- _NamespaceInfo.CheckEnd
unfoldable pub check_namespace_end : Here → ℕ → Text → List Report
unfolding matches regex check_named check_anonymous
check_namespace_end here starting_linenum name =
    if ltb (here.linenum - starting_linenum) 10
      && not (matches (regex "^\\s*};*\\s*(//|/\\*).*\\bnamespace\\b") here.raw_line)
    then []
    else elim name [ [] ↦ check_anonymous here | c ∷ s ↦ check_named here (c ∷ s) ]

-- CheckEnd
unfoldable pub check_end : Here → Block → List Report
unfolding check_class_end check_namespace_end
check_end here b = elim b.kind [
  | class_info c ↦ check_class_end here b.starting_linenum c
  | namespace_info name ↦ check_namespace_end here b.starting_linenum name
  | _ ↦ []
]
