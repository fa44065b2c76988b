-- ===== src/Lint/Spacing.antt =====
-- CheckOperatorSpacing, CheckParenthesisSpacing and CheckCommaSpacing of tools/cpplint.py.
use vsm_cpp_sdk.Prelude.{
  ℕ, zero, suc, ◌+◌, ◌-◌, Bool, true, false, not, ◌&&◌, ◌||◌, Option, none, some, List, [], ◌∷◌,
  ◌++◌, ◌==◌, ltb, length, take,
}
use vsm_cpp_sdk.Text.{Text, codes, text_eq}
use vsm_cpp_sdk.Text.Find.{at, ◌>>=◌, reverse_onto}
use vsm_cpp_sdk.Text.Regex.{
  Regex, MatchObject, re_match, re_search, re_search_from, matches, found_in, group_text,
}
use vsm_cpp_sdk.Text.Regex.Syntax.{regex}
use vsm_cpp_sdk.Lint.Nolint.{Report}
use vsm_cpp_sdk.Lint.Reports.{report, report_if}
use vsm_cpp_sdk.Lint.Brackets.{Place, close_expression}
use vsm_cpp_sdk.Lint.Brackets.Backward.{reverse_close_expression}

abbrev underscores : Text → Text
underscores [] = []
underscores (c ∷ s) = b'_' ∷ underscores s

-- The loop over the operators of a line. Each round leaves one word `operator` less that has no word
-- character next to it, so the length of the line bounds the rounds.
unfoldable pub clear_operators : ℕ → Text → Text
unfolding re_match regex group_text
clear_operators zero line = line
clear_operators (suc rounds) line =
    elim (re_match (regex "^(.*\\boperator\\b)(\\S+)(\\s*\\(.*)$") line) [
      | none ↦ line
      | some m ↦
          clear_operators rounds
            (group_text m 1 ++ (underscores (group_text m 2) ++ group_text m 3))
    ]

abbrev operators : ℕ → ℕ → Text → List Report
operators linenum confidence message =
    report linenum (codes "whitespace/operators") confidence message ∷ []

-- The spaces around =.
unfoldable pub assignment_spacing : ℕ → Text → List Report
unfolding found_in regex
assignment_spacing linenum line =
    report_if
      ((found_in (regex "[\\w.]=") line || found_in (regex "=[\\w.]") line)
        && (not (found_in (regex "\\b(if|while|for) ") line)
            && (not (found_in (regex "(>=|<=|==|!=|&=|\\^=|\\|=|\\+=|\\*=|\\/=|\\%=)") line)
                && not (found_in (regex "operator=") line))))
      (report linenum (codes "whitespace/operators") 4 (codes "Missing spaces around ="))

-- An angle bracket between characters that are not spaces: one that is not closed is reported.
abbrev unclosed : ℕ → Text → Place → List Report
unclosed linenum message p = elim p.pos [ some i ↦ [] | none ↦ operators linenum 3 message ]

unfoldable pub less_spacing : List Text → ℕ → Text → Option (List Report)
unfolding re_match regex group_text close_expression
less_spacing elided linenum line = elim (re_match (regex "^(.*[^\\s<])<[^\\s=<,]") line) [
  | none ↦ some []
  | some m ↦ (do
    place ← close_expression elided linenum (length (group_text m 1))
    some (unclosed linenum (codes "Missing spaces around <") place))
]

unfoldable pub greater_spacing : List Text → ℕ → Text → Option (List Report)
unfolding re_match regex group_text reverse_close_expression
greater_spacing elided linenum line = elim (re_match (regex "^(.*[^-\\s>])>[^\\s=>,]") line) [
  | none ↦ some []
  | some m ↦ (do
    place ← reverse_close_expression elided linenum (length (group_text m 1))
    some (unclosed linenum (codes "Missing spaces around >") place))
]

-- The spaces around comparisons.
unfoldable pub comparison_spacing : List Text → ℕ → Text → Option (List Report)
unfolding re_search matches regex group_text less_spacing greater_spacing
comparison_spacing elided linenum line =
    elim (re_search (regex "[^<>=!\\s](==|!=|<=|>=|\\|\\|)[^<>=!\\s,;\\)]") line) [
      | some m ↦ some (operators linenum 3 (codes "Missing spaces around " ++ group_text m 1))
      | none ↦ elim (matches (regex "#.*include") line) [
        | true ↦ some []
        | false ↦ (do
          less ← less_spacing elided linenum line
          greater ← greater_spacing elided linenum line
          some (less ++ greater))
      ]
    ]

-- The spaces around <<. `isdigit` is the method isdigit of a Unicode text.
unfoldable pub left_shift_spacing : (Text → Bool) → ℕ → Text → List Report
unfolding re_search regex group_text text_eq
left_shift_spacing isdigit linenum line =
    elim (re_search (regex "(operator|[^\\s(<])(?:L|UL|LL|ULL|l|ul|ll|ull)?<<([^\\s,=<])") line) [
      | none ↦ []
      | some m ↦
          report_if
            (not (isdigit (group_text m 1) && isdigit (group_text m 2))
              && not (
                  text_eq (group_text m 1) (codes "operator")
                  && text_eq (group_text m 2) (codes ";")))
            (report linenum (codes "whitespace/operators") 3 (codes "Missing spaces around <<"))
    ]

-- The spaces around >> and those next to unary operators.
unfoldable pub shift_and_unary_spacing : ℕ → Text → List Report
unfolding re_search found_in regex group_text
shift_and_unary_spacing linenum line =
    report_if (found_in (regex ">>[a-zA-Z_]") line)
      (report linenum (codes "whitespace/operators") 3 (codes "Missing spaces around >>"))
    ++ elim (re_search (regex "(!\\s|~\\s|[\\s]--[\\s;]|[\\s]\\+\\+[\\s;])") line) [
      | none ↦ []
      | some m ↦ operators linenum 4 (codes "Extra space for operator " ++ group_text m 1)
    ]

-- CheckOperatorSpacing; `none` is an IndexError
unfoldable pub check_operator_spacing : (Text → Bool) → List Text → ℕ → Option (List Report)
unfolding clear_operators assignment_spacing comparison_spacing left_shift_spacing
    shift_and_unary_spacing
check_operator_spacing isdigit elided linenum = do
  elided_line ← at elided linenum
  let line = clear_operators (suc (length elided_line)) elided_line
  comparisons ← comparison_spacing elided linenum line
  some (
      assignment_spacing linenum line
      ++ (comparisons
          ++ (left_shift_spacing isdigit linenum line ++ shift_and_unary_spacing linenum line)))

-- The conditions on the spaces inside the parentheses of an if, for, while or switch.
unfoldable pub inside_parentheses : ℕ → Text → MatchObject → List Report
unfolding group_text text_eq found_in regex
inside_parentheses linenum line m =
    let left = length (group_text m 2) in
    let right = length (group_text m 4) in
    report_if
      (not (left == right)
        && not (
            (text_eq (group_text m 3) (codes ";") && left == 1 + right)
            || (left == 0 && found_in (regex "\\bfor\\s*\\(.*; \\)") line)))
      (report linenum (codes "whitespace/parens") 5
        (codes "Mismatching spaces inside () in " ++ group_text m 1))
    ++ report_if (ltb 1 left) (
        report linenum (codes "whitespace/parens") 5
          (codes "Should have zero or one spaces inside ( and ) in " ++ group_text m 1))

abbrev before_parenthesis : ℕ → Option MatchObject → List Report
before_parenthesis linenum none = []
before_parenthesis linenum (some m) =
    report linenum (codes "whitespace/parens") 5
      (codes "Missing space before ( in " ++ group_text m 1)
    ∷ []

abbrev parentheses : Regex
parentheses = regex "\\b(if|for|while|switch)\\s*\\(([ ]*)(.).*[^ ]+([ ]*)\\)\\s*{\\s*$"

-- CheckParenthesisSpacing, on an elided line
unfoldable pub check_parenthesis_spacing : ℕ → Text → List Report
unfolding re_search regex group_text inside_parentheses
check_parenthesis_spacing linenum line =
    before_parenthesis linenum (re_search (regex " (if\\(|for\\(|while\\(|switch\\()") line)
    ++ elim (re_search parentheses line) [ none ↦ [] | some m ↦ inside_parentheses linenum line m ]

-- re.sub behind the characters `before`, for a pattern that matches no empty text: a match takes a
-- character, so the length of the text bounds the rounds.
unfoldable pub replace_behind : ℕ → Regex → Text → Text → Text → Text
unfolding re_search_from reverse_onto
replace_behind zero r rep before s = s
replace_behind (suc rounds) r rep before s = elim (re_search_from r before s) [
  | none ↦ s
  | some m ↦
      let skipped = m.start - length before in
      take skipped s
      ++ (rep
          ++ replace_behind rounds r rep (reverse_onto (take (skipped + length m.text) s) before)
              m.rest)
]

-- ReplaceAll
unfoldable pub replace_all : Regex → Text → Text → Text
unfolding replace_behind
replace_all r rep s = replace_behind (length s) r rep [] s

-- CheckCommaSpacing, on an elided line and the same line without raw strings
unfoldable pub check_comma_spacing : ℕ → Text → Text → List Report
unfolding found_in regex replace_all
check_comma_spacing linenum raw line =
    report_if
      (found_in (regex ",[^,\\s]") (replace_all (regex "\\boperator\\s*,\\s*\\(") (codes "F(") line)
        && found_in (regex ",[^,\\s]") raw)
      (report linenum (codes "whitespace/comma") 3 (codes "Missing space after ,"))
    ++ report_if (found_in (regex ";[^\\s};\\\\)/]") line)
        (report linenum (codes "whitespace/semicolon") 3 (codes "Missing space after ;"))
