-- ===== src/Lint/Lines.antt =====
-- CleanseRawStrings and the class CleansedLines of tools/cpplint.py.
pub mod Raw
pub mod Aligned
use vsm_cpp_sdk.Prelude.{
  ℕ, zero, suc, ◌-◌, Bool, true, false, not, ◌&&◌, ◌||◌, Option, none, some, List, [], ◌∷◌, ◌++◌,
  ◌==◌, drop, take, length, map, if◌then◌else◌,
}
use vsm_cpp_sdk.Text.{Text, codes, is_word, is_space}
use vsm_cpp_sdk.Text.Find.{◌>>=◌, starts_with, skip_spaces}
use vsm_cpp_sdk.Lint.Strings.{collapse_strings}
use vsm_cpp_sdk.Lint.Cleanse.{cleanse_comments}

-- (?:R|u8R|uR|UR|LR)" at the front of a text: what is behind it.
abbrev raw_prefixes : List Text
raw_prefixes = codes "R\"" ∷ codes "u8R\"" ∷ codes "uR\"" ∷ codes "UR\"" ∷ codes "LR\"" ∷ []

unfoldable pub behind_prefix : List Text → Text → Option Text
unfolding starts_with
behind_prefix [] s = none
behind_prefix (p ∷ ps) s = if starts_with p s then some (drop (length p) s) else behind_prefix ps s

-- ([^\s\\()]*)\((.*)$: both groups.
unfoldable pub raw_delimiter : Text → Option (Text × Text)
unfolding is_space
raw_delimiter [] = none
raw_delimiter (c ∷ s) = elim (c == b'(') [
  | true ↦ some ([], s)
  | false ↦ elim (is_space c || (c == b'\\' || c == b')')) [
    | true ↦ none
    | false ↦ do (d, rest) ← raw_delimiter s; some (c ∷ d, rest)
  ]
]

unfoldable pub raw_at : Bool → Text → Option (Text × Text)
unfolding behind_prefix raw_delimiter
raw_at in_word s = if in_word then none else (do t ← behind_prefix raw_prefixes s; raw_delimiter t)

-- ^(.*?)\b(?:R|u8R|uR|UR|LR)"([^\s\\()]*)\((.*)$: the three groups.
unfoldable pub search_raw : Bool → Text → Option (Text × (Text × Text))
unfolding raw_at is_word
search_raw in_word [] = none
search_raw in_word (c ∷ s) = elim (raw_at in_word (c ∷ s)) [
  | some m ↦ some ([], m)
  | none ↦ do (before, m) ← search_raw (is_word c) s; some (c ∷ before, m)
]

-- ^([^\'"]|\'(\\.|[^\'])*\'|"(\\.|[^"])*")*// : all the ways to read the text at once. A way may be
-- outside of quotes, in single or double quotes, or behind a backslash in them.
pub record Ways : Type 0 where
  pub plain : Bool
  pub single : Bool
  pub single_escape : Bool
  pub double : Bool
  pub double_escape : Bool

unfoldable pub advance : ℕ → Ways → Ways
advance c w = record {
  plain =
      (w.plain && not (c == b'\'' || c == b'"'))
      || ((w.single && c == b'\'') || (w.double && c == b'"'));
  single = (w.plain && c == b'\'') || ((w.single && not (c == b'\'')) || w.single_escape);
  single_escape = w.single && c == b'\\';
  double = (w.plain && c == b'"') || ((w.double && not (c == b'"')) || w.double_escape);
  double_escape = w.double && c == b'\\';
}

unfoldable pub reaches_comment : Ways → Text → Bool
unfolding advance starts_with
reaches_comment w [] = false
reaches_comment w (c ∷ s) =
    (w.plain && starts_with (codes "//") (c ∷ s)) || reaches_comment (advance c w) s

unfoldable pub is_commented : Text → Bool
unfolding reaches_comment
is_commented = reaches_comment (record {
  plain = true;
  single = false;
  single_escape = false;
  double = false;
  double_escape = false;
})

-- What stands behind the first `p`, which is not empty.
unfoldable pub behind_text : Text → Text → Option Text
unfolding starts_with
behind_text p [] = none
behind_text p (c ∷ s) = elim (starts_with p (c ∷ s)) [
  | true ↦ some (drop (length p) (c ∷ s))
  | false ↦ behind_text p s
]

-- A round of the inner loop ends it, with the line and the delimiter, or goes on with a line.
pub data RawRound : Type 0 where
  stop : Text → Option Text → RawRound
  again : Text → RawRound

unfoldable pub raw_found : Text → Text × (Text × Text) → RawRound
unfolding is_commented behind_text
raw_found line (before, (d, rest)) =
    let delimiter = b')' ∷ (d ++ (b'"' ∷ [])) in
    if is_commented before then stop line none else elim (behind_text delimiter rest) [
      | none ↦ stop (before ++ codes "\"\"") (some delimiter)
      | some r ↦ again (before ++ (codes "\"\"" ++ r))
    ]

unfoldable pub raw_round : Text → RawRound
unfolding search_raw raw_found
raw_round line = elim (search_raw false line) [ none ↦ stop line none | some m ↦ raw_found line m ]

-- The inner loop, with fuel: the line and the delimiter that is left open.
unfoldable pub raw_from : ℕ → Text → Option (Text × Option Text)
unfolding raw_round
raw_from zero line = none
raw_from (suc f) line = elim (raw_round line) [ stop l d ↦ some (l, d) | again l ↦ raw_from f l ]

-- A round of the outer loop, in front of which a delimiter may be open.
unfoldable pub raw_line : Option Text → Text → Option (Text × Option Text)
unfolding raw_from behind_text skip_spaces
raw_line none line = raw_from (suc (length line)) line
raw_line (some delimiter) line = elim (behind_text delimiter line) [
  | none ↦ some (codes "\"\"", some delimiter)
  | some r ↦
      let space = take (length line - length (skip_spaces line)) line in
      let l = space ++ (codes "\"\"" ++ r) in raw_from (suc (length l)) l
]

unfoldable pub raw_over : Option Text → List Text → Option (List Text)
unfolding raw_line
raw_over delimiter [] = some []
raw_over delimiter (l ∷ ls) = do
  (line, next) ← raw_line delimiter l
  rest ← raw_over next ls
  some (line ∷ rest)

-- CleanseRawStrings
unfoldable pub cleanse_raw_strings : List Text → Option (List Text)
unfolding raw_over
cleanse_raw_strings raw = raw_over none raw

pub record CleansedLines : Type 0 where
  pub elided : List Text
  pub lines : List Text
  pub raw_lines : List Text
  pub num_lines : ℕ
  pub lines_without_raw_strings : List Text

-- The lines without strings and comments.
unfoldable pub elide : List Text → Option (List Text)
unfolding collapse_strings cleanse_comments
elide [] = some []
elide (l ∷ ls) = do
  collapsed ← collapse_strings l
  rest ← elide ls
  some (cleanse_comments collapsed ∷ rest)

-- CleansedLines.__init__
unfoldable pub cleansed_lines : List Text → Option CleansedLines
unfolding cleanse_raw_strings elide cleanse_comments
cleansed_lines ls = do
  without ← cleanse_raw_strings ls
  elided ← elide without
  some (record {
    elided = elided;
    lines = map cleanse_comments without;
    raw_lines = ls;
    num_lines = length ls;
    lines_without_raw_strings = without;
  })
