-- ===== src/Text/Regex/Syntax.antt =====
-- The notation of Python's regular expressions, read into Regex: what tools/cpplint.py uses of it.
use vsm_cpp_sdk.Prelude.{
  ℕ, zero, suc, String, Bool, true, false, not, ◌&&◌, ◌||◌, Option, none, some, List, [], ◌∷◌, ◌==◌,
  leb, length, if◌then◌else◌,
}
use vsm_cpp_sdk.Text.{Text, codes, is_word, is_digit, is_space}
use vsm_cpp_sdk.Text.Regex.{
  Regex, nothing, one, line_start, line_end, word_end, both, either, many, few, group, ahead,
}

-- What an opening bracket begins: a group, (?: ), (?= ) or (?! ).
pub data Opening : Type 0 where
  capture plain followed not_followed : Opening

-- A quantifier: * + ? and these with a ? behind them.
pub data Times : Type 0 where
  any_times some_times at_most_once : Times

pub data Token : Type 0 where
  open_group : Opening → Token
  close_group bar : Token
  times : Times → Bool → Token
  atom : Regex → Token

-- The class that a letter names behind a backslash; another character stands for itself.
unfoldable pub class_of : ℕ → ℕ → Bool
unfolding is_word is_digit is_space
class_of e c =
    if e == b's'
    then is_space c
    else if e == b'w'
    then is_word c
    else if e == b'd'
    then is_digit c
    else if e == b'W'
    then not (is_word c)
    else if e == b'S'
    then not (is_space c)
    else if e == b'D'
    then not (is_digit c)
    else if e == b't'
    then c == b'\t'
    else if e == b'n'
    then c == b'\n'
    else c == e

abbrev escaped : ℕ → Regex
escaped e = if e == b'b' then word_end else one (class_of e)

-- One character or range of a class in square brackets, which begins with `c`, and what is behind it.
unfoldable pub class_item : ℕ → Text → (ℕ → Bool) × Text
unfolding class_of
class_item c [] = ((λ d. d == c), [])
class_item c (e ∷ []) = if c == b'\\' then (class_of e, []) else ((λ d. d == c), e ∷ [])
class_item c (e ∷ g ∷ s) =
    if c == b'\\'
    then (class_of e, g ∷ s)
    else if e == b'-' && not (g == b']')
    then ((λ d. leb c d && leb d g), s)
    else ((λ d. d == c), e ∷ g ∷ s)

-- The class up to its bracket, and what is behind that.
unfoldable pub class_items : ℕ → Text → (ℕ → Bool) × Text
unfolding class_item
class_items zero s = ((λ _. false), s)
class_items (suc f) [] = ((λ _. false), [])
class_items (suc f) (c ∷ s) = elim (c == b']') [
  | true ↦ ((λ _. false), s)
  | false ↦
      let (test, t) = class_item c s in
      let (more, rest) = class_items f t in ((λ d. test d || more d), rest)
]

abbrev class_token : Text → Token × Text
class_token [] = (atom (one (λ _. false)), [])
class_token (c ∷ s) =
    if c == b'^'
    then (let (test, rest) = class_items (length s) s in (atom (one (λ d. not (test d))), rest))
    else (let (test, rest) = class_items (suc (length s)) (c ∷ s) in (atom (one test), rest))

abbrev escape_token : Text → Token × Text
escape_token [] = (atom nothing, [])
escape_token (e ∷ s) = (atom (escaped e), s)

abbrev lazily : Times → Text → Token × Text
lazily t [] = (times t false, [])
lazily t (c ∷ s) = if c == b'?' then (times t true, s) else (times t false, c ∷ s)

abbrev open_token : Text → Token × Text
open_token [] = (open_group capture, [])
open_token (c ∷ []) = (open_group capture, c ∷ [])
open_token (c ∷ d ∷ s) =
    if not (c == b'?')
    then (open_group capture, c ∷ d ∷ s)
    else if d == b':'
    then (open_group plain, s)
    else if d == b'='
    then (open_group followed, s)
    else (open_group not_followed, s)

-- The token that begins with `c`, and what is behind it.
unfoldable pub token : ℕ → Text → Token × Text
unfolding class_items class_of
token c s =
    if c == b'('
    then open_token s
    else if c == b')'
    then (close_group, s)
    else if c == b'|'
    then (bar, s)
    else if c == b'*'
    then lazily any_times s
    else if c == b'+'
    then lazily some_times s
    else if c == b'?'
    then lazily at_most_once s
    else if c == b'['
    then class_token s
    else if c == b'.'
    then (atom (one (λ d. not (d == b'\n'))), s)
    else if c == b'^'
    then (atom line_start, s)
    else if c == b'$'
    then (atom line_end, s)
    else if c == b'\\'
    then escape_token s
    else (atom (one (λ d. d == c)), s)

unfoldable pub tokens : ℕ → Text → List Token
unfolding token
tokens zero s = []
tokens (suc f) [] = []
tokens (suc f) (c ∷ s) = let (t, rest) = token c s in t ∷ tokens f rest

-- An open group: its kind and number, what stands before its last bar, and behind it, the last first.
pub record Frame : Type 0 where
  pub opening : Opening
  pub number : ℕ
  pub others : Option Regex
  pub items : List Regex

abbrev in_order : List Regex → Regex
in_order [] = nothing
in_order (r ∷ []) = r
in_order (r ∷ q ∷ rs) = both (in_order (q ∷ rs)) r

abbrev joined : Frame → Regex
joined f = elim f.others [ none ↦ in_order f.items | some r ↦ either r (in_order f.items) ]

abbrev built : Opening → ℕ → Regex → Regex
built capture n r = group n r
built plain n r = r
built followed n r = ahead true r
built not_followed n r = ahead false r

abbrev repeated : Times → Bool → Regex → Regex
repeated any_times lazy r = if lazy then few r else many r
repeated some_times lazy r = both r (if lazy then few r else many r)
repeated at_most_once lazy r = if lazy then either nothing r else either r nothing

abbrev push : Regex → Frame → Frame
push r f = record f { items = r ∷ f.items }

abbrev repeat_last : Times → Bool → List Regex → List Regex
repeat_last t lazy [] = []
repeat_last t lazy (r ∷ rs) = repeated t lazy r ∷ rs

abbrev begun : Opening → ℕ → Frame
begun o n = record { opening = o; number = n; others = none; items = [] }

abbrev is_capture : Opening → Bool
is_capture capture = true
is_capture o = false

-- The groups that are open, the inmost apart, and the number of the next group.
unfoldable pub assemble : Frame → List Frame → ℕ → List Token → Option Regex
assemble f [] n [] = some (joined f)
assemble f (g ∷ fs) n [] = none
assemble f fs n (atom r ∷ ts) = assemble (push r f) fs n ts
assemble f fs n (times t lazy ∷ ts) =
    assemble (record f { items = repeat_last t lazy f.items }) fs n ts
assemble f fs n (bar ∷ ts) = assemble (record f { others = some (joined f); items = [] }) fs n ts
assemble f fs n (open_group o ∷ ts) =
    assemble (begun o n) (f ∷ fs) (if is_capture o then suc n else n) ts
assemble f [] n (close_group ∷ ts) = none
assemble f (g ∷ fs) n (close_group ∷ ts) =
    assemble (push (built f.opening f.number (joined f)) g) fs n ts

-- A pattern; one that is not well formed matches nothing.
unfoldable pub regex_of : Text → Regex
unfolding tokens assemble
regex_of s = elim (assemble (begun plain 0) [] 1 (tokens (length s) s)) [
  | some r ↦ r
  | none ↦ one (λ _. false)
]

unfoldable pub regex : String → Regex
unfolding regex_of
regex s = regex_of (codes s)
