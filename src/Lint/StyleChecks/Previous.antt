-- ===== src/Lint/StyleChecks/Previous.antt =====
-- What GetPreviousNonBlankLine of tools/cpplint.py finds.
use vsm_cpp_sdk.Prelude.{
  ℕ, ◌≡◌, refl, sym, ap, ◌∙◌, Bool, true, false, ◌&&◌, Option, none, some, List, [], ◌∷◌, ◌++◌, ◌+◌,
  arith, length, take, Bool-cases, inl, inr, append_assoc, append-nil,
}
use vsm_cpp_sdk.Text.{Text}
use vsm_cpp_sdk.Text.Find.{reverse_onto}
use vsm_cpp_sdk.Lint.StyleChecks.{is_blank_line, previous_from, get_previous_non_blank_line}

unfoldable pub all_blank : List Text → Bool
unfolding is_blank_line
all_blank [] = true
all_blank (l ∷ ls) = is_blank_line l && all_blank ls

abbrev Before : List Text → Option (Text × ℕ) → Type 0
Before ls none = all_blank ls ≡ true
Before ls (some (l, i)) =
    (blanks rest : List Text) × (ls ≡ blanks ++ (l ∷ rest))
    × (all_blank blanks ≡ true)
    × (is_blank_line l ≡ false)
    × (i ≡ length rest)

both_true : (a b : Bool) → a ≡ true → b ≡ true → (a && b) ≡ true
both_true a b h k = ground arith

add_blank :
    (l : Text) (ls : List Text) (o : Option (Text × ℕ))
    → is_blank_line l ≡ true
    → Before ls o
    → Before (l ∷ ls) o
unfolding all_blank
add_blank l ls none h b = both_true (is_blank_line l) (all_blank ls) h b
add_blank l ls (some (m, i)) h (blanks, rest, e, k, n, len) = (
  l ∷ blanks,
  rest,
  ap (λ t. l ∷ t) e,
  both_true (is_blank_line l) (all_blank blanks) h k,
  n,
  len,
)

previous_from-Before : (ls : List Text) → Before ls (previous_from ls)
unfolding previous_from all_blank
previous_from-Before [] = refl
previous_from-Before (l ∷ ls) = elim (Bool-cases (is_blank_line l)) [
  | inl h ↦ rw (h, previous_from) (add_blank l ls (previous_from ls) h (previous_from-Before ls))
  | inr h ↦ rw (h, previous_from) ([], ls, refl, refl, h, refl)
]

-- Lists in reverse.
reverse_onto-append : (xs ys zs : List Text) → reverse_onto xs ys ++ zs ≡ reverse_onto xs (ys ++ zs)
unfolding reverse_onto
reverse_onto-append [] ys zs = refl
reverse_onto-append (x ∷ xs) ys zs = reverse_onto-append xs (x ∷ ys) zs

reverse_onto-split :
    (xs ys zs : List Text) → reverse_onto (xs ++ ys) zs ≡ reverse_onto ys (reverse_onto xs zs)
unfolding reverse_onto
reverse_onto-split [] ys zs = refl
reverse_onto-split (x ∷ xs) ys zs = reverse_onto-split xs ys (x ∷ zs)

reverse_onto-twice :
    (xs ys : List Text) → reverse_onto (reverse_onto xs ys) [] ≡ reverse_onto ys [] ++ xs
unfolding reverse_onto
reverse_onto-twice [] ys = sym (append-nil (reverse_onto ys []))
reverse_onto-twice (x ∷ xs) ys =
    reverse_onto-twice xs (x ∷ ys)
    ∙ ap (λ zs. zs ++ xs) (sym (reverse_onto-append ys [] (x ∷ [])))
    ∙ append_assoc (reverse_onto ys []) (x ∷ []) xs

length-reverse : (xs ys : List Text) → length (reverse_onto xs ys) ≡ length xs + length ys
unfolding reverse_onto
length-reverse [] ys = omega arith
length-reverse (x ∷ xs) ys = omega (arith, length-reverse xs (x ∷ ys))

each : (a b : Bool) → (a && b) ≡ true → (a ≡ true) × (b ≡ true)
each a b h = (ground arith, ground arith)

all_blank-reverse :
    (xs ys : List Text)
    → all_blank xs ≡ true
    → all_blank ys ≡ true
    → all_blank (reverse_onto xs ys) ≡ true
unfolding reverse_onto all_blank
all_blank-reverse [] ys h k = k
all_blank-reverse (x ∷ xs) ys h k =
    let (first, rest) = each (is_blank_line x) (all_blank xs) h in
    all_blank-reverse xs (x ∷ ys) rest (both_true (is_blank_line x) (all_blank ys) first k)

-- A line behind which all lines are blank, with the number of the lines before it, or all are blank.
abbrev pub Previous : List Text → Option (Text × ℕ) → Type 0
Previous lines none = all_blank lines ≡ true
Previous lines (some (l, i)) =
    (before blanks : List Text) × (lines ≡ before ++ (l ∷ blanks))
    × (all_blank blanks ≡ true)
    × (is_blank_line l ≡ false)
    × (i ≡ length before)

in_order :
    (lines : List Text) (o : Option (Text × ℕ))
    → Before (reverse_onto lines []) o
    → Previous lines o
unfolding all_blank reverse_onto
in_order lines none h =
    ap all_blank (sym (reverse_onto-twice lines []))
    ∙ all_blank-reverse (reverse_onto lines []) [] h refl
in_order lines (some (l, i)) (blanks, rest, e, k, n, len) = (
  reverse_onto rest [],
  reverse_onto blanks [],
  sym (reverse_onto-twice lines [])
      ∙ ap (λ r. reverse_onto r []) e
      ∙ reverse_onto-split blanks (l ∷ rest) []
      ∙ sym (reverse_onto-append rest [] (l ∷ reverse_onto blanks [])),
  all_blank-reverse blanks [] k refl,
  n,
  omega (arith, len, length-reverse rest []),
)

-- GetPreviousNonBlankLine gives the last line before a line that is not blank, with its number, or none
-- if all lines before are blank.
pub get_previous_non_blank_line-Previous :
    (elided : List Text) (linenum : ℕ)
    → Previous (take linenum elided) (get_previous_non_blank_line elided linenum)
unfolding get_previous_non_blank_line
get_previous_non_blank_line-Previous elided linenum =
    let lines = take linenum elided in
    in_order lines (previous_from (reverse_onto lines []))
      (previous_from-Before (reverse_onto lines []))
