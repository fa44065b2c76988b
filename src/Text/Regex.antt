-- ===== src/Text/Regex.antt =====
-- The regular expressions of Python's `re` that tools/cpplint.py uses: a matcher that tries the ways to
-- match in the order of `re`, and gives the groups of the first one. The classes are those of ASCII.
pub mod Syntax
use vsm_cpp_sdk.Prelude.{
  ℕ, zero, suc, ◌+◌, ◌-◌, Bool, true, false, not, ◌&&◌, ◌||◌, Option, none, some, List, [], ◌∷◌,
  ◌++◌, ◌==◌, ltb, length, take, if◌then◌else◌,
}
use vsm_cpp_sdk.Text.{Text, is_word}
use vsm_cpp_sdk.Text.Find.{reverse_onto}

pub data Regex : Type 0 where
  nothing : Regex
  one : (ℕ → Bool) → Regex
  line_start line_end word_end : Regex
  both either : Regex → Regex → Regex
  many few : Regex → Regex
  group : ℕ → Regex → Regex
  ahead : Bool → Regex → Regex

-- A cursor in a text: the characters before it, the last one first, those behind it, and the groups
-- that are matched so far, each with its start and its text, the last one first.
pub record Cursor : Type 0 where
  pub before : Text
  pub after : Text
  pub groups : List (ℕ × ℕ × Text)

abbrev first_of {ℓ} : {A : Type ℓ} → Option A → Option A → Option A
first_of none y = y
first_of (some a) y = some a

abbrev begins_word : Text → Bool
begins_word [] = false
begins_word (c ∷ s) = is_word c

-- $ is the end, or a line feed that ends the text.
abbrev at_end : Text → Bool
at_end [] = true
at_end (c ∷ []) = c == b'\n'
at_end (c ∷ d ∷ s) = false

abbrev at_start : Text → Bool
at_start [] = true
at_start (c ∷ s) = false

-- \b
unfoldable pub at_word_end : Cursor → Bool
unfolding is_word
at_word_end p = let b = begins_word p.before in if begins_word p.after then not b else b

abbrev take_one : (ℕ → Bool) → Cursor → Option Cursor
take_one test p = elim p.after [
  | [] ↦ none
  | c ∷ s ↦ if test c then some (record p { before = c ∷ p.before; after = s }) else none
]

-- The text that is matched from `p` to `q`.
abbrev covered : Cursor → Cursor → Text
covered p q = reverse_onto (take (length q.before - length p.before) q.before) []

-- r* with at most `n` rounds: another round first, or the rest first.
unfoldable pub rounds :
    ℕ
    → (Cursor → (Cursor → Option Cursor) → Option Cursor)
    → Cursor
    → (Cursor → Option Cursor)
    → Option Cursor
rounds zero body p k = k p
rounds (suc n) body p k = elim (body p (λ q. rounds n body q k)) [ some q ↦ some q | none ↦ k p ]

unfoldable pub fewer :
    ℕ
    → (Cursor → (Cursor → Option Cursor) → Option Cursor)
    → Cursor
    → (Cursor → Option Cursor)
    → Option Cursor
fewer zero body p k = k p
fewer (suc n) body p k = elim (k p) [ some q ↦ some q | none ↦ body p (λ q. fewer n body q k) ]

-- The ways to match a text from a cursor on, and to go on with `k` from where the match ends. A round
-- of a repetition takes a character, so the length of the text bounds the rounds.
unfoldable pub run : Regex → Cursor → (Cursor → Option Cursor) → Option Cursor
unfolding at_word_end rounds fewer reverse_onto
run nothing p k = k p
run (one test) p k = elim (take_one test p) [ none ↦ none | some q ↦ k q ]
run line_start p k = if at_start p.before then k p else none
run line_end p k = if at_end p.after then k p else none
run word_end p k = if at_word_end p then k p else none
run (both r s) p k = run r p (λ q. run s q k)
run (either r s) p k = let other = run s p k in elim (run r p k) [ some q ↦ some q | none ↦ other ]
run (many r) p k = rounds (length p.after) (run r) p k
run (few r) p k = fewer (length p.after) (run r) p k
run (group n r) p k =
    run r p (λ q. k (record q { groups = (n, length p.before, covered p q) ∷ q.groups }))
run (ahead wanted r) p k = elim (run r p (λ q. some q)) [
  | some q ↦ if wanted then k (record p { groups = q.groups }) else none
  | none ↦ if wanted then none else k p
]

-- What a match gives: where it begins and ends, and its groups.
pub record MatchObject : Type 0 where
  pub start : ℕ
  pub text : Text
  pub rest : Text
  pub groups : List (ℕ × ℕ × Text)

abbrev match_at : Regex → Text → Text → Option MatchObject
match_at r before after =
    let p : Cursor = record { before = before; after = after; groups = [] } in
    elim (run r p (λ q. some q)) [
      | none ↦ none
      | some q ↦
          some (record {
            start = length before;
            text = covered p q;
            rest = q.after;
            groups = q.groups;
          })
    ]

-- re.match
unfoldable pub re_match : Regex → Text → Option MatchObject
unfolding run
re_match r s = match_at r [] s

-- re.search, behind the characters `before`
unfoldable pub re_search_from : Regex → Text → Text → Option MatchObject
unfolding run
re_search_from r before [] = match_at r before []
re_search_from r before (c ∷ s) = elim (match_at r before (c ∷ s)) [
  | some m ↦ some m
  | none ↦ re_search_from r (c ∷ before) s
]

unfoldable pub re_search : Regex → Text → Option MatchObject
unfolding re_search_from
re_search r s = re_search_from r [] s

-- m.group(n) and m.start(n) for a group; `none` for one that is not matched
abbrev find_group : ℕ → List (ℕ × ℕ × Text) → Option (ℕ × Text)
find_group n [] = none
find_group n ((m, i, t) ∷ gs) = if m == n then some (i, t) else find_group n gs

unfoldable pub group? : MatchObject → ℕ → Option Text
group? m n = elim (find_group n m.groups) [ none ↦ none | some (i, t) ↦ some t ]

unfoldable pub group_text : MatchObject → ℕ → Text
group_text m n = elim (find_group n m.groups) [ none ↦ [] | some (i, t) ↦ t ]

unfoldable pub group_start : MatchObject → ℕ → ℕ
group_start m n = elim (find_group n m.groups) [ none ↦ 0 | some (i, t) ↦ i ]

abbrev pub is_some {ℓ} : {A : Type ℓ} → Option A → Bool
is_some none = false
is_some (some a) = true

unfoldable pub matches : Regex → Text → Bool
unfolding re_match
matches r s = is_some (re_match r s)

unfoldable pub found_in : Regex → Text → Bool
unfolding re_search
found_in r s = is_some (re_search r s)
