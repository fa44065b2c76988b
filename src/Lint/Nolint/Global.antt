-- ===== src/Lint/Nolint/Global.antt =====
-- ProcessGlobalSuppresions of tools/cpplint.py: the suppressions for a whole file, and what they are.
use vsm_cpp_sdk.Prelude.{
  ℕ, ◌≡◌, refl, ◌∙◌, Bool, true, false, not, ◌&&◌, ◌||◌, List, [], ◌∷◌, ◌++◌, drop, if◌then◌else◌,
  arith,
}
use vsm_cpp_sdk.Text.{Text, codes, is_word}
use vsm_cpp_sdk.Text.Find.{starts_with, has_text}
use vsm_cpp_sdk.Lint.Nolint.{Suppressions, contains, is_suppressed, c_suppressed, kernel_suppressed}

-- The search of \b and a pattern that begins with a word character: whether the text passes `test`
-- from a place on with no word character in front of it.
unfoldable pub search_word : (Text → Bool) → Bool → Text → Bool
unfolding is_word
search_word test in_word [] = false
search_word test in_word (c ∷ s) = (not in_word && test (c ∷ s)) || search_word test (is_word c) s

-- LINT_C_FILE|vim?:\s*.*(\s*|:)filetype=c(\s*|:|$), where the groups may be empty.
unfoldable pub is_c_mark : Text → Bool
unfolding starts_with has_text
is_c_mark s =
    starts_with (codes "LINT_C_FILE") s
    || ((starts_with (codes "vi:") s && has_text (codes "filetype=c") (drop 3 s))
        || (starts_with (codes "vim:") s && has_text (codes "filetype=c") (drop 4 s)))

-- _SEARCH_C_FILE and _SEARCH_KERNEL_FILE
unfoldable pub search_c_file : Text → Bool
unfolding search_word is_c_mark
search_c_file = search_word is_c_mark false

unfoldable pub search_kernel_file : Text → Bool
unfolding search_word starts_with
search_kernel_file = search_word (starts_with (codes "LINT_KERNEL_FILE")) false

-- _global_error_suppressions[category] = True for each category.
unfoldable pub suppress_file : List Text → Suppressions → Suppressions
suppress_file categories s = record s { global = s.global ++ categories }

-- ProcessGlobalSuppresions
unfoldable pub process_global : Suppressions → List Text → Suppressions
unfolding search_c_file search_kernel_file suppress_file
process_global s [] = s
process_global s (line ∷ lines) =
    let s1 = if search_c_file line then suppress_file c_suppressed s else s in
    let s2 = if search_kernel_file line then suppress_file kernel_suppressed s1 else s1 in
    process_global s2 lines

-- A line of a file that is marked.
unfoldable pub any_line : (Text → Bool) → List Text → Bool
any_line test [] = false
any_line test (l ∷ ls) = test l || any_line test ls

contains-append :
    (t : Text) (us vs : List Text) → contains t (us ++ vs) ≡ (contains t us || contains t vs)
unfolding contains
contains-append t [] vs = refl
contains-append t (u ∷ us) vs = ground (arith, contains-append t us vs)

-- Whether a category stays suppressed, or becomes so.
is_suppressed-suppress_file :
    (cs : List Text) (s : Suppressions) (c : Text) (n : ℕ)
    → is_suppressed (suppress_file cs s) c n ≡ (is_suppressed s c n || contains c cs)
unfolding suppress_file is_suppressed
is_suppressed-suppress_file cs s c n = rw (contains-append c s.global cs) (ground arith)

is_suppressed-if :
    (b : Bool) (cs : List Text) (s : Suppressions) (c : Text) (n : ℕ)
    → is_suppressed (if b then suppress_file cs s else s) c n
      ≡ (is_suppressed s c n || (b && contains c cs))
is_suppressed-if true cs s c n = is_suppressed-suppress_file cs s c n
is_suppressed-if false cs s c n = ground arith

-- ProcessGlobalSuppresions suppresses, on every line, the categories for C files if some line of the
-- file is marked as C, those for kernel files if some line is marked as kernel code, and nothing more.
pub process_global-marks :
    (s : Suppressions) (lines : List Text) (c : Text) (n : ℕ)
    → is_suppressed (process_global s lines) c n ≡ (
        is_suppressed s c n
        || ((any_line search_c_file lines && contains c c_suppressed)
            || (any_line search_kernel_file lines && contains c kernel_suppressed)))
unfolding process_global any_line
process_global-marks s [] c n = ground arith
process_global-marks s (l ∷ ls) c n =
    let s1 = if search_c_file l then suppress_file c_suppressed s else s in
    let s2 = if search_kernel_file l then suppress_file kernel_suppressed s1 else s1 in
    process_global-marks s2 ls c n
    ∙ rw
        (
          is_suppressed-if (search_kernel_file l) kernel_suppressed s1 c n,
          is_suppressed-if (search_c_file l) c_suppressed s c n,
        )
        (spread (is_suppressed s c n) (search_c_file l) (any_line search_c_file ls)
          (search_kernel_file l) (any_line search_kernel_file ls) (contains c c_suppressed)
          (contains c kernel_suppressed))
  where
    spread :
        (a b b' k k' x y : Bool)
        → (((a || (b && x)) || (k && y)) || ((b' && x) || (k' && y)))
          ≡ (a || (((b || b') && x) || ((k || k') && y)))
    spread a b b' k k' x y = ground arith
