-- ===== src/Lint/Report/Filters.antt =====
-- The filters of tools/cpplint.py: the last one that matches decides, and the assertion of
-- _ShouldPrintError never fails in a state that the methods of _CppLintState have made.
use vsm_cpp_sdk.Prelude.{
  ◌≡◌, refl, ap, ◌∙◌, Bool, true, false, not, ◌&&◌, Option, none, some, List, [], ◌∷◌, All,
  if◌then◌else◌, drop, Bool-cases, &&-true, inl, inr, arith,
}
use vsm_cpp_sdk.Text.{Text, codes}
use vsm_cpp_sdk.Text.Int.{ℤ}
use vsm_cpp_sdk.Text.Find.{starts_with, split_on}
use vsm_cpp_sdk.Result.{ok, ok-subst}
use vsm_cpp_sdk.Lint.State.{
  CppLintState, lint_state, default_filters, extend_filters, is_filter, all_filters, add_filters,
  set_filters, backup_filters, restore_filters, reset_error_counts, increment_error_count,
  set_verbose_level, set_counting_style, set_output_format,
}
use vsm_cpp_sdk.Lint.Nolint.{Suppressions, is_suppressed, Report}
use vsm_cpp_sdk.Lint.Report.{below, is_filtered, should_print_error}

abbrev pub Valid : List Text → Type 0
Valid = All (λ f. is_filter f ≡ true)

abbrev hides : Text → Bool
hides f = starts_with (codes "-") f

-- The last filter whose text behind the sign is a prefix of the category.
unfoldable pub deciding : Text → List Text → Option Text
deciding category [] = none
deciding category (f ∷ fs) = elim (deciding category fs) [
  | some g ↦ some g
  | none ↦ if starts_with (drop 1 f) category then some f else none
]

abbrev pub outcome : Bool → Option Text → Bool
outcome start none = start
outcome start (some f) = hides f

plus_of : (f : Text) → is_filter f ≡ true → hides f ≡ false → starts_with (codes "+") f ≡ true
unfolding is_filter
plus_of f h k = ground arith

outcome-cons :
    (category f : Text) (start : Bool) (fs : List Text) (o : Option Text)
    → deciding category fs ≡ o
    → outcome (if starts_with (drop 1 f) category then hides f else start) o
      ≡ outcome start (deciding category (f ∷ fs))
unfolding deciding
outcome-cons category f start fs none e =
    rw e (elim (Bool-cases (starts_with (drop 1 f) category)) [ inl m ↦ rw m | inr m ↦ rw m ])
outcome-cons category f start fs (some g) e = rw e

is_filtered-cons :
    (category f : Text) (start : Bool) (fs : List Text)
    → is_filter f ≡ true
    → is_filtered category start (f ∷ fs)
      ≡ is_filtered category (if starts_with (drop 1 f) category then hides f else start) fs
unfolding is_filtered starts_with
is_filtered-cons category f start fs h = elim (Bool-cases (hides f)) [
  | inl minus ↦ rw minus
  | inr minus ↦ rw (minus, plus_of f h minus)
]

is_filtered-last :
    (category : Text) (start : Bool) (fs : List Text)
    → Valid fs
    → is_filtered category start fs ≡ ok (outcome start (deciding category fs))
is_filtered-last category start [] h = unfold is_filtered deciding in refl
is_filtered-last category start (f ∷ fs) (hf, hfs) =
    is_filtered-cons category f start fs hf
    ∙ (is_filtered-last category (if starts_with (drop 1 f) category then hides f else start) fs hfs
        ∙ ap ok (outcome-cons category f start fs (deciding category fs) refl))

-- With filters that begin with a sign the decision is made: an error is printed exactly when it is
-- not suppressed, its confidence is at least the verbosity, and the last filter that matches its
-- category, if there is one, begins with no minus.
should_print_error-Valid :
    (s : CppLintState) (sup : Suppressions) (r : Report)
    → Valid s.filters
    → should_print_error s sup r
      ≡ ok (
          not (is_suppressed sup r.category r.linenum)
          && (not (below r.confidence s.verbose_level)
              && not (outcome false (deciding r.category s.filters))))
unfolding should_print_error
should_print_error-Valid s sup r h =
    rw (is_filtered-last r.category false s.filters h)
      (elim (Bool-cases (is_suppressed sup r.category r.linenum)) [
        | inl a ↦ rw a
        | inr a ↦
            rw a (elim (Bool-cases (below r.confidence s.verbose_level)) [
              | inl b ↦ rw b
              | inr b ↦ rw b
            ])
      ])

-- What the program does with its state, from the start on.
pub data Reachable : CppLintState → Type 0 where
  start : Reachable lint_state
  formatted : {s : CppLintState} (t : Text) → Reachable s → Reachable (set_output_format s t)
  levelled : {s : CppLintState} (v : ℤ) → Reachable s → Reachable (set_verbose_level s v).0
  styled : {s : CppLintState} (t : Text) → Reachable s → Reachable (set_counting_style s t)
  replaced : {s r : CppLintState} (t : Text) → Reachable s → set_filters s t ≡ ok r → Reachable r
  extended : {s r : CppLintState} (t : Text) → Reachable s → add_filters s t ≡ ok r → Reachable r
  saved : {s : CppLintState} → Reachable s → Reachable (backup_filters s)
  restored : {s : CppLintState} → Reachable s → Reachable (restore_filters s)
  cleared : {s : CppLintState} → Reachable s → Reachable (reset_error_counts s)
  counted : {s : CppLintState} (t : Text) → Reachable s → Reachable (increment_error_count s t)

abbrev BothValid : CppLintState → Type 0
BothValid s = Valid s.filters × Valid s.filters_backup

all_filters-Valid : (fs : List Text) → all_filters fs ≡ true → Valid fs
unfolding all_filters
all_filters-Valid [] h = tt
all_filters-Valid (f ∷ fs) h =
    let (hf, hfs) = &&-true (is_filter f) (all_filters fs) h in (hf, all_filters-Valid fs hfs)

add_filters-BothValid :
    (s r : CppLintState) (t : Text) → Valid s.filters_backup → add_filters s t ≡ ok r → BothValid r
unfolding add_filters
add_filters-BothValid s r t v h =
    let fs = extend_filters s.filters (split_on b',' t) in
    elim (Bool-cases (all_filters fs)) [
      | inl good ↦ ok-subst BothValid (rw good at h) (all_filters-Valid fs good, v)
      | inr bad ↦ cc (rw bad at h)
    ]

default-Valid : Valid default_filters
unfolding is_filter starts_with
default-Valid = (refl, tt)

Reachable-BothValid : {s : CppLintState} → Reachable s → BothValid s
unfolding lint_state set_output_format set_verbose_level set_counting_style set_filters
    backup_filters restore_filters reset_error_counts increment_error_count
Reachable-BothValid start = (default-Valid, default-Valid)
Reachable-BothValid (formatted t h) = Reachable-BothValid h
Reachable-BothValid (levelled v h) = Reachable-BothValid h
Reachable-BothValid (styled t h) = Reachable-BothValid h
Reachable-BothValid (replaced {s} {r} t h e) =
    add_filters-BothValid (record s { filters = default_filters }) r t (Reachable-BothValid h).1 e
Reachable-BothValid (extended {s} {r} t h e) =
    add_filters-BothValid s r t (Reachable-BothValid h).1 e
Reachable-BothValid (saved h) = let v = Reachable-BothValid h in (v.0, v.0)
Reachable-BothValid (restored h) = let v = Reachable-BothValid h in (v.1, v.1)
Reachable-BothValid (cleared h) = Reachable-BothValid h
Reachable-BothValid (counted t h) = Reachable-BothValid h

-- In every state that the methods make, the assertion of _ShouldPrintError holds, and an error is
-- printed exactly when it is not suppressed, its confidence is at least the verbosity, and the last
-- filter that matches its category, if there is one, begins with no minus.
pub should_print_error-Reachable :
    {s : CppLintState} (sup : Suppressions) (r : Report)
    → Reachable s
    → should_print_error s sup r
      ≡ ok (
          not (is_suppressed sup r.category r.linenum)
          && (not (below r.confidence s.verbose_level)
              && not (outcome false (deciding r.category s.filters))))
should_print_error-Reachable {s} sup r h =
    should_print_error-Valid s sup r (Reachable-BothValid h).0
