-- ===== src/Lint/Report.antt =====
-- _ShouldPrintError and Error of tools/cpplint.py: which reports are printed and counted.
pub mod Filters
use vsm_cpp_sdk.Prelude.{ℕ, Bool, true, false, not, List, [], ◌∷◌, ◌++◌, ltb, if◌then◌else◌, drop}
use vsm_cpp_sdk.Text.{Text, codes, text_eq, cat}
use vsm_cpp_sdk.Text.Int.{ℤ, pos, negsuc}
use vsm_cpp_sdk.Text.Decimal.{show}
use vsm_cpp_sdk.Text.Find.{starts_with}
use vsm_cpp_sdk.Result.{Result, ok, err, assertion_error, ◌>>=◌}
use vsm_cpp_sdk.Lint.State.{CppLintState, increment_error_count}
use vsm_cpp_sdk.Lint.Nolint.{Suppressions, is_suppressed, Report}

-- confidence < verbose_level
unfoldable pub below : ℕ → ℤ → Bool
below n (pos v) = ltb n v
below n (negsuc v) = false

-- The loop of _ShouldPrintError over the filters.
unfoldable pub is_filtered : Text → Bool → List Text → Result Bool
is_filtered category filtered [] = ok filtered
is_filtered category filtered (f ∷ fs) = elim (starts_with (codes "-") f) [
  | true ↦ is_filtered category (if starts_with (drop 1 f) category then true else filtered) fs
  | false ↦ elim (starts_with (codes "+") f) [
    | true ↦ is_filtered category (if starts_with (drop 1 f) category then false else filtered) fs
    | false ↦ err assertion_error
  ]
]

-- _ShouldPrintError
unfoldable pub should_print_error : CppLintState → Suppressions → Report → Result Bool
unfolding below
should_print_error s sup r =
    if is_suppressed sup r.category r.linenum
    then ok false
    else if below r.confidence s.verbose_level
    then ok false
    else (do filtered ← is_filtered r.category false s.filters; ok (not filtered))

-- The line that Error writes to stderr.
unfoldable pub report_text : Text → Text → Report → Text
report_text output_format filename r =
    if text_eq output_format (codes "vs7")
    then cat (
        filename
        ∷ codes "("
        ∷ show r.linenum
        ∷ codes "): error cpplint: ["
        ∷ r.category
        ∷ codes "] "
        ∷ r.message
        ∷ codes " ["
        ∷ show r.confidence
        ∷ codes "]\n"
        ∷ [])
    else if text_eq output_format (codes "eclipse")
    then cat (
        filename
        ∷ codes ":"
        ∷ show r.linenum
        ∷ codes ": warning: "
        ∷ r.message
        ∷ codes "  ["
        ∷ r.category
        ∷ codes "] ["
        ∷ show r.confidence
        ∷ codes "]\n"
        ∷ [])
    else cat (
        filename
        ∷ codes ":"
        ∷ show r.linenum
        ∷ codes ":  "
        ∷ r.message
        ∷ codes "  ["
        ∷ r.category
        ∷ codes "] ["
        ∷ show r.confidence
        ∷ codes "]\n"
        ∷ [])

-- Error: the new state, and what it writes.
unfoldable pub error :
    Suppressions → Text → CppLintState × Text → Report → Result (CppLintState × Text)
unfolding should_print_error report_text
error sup filename (s, out) r = do
  print ← should_print_error s sup r
  ok (
      if print
      then (increment_error_count s r.category, out ++ report_text s.output_format filename r)
      else (s, out))
