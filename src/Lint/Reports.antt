-- ===== src/Lint/Reports.antt =====
-- What the checks of tools/cpplint.py hand to Error.
use vsm_cpp_sdk.Prelude.{ℕ, Bool, true, false, List, [], ◌∷◌}
use vsm_cpp_sdk.Text.{Text}
use vsm_cpp_sdk.Lint.Nolint.{Report}

abbrev pub report : ℕ → Text → ℕ → Text → Report
report linenum category confidence message = record {
  linenum = linenum;
  category = category;
  confidence = confidence;
  message = message;
}

abbrev pub report_if : Bool → Report → List Report
report_if true r = r ∷ []
report_if false r = []
