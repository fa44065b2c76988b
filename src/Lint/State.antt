-- ===== src/Lint/State.antt =====
-- The class _CppLintState of tools/cpplint.py: the options of a run, the filters, the counts.
pub mod Counts
use vsm_cpp_sdk.Prelude.{
  ℕ, ◌+◌, Bool, true, ◌&&◌, ◌||◌, Option, none, some, List, [], ◌∷◌, ◌++◌, if◌then◌else◌,
}
use vsm_cpp_sdk.Text.{Text, codes, text_eq, for_each, cat}
use vsm_cpp_sdk.Text.Int.{ℤ, pos}
use vsm_cpp_sdk.Text.Decimal.{show}
use vsm_cpp_sdk.Text.Find.{starts_with, split_on, strip}
use vsm_cpp_sdk.Result.{Result, ok, err, value_error}
use vsm_cpp_sdk.Dict.{Dict, get, put}

-- _DEFAULT_FILTERS
abbrev pub default_filters : List Text
default_filters = codes "-build/include_alpha" ∷ []

pub record CppLintState : Type 0 where
  pub verbose_level : ℤ
  pub error_count : ℕ
  pub filters : List Text
  pub filters_backup : List Text
  pub counting : Text
  pub errors_by_category : Dict ℕ
  pub output_format : Text

-- __init__
unfoldable pub lint_state : CppLintState
lint_state = record {
  verbose_level = pos 1;
  error_count = 0;
  filters = default_filters;
  filters_backup = default_filters;
  counting = codes "total";
  errors_by_category = [];
  output_format = codes "emacs";
}

unfoldable pub set_output_format : CppLintState → Text → CppLintState
set_output_format s output_format = record s { output_format = output_format }

-- SetVerboseLevel returns the previous level.
unfoldable pub set_verbose_level : CppLintState → ℤ → CppLintState × ℤ
set_verbose_level s level = (record s { verbose_level = level }, s.verbose_level)

unfoldable pub set_counting_style : CppLintState → Text → CppLintState
set_counting_style s counting = record s { counting = counting }

-- The first loop of AddFilters: what is left of a filter without white space is added, if any is.
unfoldable pub extend_filters : List Text → List Text → List Text
unfolding strip
extend_filters fs [] = fs
extend_filters fs (filt ∷ rest) = elim (strip filt) [
  | [] ↦ extend_filters fs rest
  | c ∷ s ↦ extend_filters (fs ++ ((c ∷ s) ∷ [])) rest
]

unfoldable pub is_filter : Text → Bool
is_filter filt = starts_with (codes "+") filt || starts_with (codes "-") filt

unfoldable pub all_filters : List Text → Bool
all_filters [] = true
all_filters (f ∷ fs) = is_filter f && all_filters fs

-- AddFilters; its ValueError is not caught anywhere.
unfoldable pub add_filters : CppLintState → Text → Result CppLintState
add_filters s filters =
    let fs = extend_filters s.filters (split_on b',' filters) in
    if all_filters fs then ok (record s { filters = fs }) else err value_error

-- SetFilters
unfoldable pub set_filters : CppLintState → Text → Result CppLintState
set_filters s filters = add_filters (record s { filters = default_filters }) filters

unfoldable pub backup_filters : CppLintState → CppLintState
backup_filters s = record s { filters_backup = s.filters }

unfoldable pub restore_filters : CppLintState → CppLintState
restore_filters s = record s { filters = s.filters_backup }

unfoldable pub reset_error_counts : CppLintState → CppLintState
reset_error_counts s = record s { error_count = 0; errors_by_category = [] }

-- category.split('/')[0]
abbrev pub first : List Text → Text
first [] = []
first (t ∷ ts) = t

-- The key under which a category is counted, or none.
unfoldable pub count_key : Text → Text → Option Text
unfolding split_on
count_key counting category =
    if text_eq counting (codes "toplevel")
    then some (first (split_on b'/' category))
    else if text_eq counting (codes "detailed")
    then some category
    else none

-- if k not in d: d[k] = 0, then d[k] += 1; nothing without a key
unfoldable pub bump : Option Text → Dict ℕ → Dict ℕ
bump none d = d
bump (some k) d = elim (get k d) [ none ↦ put k 1 d | some n ↦ put k (n + 1) d ]

unfoldable pub increment_error_count : CppLintState → Text → CppLintState
increment_error_count s category = record s {
  error_count = s.error_count + 1;
  errors_by_category = bump (count_key s.counting category) s.errors_by_category;
}

unfoldable pub category_line : Text × ℕ → Text
category_line (k, n) =
    cat (codes "Category '" ∷ k ∷ codes "' errors found: " ∷ show n ∷ codes "\n" ∷ [])

-- PrintErrorCounts: what it writes to stderr, the categories in the order that the dict gives, and to
-- stdout.
unfoldable pub print_error_counts : (Dict ℕ → Dict ℕ) → CppLintState → Text × Text
unfolding category_line
print_error_counts order s = (
  for_each category_line (order s.errors_by_category),
  cat (codes "Total errors found: " ∷ show s.error_count ∷ codes "\n" ∷ []),
)
