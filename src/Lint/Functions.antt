-- ===== src/Lint/Functions.antt =====
-- The class _FunctionState of tools/cpplint.py: the lines of a function's body, counted and checked.
pub mod Level
use vsm_cpp_sdk.Prelude.{
  ℕ, zero, suc, ◌*◌, ◌/◌, ◌^◌, Bool, true, false, ◌||◌, List, [], ◌∷◌, ltb, if◌then◌else◌,
}
use vsm_cpp_sdk.Text.{Text, codes, cat}
use vsm_cpp_sdk.Text.Int.{ℤ, pos, negsuc}
use vsm_cpp_sdk.Text.Decimal.{show}
use vsm_cpp_sdk.Text.Find.{starts_with}
use vsm_cpp_sdk.Result.{Result, ok, err, value_error, ◌>>=◌}
use vsm_cpp_sdk.Lint.Nolint.{Report}

abbrev pub normal_trigger : ℕ
normal_trigger = 250

abbrev pub test_trigger : ℕ
test_trigger = 400

pub record FunctionState : Type 0 where
  pub in_a_function : Bool
  pub lines_in_function : ℕ
  pub current_function : Text

-- __init__
unfoldable pub function_state : FunctionState
function_state = record { in_a_function = false; lines_in_function = 0; current_function = [] }

unfoldable pub begin_function : Text → FunctionState
begin_function name = record {
  in_a_function = true;
  lines_in_function = 0;
  current_function = name;
}

unfoldable pub count_line : FunctionState → FunctionState
count_line s =
    if s.in_a_function then record s { lines_in_function = suc s.lines_in_function } else s

unfoldable pub end_function : FunctionState → FunctionState
end_function s = record s { in_a_function = false }

-- The binary logarithm rounded down, with the number as fuel.
unfoldable pub log2_from : ℕ → ℕ → ℕ
log2_from zero n = 0
log2_from (suc f) n = let rest = log2_from f (n / 2) in if ltb n 2 then 0 else suc rest

-- int(math.log(n, 2)): below 64 the floats give the logarithm rounded down, and from there on at
-- least 5, which is all that its caller keeps; log(0) is a ValueError
unfoldable pub int_log2 : ℕ → Result ℕ
int_log2 zero = err value_error
int_log2 (suc n) = ok (log2_from (suc n) (suc n))

-- base_trigger * 2**verbose_level, an int or a float, against a number of lines.
unfoldable pub exceeds : ℕ → ℕ → ℤ → Bool
exceeds lines base (pos v) = ltb (base * 2 ^ v) lines
exceeds lines base (negsuc v) = ltb base (lines * 2 ^ suc v)

-- '%d' % trigger
unfoldable pub trigger_text : ℕ → ℤ → Text
trigger_text base (pos v) = show (base * 2 ^ v)
trigger_text base (negsuc v) = show (base / 2 ^ suc v)

-- T(EST|est) at the start of the name
unfoldable pub base_trigger : Text → ℕ
unfolding starts_with
base_trigger name =
    if starts_with (codes "TEST") name || starts_with (codes "Test") name
    then test_trigger
    else normal_trigger

unfoldable pub size_report : FunctionState → ℕ → ℕ → ℕ → ℤ → Report
unfolding trigger_text
size_report s linenum level base verbose = record {
  linenum = linenum;
  category = codes "readability/fn_size";
  confidence = level;
  message = cat (
      codes "Small and focused functions are preferred: "
      ∷ s.current_function
      ∷ codes " has "
      ∷ show s.lines_in_function
      ∷ codes " non-comment lines (error triggered by exceeding "
      ∷ trigger_text base verbose
      ∷ codes " lines)."
      ∷ []);
}

-- Check: what is reported.
unfoldable pub check_function : FunctionState → ℤ → ℕ → Result (List Report)
unfolding exceeds
check_function s verbose linenum =
    let base = base_trigger s.current_function in
    if s.in_a_function
    then (if exceeds s.lines_in_function base verbose
        then (do
          level ← int_log2 (s.lines_in_function / base)
          ok (size_report s linenum (if ltb 5 level then 5 else level) base verbose ∷ []))
        else ok [])
    else ok []
