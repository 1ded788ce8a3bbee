-- ===== src/Budget.antt =====
-- arguss/explanations/_budget.py: the daily ceiling on calls of the language model. The table
-- `anthropic_daily_usage` is a dictionary from days to counts; that the store can be opened and the
-- current day are arguments.
pub mod Ceiling
use arguss.Base.{
  ℕ, ◌+◌, ◌≤◌, ◌≡◌, refl, Bool, true, false, Option, none, some, List, [], ◌∷◌, arith, ltb,
  if◌then◌else◌, if_both, Text, text_eq, text_eq_iff, text_eq_refl, Dict, lookup, insert,
  lookup-insert, Bool-cases, inl, inr, ◌&&◌, ◌==◌,
}

abbrev pub or_zero : Option ℕ → ℕ
or_zero none = 0
or_zero (some n) = n

-- `anthropic_calls_today`
unfoldable pub calls_today : Text → Dict ℕ → ℕ
calls_today day usage = or_zero (lookup day usage)

-- `_RESERVE_SQL`: whether a row was written, and the table after.
reserve_row : Text → ℕ → Option ℕ → Dict ℕ → Bool × Dict ℕ
reserve_row day ceiling none usage = (true, insert day 1 usage)
reserve_row day ceiling (some calls) usage =
    if ltb calls ceiling then (true, insert day (calls + 1) usage) else (false, usage)

unfoldable pub try_reserve_anthropic_call : Bool → Text → ℕ → Dict ℕ → Bool × Dict ℕ
unfolding reserve_row
try_reserve_anthropic_call available day ceiling usage =
    if ceiling == 0
    then (false, usage)
    else if available
    then reserve_row day ceiling (lookup day usage) usage
    else (false, usage)
