-- ===== src/Tests/Budget.antt =====
-- The daily ceiling on sample requests.
use arguss.Base.{◌≡◌, ◌≤◌, refl, true, false, List, [], ◌∷◌, codes, text_eq, lookup, insert}
use arguss.Budget.{try_reserve_anthropic_call}
use arguss.Budget.Ceiling.{Request, granted, granted_bound}

abbrev three_requests : List Request
three_requests =
    (true, codes "2026-05-01") ∷ (false, codes "2026-05-01") ∷ (true, codes "2026-05-01") ∷ []

one_of_three : granted 1 (codes "2026-05-01") three_requests [] ≡ 1
unfolding granted try_reserve_anthropic_call text_eq lookup insert
one_of_three = refl

granted_bound_example : granted 1 (codes "2026-05-01") three_requests [] ≤ 1
granted_bound_example = granted_bound 1 (codes "2026-05-01") three_requests
