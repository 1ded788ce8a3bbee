-- ===== src/Budget/Ceiling.antt =====
-- The ceiling holds over any sequence of requests.
use arguss.Base.{
  ℕ, ◌+◌, ◌≤◌, ◌≡◌, refl, subst, Bool, true, false, Option, none, some, List, [], ◌∷◌, arith, ltb,
  if◌then◌else◌, if_both, Text, text_eq, text_eq_iff, Dict, lookup, insert, lookup-insert,
  Bool-cases, inl, inr, ◌&&◌, ◌==◌,
}
use arguss.Budget.{or_zero, calls_today, reserve_row, try_reserve_anthropic_call}

-- A call of the model: whether the store can be opened, and the day.
abbrev pub Request : Type 0
Request = Bool × Text

-- The calls of one day that a sequence of requests may make.
unfoldable pub granted : ℕ → Text → List Request → Dict ℕ → ℕ
granted ceiling day [] usage = 0
granted ceiling day ((available, today) ∷ rest) usage =
    let r = try_reserve_anthropic_call available today ceiling usage in
    (if r.0 && text_eq today day then 1 else 0) + granted ceiling day rest r.1

-- Writing one call more for a day counts it for that day, and none else.
counts_written :
    (n : ℕ) (today day : Text) (usage : Dict ℕ)
    → or_zero (lookup today usage) ≡ n
    → or_zero (lookup day (insert today (n + 1) usage))
      ≡ or_zero (lookup day usage) + (if text_eq today day then 1 else 0)
counts_written n today day usage e = elim (Bool-cases (text_eq today day)) [
  | inl t ↦
      let same : or_zero (lookup day usage) ≡ n =
        subst (λ d. or_zero (lookup d usage) ≡ n) ((text_eq_iff today day).0 t) e in
      rw (lookup-insert today day (n + 1) usage, t) (omega (arith, same))
  | inr f ↦ rw (lookup-insert today day (n + 1) usage, f) (omega arith)
]

-- A request counts one call for its day if it is granted, and none else.
counts_one :
    (ceiling : ℕ) (available : Bool) (today day : Text) (usage : Dict ℕ)
    → calls_today day (try_reserve_anthropic_call available today ceiling usage).1
      ≡ calls_today day usage
        + (if (try_reserve_anthropic_call available today ceiling usage).0 && text_eq today day
            then 1
            else 0)
unfolding calls_today try_reserve_anthropic_call
counts_one ceiling available today day usage = elim (Bool-cases (ceiling == 0)) [
  | inl z ↦ rw z (omega arith)
  | inr p ↦ rw p (by_store available)
]
  where
    by_row :
        (o : Option ℕ)
        → lookup today usage ≡ o
        → or_zero (lookup day (reserve_row today ceiling o usage).1)
          ≡ or_zero (lookup day usage)
            + (if (reserve_row today ceiling o usage).0 && text_eq today day then 1 else 0)
    by_row none e = counts_written 0 today day usage (rw e refl)
    by_row (some calls) e = elim (Bool-cases (ltb calls ceiling)) [
      | inl t ↦ rw t (counts_written calls today day usage (rw e refl))
      | inr f ↦ rw f (omega arith)
    ]

    by_store :
        (b : Bool)
        → or_zero (
            lookup day
              (if b
                then reserve_row today ceiling (lookup today usage) usage
                else (false, usage)).1)
          ≡ or_zero (lookup day usage)
            + (if (if b
                    then reserve_row today ceiling (lookup today usage) usage
                    else (false, usage)).0
                  && text_eq today day
                then 1
                else 0)
    by_store true = by_row (lookup today usage) refl
    by_store false = omega arith

written_below :
    (ceiling n : ℕ) (today day : Text) (usage : Dict ℕ)
    → n + 1 ≤ ceiling
    → or_zero (lookup day usage) ≤ ceiling
    → or_zero (lookup day (insert today (n + 1) usage)) ≤ ceiling
written_below ceiling n today day usage room h = elim (Bool-cases (text_eq today day)) [
  | inl t ↦ rw (lookup-insert today day (n + 1) usage, t) room
  | inr f ↦ rw (lookup-insert today day (n + 1) usage, f) h
]

row_below :
    (ceiling : ℕ) (today day : Text) (o : Option ℕ) (usage : Dict ℕ)
    → (ceiling == 0) ≡ false
    → or_zero (lookup day usage) ≤ ceiling
    → or_zero (lookup day (reserve_row today ceiling o usage).1) ≤ ceiling
unfolding reserve_row
row_below ceiling today day none usage p h =
    written_below ceiling 0 today day usage (ground arith) h
row_below ceiling today day (some calls) usage p h = elim (Bool-cases (ltb calls ceiling)) [
  | inl t ↦ rw t (written_below ceiling calls today day usage (ground arith) h)
  | inr f ↦ rw f h
]

-- A request leaves no day above the ceiling.
stays_below :
    (ceiling : ℕ) (available : Bool) (today day : Text) (usage : Dict ℕ)
    → calls_today day usage ≤ ceiling
    → calls_today day (try_reserve_anthropic_call available today ceiling usage).1 ≤ ceiling
unfolding try_reserve_anthropic_call calls_today
stays_below ceiling available today day usage h = elim (Bool-cases (ceiling == 0)) [
  | inl z ↦ rw z h
  | inr p ↦ rw p (
      if_both (λ (r : Bool × Dict ℕ). or_zero (lookup day r.1) ≤ ceiling) available _ _
        (row_below ceiling today day (lookup today usage) usage p h) h)
]

granted_total :
    (ceiling : ℕ) (day : Text) (rs : List Request) (usage : Dict ℕ)
    → calls_today day usage ≤ ceiling
    → calls_today day usage + granted ceiling day rs usage ≤ ceiling
unfolding granted
granted_total ceiling day [] usage h = omega (arith, h)
granted_total ceiling day ((available, today) ∷ rest) usage h =
    let r = try_reserve_anthropic_call available today ceiling usage in
    omega (
      arith,
      counts_one ceiling available today day usage,
      granted_total ceiling day rest r.1 (stays_below ceiling available today day usage h),
    )

from_nothing : (ceiling : ℕ) (day : Text) → calls_today day [] ≤ ceiling
unfolding calls_today lookup
from_nothing ceiling day = omega arith

-- Whatever the requests of a process are, in any order of days and with the store failing at any
-- time, at most `ceiling` calls are made on a day, from an empty table.
pub granted_bound :
    (ceiling : ℕ) (day : Text) (rs : List Request) → granted ceiling day rs [] ≤ ceiling
granted_bound ceiling day rs =
    omega (arith, granted_total ceiling day rs [] (from_nothing ceiling day))
