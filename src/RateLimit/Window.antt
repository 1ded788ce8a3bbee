-- ===== src/RateLimit/Window.antt =====
-- One deque of event times, oldest first, and the window that slides over it.
pub mod Bound
use arguss.Base.{
  ℕ, zero, suc, ◌+◌, ◌-◌, ◌*◌, ◌/◌, ◌≤◌, ◌<◌, max, ◌≡◌, refl, Bool, true, false, List, [], ◌∷◌,
  ◌++◌, arith, leb, ltb, if◌then◌else◌, length, All, sum-append, sum, Bool-cases, inl, inr, Text,
  Option, none, some, text_eq, text_eq_iff, text_eq_refl, subst,
}

abbrev pub nanoseconds : ℕ
nanoseconds = 1_000_000_000

-- `e <= now - window`, as a sum, since `now - window` may be negative in the source.
abbrev pub expired : ℕ → ℕ → ℕ → Bool
expired window now e = leb (e + window) now

-- while events and events[0] <= cutoff: events.popleft()
unfoldable pub prune : ℕ → ℕ → List ℕ → List ℕ
prune window now [] = []
prune window now (e ∷ es) =
    let rest = prune window now es in if expired window now e then rest else e ∷ es

-- max(1, int(events[0] + window - now) + 1), in seconds
unfoldable pub retry_after : ℕ → ℕ → List ℕ → ℕ
retry_after window now [] = 1
retry_after window now (e ∷ es) = max 1 ((e + window - now) / nanoseconds + 1)

-- The events that are still in the window at `t`.
abbrev pub alive : ℕ → ℕ → ℕ → ℕ
alive window t e = if expired window t e then 0 else 1

abbrev pub count_alive : ℕ → ℕ → List ℕ → ℕ
count_alive window t = sum (alive window t)

-- The events of a log that lie in the window which ends at `t`: after `t - window`, up to `t`.
abbrev pub within : ℕ → ℕ → ℕ → ℕ
within window t e = if leb e t then alive window t e else 0

abbrev pub count_within : ℕ → ℕ → List ℕ → ℕ
count_within window t = sum (within window t)

-- Times in order.
abbrev pub Ascending : List ℕ → Type 0
Ascending [] = Unit
Ascending (e ∷ es) = All (λ f. e ≤ f) es × Ascending es

-- A map from keys to deques: the dict, as a function.
abbrev pub Events : Type 0
Events = Text → Option (List ℕ)

abbrev pub or_empty : Option (List ℕ) → List ℕ
or_empty none = []
or_empty (some es) = es

unfoldable pub put : Text → List ℕ → Events → Events
put k es m j = if text_eq k j then some es else m j

-- What holds of the key that is put and of every other key holds of all keys.
pub put_cases :
    (k : Text) (es : List ℕ) (m : Events) (P : Text → Option (List ℕ) → Type 0)
    → P k (some es)
    → ((j : Text) → text_eq k j ≡ false → P j (m j))
    → (j : Text) → P j (put k es m j)
unfolding put
put_cases k es m P at_key elsewhere j = elim (Bool-cases (text_eq k j)) [
  | inl e ↦ subst (λ i. P i (put k es m i)) ((text_eq_iff k j).0 e) (rw (text_eq_refl k) at_key)
  | inr n ↦ rw n (elsewhere j n)
]
