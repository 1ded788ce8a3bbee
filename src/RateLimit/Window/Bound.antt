-- ===== src/RateLimit/Window/Bound.antt =====
-- A deque that is pruned and only grows while it is short lets at most `limit` events into any
-- window.
use arguss.Base.{
  ℕ, ◌≤◌, ◌<◌, ◌≡◌, refl, List, [], ◌∷◌, ◌++◌, arith, ltb, length, All, All-append, sum-append,
  Bool-cases, inl, inr, length-append, All-weaken, ltb→lt,
}
use native.Mathlib.Nat.{le_refl}
use arguss.RateLimit.Window.{prune, alive, count_alive, count_within, Ascending, expired}

module _ (window : ℕ) where
  -- What is pruned had left the window.
  pub count_alive-prune :
      (now t : ℕ) (es : List ℕ)
      → now ≤ t
      → count_alive window t (prune window now es) ≡ count_alive window t es
  unfolding prune
  count_alive-prune now t [] h = refl
  count_alive-prune now t (e ∷ es) h = ground (arith, count_alive-prune now t es)

  pub count_alive-le-length : (t : ℕ) (es : List ℕ) → count_alive window t es ≤ length es
  count_alive-le-length t [] = omega arith
  count_alive-le-length t (e ∷ es) = ground (arith, count_alive-le-length t es)

  pub Ascending-prune : (now : ℕ) (es : List ℕ) → Ascending es → Ascending (prune window now es)
  unfolding prune
  Ascending-prune now [] h = tt
  Ascending-prune now (e ∷ es) h = elim (Bool-cases (expired window now e)) [
    | inl x ↦ rw x (Ascending-prune now es h.1)
    | inr a ↦ rw a h
  ]

  pub All-prune : (P : ℕ → Type 0) (now : ℕ) (es : List ℕ) → All P es → All P (prune window now es)
  unfolding prune
  All-prune P now [] h = tt
  All-prune P now (e ∷ es) h = elim (Bool-cases (expired window now e)) [
    | inl x ↦ rw x (All-prune P now es h.1)
    | inr a ↦ rw a h
  ]

  pub length-prune-le : (now : ℕ) (es : List ℕ) → length (prune window now es) ≤ length es
  unfolding prune
  length-prune-le now [] = omega arith
  length-prune-le now (e ∷ es) = ground (arith, length-prune-le now es)

  pub within-le-alive : (t : ℕ) (es : List ℕ) → count_within window t es ≤ count_alive window t es
  within-le-alive t [] = omega arith
  within-le-alive t (e ∷ es) = ground (arith, within-le-alive t es)

pub Ascending-append :
    (es : List ℕ) (now : ℕ) → Ascending es → All (λ e. e ≤ now) es → Ascending (es ++ now ∷ [])
Ascending-append [] now h k = (tt, tt)
Ascending-append (e ∷ es) now h k =
    (All-append (λ f. e ≤ f) es (now ∷ []) h.0 (k.0, tt), Ascending-append es now h.1 k.1)

-- A deque that stands for the log of one key's accepted events, at a time past all of them.
pub record Tracks (window limit now : ℕ) (log es : List ℕ) : Type 0 where
  pub ordered : Ascending es
  pub past : All (λ e. e ≤ now) es
  pub log_past : All (λ e. e ≤ now) log
  pub agree : (t : ℕ) → now ≤ t → count_alive window t log ≡ count_alive window t es
  pub bounded : (t : ℕ) → count_within window t log ≤ limit
  pub short : length es ≤ limit

All-le-later :
    (now later : ℕ) (es : List ℕ) → now ≤ later → All (λ e. e ≤ now) es → All (λ e. e ≤ later) es
All-le-later now later es h = All-weaken (λ e. e ≤ now) (λ e. e ≤ later) es (λ e k. omega arith)

module _ (window limit : ℕ) where
  pub Tracks-nil : (now : ℕ) → Tracks window limit now [] []
  Tracks-nil now = record {
    ordered = tt;
    past = tt;
    log_past = tt;
    agree = λ t h. refl;
    bounded = λ t. omega arith;
    short = omega arith;
  }

  module _ (now later : ℕ) (log es : List ℕ) (h : now ≤ later)
      (k : Tracks window limit now log es) where
    pub Tracks-later : Tracks window limit later log es
    Tracks-later = record {
      ordered = k.ordered;
      past = All-le-later now later es h k.past;
      log_past = All-le-later now later log h k.log_past;
      agree = λ t le. k.agree t (omega arith);
      bounded = k.bounded;
      short = k.short;
    }

    pub Tracks-prune : Tracks window limit later log (prune window later es)
    Tracks-prune = record {
      ordered = Ascending-prune window later es k.ordered;
      past = All-prune window (λ e. e ≤ later) later es (All-le-later now later es h k.past);
      log_past = All-le-later now later log h k.log_past;
      agree =
          λ t le. omega (arith, k.agree t (omega arith), count_alive-prune window later t es le);
      bounded = k.bounded;
      short = omega (arith, k.short, length-prune-le window later es);
    }

  within_after :
      (t now : ℕ) (log : List ℕ)
      → t < now
      → count_within window t (log ++ now ∷ []) ≡ count_within window t log
  within_after t now [] h = ground arith
  within_after t now (e ∷ log) h = omega (arith, within_after t now log h)

  module _ (now : ℕ) (log es : List ℕ) (k : Tracks window limit now log es)
      (room : length es < limit) where
    accept_bounded : (t : ℕ) → count_within window t (log ++ now ∷ []) ≤ limit
    accept_bounded t = elim (Bool-cases (ltb t now)) [
      | inl before ↦ omega (arith, k.bounded t, within_after t now log (ltb→lt t now before))
      | inr at_or_after ↦
          let reached : now ≤ t = ground arith in
          omega (
            arith,
            within-le-alive window t (log ++ now ∷ []),
            sum-append (alive window t) log (now ∷ []),
            k.agree t reached,
            count_alive-le-length window t es,
            count_alive-le-length window t (now ∷ []),
          )
    ]

    pub Tracks-accept : Tracks window limit now (log ++ now ∷ []) (es ++ now ∷ [])
    Tracks-accept = record {
      ordered = Ascending-append es now k.ordered k.past;
      past = All-append (λ e. e ≤ now) es (now ∷ []) k.past (le_refl now, tt);
      log_past = All-append (λ e. e ≤ now) log (now ∷ []) k.log_past (le_refl now, tt);
      agree = λ t h. omega (
        arith,
        k.agree t h,
        sum-append (alive window t) log (now ∷ []),
        sum-append (alive window t) es (now ∷ []),
      );
      bounded = accept_bounded;
      short = omega (arith, length-append es (now ∷ []));
    }
