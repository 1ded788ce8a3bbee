-- ===== src/Actions/Runs/Escalate.antt =====
-- Escalating the candidates of a run leaves none of its rows waiting.
use arguss.Base.{
  ℕ, ◌≡◌, ◌⊎◌, inl, inr, refl, subst, true, false, List, [], ◌∷◌, arith, if◌then◌else◌, Text,
  text_eq, text_eq_refl, keep, Bool-cases, All, All-of_Member, Member, Member-keep, not,
}
use arguss.Actions.Runs.{
  CandidateState, is_terminal, ActionRunCandidate, Db, change_row, update_rows,
  update_action_run_candidate, to_state, candidates_of, escalate_all,
}

-- Every row of the run is in a terminal state.
abbrev pub Settled : Text → List ActionRunCandidate → Type 0
Settled run_id = All (λ r. text_eq r.action_run_id run_id ≡ true → is_terminal r.state ≡ true)

-- The row is terminal, or a candidate of the list that stands for it is to be escalated.
abbrev pub Pending : List ActionRunCandidate → ActionRunCandidate → Type 0
Pending cs r =
    (is_terminal r.state ≡ true)
    ⊎ ((c : ActionRunCandidate) × Member c cs
        × (text_eq r.id c.id ≡ true)
        × (is_terminal c.state ≡ false))

abbrev pub AllPending : Text → List ActionRunCandidate → List ActionRunCandidate → Type 0
AllPending run_id cs = All (λ r. text_eq r.action_run_id run_id ≡ true → Pending cs r)

module _ (run_id : Text) (s : CandidateState) (now : ℕ) where
  skip_terminal :
      (c : ActionRunCandidate) (cs rows : List ActionRunCandidate)
      → is_terminal c.state ≡ true
      → AllPending run_id (c ∷ cs) rows
      → AllPending run_id cs rows
  skip_terminal c cs [] t h = tt
  skip_terminal c cs (r ∷ rows) t h = (λ e. still (h.0 e), skip_terminal c cs rows t h.1)
    where
      still : Pending (c ∷ cs) r → Pending cs r
      still (inl k) = inl k
      still (inr (d, inl e, i, n)) = absurd (differ (subst (λ x. is_terminal x.state ≡ false) e n))
        where
          differ : is_terminal c.state ≡ false → ⊥
          differ k = ground arith
      still (inr (d, inr m, i, n)) = inr (d, m, i, n)

  update_one :
      (c : ActionRunCandidate) (cs rows : List ActionRunCandidate)
      → is_terminal s ≡ true
      → AllPending run_id (c ∷ cs) rows
      → AllPending run_id cs (update_rows c.id (to_state s) now rows)
  unfolding update_rows change_row
  update_one c cs [] st h = tt
  update_one c cs (r ∷ rows) st h =
      (first (Bool-cases (text_eq r.id c.id)), update_one c cs rows st h.1)
    where
      not_first : text_eq r.id c.id ≡ false → Pending (c ∷ cs) r → Pending cs r
      not_first n (inl k) = inl k
      not_first n (inr (d, inl e, i, k)) =
          absurd (differ (subst (λ x. text_eq r.id x.id ≡ true) e i))
        where
          differ : text_eq r.id c.id ≡ true → ⊥
          differ t = ground arith
      not_first n (inr (d, inr m, i, k)) = inr (d, m, i, k)

      first :
          (text_eq r.id c.id ≡ true) ⊎ (text_eq r.id c.id ≡ false)
          → text_eq
              (if text_eq r.id c.id then change_row (to_state s) now r else r).action_run_id
              run_id
            ≡ true
          → Pending cs (if text_eq r.id c.id then change_row (to_state s) now r else r)
      first (inl t) = rw t (λ e. inl st)
      first (inr n) = rw n (λ e. not_first n (h.0 e))

  pub nothing_pending :
      (rows : List ActionRunCandidate) → AllPending run_id [] rows → Settled run_id rows
  nothing_pending [] h = tt
  nothing_pending (r ∷ rows) h = (λ e. settled (h.0 e), nothing_pending rows h.1)
    where
      settled : Pending [] r → is_terminal r.state ≡ true
      settled (inl k) = k
      settled (inr (d, m, i, k)) = absurd m

  -- Escalating candidates that stand for every waiting row settles the run.
  pub escalate_all-Settled :
      (cs : List ActionRunCandidate) (db : Db)
      → is_terminal s ≡ true
      → AllPending run_id cs db.candidates
      → Settled run_id (escalate_all s now cs db).candidates
  unfolding escalate_all update_action_run_candidate
  escalate_all-Settled [] db st h = nothing_pending db.candidates h
  escalate_all-Settled (c ∷ cs) db st h =
      escalate_all-Settled cs (escalated c db) st (by_state (Bool-cases (is_terminal c.state)))
    where
      escalated : ActionRunCandidate → Db → Db
      escalated c db =
          if is_terminal c.state then db else update_action_run_candidate c.id (to_state s) now db

      by_state :
          (is_terminal c.state ≡ true) ⊎ (is_terminal c.state ≡ false)
          → AllPending run_id cs (escalated c db).candidates
      by_state (inl t) = rw t (skip_terminal c cs db.candidates t h)
      by_state (inr n) = rw n (update_one c cs db.candidates st h)

-- What is settled is pending on no candidate.
pub Settled-AllPending :
    (run_id : Text) (cs rows : List ActionRunCandidate)
    → Settled run_id rows
    → AllPending run_id cs rows
Settled-AllPending run_id cs [] h = tt
Settled-AllPending run_id cs (r ∷ rows) h =
    (λ e. inl (h.0 e), Settled-AllPending run_id cs rows h.1)

-- The candidates of a run stand for all its rows.
pub candidates_of-AllPending :
    (run_id : Text) (db : Db) → AllPending run_id (candidates_of run_id db) db.candidates
unfolding candidates_of
candidates_of-AllPending run_id db = All-of_Member _ db.candidates stands_for
  where
    stands_for :
        (r : ActionRunCandidate)
        → Member r db.candidates
        → text_eq r.action_run_id run_id ≡ true
        → Pending (keep (λ c. text_eq c.action_run_id run_id) db.candidates) r
    stands_for r m e = elim (Bool-cases (is_terminal r.state)) [
      | inl t ↦ inl t
      | inr n ↦ inr (r, Member-keep _ db.candidates r m e, text_eq_refl r.id, n)
    ]

-- So do those of them that are not terminal.
pub keep-AllPending :
    (run_id : Text) (cs rows : List ActionRunCandidate)
    → AllPending run_id cs rows
    → AllPending run_id (keep (λ c. not (is_terminal c.state)) cs) rows
keep-AllPending run_id cs [] h = tt
keep-AllPending run_id cs (r ∷ rows) h =
    (λ e. among_active (h.0 e), keep-AllPending run_id cs rows h.1)
  where
    among_active : Pending cs r → Pending (keep (λ c. not (is_terminal c.state)) cs) r
    among_active (inl t) = inl t
    among_active (inr (c, m, i, n)) = inr (c, Member-keep _ cs c m (rw n refl), i, n)
