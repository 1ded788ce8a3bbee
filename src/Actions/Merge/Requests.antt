-- ===== src/Actions/Merge/Requests.antt =====
-- Which merge requests a whole task sends.
use arguss.Base.{
  ℕ, ◌≡◌, inl, inr, refl, sym, subst, false, Option, none, some, List, [], ◌∷◌, ◌++◌, if_both, Text,
  is_empty, leb, Bool-cases, All, All-append, All-weaken, Member, ◌-◌, ◌*◌,
}
use arguss.Actions.Runs.{ActionRunCandidate, ActionRun, Db, load_action_run, second}
use arguss.Actions.Merge.{
  MergeCall, Outcome, Poll, TaskState, process_candidate, process_all, finish, kill_run, poll_run,
  turn, run_action_merge_task, start, active_candidates,
}
use arguss.Actions.Merge.Safety.{Verified, process_candidate-Safe}

-- A turn of the loop at which the kill switch was off, and in which GitHub listed only green checks
-- for the commit of the request.
abbrev pub Allowed : List Poll → MergeCall → Type 0
Allowed polls call =
    (p : Poll) × (id : Text) × Member p polls
    × (p.kill_switch_active ≡ false)
    × Verified (p.answers id) call

module _ (wait_cap grace_period : ℕ) (run_id : Text) (started_at : ℕ) where
  abbrev answer : Poll → ActionRunCandidate → TaskState → Outcome
  answer p c s =
      process_candidate wait_cap grace_period (p.answers c.id) (p.clock_at c.id) c s.db
        s.first_no_checks

  abbrev after : TaskState → Outcome → TaskState
  after s o = record {
    db = o.db;
    first_no_checks = o.first_no_checks;
    calls = s.calls ++ o.calls;
    returned = o.raised;
  }

  answer-Allowed :
      (polls : List Poll) (p : Poll) (c : ActionRunCandidate) (s : TaskState)
      → Member p polls
      → p.kill_switch_active ≡ false
      → All (Allowed polls) s.calls
      → All (Allowed polls) (after s (answer p c s)).calls
  answer-Allowed polls p c s m off h = All-append (Allowed polls) s.calls _ h (
      All-weaken (Verified (p.answers c.id)) (Allowed polls) _ (λ call v. (p, c.id, m, off, v))
        (process_candidate-Safe wait_cap grace_period (p.answers c.id) (p.clock_at c.id) c s.db
          s.first_no_checks))

  process_all-Allowed :
      (polls : List Poll) (p : Poll)
      → Member p polls
      → p.kill_switch_active ≡ false
      → (cs : List ActionRunCandidate) (s : TaskState) → All (Allowed polls) s.calls
      → All (Allowed polls) (process_all wait_cap grace_period run_id started_at p cs s).calls
  unfolding process_all
  process_all-Allowed polls p m off [] s h = h
  process_all-Allowed polls p m off (c ∷ cs) s h =
      let o = answer p c s in
      let s' = after s o in
      let h' = answer-Allowed polls p c s m off h in
      if_both (λ t. All (Allowed polls) t.calls) o.raised s'
        (process_all wait_cap grace_period run_id started_at p cs s') h'
        (process_all-Allowed polls p m off cs s' h')

  poll_run-Allowed :
      (polls : List Poll) (p : Poll) (run : Option ActionRun) (db : Db) (s : TaskState)
      → Member p polls
      → p.kill_switch_active ≡ false
      → All (Allowed polls) s.calls
      → All (Allowed polls) (poll_run wait_cap grace_period run_id started_at p run db s).calls
  unfolding poll_run finish
  poll_run-Allowed polls p none db s m off h = h
  poll_run-Allowed polls p (some run) db s m off h =
      let active = active_candidates run.candidates in
      elim (Bool-cases (is_empty active)) [
        | inl e ↦ rw e h
        | inr n ↦ elim (Bool-cases (leb (wait_cap * second) (p.clock.monotonic - started_at))) [
          | inl l ↦ rw (n, l) h
          | inr l ↦ rw (n, l) (process_all-Allowed polls p m off active (record s { db = db }) h)
        ]
      ]

  kill_run_calls :
      (p : Poll) (run : Option ActionRun) (db : Db) (s : TaskState)
      → (kill_run wait_cap grace_period run_id started_at p run db s).calls ≡ s.calls
  unfolding kill_run finish
  kill_run_calls p none db s = refl
  kill_run_calls p (some run) db s = refl

  turn-Allowed :
      (polls : List Poll) (p : Poll) (s : TaskState)
      → Member p polls
      → All (Allowed polls) s.calls
      → All (Allowed polls) (turn wait_cap grace_period run_id started_at p s).calls
  unfolding turn
  turn-Allowed polls p s m h =
      let (run, db) = load_action_run wait_cap run_id p.clock.wall s.db in
      elim (Bool-cases p.kill_switch_active) [
        | inl on ↦ rw on (subst (All (Allowed polls)) (sym (kill_run_calls p run db s)) h)
        | inr off ↦ rw off (poll_run-Allowed polls p run db s m off h)
      ]

  run-Allowed :
      (all_polls polls : List Poll) (s : TaskState)
      → ((p : Poll) → Member p polls → Member p all_polls)
      → All (Allowed all_polls) s.calls
      → All
          (Allowed all_polls)
          (run_action_merge_task wait_cap grace_period run_id started_at polls s).calls
  unfolding run_action_merge_task
  run-Allowed all_polls [] s inc h = h
  run-Allowed all_polls (p ∷ ps) s inc h =
      if_both (λ t. All (Allowed all_polls) t.calls) s.returned s
        (run_action_merge_task wait_cap grace_period run_id started_at ps
          (turn wait_cap grace_period run_id started_at p s))
        h
        (run-Allowed all_polls ps (turn wait_cap grace_period run_id started_at p s)
          (λ q m. inc q (inr m)) (turn-Allowed all_polls p s (inc p (inl refl)) h))

-- Whatever GitHub answers, whatever the clocks read and however often the task polls: each merge
-- request that the task sends goes out in a turn whose kill switch was off, and names a commit for
-- which GitHub then listed check runs, at least one, all completed with conclusion success,
-- neutral or skipped.
pub merge_calls-Allowed :
    (wait_cap grace_period : ℕ) (run_id : Text) (started_at : ℕ) (polls : List Poll) (db : Db)
    → All
        (Allowed polls)
        (run_action_merge_task wait_cap grace_period run_id started_at polls (start db)).calls
merge_calls-Allowed wait_cap grace_period run_id started_at polls db =
    run-Allowed wait_cap grace_period run_id started_at polls polls (start db) (λ p m. m) tt
