-- ===== src/Actions/Merge/Halting.antt =====
-- How the task ends: at the kill switch, or after the time it may wait.
use arguss.Base.{
  ℕ, ◌-◌, ◌*◌, ◌≤◌, ◌≡◌, ◌⊎◌, inl, inr, refl, true, false, Option, none, some, List, [], ◌∷◌,
  if◌then◌else◌, leb, le→leb, is_empty, Text, Bool-cases,
}
use arguss.Actions.Runs.{
  timed_out, killed, is_terminal, ActionRunCandidate, ActionRun, Db, second, fetch_action_run_row,
  escalate_all, load_action_run,
}
use arguss.Actions.Runs.Escalate.{
  Settled, AllPending, escalate_all-Settled, keep-AllPending, nothing_pending,
}
use arguss.Actions.Runs.Loading.{Ready, load-Ready, load-none, finalize-Settled}
use arguss.Actions.Merge.{Poll, TaskState, finish, kill_run, poll_run, turn, active_candidates}

module _ (wait_cap grace_period : ℕ) (run_id : Text) (started_at : ℕ) where
  -- The task returned, sent no further request, and left no row of the run waiting.
  abbrev pub Halted : TaskState → TaskState → Type 0
  Halted s t = (t.returned ≡ true) × (t.calls ≡ s.calls) × Settled run_id t.db.candidates

  finish-Halted :
      (p : Poll) (db : Db) (s : TaskState)
      → Settled run_id db.candidates
      → Halted s (finish wait_cap grace_period run_id started_at p db s)
  unfolding finish
  finish-Halted p db s h = (refl, refl, finalize-Settled wait_cap run_id p.clock.wall db h)

  kill_run-Halted :
      (p : Poll) (run : ActionRun) (db : Db) (s : TaskState)
      → Ready run_id (some run) db
      → Halted s (kill_run wait_cap grace_period run_id started_at p (some run) db s)
  unfolding kill_run is_terminal
  kill_run-Halted p run db s h =
      finish-Halted p (escalate_all killed p.clock.wall run.candidates db) s
        (escalate_all-Settled run_id killed p.clock.wall run.candidates db refl h)

  poll_run-Halted :
      (p : Poll) (run : ActionRun) (db : Db) (s : TaskState)
      → wait_cap * second ≤ p.clock.monotonic - started_at
      → Ready run_id (some run) db
      → Halted s (poll_run wait_cap grace_period run_id started_at p (some run) db s)
  unfolding poll_run is_terminal
  poll_run-Halted p run db s late h =
      let l : leb (wait_cap * second) (p.clock.monotonic - started_at) ≡ true = le→leb _ _ late in
      rw l (
        by_active (active_candidates run.candidates)
          (keep-AllPending run_id run.candidates db.candidates h))
    where
      by_active :
          (active : List ActionRunCandidate)
          → AllPending run_id active db.candidates
          → Halted s (
              if is_empty active
              then finish wait_cap grace_period run_id started_at p db s
              else finish wait_cap grace_period run_id started_at p
                  (escalate_all timed_out p.clock.wall active db)
                  s)
      by_active [] k =
          finish-Halted p db s (nothing_pending run_id timed_out p.clock.wall db.candidates k)
      by_active (c ∷ cs) k =
          finish-Halted p (escalate_all timed_out p.clock.wall (c ∷ cs) db) s
            (escalate_all-Settled run_id timed_out p.clock.wall (c ∷ cs) db refl k)

  -- A turn that finds the kill switch on, or the time to wait used up, is the task's last: if the
  -- run is in the tables, the task returns, sends no request, and leaves no row of the run in a
  -- state that waits.
  pub turn-Halted :
      (p : Poll) (s : TaskState)
      → (p.kill_switch_active ≡ true) ⊎ (wait_cap * second ≤ p.clock.monotonic - started_at)
      → (fetch_action_run_row run_id s.db ≡ none)
        ⊎ Halted s (turn wait_cap grace_period run_id started_at p s)
  unfolding turn
  turn-Halted p s why =
      let loaded = load_action_run wait_cap run_id p.clock.wall s.db in
      by_run loaded.0 loaded.1 (load-none wait_cap run_id p.clock.wall s.db)
        (load-Ready wait_cap run_id p.clock.wall s.db)
    where
      late_if_on : p.kill_switch_active ≡ false → wait_cap * second ≤ p.clock.monotonic - started_at
      late_if_on off = elim why [ inl on ↦ cc | inr late ↦ late ]

      by_run :
          (o : Option ActionRun) (db : Db)
          → (o ≡ none → fetch_action_run_row run_id s.db ≡ none)
          → Ready run_id o db
          → (fetch_action_run_row run_id s.db ≡ none)
            ⊎ Halted s (
                if p.kill_switch_active
                then kill_run wait_cap grace_period run_id started_at p o db s
                else poll_run wait_cap grace_period run_id started_at p o db s)
      by_run none db missing h = inl (missing refl)
      by_run (some run) db missing h = inr (elim (Bool-cases p.kill_switch_active) [
        | inl on ↦ rw on (kill_run-Halted p run db s h)
        | inr off ↦ rw off (poll_run-Halted p run db s (late_if_on off) h)
      ])
