-- ===== src/Actions/Runs/Loading.antt =====
-- Loading and finalizing a run leave a settled run settled.
use arguss.Base.{ℕ, ◌≡◌, refl, Bool, Option, none, some, if_both, Text}
use arguss.Actions.Runs.{
  timed_out, is_terminal, ActionRun, RunState, running, completed, Db, candidates_of,
  fetch_action_run_row, mark_action_run_completed, is_stale, timed_out_run, reconcile_running,
  reconcile_state, finalize_state, with_candidates, RunRow, reconcile_found, load_action_run,
  is_action_run_terminal, finalize_found, finalize_action_run_if_terminal, find_run,
}
use arguss.Actions.Runs.Escalate.{
  Settled, AllPending, escalate_all-Settled, Settled-AllPending, candidates_of-AllPending,
}

-- The run that was loaded, if any, stands for all its waiting rows.
abbrev pub Ready : Text → Option ActionRun → Db → Type 0
Ready id none db = Unit
Ready id (some run) db = AllPending id run.candidates db.candidates

module _ (wait_cap : ℕ) (id : Text) (now : ℕ) where
  timed_out_run-Settled :
      (run : ActionRun) (db : Db)
      → AllPending id run.candidates db.candidates
      → Settled id (timed_out_run wait_cap now run db).candidates
  unfolding timed_out_run mark_action_run_completed is_terminal
  timed_out_run-Settled run db h = escalate_all-Settled id timed_out now run.candidates db refl h

  reconcile-Ready :
      (state : RunState) (run : ActionRun) (db : Db)
      → AllPending id run.candidates db.candidates
      → AllPending id
          (reconcile_state wait_cap state now run db).0.candidates
          (reconcile_state wait_cap state now run db).1.candidates
  unfolding reconcile_state reconcile_running
  reconcile-Ready completed run db h = h
  reconcile-Ready running run db h =
      if_both (λ (r : ActionRun × Db). AllPending id r.0.candidates r.1.candidates)
        (is_stale wait_cap now run.row) _ _
        (Settled-AllPending id _ _ (timed_out_run-Settled run db h)) h

  pub load-Ready :
      (db : Db)
      → Ready id (load_action_run wait_cap id now db).0 (load_action_run wait_cap id now db).1
  unfolding load_action_run reconcile_found fetch_action_run_row with_candidates
  load-Ready db = by_row (find_run id db.runs)
    where
      by_row :
          (o : Option RunRow)
          → Ready id
              (reconcile_found wait_cap now (with_candidates id db o) db).0
              (reconcile_found wait_cap now (with_candidates id db o) db).1
      by_row none = tt
      by_row (some r) =
          reconcile-Ready r.state (record { row = r; candidates = candidates_of id db }) db
            (candidates_of-AllPending id db)

  pub load-none :
      (db : Db) → (load_action_run wait_cap id now db).0 ≡ none → fetch_action_run_row id db ≡ none
  unfolding load_action_run reconcile_found
  load-none db e = by_fetched (fetch_action_run_row id db) e
    where
      by_fetched : (o : Option ActionRun) → (reconcile_found wait_cap now o db).0 ≡ none → o ≡ none
      by_fetched none e = refl
      by_fetched (some run) e = cc

  reconcile-Settled :
      (state : RunState) (run : ActionRun) (db : Db)
      → Settled id db.candidates
      → Settled id (reconcile_state wait_cap state now run db).1.candidates
  unfolding reconcile_state reconcile_running
  reconcile-Settled completed run db h = h
  reconcile-Settled running run db h =
      if_both (λ (r : ActionRun × Db). Settled id r.1.candidates) (is_stale wait_cap now run.row) _
        _ (timed_out_run-Settled run db (Settled-AllPending id run.candidates db.candidates h)) h

  load-Settled :
      (db : Db)
      → Settled id db.candidates
      → Settled id (load_action_run wait_cap id now db).1.candidates
  unfolding load_action_run reconcile_found
  load-Settled db h = by_fetched (fetch_action_run_row id db)
    where
      by_fetched :
          (o : Option ActionRun) → Settled id (reconcile_found wait_cap now o db).1.candidates
      by_fetched none = h
      by_fetched (some run) = reconcile-Settled run.row.state run db h

  found-Settled :
      (o : Option ActionRun) (db : Db)
      → Settled id db.candidates
      → Settled id (finalize_found wait_cap id o db).1.candidates
  unfolding finalize_found finalize_state mark_action_run_completed
  found-Settled none db h = h
  found-Settled (some run) db h = by_state run.row.state
    where
      by_state :
          (state : RunState) → Settled id (finalize_state wait_cap id state run db).1.candidates
      by_state completed = h
      by_state running =
          if_both (λ (r : Bool × Db). Settled id r.1.candidates) (is_action_run_terminal run) _ _ h
            h

  pub finalize-Settled :
      (db : Db)
      → Settled id db.candidates
      → Settled id (finalize_action_run_if_terminal wait_cap id now db).1.candidates
  unfolding finalize_action_run_if_terminal
  finalize-Settled db h =
      let loaded = load_action_run wait_cap id now db in
      found-Settled loaded.0 loaded.1 (load-Settled db h)
