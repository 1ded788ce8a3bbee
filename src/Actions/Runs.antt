-- ===== src/Actions/Runs.antt =====
-- arguss/web/action_runs.py: the two tables as lists of rows, and the operations on them.
-- A wall-clock time is in nanoseconds; `settings.mode_c_merge_wait_cap_seconds` is `wait_cap`.
pub mod Escalate
pub mod Loading
use arguss.Base.{
  ℕ, ◌+◌, ◌-◌, ◌*◌, Bool, true, false, not, ◌&&◌, Option, none, some, List, [], ◌∷◌, ◌++◌, ltb,
  if◌then◌else◌, Text, codes, text_eq, is_empty, all, keep,
}
use arguss.Models.{Veto}

pub data CandidateState : Type 0 where
  pr_opened pr_only ci_running merged ci_failed no_checks sha_conflict : CandidateState
  timed_out killed head_sha_unresolved : CandidateState

pub data RunState : Type 0 where
  running completed : RunState

pub data MergeAuthorization : Type 0 where
  engine human_override : MergeAuthorization

-- state in TERMINAL_CANDIDATE_STATES
unfoldable pub is_terminal : CandidateState → Bool
is_terminal pr_opened = false
is_terminal ci_running = false
is_terminal _ = true

pub record ActionRunCandidate : Type 0 where
  pub id : Text
  pub action_run_id : Text
  pub candidate_id : Text
  pub package_name : Text
  pub from_version : Text
  pub to_version : Text
  pub state : CandidateState
  pub updated_at : ℕ
  pub pr_number : Option ℕ
  pub head_sha : Option Text
  pub state_detail : Option Text
  pub merge_authorization : Option MergeAuthorization
  pub engine_score : Option ℕ
  pub veto_signals : List Veto
  pub pr_authorization_appended : Bool

-- A row of `action_run`; its candidates are found by their `action_run_id`.
pub record RunRow : Type 0 where
  pub id : Text
  pub scan_hash : Text
  pub mode : Text
  pub created_at : ℕ
  pub state : RunState
  pub scan_ref : Option Text
  pub wizard_action_id : Option Text
  pub installation_id : Option Text

pub record Db : Type 0 where
  pub runs : List RunRow
  pub candidates : List ActionRunCandidate

pub record ActionRun : Type 0 where
  pub row : RunRow
  pub candidates : List ActionRunCandidate

unfoldable pub merge_escalation_primary_detail : CandidateState → Text
merge_escalation_primary_detail no_checks =
    codes
      "No CI ran on this PR. Arguss doesn't merge unverified changes; review and merge manually."
merge_escalation_primary_detail ci_failed =
    codes "CI failed on this PR. Arguss doesn't merge failing changes; "
    ++ codes "investigate and merge manually."
merge_escalation_primary_detail sha_conflict =
    codes "The PR changed after Arguss evaluated it. Merging was stopped; "
    ++ codes "re-review the current state."
merge_escalation_primary_detail timed_out =
    codes "CI didn't finish within the wait window. The PR is left open for manual review."
merge_escalation_primary_detail killed =
    codes "Merging was halted by the operator kill switch. The PR is left open."
merge_escalation_primary_detail head_sha_unresolved =
    codes "Arguss couldn't verify which commit this PR points to, so it won't merge it."
merge_escalation_primary_detail pr_only =
    codes "PR opened without auto-merge. Review and merge manually."
-- The dict has no entry for the other states, and the source asks for none of them.
merge_escalation_primary_detail _ = []

-- The keyword arguments of `update_action_run_candidate`; `none` leaves the column as it is.
pub record Changes : Type 0 where
  pub state : Option CandidateState
  pub pr_number : Option ℕ
  pub head_sha : Option Text
  pub state_detail : Option Text
  pub merge_authorization : Option (Option MergeAuthorization)
  pub engine_score : Option (Option ℕ)
  pub veto_signals : Option (List Veto)
  pub pr_authorization_appended : Option Bool

abbrev pub no_changes : Changes
no_changes = record {
  state = none;
  pr_number = none;
  head_sha = none;
  state_detail = none;
  merge_authorization = none;
  engine_score = none;
  veto_signals = none;
  pr_authorization_appended = none;
}

abbrev pub or_old {ℓ} : {A : Type ℓ} → Option A → A → A
or_old none a = a
or_old (some b) a = b

-- For a column that is nullable: a new value is never null.
abbrev pub or_old_null {ℓ} : {A : Type ℓ} → Option A → Option A → Option A
or_old_null none a = a
or_old_null (some b) a = some b

unfoldable pub change_row : Changes → ℕ → ActionRunCandidate → ActionRunCandidate
change_row ch now r = record r {
  state = or_old ch.state r.state;
  updated_at = now;
  pr_number = or_old_null ch.pr_number r.pr_number;
  head_sha = or_old_null ch.head_sha r.head_sha;
  state_detail = or_old_null ch.state_detail r.state_detail;
  merge_authorization = or_old ch.merge_authorization r.merge_authorization;
  engine_score = or_old ch.engine_score r.engine_score;
  veto_signals = or_old ch.veto_signals r.veto_signals;
  pr_authorization_appended = or_old ch.pr_authorization_appended r.pr_authorization_appended;
}

unfoldable pub find_row : Text → List ActionRunCandidate → Option ActionRunCandidate
find_row id [] = none
find_row id (r ∷ rs) = if text_eq r.id id then some r else find_row id rs

-- UPDATE … WHERE id = ?
unfoldable pub update_rows : Text → Changes → ℕ → List ActionRunCandidate → List ActionRunCandidate
unfolding change_row
update_rows id ch now [] = []
update_rows id ch now (r ∷ rs) =
    (if text_eq r.id id then change_row ch now r else r) ∷ update_rows id ch now rs

-- The new tables; the row that is returned is `find_row id` of them.
unfoldable pub update_action_run_candidate : Text → Changes → ℕ → Db → Db
unfolding update_rows
update_action_run_candidate id ch now db = record db {
  candidates = update_rows id ch now db.candidates;
}

-- state=…, state_detail=merge_escalation_primary_detail(…)
abbrev pub to_state : CandidateState → Changes
to_state s = record no_changes {
  state = some s;
  state_detail = some (merge_escalation_primary_detail s);
}

unfoldable pub is_action_run_terminal : ActionRun → Bool
is_action_run_terminal run = elim run.row.state [
  | completed ↦ true
  | running ↦
      not (is_empty run.candidates)
      && all (λ (c : ActionRunCandidate). is_terminal c.state) run.candidates
]

find_run : Text → List RunRow → Option RunRow
find_run id [] = none
find_run id (r ∷ rs) = if text_eq r.id id then some r else find_run id rs

-- The candidates of a run; `ORDER BY updated_at` changes only their order, which is not modelled.
unfoldable pub candidates_of : Text → Db → List ActionRunCandidate
candidates_of id db = keep (λ c. text_eq c.action_run_id id) db.candidates

with_candidates : Text → Db → Option RunRow → Option ActionRun
unfolding candidates_of
with_candidates id db none = none
with_candidates id db (some r) = some (record { row = r; candidates = candidates_of id db })

unfoldable pub fetch_action_run_row : Text → Db → Option ActionRun
unfolding find_run with_candidates
fetch_action_run_row id db = with_candidates id db (find_run id db.runs)

complete_runs : Text → List RunRow → List RunRow
complete_runs id [] = []
complete_runs id (r ∷ rs) =
    (if text_eq r.id id then record r { state = completed } else r) ∷ complete_runs id rs

unfoldable pub mark_action_run_completed : Text → Db → Db
unfolding complete_runs
mark_action_run_completed id db = record db { runs = complete_runs id db.runs }

-- for candidate in …: if its state is not terminal, update it to `state`
unfoldable pub escalate_all : CandidateState → ℕ → List ActionRunCandidate → Db → Db
unfolding update_action_run_candidate
escalate_all s now [] db = db
escalate_all s now (c ∷ cs) db =
    escalate_all s now cs
      (if is_terminal c.state then db else update_action_run_candidate c.id (to_state s) now db)

abbrev pub second : ℕ
second = 1_000_000_000

module _ (wait_cap : ℕ) where
  is_stale : ℕ → RunRow → Bool
  is_stale now r = ltb ((wait_cap + 300) * second) (now - r.created_at)

  -- The refetch finds the run's row again, since only its columns change.
  or_same : ActionRun → Option ActionRun → ActionRun
  or_same run none = run
  or_same run (some r) = r

  unfoldable pub timed_out_run : ℕ → ActionRun → Db → Db
  unfolding escalate_all mark_action_run_completed
  timed_out_run now run db =
      mark_action_run_completed run.row.id (escalate_all timed_out now run.candidates db)

  reconcile_running : ℕ → ActionRun → Db → ActionRun × Db
  unfolding is_stale timed_out_run or_same
  reconcile_running now run db =
      if is_stale now run.row
      then (
        or_same run (fetch_action_run_row run.row.id (timed_out_run now run db)),
        timed_out_run now run db,
      )
      else (run, db)

  reconcile_state : RunState → ℕ → ActionRun → Db → ActionRun × Db
  unfolding reconcile_running
  reconcile_state completed now run db = (run, db)
  reconcile_state running now run db = reconcile_running now run db

  -- `_reconcile_stale_running_run`, with the tables that it leaves.
  unfoldable pub reconcile_stale_running_run : ℕ → ActionRun → Db → ActionRun × Db
  unfolding reconcile_state
  reconcile_stale_running_run now run db = reconcile_state run.row.state now run db

  reconcile_found : ℕ → Option ActionRun → Db → Option ActionRun × Db
  unfolding reconcile_stale_running_run
  reconcile_found now none db = (none, db)
  reconcile_found now (some run) db =
      let (run', db') = reconcile_stale_running_run now run db in (some run', db')

  unfoldable pub load_action_run : Text → ℕ → Db → Option ActionRun × Db
  unfolding reconcile_found fetch_action_run_row
  load_action_run id now db = reconcile_found now (fetch_action_run_row id db) db

  finalize_state : Text → RunState → ActionRun → Db → Bool × Db
  finalize_state id completed run db = (true, db)
  finalize_state id running run db =
      if is_action_run_terminal run then (true, mark_action_run_completed id db) else (false, db)

  finalize_found : Text → Option ActionRun → Db → Bool × Db
  unfolding finalize_state
  finalize_found id none db = (false, db)
  finalize_found id (some run) db = finalize_state id run.row.state run db

  unfoldable pub finalize_action_run_if_terminal : Text → ℕ → Db → Bool × Db
  unfolding finalize_found load_action_run
  finalize_action_run_if_terminal id now db =
      let (run, db') = load_action_run id now db in finalize_found id run db'
