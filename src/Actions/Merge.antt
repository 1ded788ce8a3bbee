-- ===== src/Actions/Merge.antt =====
-- arguss/web/action_merge.py: the task that polls CI and merges. GitHub is a parameter: what it
-- answers to each request, with `none` where the client raises. The kill switch, the clocks and
-- the answers may differ from poll to poll.
pub mod Safety
pub mod Requests
pub mod Halting
use arguss.Base.{
  ℕ, ◌+◌, ◌-◌, ◌*◌, Bool, true, false, not, ◌&&◌, ◌||◌, Option, none, some, List, [], ◌∷◌, ◌++◌,
  leb, ◌==◌, if◌then◌else◌, Text, codes, text_eq, is_empty, is_in, keep,
}
use arguss.Actions.Runs.{
  CandidateState, MergeAuthorization, pr_opened, ci_running, merged, ci_failed, no_checks,
  sha_conflict, timed_out, killed, head_sha_unresolved, ActionRunCandidate, ActionRun, Db, Changes,
  no_changes, to_state, second, is_terminal, find_row, update_action_run_candidate, load_action_run,
  escalate_all, finalize_action_run_if_terminal,
}

pub record CheckRun : Type 0 where
  pub status : Option Text
  pub conclusion : Option Text

has_text : Option Text → List Text → Bool
has_text none ts = false
has_text (some t) ts = is_in t ts

unfoldable pub is_completed : CheckRun → Bool
unfolding has_text
is_completed r = has_text r.status (codes "completed" ∷ [])

-- conclusion in _GREEN_CONCLUSIONS
unfoldable pub is_green : CheckRun → Bool
unfolding has_text
is_green r = has_text r.conclusion (codes "success" ∷ codes "neutral" ∷ codes "skipped" ∷ [])

all_green : List CheckRun → Bool
all_green [] = true
all_green (r ∷ rs) = is_completed r && (is_green r && all_green rs)

unfoldable pub check_runs_green : List CheckRun → Bool
unfolding all_green
check_runs_green [] = false
check_runs_green (r ∷ rs) = all_green (r ∷ rs)

unfoldable pub check_runs_failed : List CheckRun → Bool
check_runs_failed [] = false
check_runs_failed (r ∷ rs) = (is_completed r && not (is_green r)) || check_runs_failed rs

-- What GitHub answers while one candidate is processed: the head of a pull request, the check runs
-- of a commit, and the status of a merge request. Where the answer has another status or shape,
-- `_fetch_pr_head_sha` gives `some none` and `_fetch_check_runs` gives `some []`.
pub record GitHub : Type 0 where
  pub pr_head_sha : ℕ → Option (Option Text)
  pub check_runs : Text → Option (List CheckRun)
  pub merge_status : ℕ → Text → Option ℕ

-- A `PUT …/merge` request: the pull request, the commit that it must still point to, and the
-- check runs that were seen on that commit. The commit message is left out.
pub record MergeCall : Type 0 where
  pub row_id : Text
  pub pr_number : ℕ
  pub sha : Text
  pub seen : List CheckRun

pub record Clock : Type 0 where
  pub wall : ℕ
  pub monotonic : ℕ

-- The time at which a candidate was first seen without check runs.
abbrev pub FirstNoChecks : Type 0
FirstNoChecks = Text → Option ℕ

-- What processing a candidate leaves. `raised` is an exception of the HTTP client, which leaves
-- `_process_candidate` and ends the task.
pub record Outcome : Type 0 where
  pub db : Db
  pub first_no_checks : FirstNoChecks
  pub calls : List MergeCall
  pub raised : Bool

abbrev pub set_first : Text → Option ℕ → FirstNoChecks → FirstNoChecks
set_first id v m j = if text_eq id j then v else m j

abbrev pub or_now : Option ℕ → ℕ → ℕ
or_now none now = now
or_now (some t) now = t

module _ (wait_cap grace_period : ℕ) (gh : GitHub) (clock : Clock) where
  abbrev pub settle : Db → FirstNoChecks → Outcome
  settle db m = record { db = db; first_no_checks = m; calls = []; raised = false }

  abbrev pub fail : Db → FirstNoChecks → Outcome
  fail db m = record { db = db; first_no_checks = m; calls = []; raised = true }

  abbrev move : Text → CandidateState → Db → Db
  move id s = update_action_run_candidate id (to_state s) clock.wall

  -- if candidate.state == "pr_opened": … state="ci_running", with no detail
  wait_for_ci : ActionRunCandidate → Db → Db
  wait_for_ci c db = elim c.state [
    | pr_opened ↦
        update_action_run_candidate c.id (record no_changes { state = some ci_running }) clock.wall
          db
    | _ ↦ db
  ]

  -- The answer to the merge request.
  after_merge : ActionRunCandidate → MergeCall → Option ℕ → Db → FirstNoChecks → Outcome
  after_merge c call none db m = record (fail db m) { calls = call ∷ [] }
  after_merge c call (some status) db m = record (settle db m) {
    calls = call ∷ [];
    db =
        if status == 200
        then update_action_run_candidate c.id (record no_changes { state = some merged }) clock.wall
            db
        else if status == 409
        then move c.id sha_conflict db
        else db;
  }

  merge_pr : ActionRunCandidate → Text → List CheckRun → Option ℕ → Db → FirstNoChecks → Outcome
  unfolding after_merge
  merge_pr c sha runs none db m = settle (move c.id head_sha_unresolved db) m
  merge_pr c sha runs (some pr) db m =
      after_merge c (record { row_id = c.id; pr_number = pr; sha = sha; seen = runs })
        (gh.merge_status pr sha) db m

  -- No check runs: wait for the grace period, then give up.
  without_checks : ActionRunCandidate → Db → FirstNoChecks → Outcome
  unfolding wait_for_ci
  without_checks c db m =
      let started = or_now (m c.id) clock.monotonic in
      settle
        (if leb (grace_period * second) (clock.monotonic - started)
          then move c.id no_checks db
          else wait_for_ci c db)
        (set_first c.id (some started) m)

  with_checks : ActionRunCandidate → Text → List CheckRun → Db → FirstNoChecks → Outcome
  unfolding wait_for_ci merge_pr
  with_checks c sha runs db m =
      if check_runs_failed runs
      then settle (move c.id ci_failed db) (set_first c.id none m)
      else if check_runs_green runs
      then merge_pr c sha runs c.pr_number db (set_first c.id none m)
      else settle (wait_for_ci c db) (set_first c.id none m)

  unfoldable pub on_check_runs :
      ActionRunCandidate → Text → Option (List CheckRun) → Db → FirstNoChecks → Outcome
  unfolding without_checks with_checks
  on_check_runs c sha none db m = fail db m
  on_check_runs c sha (some []) db m = without_checks c db m
  on_check_runs c sha (some (r ∷ rs)) db m = with_checks c sha (r ∷ rs) db m

  -- The row of the candidate after its run is loaded again.
  refreshed : ActionRunCandidate → Option ActionRun → ActionRunCandidate
  refreshed c none = c
  refreshed c (some run) = elim (find_row c.id run.candidates) [ none ↦ c | some r ↦ r ]

  with_sha : ActionRunCandidate → Text → Db → FirstNoChecks → Outcome
  unfolding refreshed on_check_runs load_action_run
  with_sha c sha db m =
      let db1 =
        update_action_run_candidate c.id (record no_changes { head_sha = some sha }) clock.wall
          db in
      let (run, db2) = load_action_run wait_cap c.action_run_id clock.wall db1 in
      on_check_runs (refreshed c run) sha (gh.check_runs sha) db2 m

  resolve_head : ActionRunCandidate → Option (Option Text) → Db → FirstNoChecks → Outcome
  unfolding with_sha
  resolve_head c none db m = fail db m
  resolve_head c (some none) db m = settle (move c.id head_sha_unresolved db) m
  resolve_head c (some (some sha)) db m = with_sha c sha db m

  without_head : ActionRunCandidate → Option ℕ → Db → FirstNoChecks → Outcome
  unfolding resolve_head
  without_head c none db m = settle (move c.id head_sha_unresolved db) m
  without_head c (some pr) db m = resolve_head c (gh.pr_head_sha pr) db m

  on_head : ActionRunCandidate → Option Text → Db → FirstNoChecks → Outcome
  unfolding without_head
  on_head c none db m = without_head c c.pr_number db m
  on_head c (some sha) db m = on_check_runs c sha (gh.check_runs sha) db m

  -- From `if candidate.state in TERMINAL_CANDIDATE_STATES` on.
  unfoldable pub process_state : ActionRunCandidate → Db → FirstNoChecks → Outcome
  unfolding on_head
  process_state c db m = if is_terminal c.state then settle db m else on_head c c.head_sha db m

  or_row : ActionRunCandidate → Option ActionRunCandidate → ActionRunCandidate
  or_row c none = c
  or_row c (some r) = r

  append_authorization :
      ActionRunCandidate → Option MergeAuthorization → Bool → Db → FirstNoChecks → Outcome
  unfolding process_state or_row
  append_authorization c none done db m = process_state c db m
  append_authorization c (some auth) true db m = process_state c db m
  append_authorization c (some auth) false db m =
      let db1 =
        update_action_run_candidate c.id
          (record no_changes { pr_authorization_appended = some true }) clock.wall db in
      process_state (or_row c (find_row c.id db1.candidates)) db1 m

  -- The line that is added to the pull request's body is not modelled: the row is marked whether
  -- or not GitHub took it.
  unfoldable pub process_candidate : ActionRunCandidate → Db → FirstNoChecks → Outcome
  unfolding append_authorization
  process_candidate c db m =
      append_authorization c c.merge_authorization c.pr_authorization_appended db m

-- What one turn of the `while` loop meets: the kill switch and the clock at its top, and the clock
-- and GitHub's answers when each candidate is processed.
pub record Poll : Type 0 where
  pub kill_switch_active : Bool
  pub clock : Clock
  pub clock_at : Text → Clock
  pub answers : Text → GitHub

pub record TaskState : Type 0 where
  pub db : Db
  pub first_no_checks : FirstNoChecks
  pub calls : List MergeCall
  pub returned : Bool

abbrev pub active_candidates : List ActionRunCandidate → List ActionRunCandidate
active_candidates = keep (λ c. not (is_terminal c.state))

module _ (wait_cap grace_period : ℕ) (run_id : Text) (started_at : ℕ) where
  -- for candidate in active: await _process_candidate(…)
  unfoldable pub process_all : Poll → List ActionRunCandidate → TaskState → TaskState
  unfolding process_candidate
  process_all p [] s = s
  process_all p (c ∷ cs) s =
      let o =
        process_candidate wait_cap grace_period (p.answers c.id) (p.clock_at c.id) c s.db
          s.first_no_checks in
      let s' : TaskState = record {
        db = o.db;
        first_no_checks = o.first_no_checks;
        calls = s.calls ++ o.calls;
        returned = o.raised;
      } in
      let rest = process_all p cs s' in if o.raised then s' else rest

  finish : Poll → Db → TaskState → TaskState
  finish p db s = record s {
    db = (finalize_action_run_if_terminal wait_cap run_id p.clock.wall db).1;
    returned = true;
  }

  kill_run : Poll → Option ActionRun → Db → TaskState → TaskState
  unfolding finish
  kill_run p none db s = finish p db s
  kill_run p (some run) db s = finish p (escalate_all killed p.clock.wall run.candidates db) s

  poll_run : Poll → Option ActionRun → Db → TaskState → TaskState
  unfolding finish process_all
  poll_run p none db s = record s { db = db; returned = true }
  poll_run p (some run) db s =
      let active = active_candidates run.candidates in
      if is_empty active
      then finish p db s
      else if leb (wait_cap * second) (p.clock.monotonic - started_at)
      then finish p (escalate_all timed_out p.clock.wall active db) s
      else process_all p active (record s { db = db })

  unfoldable pub turn : Poll → TaskState → TaskState
  unfolding kill_run poll_run
  turn p s =
      let (run, db) = load_action_run wait_cap run_id p.clock.wall s.db in
      if p.kill_switch_active then kill_run p run db s else poll_run p run db s

  -- The task, over the polls that it lives to make.
  unfoldable pub run_action_merge_task : List Poll → TaskState → TaskState
  unfolding turn
  run_action_merge_task [] s = s
  run_action_merge_task (p ∷ ps) s =
      let rest = run_action_merge_task ps (turn p s) in if s.returned then s else rest

abbrev pub start : Db → TaskState
start db = record { db = db; first_no_checks = λ _. none; calls = []; returned = false }
