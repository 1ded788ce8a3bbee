-- ===== src/Tests/Merging.antt =====
-- Pull requests that are registered and merged, on sample data.
use arguss.Base.{◌≡◌, ◌⊎◌, inl, refl, true, false, none, some, [], ◌∷◌, codes, text_eq, All, length}
use arguss.Engine.FixConfidence.{compute_fix_confidence}
use arguss.Actions.Runs.{
  pr_opened, engine, ActionRunCandidate, running, Db, load_action_run, fetch_action_run_row,
  reconcile_stale_running_run, candidates_of, is_terminal,
}
use arguss.Actions.Populate.{Entry, ActionResult, opened}
use arguss.Actions.Merge.{
  CheckRun, is_completed, is_green, check_runs_green, check_runs_failed, GitHub, Clock, Poll,
  on_check_runs, process_state, process_candidate, process_all, turn, run_action_merge_task, start,
}
use arguss.Actions.Merge.Halting.{Halted, turn-Halted}
use arguss.Actions.Merge.Requests.{Allowed, merge_calls-Allowed}
use arguss.Tests.{same_text, no_switch, upgrade, calm, tested}

abbrev entry : Entry
entry = record {
  entry_id = codes "c1";
  candidate = upgrade;
  verdict = compute_fix_confidence same_text 0 upgrade no_switch (some calm) (some tested) false;
}

abbrev opened_pr : ActionResult
opened_pr = record {
  candidate_id = codes "c1";
  status = opened;
  pr_number = some 12;
  head_sha = some (codes "abc");
}

-- One run and no candidates.
abbrev one_run : Db
one_run = record {
  runs =
      record {
        id = codes "run";
        scan_hash = codes "h";
        mode = codes "opt_in";
        created_at = 0;
        state = running;
        scan_ref = none;
        wizard_action_id = none;
        installation_id = none;
      }
      ∷ [];
  candidates = [];
}

abbrev waiting : ActionRunCandidate
waiting = record {
  id = codes "row";
  action_run_id = codes "run";
  candidate_id = codes "c1";
  package_name = codes "lodash";
  from_version = codes "4.17.15";
  to_version = codes "4.17.21";
  state = pr_opened;
  updated_at = 0;
  pr_number = some 12;
  head_sha = some (codes "abc");
  state_detail = none;
  merge_authorization = some engine;
  engine_score = some 100;
  veto_signals = [];
  pr_authorization_appended = true;
}

abbrev tables : Db
tables = record {
  runs =
      record {
        id = codes "run";
        scan_hash = codes "h";
        mode = codes "opt_in";
        created_at = 0;
        state = running;
        scan_ref = none;
        wizard_action_id = none;
        installation_id = none;
      }
      ∷ [];
  candidates = waiting ∷ [];
}

abbrev passed : CheckRun
passed = record { status = some (codes "completed"); conclusion = some (codes "success") }

-- GitHub lists one green check for every commit and merges what it is asked to merge.
abbrev green_github : GitHub
green_github = record {
  pr_head_sha = λ _. none;
  check_runs = λ _. some (passed ∷ []);
  merge_status = λ _ _. some 200;
}

abbrev early : Clock
early = record { wall = 0; monotonic = 0 }

abbrev green_poll : Poll
green_poll = record {
  kill_switch_active = false;
  clock = early;
  clock_at = λ _. early;
  answers = λ _. green_github;
}

one_merge_call :
    length (run_action_merge_task 600 60 (codes "run") 0 (green_poll ∷ []) (start tables)).calls ≡ 1
unfolding run_action_merge_task turn process_all process_candidate process_state on_check_runs
    check_runs_green check_runs_failed load_action_run fetch_action_run_row
    reconcile_stale_running_run candidates_of text_eq is_terminal is_completed is_green
one_merge_call = refl

merge_calls-Allowed_example :
    All
      (Allowed (green_poll ∷ []))
      (run_action_merge_task 600 60 (codes "run") 0 (green_poll ∷ []) (start tables)).calls
merge_calls-Allowed_example = merge_calls-Allowed 600 60 (codes "run") 0 (green_poll ∷ []) tables

-- The operator turns the kill switch on.
abbrev killed_poll : Poll
killed_poll = record green_poll { kill_switch_active = true }

turn-Halted_example :
    (fetch_action_run_row (codes "run") tables ≡ none)
    ⊎ Halted 600 60
        (codes "run")
        0
        (start tables)
        (turn 600 60 (codes "run") 0 killed_poll (start tables))
turn-Halted_example = turn-Halted 600 60 (codes "run") 0 killed_poll (start tables) (inl refl)
