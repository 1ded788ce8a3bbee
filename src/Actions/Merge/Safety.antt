-- ===== src/Actions/Merge/Safety.antt =====
-- No merge request goes out for a commit whose checks were not all seen green.
use arguss.Base.{
  ℕ, ◌≡◌, ◌≢◌, inl, inr, refl, Bool, true, false, Option, none, some, List, [], ◌∷◌, arith, Text,
  Bool-cases, All,
}
use arguss.Actions.Runs.{
  ActionRunCandidate, MergeAuthorization, Db, is_terminal, find_row, load_action_run,
  update_action_run_candidate, no_changes,
}
use arguss.Actions.Merge.{
  CheckRun, is_completed, is_green, all_green, check_runs_green, check_runs_failed, GitHub,
  MergeCall, Clock, FirstNoChecks, Outcome, after_merge, merge_pr, without_checks, with_checks,
  on_check_runs, refreshed, with_sha, resolve_head, without_head, on_head, process_state,
  process_candidate, or_row, append_authorization,
}

-- The request names a commit for which GitHub listed check runs, at least one, all of them
-- completed with a conclusion that counts as success.
pub record Verified (gh : GitHub) (call : MergeCall) : Type 0 where
  pub listed : gh.check_runs call.sha ≡ some call.seen
  pub some_run : call.seen ≢ []
  pub green : All (λ r. (is_completed r ≡ true) × (is_green r ≡ true)) call.seen

all_green-All :
    (rs : List CheckRun)
    → all_green rs ≡ true
    → All (λ r. (is_completed r ≡ true) × (is_green r ≡ true)) rs
unfolding all_green
all_green-All [] h = tt
all_green-All (r ∷ rs) h = ((ground arith, ground arith), all_green-All rs (ground arith))

module _ (wait_cap grace_period : ℕ) (gh : GitHub) (clock : Clock) where
  abbrev Safe : Outcome → Type 0
  Safe o = All (Verified gh) o.calls

  after_merge-Safe :
      (c : ActionRunCandidate) (call : MergeCall) (answer : Option ℕ) (db : Db) (m : FirstNoChecks)
      → Verified gh call
      → Safe (after_merge wait_cap grace_period gh clock c call answer db m)
  unfolding after_merge
  after_merge-Safe c call none db m v = (v, tt)
  after_merge-Safe c call (some status) db m v = (v, tt)

  merge_pr-Safe :
      (c : ActionRunCandidate) (sha : Text) (r : CheckRun) (rs : List CheckRun) (pr : Option ℕ)
      (db : Db) (m : FirstNoChecks)
      → gh.check_runs sha ≡ some (r ∷ rs)
      → check_runs_green (r ∷ rs) ≡ true
      → Safe (merge_pr wait_cap grace_period gh clock c sha (r ∷ rs) pr db m)
  unfolding merge_pr check_runs_green
  merge_pr-Safe c sha r rs none db m e g = tt
  merge_pr-Safe c sha r rs (some pr) db m e g =
      after_merge-Safe c _ (gh.merge_status pr sha) db m
        (record { listed = e; some_run = λ n. cc; green = all_green-All (r ∷ rs) g })

  on_check_runs-Safe :
      (c : ActionRunCandidate) (sha : Text) (runs : Option (List CheckRun)) (db : Db)
      (m : FirstNoChecks)
      → gh.check_runs sha ≡ runs
      → Safe (on_check_runs wait_cap grace_period gh clock c sha runs db m)
  unfolding on_check_runs without_checks with_checks
  on_check_runs-Safe c sha none db m e = tt
  on_check_runs-Safe c sha (some []) db m e = tt
  on_check_runs-Safe c sha (some (r ∷ rs)) db m e = elim (Bool-cases (check_runs_failed (r ∷ rs))) [
    | inl f ↦ rw f tt
    | inr n ↦ elim (Bool-cases (check_runs_green (r ∷ rs))) [
      | inl g ↦ rw (n, g) (merge_pr-Safe c sha r rs c.pr_number db _ e g)
      | inr w ↦ rw (n, w) tt
    ]
  ]

  with_sha-Safe :
      (c : ActionRunCandidate) (sha : Text) (db : Db) (m : FirstNoChecks)
      → Safe (with_sha wait_cap grace_period gh clock c sha db m)
  unfolding with_sha
  with_sha-Safe c sha db m =
      let db1 =
        update_action_run_candidate c.id (record no_changes { head_sha = some sha }) clock.wall
          db in
      let (run, db2) = load_action_run wait_cap c.action_run_id clock.wall db1 in
      on_check_runs-Safe (refreshed wait_cap grace_period gh clock c run) sha (gh.check_runs sha)
        db2 m refl

  process_state-Safe :
      (c : ActionRunCandidate) (db : Db) (m : FirstNoChecks)
      → Safe (process_state wait_cap grace_period gh clock c db m)
  unfolding process_state on_head without_head resolve_head
  process_state-Safe c db m = elim (Bool-cases (is_terminal c.state)) [
    | inl t ↦ rw t tt
    | inr n ↦ rw n (by_head c.head_sha)
  ]
    where
      by_answer :
          (a : Option (Option Text)) → Safe (resolve_head wait_cap grace_period gh clock c a db m)
      by_answer none = tt
      by_answer (some none) = tt
      by_answer (some (some sha)) = with_sha-Safe c sha db m

      by_pr : (pr : Option ℕ) → Safe (without_head wait_cap grace_period gh clock c pr db m)
      by_pr none = tt
      by_pr (some pr) = by_answer (gh.pr_head_sha pr)

      by_head : (h : Option Text) → Safe (on_head wait_cap grace_period gh clock c h db m)
      by_head none = by_pr c.pr_number
      by_head (some sha) = on_check_runs-Safe c sha (gh.check_runs sha) db m refl

  pub process_candidate-Safe :
      (c : ActionRunCandidate) (db : Db) (m : FirstNoChecks)
      → Safe (process_candidate wait_cap grace_period gh clock c db m)
  unfolding process_candidate append_authorization
  process_candidate-Safe c db m = by_authorization c.merge_authorization c.pr_authorization_appended
    where
      by_authorization :
          (a : Option MergeAuthorization) (done : Bool)
          → Safe (append_authorization wait_cap grace_period gh clock c a done db m)
      by_authorization none done = process_state-Safe c db m
      by_authorization (some auth) true = process_state-Safe c db m
      by_authorization (some auth) false =
          let db1 =
            update_action_run_candidate c.id
              (record no_changes { pr_authorization_appended = some true }) clock.wall db in
          process_state-Safe
            (or_row wait_cap grace_period gh clock c (find_row c.id db1.candidates)) db1 m
