-- ===== src/Actions/Populate.antt =====
-- `populate_action_run_candidates`: which pull requests the merge task may merge.
pub mod Tables
pub mod Authorization
use arguss.Base.{
  ℕ, suc, ◌+◌, Bool, true, false, not, ◌&&◌, ◌||◌, any, Option, none, some, List, [], ◌∷◌, ◌++◌,
  if◌then◌else◌, Text, text_eq, is_in,
}
use arguss.Models.{Veto, FixTier, auto_merge, review_required, decline, FixCandidate, FixConfidence}
use arguss.Actions.Runs.{
  ActionRunCandidate, RunRow, Db, CandidateState, pr_opened, pr_only, MergeAuthorization, engine,
  human_override, merge_escalation_primary_detail,
}

-- The parts of `ProposalEntry` that are read; `entry_id` is `candidate.candidate_id`.
pub record Entry : Type 0 where
  pub entry_id : Text
  pub candidate : FixCandidate
  pub verdict : FixConfidence

pub data ActionStatus : Type 0 where
  opened already_exists failed skipped : ActionStatus

-- arguss/web/github_action.py: the parts of `ActionResult` that are read.
pub record ActionResult : Type 0 where
  pub candidate_id : Text
  pub status : ActionStatus
  pub pr_number : Option ℕ
  pub head_sha : Option Text

-- The two errors are `DeclineMergeAuthorizationError` and `sqlite3.IntegrityError`.
pub data Populated : Type 0 where
  ok : List ActionRunCandidate → Populated
  decline_error integrity_error : Populated

-- entry_by_id.get(id): the dict keeps the last entry of an id.
unfoldable pub entry_by_id : Text → List Entry → Option Entry
entry_by_id id [] = none
entry_by_id id (e ∷ es) = elim (entry_by_id id es) [
  | none ↦ if text_eq e.entry_id id then some e else none
  | some later ↦ some later
]

abbrev pub is_decline : FixTier → Bool
is_decline decline = true
is_decline _ = false

unfoldable pub declined_entry : Option Entry → Bool
declined_entry none = false
declined_entry (some e) = is_decline e.verdict.tier

-- The first loop: does any selected candidate have the tier DECLINE?
unfoldable pub any_declined : List Text → List Entry → Bool
unfolding declined_entry
any_declined [] es = false
any_declined (id ∷ ids) es = declined_entry (entry_by_id id es) || any_declined ids es

-- `_merge_authorization_for_tier`; `none` stands for the error that it raises.
unfoldable pub merge_authorization_for_tier : FixTier → Option MergeAuthorization
merge_authorization_for_tier auto_merge = some engine
merge_authorization_for_tier review_required = some human_override
merge_authorization_for_tier decline = none

unfoldable pub is_open : ActionStatus → Bool
is_open opened = true
is_open already_exists = true
is_open _ = false

-- The constraints of arguss/core/migrations/008_action_runs.sql: the primary key, the unique index
-- and the foreign key, which `get_connection` switches on.
abbrev pub clashes : ActionRunCandidate → ActionRunCandidate → Bool
clashes row r =
    text_eq r.id row.id
    || (text_eq r.action_run_id row.action_run_id && text_eq r.candidate_id row.candidate_id)

unfoldable pub is_refused : ActionRunCandidate → Db → Bool
is_refused row db =
    not (any (λ (r : RunRow). text_eq r.id row.action_run_id) db.runs)
    || any (clashes row) db.candidates

abbrev pub with_row : ActionRunCandidate → Db → Db
with_row row db = record db { candidates = db.candidates ++ (row ∷ []) }

-- The INSERT and its commit; `none` where the database raises.
unfoldable pub add_action_run_candidate : ActionRunCandidate → Db → Option Db
unfolding is_refused
add_action_run_candidate row db = if is_refused row db then none else some (with_row row db)

-- The rest of the loop, from the number of the next row, the rows created and the tables.
abbrev pub Rest : Type 0
Rest = ℕ → List ActionRunCandidate → Db → Populated × Db

unfoldable pub inserted :
    Rest → ℕ → List ActionRunCandidate → ActionRunCandidate → Db → Option Db → Populated × Db
inserted rest n created row db none = (integrity_error, db)
inserted rest n created row db (some db') = rest (suc n) (created ++ (row ∷ [])) db'

unfoldable pub register_row :
    Rest → ℕ → List ActionRunCandidate → Db → Option ActionRunCandidate → Populated × Db
unfolding inserted add_action_run_candidate
register_row rest n created db none = (decline_error, db)
register_row rest n created db (some row) =
    inserted rest n created row db (add_action_run_candidate row db)

module _ (uuid : ℕ → Text) (now : ℕ → ℕ) (run_id : Text) where
  unfoldable pub pr_only_row : ℕ → Entry → ActionResult → ActionRunCandidate
  pr_only_row n e a = record {
    id = uuid n;
    action_run_id = run_id;
    candidate_id = a.candidate_id;
    package_name = e.candidate.package_name;
    from_version = e.candidate.from_version;
    to_version = e.candidate.to_version;
    state = pr_only;
    updated_at = now n;
    pr_number = a.pr_number;
    head_sha = a.head_sha;
    state_detail = some (merge_escalation_primary_detail pr_only);
    merge_authorization = none;
    engine_score = none;
    veto_signals = [];
    pr_authorization_appended = false;
  }

  unfoldable pub armed_row : MergeAuthorization → ℕ → Entry → ActionResult → ActionRunCandidate
  unfolding pr_only_row
  armed_row auth n e a = record (pr_only_row n e a) {
    state = pr_opened;
    state_detail = none;
    merge_authorization = some auth;
    engine_score = some e.verdict.score;
    veto_signals = e.verdict.veto_signals;
  }

  abbrev pub armed_by :
      Option MergeAuthorization → ℕ → Entry → ActionResult → Option ActionRunCandidate
  armed_by none n e a = none
  armed_by (some auth) n e a = some (armed_row auth n e a)

  -- The row of an action with an entry; `none` where `_merge_authorization_for_tier` raises.
  unfoldable pub row_of : List Text → ℕ → ActionResult → Entry → Option ActionRunCandidate
  unfolding armed_row pr_only_row
  row_of selected n a e =
      if is_in a.candidate_id selected
      then armed_by (merge_authorization_for_tier e.verdict.tier) n e a
      else some (pr_only_row n e a)

  unfoldable pub register_entry :
      Rest
      → List Text
      → ℕ
      → ActionResult
      → List ActionRunCandidate
      → Db
      → Option Entry
      → Populated × Db
  unfolding register_row row_of
  register_entry rest selected n a created db none = rest n created db
  register_entry rest selected n a created db (some e) =
      register_row rest n created db (row_of selected n a e)

  -- The second loop. Each row draws the next of the ids that `uuid4` gives and reads the clock.
  unfoldable pub populate_rows : List Text → List Entry → List ActionResult → Rest
  unfolding register_entry is_open
  populate_rows selected es [] n created db = (ok created, db)
  populate_rows selected es (a ∷ as') n created db =
      if is_open a.status
      then register_entry (populate_rows selected es as') selected n a created db
          (entry_by_id a.candidate_id es)
      else populate_rows selected es as' n created db

  -- `auto_merge_candidate_ids` is a set; only membership and the first test read it.
  unfoldable pub populate_action_run_candidates :
      List Text → List Entry → List ActionResult → Db → Populated × Db
  unfolding any_declined populate_rows
  populate_action_run_candidates selected es actions db =
      if any_declined selected es
      then (decline_error, db)
      else populate_rows selected es actions 0 [] db
