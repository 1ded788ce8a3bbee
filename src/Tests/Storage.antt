-- ===== src/Tests/Storage.antt =====
-- The cache, its migrations, and the wizard's sessions on sample data.
use arguss.Base.{
  ◌+◌, ◌*◌, ◌≡◌, ◌↔◌, refl, true, ◌&&◌, some, none, List, [], ◌∷◌, codes, Text, text_eq,
  if◌then◌else◌, ltb, All, length, lookup, keep, arith,
}
use arguss.Base.Results.{Result, ok, error, require, first_failure}
use arguss.Base.Json.{Json, string, object, member, no_members}
use arguss.Cache.{
  Database, JsonError, bad_json, hour, get_api_response, set_api_response, cleanup_expired,
  fresh_row, fresh_explanation,
}
use arguss.Cache.Reads.{get-set_api_response}
use arguss.Cache.Cleanup.{cleanup-reads}
use arguss.Cache.Migrations.{
  Migration, Schema, init_db, apply_files, apply_file, insert_version, is_pending, max_version,
  with_files, init_db-twice,
}
use arguss.Wizard.{step_selected, Cookies, session, WizardSession, get_or_redirect_wizard_session}
use arguss.Wizard.Refinement.{Op, create, step, run_all, effects, histories-effects}
use arguss.Wizard.Guard.{Admitted, guard_iff}

-- A way to write and to read objects with one text.
abbrev write : Json → Text
write (object (member k (string s) no_members)) = s
write _ = []

abbrev read : Text → Result JsonError Json
read s = ok (object (member (codes "text") (string s) no_members))

abbrev answer : Json
answer = object (member (codes "text") (string (codes "hi")) no_members)

abbrev empty_tables : Database
empty_tables = record { api_cache = []; ai_explanations = [] }

get-set_api_response_example :
    get_api_response read
      (codes "osv")
      (codes "k")
      5
      (set_api_response write (codes "osv") (codes "k") answer 1 0 empty_tables)
    ≡ (if text_eq (codes "k") (codes "k")
        then ok (
            if text_eq (codes "osv") (codes "osv") && ltb 5 (0 + 1 * hour)
            then some answer
            else none)
        else get_api_response read (codes "osv") (codes "k") 5 empty_tables)
get-set_api_response_example =
    get-set_api_response write read (codes "osv") (codes "k") answer 1 0 empty_tables (codes "osv")
      (codes "k") 5 refl

abbrev migrations : List Migration
migrations = record { version = 1; sql = codes "a" } ∷ record { version = 2; sql = codes "b" } ∷ []

abbrev before_second : Schema
before_second = record { applied = 1 ∷ []; scripts = [] }

abbrev after_second : Schema
after_second = record { applied = 1 ∷ 2 ∷ []; scripts = codes "b" ∷ [] }

second_applies : init_db migrations before_second ≡ ok after_second
unfolding init_db apply_files apply_file insert_version require first_failure
second_applies = refl

init_db-twice_example :
    (after_second
      ≡ with_files (keep (is_pending (max_version before_second.applied)) migrations) before_second)
    × (init_db migrations after_second ≡ ok after_second)
init_db-twice_example = init_db-twice migrations before_second after_second second_applies

abbrev stored : Database
stored = record {
  api_cache =
      (
        codes "k",
        record {
          response_json = codes "x";
          source = codes "osv";
          expires_at = 10;
          scan_response_schema_version = 0;
        },
      )
      ∷ [];
  ai_explanations = [];
}

abbrev read_nothing : Text → Result JsonError Json
read_nothing _ = error bad_json

cleanup-reads_example :
    (get_api_response read_nothing (codes "osv") (codes "k") 30 (cleanup_expired 20 stored).1
      ≡ get_api_response read_nothing (codes "osv") (codes "k") 30 stored)
    × ((cleanup_expired 20 stored).0
          + (length (cleanup_expired 20 stored).1.api_cache
              + length (cleanup_expired 20 stored).1.ai_explanations)
        ≡ length stored.api_cache + length stored.ai_explanations)
    × All (λ e. fresh_row 20 e ≡ true) (cleanup_expired 20 stored).1.api_cache
    × All (λ e. fresh_explanation 20 e ≡ true) (cleanup_expired 20 stored).1.ai_explanations
cleanup-reads_example =
    cleanup-reads read_nothing 20 30 (codes "osv") (codes "k") stored (omega arith) (refl, tt)

abbrev ops : List Op
ops = create (codes "t") (codes "h") 0 ∷ step (codes "t") step_selected ∷ []

abbrev cookies : Cookies
cookies = record { wizard_session = some (codes "t"); last_scan = none }

abbrev selecting : WizardSession
selecting = record {
  token = codes "t";
  row = record {
    scan_hash = codes "h";
    current_step = step_selected;
    selected_candidate_ids = [];
    auto_merge_candidate_ids = [];
    action_id = none;
    expires_at = 3600;
  };
}

histories-effects_example : lookup (codes "t") (run_all ops []) ≡ effects ops (codes "t") none
histories-effects_example = histories-effects ops (codes "t")

guard_iff_example :
    (get_or_redirect_wizard_session (step_selected ∷ []) cookies 5 (run_all ops [])
      ≡ session selecting)
    ↔ Admitted (step_selected ∷ []) cookies 5 (effects ops (codes "t") none) selecting
guard_iff_example = guard_iff (step_selected ∷ []) cookies 5 ops selecting

selecting-Admitted :
    Admitted (step_selected ∷ []) cookies 5 (effects ops (codes "t") none) selecting
unfolding text_eq
selecting-Admitted = record {
  named = refl;
  some_token = refl;
  stored = refl;
  alive = omega arith;
  allowed = refl;
}
