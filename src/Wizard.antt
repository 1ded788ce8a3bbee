-- ===== src/Wizard.antt =====
-- arguss/web/wizard_session.py: the table of wizard sessions and the guard of the wizard's pages.
-- `token` is the primary key, so the table is a dictionary. A time is a number of seconds; the two
-- columns that hold lists of ids as JSON are lists. Tokens that `secrets` draws are arguments.
pub mod Refinement
pub mod Guard
use arguss.Base.{
  ℕ, ◌+◌, Bool, true, false, not, Option, none, some, List, [], ◌∷◌, ◌++◌, if◌then◌else◌, leb,
  length, ◌-◌, keep, is_empty, Text, codes, text_eq, is_in, Dict, lookup,
}
use arguss.Base.Results.{Result, ok, error}

abbrev pub session_ttl : ℕ
session_ttl = 3600

-- The steps; any other text may stand in the column, and is refused by every page.
abbrev pub step_assessment_viewed : Text
step_assessment_viewed = codes "assessment"

abbrev pub step_selected : Text
step_selected = codes "selected"

abbrev pub step_authorized : Text
step_authorized = codes "authorized"

abbrev pub step_completed : Text
step_completed = codes "completed"

abbrev pub step_authorize_failed : Text
step_authorize_failed = codes "authorize_failed"

-- The row of a session, without its token, which is the key.
pub record Row : Type 0 where
  pub scan_hash : Text
  pub current_step : Text
  pub selected_candidate_ids : List Text
  pub auto_merge_candidate_ids : List Text
  pub action_id : Option Text
  pub expires_at : ℕ

pub record WizardSession : Type 0 where
  pub token : Text
  pub row : Row

abbrev pub Table : Type 0
Table = Dict Row

pub data SqlError : Type 0 where
  token_exists : SqlError

unfoldable pub insert_new : Text → Row → Table → Option Row → Result SqlError Table
insert_new token row table none = ok (table ++ ((token, row) ∷ []))
insert_new token row table (some r) = error token_exists

unfoldable pub insert_row : Text → Row → Table → Result SqlError Table
unfolding insert_new
insert_row token row table = insert_new token row table (lookup token table)

abbrev pub new_row : Text → ℕ → Row
new_row scan_hash now = record {
  scan_hash = scan_hash;
  current_step = step_assessment_viewed;
  selected_candidate_ids = [];
  auto_merge_candidate_ids = [];
  action_id = none;
  expires_at = now + session_ttl;
}

unfoldable pub create_session : Text → Text → ℕ → Table → Result SqlError Table
unfolding insert_row
create_session token scan_hash now = insert_row token (new_row scan_hash now)

-- None for a session that has expired.
unfoldable pub unexpired : Text → ℕ → Option Row → Option WizardSession
unexpired token now none = none
unexpired token now (some row) =
    if leb row.expires_at now then none else some (record { token = token; row = row })

unfoldable pub load_session : Text → ℕ → Table → Option WizardSession
unfolding unexpired
load_session token now table = unexpired token now (lookup token table)

-- UPDATE wizard_sessions SET … WHERE token = ?
unfoldable pub update_row : (Row → Row) → Text → Table → Table
update_row f token [] = []
update_row f token ((k, row) ∷ table) =
    (k, if text_eq k token then f row else row) ∷ update_row f token table

abbrev pub with_step : Text → Row → Row
with_step new_step row = record row { current_step = new_step }

abbrev pub with_selection : List Text → List Text → Row → Row
with_selection ids auto_merge_ids row = record row {
  selected_candidate_ids = ids;
  auto_merge_candidate_ids = auto_merge_ids;
}

abbrev pub with_action : Text → Row → Row
with_action action_id row = record row { action_id = some action_id }

unfoldable pub update_step : Text → Text → Table → Table
unfolding update_row
update_step token new_step = update_row (with_step new_step) token

unfoldable pub set_selection : Text → List Text → List Text → Table → Table
unfolding update_row
set_selection token ids auto_merge_ids = update_row (with_selection ids auto_merge_ids) token

unfoldable pub set_action_id : Text → Text → Table → Table
unfolding update_row
set_action_id token action_id = update_row (with_action action_id) token

unfoldable pub delete_session : Text → Table → Table
delete_session token = keep (λ e. not (text_eq e.0 token))

-- The number of rows removed, and the table.
unfoldable pub prune_expired_sessions : ℕ → Table → ℕ × Table
prune_expired_sessions now table =
    let rest = keep (λ e. not (leb e.1.expires_at now)) table in (length table - length rest, rest)

has_action : Text → Row → Bool
has_action action_id row = elim row.action_id [ none ↦ false | some a ↦ text_eq a action_id ]

-- SELECT … WHERE action_id = ?
unfoldable pub find_by_action : Text → Table → Option (Text × Row)
unfolding has_action
find_by_action action_id [] = none
find_by_action action_id ((k, row) ∷ table) =
    let later = find_by_action action_id table in
    if has_action action_id row then some (k, row) else later

unfoldable pub session_of_entry : ℕ → Option (Text × Row) → Option WizardSession
unfolding unexpired
session_of_entry now none = none
session_of_entry now (some (k, row)) = unexpired k now (some row)

unfoldable pub find_session_by_action_id : Text → ℕ → Table → Option WizardSession
unfolding find_by_action session_of_entry
find_session_by_action_id action_id now table =
    session_of_entry now (find_by_action action_id table)

unfoldable pub step_of_found : Text → Option WizardSession → Table → Table
unfolding update_step
step_of_found terminal_step none table = table
step_of_found terminal_step (some session) table = update_step session.token terminal_step table

unfoldable pub transition_session_for_action_outcome : Text → Text → ℕ → Table → Table
unfolding find_session_by_action_id step_of_found
transition_session_for_action_outcome action_id terminal_step now table =
    step_of_found terminal_step (find_session_by_action_id action_id now table) table

-- The cookies of a request that the wizard reads.
pub record Cookies : Type 0 where
  pub wizard_session : Option Text
  pub last_scan : Option Text

-- A session, or the redirect to a page with the note "expired".
pub data Guarded : Type 0 where
  session : WizardSession → Guarded
  redirect : Text → Guarded

abbrev pub to_scan : Text
to_scan = codes "/scan?wizard_note=expired"

unfoldable pub redirect_for : Option Text → Guarded
redirect_for none = redirect to_scan
redirect_for (some last) =
    if is_empty last
    then redirect to_scan
    else redirect (codes "/assessment/" ++ (last ++ codes "?wizard_note=expired"))

unfoldable pub expired_redirect : Cookies → Guarded
unfolding redirect_for
expired_redirect cookies = redirect_for cookies.last_scan

unfoldable pub guard_step : List Text → Cookies → Option WizardSession → Guarded
unfolding expired_redirect
guard_step allowed_steps cookies none = expired_redirect cookies
guard_step allowed_steps cookies (some s) =
    if is_in s.row.current_step allowed_steps then session s else expired_redirect cookies

unfoldable pub guard_token : List Text → Cookies → ℕ → Table → Option Text → Guarded
unfolding expired_redirect guard_step load_session
guard_token allowed_steps cookies now table none = expired_redirect cookies
guard_token allowed_steps cookies now table (some token) =
    if is_empty token
    then expired_redirect cookies
    else guard_step allowed_steps cookies (load_session token now table)

unfoldable pub get_or_redirect_wizard_session : List Text → Cookies → ℕ → Table → Guarded
unfolding guard_token
get_or_redirect_wizard_session allowed_steps cookies now table =
    guard_token allowed_steps cookies now table cookies.wizard_session
