-- ===== src/RateLimit/Scan.antt =====
-- arguss/web/scan_rate_limit.py: scans per address in an hour, and per wizard session.
pub mod Sessions
use arguss.Base.{
  ℕ, zero, suc, ◌+◌, ◌*◌, Bool, true, false, Option, none, some, List, [], ◌∷◌, ◌++◌, leb,
  if◌then◌else◌, length, Text, text_eq,
}
use arguss.RateLimit.Window.{Events, nanoseconds, prune, retry_after, or_empty, put}

abbrev pub scan_window_seconds : ℕ
scan_window_seconds = 3600

abbrev pub scan_window : ℕ
scan_window = scan_window_seconds * nanoseconds

pub data Scope : Type 0 where
  ip session : Scope

-- The text `detail`, which is fixed for each scope, is left out.
pub record ScanRateLimitDenial : Type 0 where
  pub scope : Scope
  pub retry_after_seconds : ℕ

-- `_session_counts.get(token, 0)` is the function; a missing key counts 0.
pub record ScanState : Type 0 where
  pub ip_events : Events
  pub session_counts : Text → ℕ

-- session_limit <= 0 or count >= session_limit, for a request with a session
abbrev pub session_full : Option Text → ℕ → (Text → ℕ) → Bool
session_full none limit counts = false
session_full (some token) limit counts = leb limit (counts token)

abbrev pub count_session : Option Text → (Text → ℕ) → Text → ℕ
count_session none counts j = counts j
count_session (some token) counts j = if text_eq token j then suc (counts j) else counts j

-- The deque of the address is created and pruned also where the request is then denied.
unfoldable pub check_and_count :
    Text → Option Text → ℕ → ℕ → ℕ → ScanState → Option ScanRateLimitDenial × ScanState
unfolding put prune
check_and_count addr token zero session_limit now s =
    (some (record { scope = ip; retry_after_seconds = scan_window_seconds }), s)
check_and_count addr token (suc l) session_limit now s =
    let events = prune scan_window now (or_empty (s.ip_events addr)) in
    let pruned = record s { ip_events = put addr events s.ip_events } in
    if leb (suc l) (length events)
    then (
      some (record { scope = ip; retry_after_seconds = retry_after scan_window now events }),
      pruned,
    )
    else if session_full token session_limit s.session_counts
    then (some (record { scope = session; retry_after_seconds = scan_window_seconds }), pruned)
    else (
      none,
      record {
        ip_events = put addr (events ++ now ∷ []) s.ip_events;
        session_counts = count_session token s.session_counts;
      },
    )

-- What `check_scan_rate_limit` reads of the settings and of a request. An empty cookie is none.
pub record ScanLimits : Type 0 where
  pub enabled : Bool
  pub per_ip_per_hour : ℕ
  pub per_session : ℕ

pub record ScanRequest : Type 0 where
  pub addr : Text
  pub cookie : Option Text
  pub now : ℕ

abbrev pub token_of_cookie : Option Text → Option Text
token_of_cookie none = none
token_of_cookie (some []) = none
token_of_cookie (some (c ∷ t)) = some (c ∷ t)

unfoldable pub check_scan_rate_limit :
    ScanLimits → ScanRequest → ScanState → Option ScanRateLimitDenial × ScanState
unfolding check_and_count
check_scan_rate_limit limits r s =
    if limits.enabled
    then check_and_count r.addr (token_of_cookie r.cookie) limits.per_ip_per_hour limits.per_session
        r.now s
    else (none, s)

-- `reset_scan_rate_limit_state`, and the state of a new process.
abbrev pub no_scans : ScanState
no_scans = record { ip_events = λ _. none; session_counts = λ _. 0 }
