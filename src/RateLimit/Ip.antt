-- ===== src/RateLimit/Ip.antt =====
-- arguss/web/ip_rate_limit.py: the per-minute backstop for each client address.
pub mod Safety
pub mod Recent
pub mod Retry
use arguss.Base.{
  ℕ, zero, suc, ◌+◌, ◌*◌, ◌≤◌, ◌≡◌, refl, Bool, true, false, ◌&&◌, ◌||◌, Option, none, some, List,
  [], ◌∷◌, ◌++◌, leb, if◌then◌else◌, length, Text, codes, text_eq, starts_with, any,
}
use arguss.RateLimit.Window.{Events, nanoseconds, expired, prune, retry_after, or_empty, put}

abbrev pub ip_window_seconds : ℕ
ip_window_seconds = 60

abbrev pub ip_window : ℕ
ip_window = ip_window_seconds * nanoseconds

-- The text `detail`, which is fixed, is left out.
pub record IpRateLimitDenial : Type 0 where
  pub retry_after_seconds : ℕ

abbrev sse_stream_prefixes : List Text
sse_stream_prefixes =
    codes "/scan/with-action/stream/" ∷ codes "/dashboard/scan-with-action/stream/" ∷ []

unfoldable pub is_ip_rate_limit_exempt : Text → Bool
is_ip_rate_limit_exempt path =
    if text_eq path (codes "/health")
    then true
    else if text_eq path (codes "/static") || starts_with (codes "/static/") path
    then true
    else if text_eq path (codes "/github/callback")
    then true
    else any (λ prefix. starts_with prefix path) sse_stream_prefixes

-- not events or events[-1] <= cutoff
unfoldable pub is_stale : ℕ → List ℕ → Bool
is_stale now [] = true
is_stale now (e ∷ []) = expired ip_window now e
is_stale now (e ∷ f ∷ es) = is_stale now (f ∷ es)

keep_fresh : ℕ → Option (List ℕ) → Option (List ℕ)
unfolding is_stale
keep_fresh now none = none
keep_fresh now (some es) = if is_stale now es then none else some es

-- The deletion of the keys in `stale`.
unfoldable pub drop_stale : ℕ → Events → Events
unfolding keep_fresh
drop_stale now m key = keep_fresh now (m key)

unfoldable pub check_and_count : Text → ℕ → ℕ → Events → Option IpRateLimitDenial × Events
unfolding put prune drop_stale
check_and_count ip zero now m = (some (record { retry_after_seconds = ip_window_seconds }), m)
check_and_count ip (suc l) now m =
    let m1 = drop_stale now m in
    let events = prune ip_window now (or_empty (m1 ip)) in
    if leb (suc l) (length events)
    then (
      some (record { retry_after_seconds = retry_after ip_window now events }),
      put ip events m1,
    )
    else (none, put ip (events ++ now ∷ []) m1)

-- What `check_ip_rate_limit` reads of the settings and of a request.
pub record IpRequest : Type 0 where
  pub path : Text
  pub ip : Text
  pub now : ℕ

unfoldable pub check_ip_rate_limit :
    Bool → ℕ → IpRequest → Events → Option IpRateLimitDenial × Events
unfolding check_and_count
check_ip_rate_limit enabled limit r m =
    if enabled
    then (if is_ip_rate_limit_exempt r.path then (none, m) else check_and_count r.ip limit r.now m)
    else (none, m)

-- `reset_ip_rate_limit_state`, and the state of a new process.
abbrev pub no_events : Events
no_events _ = none
