-- ===== src/Tests/Limits.antt =====
-- The two rate limiters on sample requests.
use arguss.Base.{
  ◌≡◌, ◌≢◌, refl, ℕ, ◌≤◌, true, none, some, List, [], ◌∷◌, Text, codes, text_eq, text_eq_refl,
  arith,
}
use arguss.RateLimit.Window.{count_within, prune, put, retry_after}
use arguss.RateLimit.Ip.{ip_window, check_and_count, drop_stale, is_stale, no_events}
use arguss.RateLimit.Ip.Safety.{Arrival, run, window_bound}
use arguss.RateLimit.Ip.Retry.{retry_admits}
use arguss.RateLimit.Scan.{ScanLimits, ScanRequest, session, check_scan_rate_limit, no_scans}
use arguss.RateLimit.Scan.Sessions

abbrev client : Text
client = codes "10.0.0.1"

abbrev three_arrivals : List Arrival
three_arrivals = (client, 5) ∷ (codes "10.0.0.2", 6) ∷ (client, 7) ∷ []

window_bound_example :
    count_within ip_window 7 ((run 2 three_arrivals no_events (λ _. [])).1 client) ≤ 2
window_bound_example =
    window_bound 2 three_arrivals (omega arith, (omega arith, (omega arith, tt))) client 7

third_is_denied :
    (check_and_count client 2 9 (run 2 three_arrivals no_events (λ _. [])).0).0
    ≡ some (record { retry_after_seconds = 60 })
unfolding check_and_count run drop_stale is_stale prune put retry_after text_eq
third_is_denied = refl

abbrev in_between : List Arrival
in_between = (codes "10.0.0.2", 8_000_000_000) ∷ []

retry_admits_example :
    (check_and_count client 2 60_000_000_009
      (run 2 in_between
        (check_and_count client 2 9 (run 2 three_arrivals no_events (λ _. [])).0).1
        (λ _. [])).0).0
    ≡ none
unfolding text_eq
retry_admits_example =
    retry_admits 1 three_arrivals in_between client 9 60_000_000_009
      (record { retry_after_seconds = 60 }) (omega arith, (omega arith, (omega arith, tt)))
      third_is_denied (refl, tt) (omega arith)

abbrev limits : ScanLimits
limits = record { enabled = true; per_ip_per_hour = 5; per_session = 1 }

abbrev scan_at : ℕ → ScanRequest
scan_at now = record { addr = client; cookie = some (codes "t"); now = now }

session_bound_example :
    Sessions.let_through limits (codes "t") (scan_at 1 ∷ scan_at 2 ∷ []) no_scans ≤ 1
session_bound_example = Sessions.session_bound limits (codes "t") (scan_at 1 ∷ scan_at 2 ∷ []) refl

second_is_denied :
    Sessions.denies limits (scan_at 2) (Sessions.after limits (scan_at 1) no_scans)
    ≡ some (record { scope = session; retry_after_seconds = 3600 })
unfolding check_scan_rate_limit prune put text_eq
second_is_denied = refl

session_never_reopens_example :
    Sessions.denies limits (scan_at 9_000_000_000_000) (
      Sessions.run limits []
        (Sessions.after limits (scan_at 2) (Sessions.after limits (scan_at 1) no_scans)))
    ≢ none
session_never_reopens_example =
    Sessions.session_never_reopens limits (scan_at 2) (scan_at 9_000_000_000_000)
      (Sessions.after limits (scan_at 1) no_scans) []
      (record { scope = session; retry_after_seconds = 3600 }) (codes "t") refl second_is_denied
      refl (text_eq_refl (codes "t")) (text_eq_refl (codes "t"))
