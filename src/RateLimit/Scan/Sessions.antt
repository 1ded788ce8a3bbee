-- ===== src/RateLimit/Scan/Sessions.antt =====
-- The count of a session bounds its scans, never falls, and so ends the session's scans for good.
use arguss.Base.{
  ℕ, zero, suc, ◌+◌, ◌≤◌, ◌<◌, ◌≡◌, ◌≢◌, refl, Bool, ◌&&◌, true, false, Option, none, some, List,
  [], ◌∷◌, arith, if◌then◌else◌, Text, text_eq, text_eq_iff, Bool-cases, inl, inr,
}
use arguss.RateLimit.Scan.{
  ScanRateLimitDenial, ScanState, ScanLimits, ScanRequest, count_session, check_and_count,
  check_scan_rate_limit, no_scans, token_of_cookie, session,
}

abbrev pub is_none : Option ScanRateLimitDenial → Bool
is_none none = true
is_none (some d) = false

abbrev pub carries : Text → Option Text → Bool
carries token none = false
carries token (some t) = text_eq t token

abbrev pub has_token : Text → Option Text → Bool
has_token token cookie = carries token (token_of_cookie cookie)

abbrev pub denies : ScanLimits → ScanRequest → ScanState → Option ScanRateLimitDenial
denies limits r s = (check_scan_rate_limit limits r s).0

abbrev pub after : ScanLimits → ScanRequest → ScanState → ScanState
after limits r s = (check_scan_rate_limit limits r s).1

pub run : ScanLimits → List ScanRequest → ScanState → ScanState
run limits [] s = s
run limits (r ∷ rest) s = run limits rest (after limits r s)

-- The requests with the cookie of a session that a run lets through.
pub let_through : ScanLimits → Text → List ScanRequest → ScanState → ℕ
let_through limits token [] s = 0
let_through limits token (r ∷ rest) s =
    (if is_none (denies limits r s) && has_token token r.cookie then 1 else 0)
    + let_through limits token rest (after limits r s)

count_session-lem :
    (token : Option Text) (counts : Text → ℕ) (j : Text)
    → count_session token counts j ≡ counts j + (if carries j token then 1 else 0)
count_session-lem none counts j = omega arith
count_session-lem (some t) counts j = ground arith

-- A check counts one scan for the session of a request that it lets through, and none else.
check_counts :
    (addr : Text) (token : Option Text) (l session_limit now : ℕ) (s : ScanState) (j : Text)
    → (check_and_count addr token l session_limit now s).1.session_counts j
      ≡ s.session_counts j
        + (if is_none (check_and_count addr token l session_limit now s).0 && carries j token
            then 1
            else 0)
unfolding check_and_count
check_counts addr token zero session_limit now s j = omega arith
check_counts addr token (suc l) session_limit now s j =
    ground (arith, count_session-lem token s.session_counts j)

-- It lets a session's request through only below the session's limit.
check_room :
    (addr : Text) (token : Option Text) (l session_limit now : ℕ) (s : ScanState) (j : Text)
    → (is_none (check_and_count addr token l session_limit now s).0 && carries j token) ≡ true
    → s.session_counts j < session_limit
unfolding check_and_count
check_room addr token zero session_limit now s j h = cc
check_room addr none (suc l) session_limit now s j h = ground arith
check_room addr (some t) (suc l) session_limit now s j h = ground (arith, text_eq_iff t j)

module _ (limits : ScanLimits) (on : limits.enabled ≡ true) where
  step_counts :
      (r : ScanRequest) (s : ScanState) (j : Text)
      → (after limits r s).session_counts j
        ≡ s.session_counts j
          + (if is_none (denies limits r s) && has_token j r.cookie then 1 else 0)
  unfolding check_scan_rate_limit
  step_counts r s j = rw on (
      check_counts r.addr (token_of_cookie r.cookie) limits.per_ip_per_hour limits.per_session r.now
        s j)

  step_room :
      (r : ScanRequest) (s : ScanState) (j : Text)
      → (is_none (denies limits r s) && has_token j r.cookie) ≡ true
      → s.session_counts j < limits.per_session
  unfolding check_scan_rate_limit
  step_room r s j = rw on (
      check_room r.addr (token_of_cookie r.cookie) limits.per_ip_per_hour limits.per_session r.now s
        j)

  run_total :
      (token : Text) (rs : List ScanRequest) (s : ScanState)
      → s.session_counts token ≤ limits.per_session
      → s.session_counts token + let_through limits token rs s ≤ limits.per_session
  unfolding let_through
  run_total token [] s h = omega arith
  run_total token (r ∷ rs) s h =
      elim (Bool-cases (is_none (denies limits r s) && has_token token r.cookie)) [
        | inl t ↦
            let c = step_counts r s token in
            rw t (
              omega (
                arith,
                rw t at c,
                step_room r s token t,
                run_total token rs (after limits r s)
                    (omega (arith, rw t at c, step_room r s token t)),
              ))
        | inr f ↦
            let c = step_counts r s token in
            rw f (
              omega (
                arith,
                rw f at c,
                run_total token rs (after limits r s) (omega (arith, rw f at c)),
              ))
      ]

  counts_grow :
      (j : Text) (rs : List ScanRequest) (s : ScanState)
      → s.session_counts j ≤ (run limits rs s).session_counts j
  unfolding run
  counts_grow j [] s = omega arith
  counts_grow j (r ∷ rs) s = omega (arith, step_counts r s j, counts_grow j rs (after limits r s))

-- With the limiter switched on, a process lets at most `per_session` of the requests that carry one
-- session's cookie through, whatever their times and addresses are.
pub session_bound :
    (limits : ScanLimits) (token : Text) (rs : List ScanRequest)
    → limits.enabled ≡ true
    → let_through limits token rs no_scans ≤ limits.per_session
session_bound limits token rs on =
    omega (arith, run_total limits on token rs no_scans (omega arith))

check_denies_session :
    (addr : Text) (token : Option Text) (l session_limit now : ℕ) (s : ScanState)
    (d : ScanRateLimitDenial) (j : Text)
    → (check_and_count addr token l session_limit now s).0 ≡ some d
    → d.scope ≡ session
    → carries j token ≡ true
    → session_limit ≤ s.session_counts j
unfolding check_and_count
check_denies_session addr token zero session_limit now s d j e q c = ground arith
check_denies_session addr none (suc l) session_limit now s d j e q c = cc
check_denies_session addr (some t) (suc l) session_limit now s d j e q c =
    ground (arith, text_eq_iff t j)

session_full_at :
    (limits : ScanLimits)
    → limits.enabled ≡ true
    → (r : ScanRequest) (s : ScanState) (d : ScanRateLimitDenial) (token : Text)
    → denies limits r s ≡ some d
    → d.scope ≡ session
    → has_token token r.cookie ≡ true
    → limits.per_session ≤ s.session_counts token
unfolding check_scan_rate_limit
session_full_at limits on r s d token e q c =
    check_denies_session r.addr (token_of_cookie r.cookie) limits.per_ip_per_hour limits.per_session
      r.now s d token (rw on at e) q c

-- With the limiter switched on, a request that was denied for its session is denied for ever: after
-- any requests, at any time and from any address, a request with the same cookie is denied.
pub session_never_reopens :
    (limits : ScanLimits) (r later : ScanRequest) (s : ScanState) (rs : List ScanRequest)
    (d : ScanRateLimitDenial) (token : Text)
    → limits.enabled ≡ true
    → denies limits r s ≡ some d
    → d.scope ≡ session
    → has_token token r.cookie ≡ true
    → has_token token later.cookie ≡ true
    → denies limits later (run limits rs (after limits r s)) ≢ none
session_never_reopens limits r later s rs d token on e q c c' open_again = absurd (
    omega (
      arith,
      session_full_at limits on r s d token e q c,
      step_counts limits on r s token,
      counts_grow limits on token rs (after limits r s),
      step_room limits on later (run limits rs (after limits r s)) token (rw (open_again, c') refl),
    ))
