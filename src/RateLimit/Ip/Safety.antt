-- ===== src/RateLimit/Ip/Safety.antt =====
-- However requests come, no window of 60 seconds holds more accepted ones than the limit.
use arguss.Base.{
  ℕ, zero, suc, ◌≤◌, ◌<◌, ◌≡◌, refl, subst, true, false, Option, none, some, List, [], ◌∷◌, ◌++◌,
  leb, if◌then◌else◌, length, Text, text_eq, text_eq_refl, arith, Bool-cases, inl, inr,
}
use native.Mathlib.Nat.{le_refl}
use arguss.RateLimit.Window.{
  Events, expired, prune, or_empty, put, Ascending, count_within, put_cases,
}
use arguss.RateLimit.Window.Bound.{Tracks, Tracks-nil, Tracks-later, Tracks-prune, Tracks-accept}
use arguss.RateLimit.Ip.{
  ip_window, IpRateLimitDenial, is_stale, keep_fresh, drop_stale, check_and_count, no_events,
}

-- The accepted times of each address.
abbrev pub Log : Type 0
Log = Text → List ℕ

abbrev pub record_if_allowed : Text → ℕ → Option IpRateLimitDenial → Log → Log
record_if_allowed ip now none log j = if text_eq ip j then log j ++ now ∷ [] else log j
record_if_allowed ip now (some d) log j = log j

-- An address and the time of its request.
abbrev pub Arrival : Type 0
Arrival = Text × ℕ

-- The requests in order, with the log of the accepted ones.
unfoldable pub run : ℕ → List Arrival → Events → Log → Events × Log
run limit [] m log = (m, log)
run limit ((ip, now) ∷ rest) m log =
    let (denial, m') = check_and_count ip limit now m in
    run limit rest m' (record_if_allowed ip now denial log)

-- The clock is monotonic.
abbrev pub InOrder : ℕ → List Arrival → Type 0
InOrder t [] = Unit
InOrder t ((ip, now) ∷ rest) = (t ≤ now) × InOrder now rest

abbrev pub AllTrack : ℕ → ℕ → Events → Log → Type 0
AllTrack limit now m log = (j : Text) → Tracks ip_window limit now (log j) (or_empty (m j))

expired_before :
    (now e : ℕ) (f : ℕ) → e ≤ f → expired ip_window now f ≡ true → expired ip_window now e ≡ true
expired_before now e f h x = ground arith

stale_head :
    (now e : ℕ) (es : List ℕ)
    → Ascending (e ∷ es)
    → is_stale now (e ∷ es) ≡ true
    → expired ip_window now e ≡ true
unfolding is_stale
stale_head now e [] h s = s
stale_head now e (f ∷ es) h s = expired_before now e f h.0.0 (stale_head now f es h.1 s)

-- A deque whose last event is out of the window is pruned away whole.
prune_stale :
    (now : ℕ) (es : List ℕ) → Ascending es → is_stale now es ≡ true → prune ip_window now es ≡ []
unfolding prune is_stale
prune_stale now [] h s = refl
prune_stale now (e ∷ []) h s = rw s
prune_stale now (e ∷ f ∷ es) h s =
    let x : expired ip_window now e ≡ true = stale_head now e (f ∷ es) h s in
    rw x (prune_stale now (f ∷ es) h.1 s)

-- Dropping what is stale keeps the deques true to the log, at a later time.
drop_stale-Tracks :
    (limit t now : ℕ) (log : List ℕ) (m : Events) (j : Text)
    → t ≤ now
    → Tracks ip_window limit t log (or_empty (m j))
    → Tracks ip_window limit now log (or_empty (drop_stale now m j))
unfolding drop_stale
drop_stale-Tracks limit t now log m j h = of_entry (m j)
  where
    of_entry :
        (o : Option (List ℕ))
        → Tracks ip_window limit t log (or_empty o)
        → Tracks ip_window limit now log (or_empty (keep_fresh now o))
    of_entry none k = Tracks-later ip_window limit t now log [] h k
    of_entry (some es) k = elim (Bool-cases (is_stale now es)) [
      | inl s ↦ rw s (
          subst (Tracks ip_window limit now log) (prune_stale now es k.ordered s)
            (Tracks-prune ip_window limit t now log es h k))
      | inr f ↦ rw f (Tracks-later ip_window limit t now log es h k)
    ]

log_self :
    (ip : Text) (now : ℕ) (log : Log) → record_if_allowed ip now none log ip ≡ log ip ++ now ∷ []
log_self ip now log = rw (text_eq_refl ip)

log_other :
    (ip : Text) (now : ℕ) (log : Log) (j : Text)
    → text_eq ip j ≡ false
    → record_if_allowed ip now none log j ≡ log j
log_other ip now log j n = rw n

module _ (l t now : ℕ) (ip : Text) (m : Events) (log : Log) (h : t ≤ now)
    (k : AllTrack (suc l) t m log) where
  abbrev fresh : Events
  fresh = drop_stale now m

  abbrev pruned : List ℕ
  pruned = prune ip_window now (or_empty (fresh ip))

  fresh-Tracks : AllTrack (suc l) now fresh log
  fresh-Tracks j = drop_stale-Tracks (suc l) t now (log j) m j h (k j)

  pruned-Tracks : Tracks ip_window (suc l) now (log ip) pruned
  pruned-Tracks =
      Tracks-prune ip_window (suc l) now now (log ip) (or_empty (fresh ip)) (le_refl now)
        (fresh-Tracks ip)

  denied-Tracks : AllTrack (suc l) now (put ip pruned fresh) log
  denied-Tracks =
      put_cases ip pruned fresh (λ j o. Tracks ip_window (suc l) now (log j) (or_empty o))
        pruned-Tracks (λ j n. fresh-Tracks j)

  allowed-Tracks :
      length pruned < suc l
      → AllTrack (suc l) now (put ip (pruned ++ now ∷ []) fresh) (record_if_allowed ip now none log)
  allowed-Tracks room =
      put_cases ip (pruned ++ now ∷ []) fresh
        (λ j o. Tracks ip_window (suc l) now (record_if_allowed ip now none log j) (or_empty o))
        (rw (log_self ip now log)
          (Tracks-accept ip_window (suc l) now (log ip) pruned pruned-Tracks room))
        (λ j n. rw (log_other ip now log j n) (fresh-Tracks j))

-- One request keeps every deque true to its log.
check-Tracks :
    (limit t now : ℕ) (ip : Text) (m : Events) (log : Log)
    → t ≤ now
    → AllTrack limit t m log
    → AllTrack limit now
        (check_and_count ip limit now m).1
        (record_if_allowed ip now (check_and_count ip limit now m).0 log)
unfolding check_and_count
check-Tracks zero t now ip m log h k = λ j. Tracks-later ip_window zero t now (log j) _ h (k j)
check-Tracks (suc l) t now ip m log h k =
    elim (Bool-cases (leb (suc l) (length (pruned l t now ip m log h k)))) [
      | inl full ↦ rw full (denied-Tracks l t now ip m log h k)
      | inr room ↦ rw room (allowed-Tracks l t now ip m log h k (ground arith))
    ]

-- So do all requests together: at some time that none of them is after.
pub run-Tracks :
    (limit t : ℕ) (requests : List Arrival) (m : Events) (log : Log)
    → InOrder t requests
    → AllTrack limit t m log
    → (last : ℕ) × (t ≤ last)
      × AllTrack limit last (run limit requests m log).0 (run limit requests m log).1
unfolding run
run-Tracks limit t [] m log o k = (t, le_refl t, k)
run-Tracks limit t ((j, now) ∷ rest) m log o k =
    let r = run-Tracks limit now rest _ _ o.1 (check-Tracks limit t now j m log o.0 k) in
    (r.0, omega (arith, r.1, o.0), r.2)

-- From a fresh process, whatever requests come in the order of the clock: of the requests of one
-- address that were let through, at most `limit` lie in any window of 60 seconds.
pub window_bound :
    (limit : ℕ) (requests : List Arrival)
    → InOrder 0 requests
    → (ip : Text) (at : ℕ)
    → count_within ip_window at ((run limit requests no_events (λ _. [])).1 ip) ≤ limit
window_bound limit requests o ip at =
    let r = run-Tracks limit 0 requests no_events (λ _. []) o (λ j. Tracks-nil ip_window limit 0) in
    let k = r.2 ip in k.bounded at
