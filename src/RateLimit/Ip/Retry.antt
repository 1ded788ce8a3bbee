-- ===== src/RateLimit/Ip/Retry.antt =====
-- What follows a denial: the client that waits, and the requests of others meanwhile.
use arguss.Base.{
  ℕ, suc, ◌+◌, ◌*◌, ◌≤◌, ◌≡◌, refl, subst, ◌⊎◌, false, Option, none, some, List, [], ◌∷◌, ◌++◌, leb,
  leb→le, ap, le→leb, lt→not_leb, if_both, ◌∙◌, length, Text, text_eq, text_eq_refl, arith,
  Bool-cases, inl, inr,
}
use arguss.RateLimit.Window.{Events, nanoseconds, prune, retry_after, or_empty, put}
use arguss.RateLimit.Window.Bound.{length-prune-le}
use arguss.RateLimit.Window.Bound.{Tracks-nil}
use arguss.RateLimit.Ip.{
  ip_window, IpRateLimitDenial, is_stale, keep_fresh, drop_stale, check_and_count, no_events,
}
use arguss.RateLimit.Ip.Safety.{Arrival, InOrder, Log, run, run-Tracks}

abbrev pub pruned_events : Text → ℕ → Events → List ℕ
pruned_events ip now m = prune ip_window now (or_empty (drop_stale now m ip))

module _ (l : ℕ) (ip : Text) (now : ℕ) (m : Events) where
  -- The two outcomes of a check under a limit that is not 0.
  pub check_full :
      suc l ≤ length (pruned_events ip now m)
      → check_and_count ip (suc l) now m ≡ (
        some (record { retry_after_seconds = retry_after ip_window now (pruned_events ip now m) }),
        put ip (pruned_events ip now m) (drop_stale now m),
      )
  unfolding check_and_count
  check_full h = rw (le→leb (suc l) (length (pruned_events ip now m)) h)

  pub check_room :
      length (pruned_events ip now m) ≤ l
      → check_and_count ip (suc l) now m
        ≡ (none, put ip ((pruned_events ip now m) ++ now ∷ []) (drop_stale now m))
  unfolding check_and_count
  check_room h = rw (lt→not_leb (suc l) (length (pruned_events ip now m)) (omega arith))

-- The time that a denial names is past the window of the oldest event.
retry_after_passes :
    (now e : ℕ) (es : List ℕ)
    → e + ip_window ≤ now + retry_after ip_window now (e ∷ es) * nanoseconds
unfolding retry_after
retry_after_passes now e es = omega arith

prune_head :
    (now e : ℕ) (es : List ℕ)
    → e + ip_window ≤ now
    → length (prune ip_window now (e ∷ es)) ≤ length es
unfolding prune
prune_head now e es h = rw (le→leb (e + ip_window) now h) (length-prune-le ip_window now es)

dropped_is_shorter :
    (now : ℕ) (o : Option (List ℕ)) (n : ℕ)
    → length (prune ip_window now (or_empty o)) ≤ n
    → length (prune ip_window now (or_empty (keep_fresh now o))) ≤ n
unfolding keep_fresh prune
dropped_is_shorter now none n h = h
dropped_is_shorter now (some es) n h = elim (Bool-cases (is_stale now es)) [
  | inl s ↦ rw s (omega arith)
  | inr f ↦ rw f h
]

put_self : (k : Text) (es : List ℕ) (m : Events) → put k es m k ≡ some es
unfolding put
put_self k es m = rw (text_eq_refl k)

-- A check of another address keeps the deque of an address or drops it whole.
abbrev Kept : Option (List ℕ) → Option (List ℕ) → Type 0
Kept old now = (now ≡ old) ⊎ (now ≡ none)

drop_stale-Kept : (t : ℕ) (m : Events) (j : Text) → Kept (m j) (drop_stale t m j)
unfolding drop_stale
drop_stale-Kept t m j = of_entry (m j)
  where
    of_entry : (o : Option (List ℕ)) → Kept o (keep_fresh t o)
    of_entry none = inl refl
    of_entry (some es) =
        if_both (Kept (some es)) (is_stale t es) none (some es) (inr refl) (inl refl)

put_other : (k j : Text) (es : List ℕ) (m : Events) → text_eq k j ≡ false → put k es m j ≡ m j
unfolding put
put_other k j es m n = rw n refl

other-Kept :
    (l t : ℕ) (other ip : Text) (m : Events)
    → text_eq other ip ≡ false
    → Kept (m ip) ((check_and_count other (suc l) t m).1 ip)
other-Kept l t other ip m n = elim (Bool-cases (leb (suc l) (length (pruned_events other t m)))) [
  | inl full ↦
      rw
        (
          check_full l other t m (leb→le _ _ full),
          put_other other ip (pruned_events other t m) (drop_stale t m) n,
        )
        (drop_stale-Kept t m ip)
  | inr room ↦
      rw
        (
          check_room l other t m (ground arith),
          put_other other ip ((pruned_events other t m) ++ t ∷ []) (drop_stale t m) n,
        )
        (drop_stale-Kept t m ip)
]

-- The requests all come from other addresses.
abbrev pub FromOthers : Text → List Arrival → Type 0
FromOthers ip [] = Unit
FromOthers ip ((other, t) ∷ rest) = (text_eq other ip ≡ false) × FromOthers ip rest

Kept-trans : (a b c : Option (List ℕ)) → Kept a b → Kept b c → Kept a c
Kept-trans a b c (inl p) (inl q) = inl (q ∙ p)
Kept-trans a b c (inr p) (inl q) = inr (q ∙ p)
Kept-trans a b c h (inr q) = inr q

others-Kept :
    (l : ℕ) (ip : Text) (others : List Arrival) (m : Events) (log : Log)
    → FromOthers ip others
    → Kept (m ip) ((run (suc l) others m log).0 ip)
unfolding run
others-Kept l ip [] m log h = inl refl
others-Kept l ip ((other, t) ∷ rest) m log h =
    Kept-trans (m ip) ((check_and_count other (suc l) t m).1 ip) _ (other-Kept l t other ip m h.0)
      (others-Kept l ip rest (check_and_count other (suc l) t m).1 _ h.1)

module _ (l : ℕ) (ip : Text) (now later e : ℕ) (es : List ℕ) (short : length es ≤ l)
    (passed : now + retry_after ip_window now (e ∷ es) * nanoseconds ≤ later) where
  room_later : (m : Events) → Kept (some (e ∷ es)) (m ip) → length (pruned_events ip later m) ≤ l
  unfolding drop_stale prune keep_fresh
  room_later m (inr gone) = rw gone (omega arith)
  room_later m (inl same) = rw same (
      dropped_is_shorter later (some (e ∷ es)) l (
        omega (
          arith,
          retry_after_passes now e es,
          prune_head later e es (omega (arith, retry_after_passes now e es)),
        )))

  admitted_later :
      (m : Events) → Kept (some (e ∷ es)) (m ip) → (check_and_count ip (suc l) later m).0 ≡ none
  admitted_later m k = ap (λ o. o.0) (check_room l ip later m (room_later m k))

short_pruned :
    (n now : ℕ) (ip : Text) (m : Events)
    → length (or_empty (m ip)) ≤ n
    → length (pruned_events ip now m) ≤ n
unfolding drop_stale
short_pruned n now ip m h =
    dropped_is_shorter now (m ip) n (omega (arith, length-prune-le ip_window now (or_empty (m ip))))

module _ (l : ℕ) (ip : Text) (now later : ℕ) (m : Events) (d : IpRateLimitDenial)
    (short : length (or_empty (m ip)) ≤ suc l)
    (passed : now + d.retry_after_seconds * nanoseconds ≤ later) where
  retry_from :
      (others : List Arrival) (log : Log)
      → FromOthers ip others
      → (check_and_count ip (suc l) now m).0 ≡ some d
      → (check_and_count ip
          (suc l)
          later
          (run (suc l) others (check_and_count ip (suc l) now m).1 log).0).0
        ≡ none
  retry_from others log away denied =
      by_events (pruned_events ip now m) refl (short_pruned (suc l) now ip m short)
    where
      by_events :
          (es : List ℕ)
          → pruned_events ip now m ≡ es
          → length (pruned_events ip now m) ≤ suc l
          → (check_and_count ip
              (suc l)
              later
              (run (suc l) others (check_and_count ip (suc l) now m).1 log).0).0
            ≡ none
      by_events [] p s =
          absurd
            (cc (check_room l ip now m (omega (arith, ap (λ (x : List ℕ). length x) p)), denied))
      by_events (e ∷ es) p s = elim (Bool-cases (leb (suc l) (length (pruned_events ip now m)))) [
        | inl full ↦
            let c = check_full l ip now m (leb→le _ _ full) in
            let r : retry_after ip_window now (e ∷ es) ≡ d.retry_after_seconds =
              cc (c, denied, p) in
            let held : (check_and_count ip (suc l) now m).1 ip ≡ some (e ∷ es) =
              rw (c, p) (put_self ip (e ∷ es) (drop_stale now m)) in
            let kept = others-Kept l ip others (check_and_count ip (suc l) now m).1 log away in
            admitted_later l ip now later e es (omega (arith, s, ap (λ (x : List ℕ). length x) p))
              (rw r passed) (run (suc l) others (check_and_count ip (suc l) now m).1 log).0
              (subst
                (λ o. Kept o ((run (suc l) others (check_and_count ip (suc l) now m).1 log).0 ip))
                held kept)
        | inr room ↦ absurd (cc (check_room l ip now m (ground arith), denied))
      ]

-- A denied client that waits for the time it was told is let through, after any requests in the
-- order of the clock and under a limit that is not 0, whatever requests of other addresses come in
-- between, if it sends none itself.
pub retry_admits :
    (l : ℕ) (requests others : List Arrival) (ip : Text) (now later : ℕ) (d : IpRateLimitDenial)
    → InOrder 0 requests
    → (check_and_count ip (suc l) now (run (suc l) requests no_events (λ _. [])).0).0 ≡ some d
    → FromOthers ip others
    → now + d.retry_after_seconds * nanoseconds ≤ later
    → (check_and_count ip
        (suc l)
        later
        (run
          (suc l)
          others
          (check_and_count ip (suc l) now (run (suc l) requests no_events (λ _. [])).0).1
          (λ _. [])).0).0
      ≡ none
retry_admits l requests others ip now later d o denied away passed =
    let r =
      run-Tracks (suc l) 0 requests no_events (λ _. []) o (λ j. Tracks-nil ip_window (suc l) 0) in
    let k = r.2 ip in
    retry_from l ip now later (run (suc l) requests no_events (λ _. [])).0 d k.short passed others
      (λ _. []) away denied
