-- ===== src/Lenses/Trust/Delta.antt =====
-- The flags of a trust delta, and what they mean for a merge without review.
use arguss.Base.{
  ℕ, ◌≡◌, ◌≢◌, ◌↔◌, ◌⊎◌, inl, inr, refl, Bool, true, false, not, Option, some, List, [], ◌∷◌, arith,
  length, Text, is_in, is_empty, All, sorted, length-sorted, set_minus, text_le, Bool-cases,
}
use arguss.Models.{
  TrustFlag, Change, TrustSnapshot, PipelineSnapshot, FixCandidate, major, auto_merge,
  cadence_anomaly, download_collapse, new_maintainer, ownership_transfer,
}
use arguss.Engine.KillSwitch.{Environment, is_kill_switch_active}
use arguss.Engine.FixConfidence.{compute_fix_confidence}
use arguss.Engine.FixConfidence.Envelope.{TrustClear, PipelineClear, auto_merge_iff}
use arguss.Lenses.Trust.{
  published_events, is_cadence_anomaly, weekly_downloads_change_pct, is_collapse, flag_le,
  is_transferred, flag_if, raised_flags, delta_of,
}

-- What has to hold between the snapshots of two versions for a merge without review.
pub record Calm (a b : TrustSnapshot) (times : List (Text × Option ℕ)) : Type 0 where
  pub same_owner : is_transferred a.maintainer_logins b.maintainer_logins ≡ false
  pub no_newcomer : All (λ login. is_in login a.maintainer_logins ≡ true) b.maintainer_logins
  pub usual_pace : is_cadence_anomaly (published_events times) a.version b.version ≡ false
  pub still_used : is_collapse (weekly_downloads_change_pct a b) ≡ false

sorted_nil : {A : Type 0} (le : A → A → Bool) (xs : List A) → (sorted le xs ≡ []) ↔ (xs ≡ [])
unfolding sorted
sorted_nil le [] = (λ _. refl, λ _. refl)
sorted_nil le (x ∷ xs) = (λ e. absurd (nonempty e), λ e. cc)
  where
    nonempty : sorted le (x ∷ xs) ≡ [] → ⊥
    nonempty e =
        let l = length-sorted le (x ∷ xs) in
        let k : 0 ≡ length (x ∷ xs) = (rw e at l) in omega (arith, k)

flag_if_nil :
    (b : Bool) (f : TrustFlag) (fs : List TrustFlag)
    → (flag_if b f fs ≡ []) ↔ ((b ≡ false) × (fs ≡ []))
flag_if_nil true f fs = (λ e. cc, λ (e, k). cc)
flag_if_nil false f fs = (λ e. (refl, e), λ (e, k). k)

minus_nil : (b a : List Text) → (set_minus b a ≡ []) ↔ All (λ w. is_in w a ≡ true) b
minus_nil [] a = (λ _. tt, λ _. refl)
minus_nil (w ∷ b) a = elim (Bool-cases (is_in w a)) [
  | inl t ↦ let ih = minus_nil b a in rw t ((λ e. (refl, ih.0 e)), λ h. ih.1 h.1)
  | inr f ↦ rw f ((λ e. cc), λ h. cc)
]

is_empty_iff {ℓ} : {A : Type ℓ} (xs : List A) → (is_empty xs ≡ true) ↔ (xs ≡ [])
is_empty_iff [] = (λ _. refl, λ _. refl)
is_empty_iff (x ∷ xs) = (λ e. cc, λ e. cc)

raised_nil :
    (transferred : Bool) (added : List Text) (anomaly : Bool) (change : Option Change)
    → (raised_flags transferred added anomaly change ≡ [])
      ↔ ((transferred ≡ false) × (added ≡ []) × (anomaly ≡ false) × (is_collapse change ≡ false))
unfolding raised_flags
raised_nil transferred added anomaly change = (all_off, none_raised)
  where
    all_off :
        flag_if transferred ownership_transfer (
            flag_if
              (not (is_empty added))
              new_maintainer
              (flag_if anomaly cadence_anomaly (flag_if (is_collapse change) download_collapse [])))
          ≡ []
        → (transferred ≡ false) × (added ≡ []) × (anomaly ≡ false) × (is_collapse change ≡ false)
    all_off e =
        let (t, e1) = (flag_if_nil transferred ownership_transfer _).0 e in
        let (n, e2) = (flag_if_nil (not (is_empty added)) new_maintainer _).0 e1 in
        let (a, e3) = (flag_if_nil anomaly cadence_anomaly _).0 e2 in
        let (c, _) = (flag_if_nil (is_collapse change) download_collapse []).0 e3 in
        (t, (is_empty_iff added).0 (ground arith), a, c)

    none_raised :
        (transferred ≡ false) × (added ≡ []) × (anomaly ≡ false) × (is_collapse change ≡ false)
        → flag_if transferred ownership_transfer (
            flag_if
              (not (is_empty added))
              new_maintainer
              (flag_if anomaly cadence_anomaly (flag_if (is_collapse change) download_collapse [])))
          ≡ []
    none_raised (t, n, a, c) = rw (t, n, a, c) refl

module _ (package_name : Text) (a b : TrustSnapshot) (times : List (Text × Option ℕ)) where
  abbrev newcomers : List Text
  newcomers = set_minus b.maintainer_logins a.maintainer_logins

  abbrev raised : List TrustFlag
  raised =
      raised_flags (is_transferred a.maintainer_logins b.maintainer_logins)
        (sorted text_le newcomers) (is_cadence_anomaly (published_events times) a.version b.version)
        (weekly_downloads_change_pct a b)

  raised_nil-Calm : (sorted flag_le raised ≡ []) ↔ Calm a b times
  raised_nil-Calm = (calm_of, nothing_of)
    where
      by_cause : (raised ≡ []) ↔ (
          (is_transferred a.maintainer_logins b.maintainer_logins ≡ false)
          × (sorted text_le newcomers ≡ [])
          × (is_cadence_anomaly (published_events times) a.version b.version ≡ false)
          × (is_collapse (weekly_downloads_change_pct a b) ≡ false))
      by_cause =
          raised_nil (is_transferred a.maintainer_logins b.maintainer_logins)
            (sorted text_le newcomers)
            (is_cadence_anomaly (published_events times) a.version b.version)
            (weekly_downloads_change_pct a b)

      none_new :
          (newcomers ≡ []) ↔ All (λ w. is_in w a.maintainer_logins ≡ true) b.maintainer_logins
      none_new = minus_nil b.maintainer_logins a.maintainer_logins

      calm_of : sorted flag_le raised ≡ [] → Calm a b times
      calm_of e =
          let (t, n, p, c) = by_cause.0 ((sorted_nil flag_le raised).0 e) in
          record {
            same_owner = t;
            no_newcomer = none_new.0 ((sorted_nil text_le newcomers).0 n);
            usual_pace = p;
            still_used = c;
          }

      nothing_of : Calm a b times → sorted flag_le raised ≡ []
      nothing_of h = (sorted_nil flag_le raised).1 (
          by_cause.1 (
            h.same_owner,
            (sorted_nil text_le newcomers).1 (none_new.1 h.no_newcomer),
            h.usual_pace,
            h.still_used,
          ))

  -- A delta raises no flag exactly when the snapshots are calm, and is marked safe exactly then.
  delta_of_clear : TrustClear (some (delta_of package_name a b times)) ↔ Calm a b times
  unfolding delta_of
  delta_of_clear = (from_clear, λ h. inr (raised_nil-Calm.1 h))
    where
      from_clear :
          (is_empty (sorted flag_le raised) ≡ true) ⊎ (sorted flag_le raised ≡ []) → Calm a b times
      from_clear (inl s) = raised_nil-Calm.0 ((is_empty_iff (sorted flag_le raised)).0 s)
      from_clear (inr e) = raised_nil-Calm.0 e

module _ (digest : Text → Text) (now : ℕ) (c : FixCandidate) (env : Environment)
    (p : Option PipelineSnapshot) (veto : Bool) where
  -- With a delta that the trust lens computed from two snapshots, a fix is auto-merged exactly when
  -- the kill switch is off, no project veto is set, the upgrade is not major, ownership did not
  -- pass on, every maintainer of the new version maintained the old one, the new version did not
  -- come suddenly, its downloads did not collapse, and the pipeline's tests are known and real.
  pub merge_of_snapshots_iff :
      (package_name : Text) (a b : TrustSnapshot) (times : List (Text × Option ℕ))
      → ((compute_fix_confidence digest now c env
            (some (delta_of package_name a b times))
            p
            veto).tier
          ≡ auto_merge)
        ↔ ((is_kill_switch_active env ≡ false)
            × (veto ≡ false)
            × (c.fix_kind ≢ major)
            × Calm a b times
            × PipelineClear p)
  merge_of_snapshots_iff package_name a b times =
      let d = some (delta_of package_name a b times) in
      let m = auto_merge_iff digest now c env d p veto in
      let k = delta_of_clear package_name a b times in
      (
        λ e.
            let h = m.0 e in
            (h.running, h.allowed, h.not_major, k.0 h.trust_clear, h.pipeline_clear),
        λ (r, v, n, q, l). m.1 (record {
          running = r;
          allowed = v;
          not_major = n;
          trust_clear = k.1 q;
          pipeline_clear = l;
        }),
      )
