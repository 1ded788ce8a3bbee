-- ===== src/Engine/FixConfidence/Envelope.antt =====
-- The safety envelope: exactly when `compute_fix_confidence` lets a fix merge without review.
use arguss.Base.{
  ℕ, ◌≡◌, ◌≢◌, ◌↔◌, ◌⊎◌, inl, inr, refl, Bool, true, false, Option, none, some, List, [], ◌∷◌, ◌++◌,
  arith, Text, Bool-cases,
}
use arguss.Models.{
  FixKind, major, auto_merge, decline, TrustFlag, TrustDelta, PipelineSnapshot, FixCandidate,
  FixConfidence,
}
use arguss.Engine.KillSwitch.{Environment, is_kill_switch_active}
use arguss.Engine.FixConfidence.{
  Fired, kind_vetoes, flag_vetoes, trust_vetoes, pipeline_vetoes, collect_review_vetoes,
  decline_confidence, confidence_of_vetoes, compute_fix_confidence,
}

-- The trust delta was computed, and it either is marked safe or lists no flag.
abbrev pub TrustClear : Option TrustDelta → Type 0
TrustClear none = ⊥
TrustClear (some d) = (d.safe_to_auto_merge ≡ true) ⊎ (d.flags ≡ [])

-- The pipeline snapshot was computed, and the repository's tests are real.
abbrev pub PipelineClear : Option PipelineSnapshot → Type 0
PipelineClear none = ⊥
PipelineClear (some p) = p.test_reality.safe_to_auto_merge ≡ true

trust_vetoes_nil : (t : Option TrustDelta) → (trust_vetoes t ≡ []) ↔ TrustClear t
unfolding trust_vetoes flag_vetoes
trust_vetoes_nil none = (λ e. absurd (cc), λ h. absurd h)
trust_vetoes_nil (some d) = (safe_or_no_flag, marked)
  where
    no_flag : (fs : List TrustFlag) → flag_vetoes fs ≡ [] → fs ≡ []
    no_flag [] e = refl
    no_flag (f ∷ fs) e = cc

    safe_or_no_flag : trust_vetoes (some d) ≡ [] → TrustClear (some d)
    safe_or_no_flag e = elim (Bool-cases d.safe_to_auto_merge) [
      | inl t ↦ inl t
      | inr f ↦ inr (no_flag d.flags (rw f at e))
    ]

    marked : TrustClear (some d) → trust_vetoes (some d) ≡ []
    marked (inl t) = rw t
    marked (inr n) = rw n (ground arith)

pipeline_vetoes_nil : (p : Option PipelineSnapshot) → (pipeline_vetoes p ≡ []) ↔ PipelineClear p
unfolding pipeline_vetoes
pipeline_vetoes_nil none = (λ e. absurd (cc), λ h. absurd h)
pipeline_vetoes_nil (some p) = (λ e. ground arith, λ h. ground arith)

kind_vetoes_nil : (k : FixKind) → (kind_vetoes k ≡ []) ↔ (k ≢ major)
unfolding kind_vetoes
kind_vetoes_nil k = (λ e. ground arith, λ h. ground arith)

-- What has to hold for a merge without review.
pub record IsClear (env : Environment) (c : FixCandidate) (t : Option TrustDelta)
    (p : Option PipelineSnapshot) (veto : Bool) : Type 0 where
  pub running : is_kill_switch_active env ≡ false
  pub allowed : veto ≡ false
  pub not_major : c.fix_kind ≢ major
  pub trust_clear : TrustClear t
  pub pipeline_clear : PipelineClear p

append_nil_both : {A : Type 0} (xs ys : List A) → ((xs ++ ys) ≡ []) ↔ ((xs ≡ []) × (ys ≡ []))
append_nil_both [] ys = (λ e. (refl, e), λ h. h.1)
append_nil_both (x ∷ xs) ys = (λ e. absurd (cc), λ h. absurd (cc h.0))

collect_nil :
    (c : FixCandidate) (t : Option TrustDelta) (p : Option PipelineSnapshot)
    → (collect_review_vetoes c t p ≡ []) ↔ ((c.fix_kind ≢ major) × TrustClear t × PipelineClear p)
unfolding collect_review_vetoes
collect_nil c t p =
    let outer = append_nil_both (kind_vetoes c.fix_kind) (trust_vetoes t ++ pipeline_vetoes p) in
    let inner = append_nil_both (trust_vetoes t) (pipeline_vetoes p) in
    (
      λ e.
          let k = outer.0 e in
          let r = inner.0 k.1 in
          (
            (kind_vetoes_nil c.fix_kind).0 k.0,
            (trust_vetoes_nil t).0 r.0,
            (pipeline_vetoes_nil p).0 r.1,
          ),
      λ h. outer.1 (
        (kind_vetoes_nil c.fix_kind).1 h.0,
        inner.1 ((trust_vetoes_nil t).1 h.1, (pipeline_vetoes_nil p).1 h.2),
      ),
    )

halted_cases :
    (env : Environment) (veto : Bool)
    → ((is_kill_switch_active env ≡ true) ⊎ (veto ≡ true))
      ⊎ ((is_kill_switch_active env ≡ false) × (veto ≡ false))
halted_cases env true = inl (inr refl)
halted_cases env false = elim (Bool-cases (is_kill_switch_active env)) [
  | inl t ↦ inl (inl t)
  | inr f ↦ inr (f, refl)
]

module _ (digest : Text → Text) (now : ℕ) (c : FixCandidate) where
  tier_of_vetoes :
      (fs : List Fired) → ((confidence_of_vetoes digest now c fs).tier ≡ auto_merge) ↔ (fs ≡ [])
  unfolding confidence_of_vetoes
  tier_of_vetoes [] = (λ _. refl, λ _. refl)
  tier_of_vetoes (f ∷ fs) = (λ e. absurd (cc), λ e. absurd (cc))

  not_declined : (fs : List Fired) → (confidence_of_vetoes digest now c fs).tier ≢ decline
  unfolding confidence_of_vetoes
  not_declined [] e = cc
  not_declined (f ∷ fs) e = cc

  module _ (env : Environment) (t : Option TrustDelta) (p : Option PipelineSnapshot)
      (veto : Bool) where
    abbrev verdict : FixConfidence
    verdict = compute_fix_confidence digest now c env t p veto

    compute_running :
        is_kill_switch_active env ≡ false
        → veto ≡ false
        → verdict ≡ confidence_of_vetoes digest now c (collect_review_vetoes c t p)
    unfolding compute_fix_confidence
    compute_running r a = rw (r, a)

    halted_declines : (is_kill_switch_active env ≡ true) ⊎ (veto ≡ true) → verdict.tier ≡ decline
    unfolding compute_fix_confidence decline_confidence
    halted_declines h = ground arith

    IsClear-of_tier : verdict.tier ≡ auto_merge → IsClear env c t p veto
    IsClear-of_tier e = elim (halted_cases env veto) [
      | inl h ↦ absurd (cc (halted_declines h))
      | inr (r, a) ↦
          let f = (collect_nil c t p).0 ((tier_of_vetoes _).0 (rw (compute_running r a) at e)) in
          record {
            running = r;
            allowed = a;
            not_major = f.0;
            trust_clear = f.1;
            pipeline_clear = f.2;
          }
    ]

    -- A fix is auto-merged exactly when the kill switch is off, no project veto is set, the
    -- upgrade is not major, the trust delta is known and is marked safe or lists no flag, and the
    -- pipeline snapshot is known and its tests are real.
    pub auto_merge_iff : (verdict.tier ≡ auto_merge) ↔ IsClear env c t p veto
    auto_merge_iff = (only_clear, if_clear)
      where
        only_clear : verdict.tier ≡ auto_merge → IsClear env c t p veto
        only_clear e = IsClear-of_tier e

        if_clear : IsClear env c t p veto → verdict.tier ≡ auto_merge
        if_clear h = rw (compute_running h.running h.allowed) (
            (tier_of_vetoes _).1
              ((collect_nil c t p).1 (h.not_major, h.trust_clear, h.pipeline_clear)))

    -- A fix is declined exactly when the kill switch is on or a project veto is set.
    pub decline_iff :
        (verdict.tier ≡ decline) ↔ ((is_kill_switch_active env ≡ true) ⊎ (veto ≡ true))
    decline_iff = (only_halted, if_halted)
      where
        only_halted : verdict.tier ≡ decline → (is_kill_switch_active env ≡ true) ⊎ (veto ≡ true)
        only_halted e = elim (halted_cases env veto) [
          | inl h ↦ h
          | inr (r, a) ↦ absurd (not_declined _ (rw (compute_running r a) at e))
        ]

        if_halted : (is_kill_switch_active env ≡ true) ⊎ (veto ≡ true) → verdict.tier ≡ decline
        if_halted h = halted_declines h
