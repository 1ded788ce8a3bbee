-- ===== src/Engine/FixConfidence/Signals.antt =====
-- Which signals a verdict carries: those whose condition holds, and no others.
use arguss.Base.{◌≡◌, false, Option, none, some, List, map, Member}
use arguss.Models.{
  FixKind, major, TrustDelta, PipelineSnapshot, FixCandidate, Veto, kill_switch, project_veto,
  fix_kind_major, trust_unavailable, trust_flag, pipeline_unavailable, pipeline_test_reality,
}
use arguss.Engine.FixConfidence.{Fired, collect_review_vetoes}

-- The condition of each signal.
abbrev pub Fires : FixKind → Option TrustDelta → Option PipelineSnapshot → Veto → Type 0
Fires k t p kill_switch = ⊥
Fires k t p project_veto = ⊥
Fires k t p fix_kind_major = k ≡ major
Fires k t p trust_unavailable = t ≡ none
Fires k t p (trust_flag f) =
    (d : TrustDelta) × (t ≡ some d) × (d.safe_to_auto_merge ≡ false) × Member f d.flags
Fires k t p pipeline_unavailable = p ≡ none
Fires k t p pipeline_test_reality =
    (s : PipelineSnapshot) × (p ≡ some s) × (s.test_reality.safe_to_auto_merge ≡ false)

abbrev signals : List Fired → List Veto
signals = map (λ f. f.0)

module _ (c : FixCandidate) (t : Option TrustDelta) (p : Option PipelineSnapshot) where
  abbrev collected : List Veto
  collected = signals (collect_review_vetoes c t p)
