-- ===== src/Engine/FixConfidence.antt =====
-- arguss/engine/fix_confidence.py: the verdict on a remediation candidate.
-- `_utc_now()` is the argument `evaluated_at`; the environment is that of the kill switch.
pub mod Envelope
pub mod Score
pub mod Signals
use arguss.Base.{
  ℕ, zero, suc, ◌+◌, ◌-◌, max, Bool, true, false, Option, none, some, List, [], ◌∷◌, ◌++◌, map,
  if◌then◌else◌, Text, codes, sorted, text_le,
}
use arguss.Models.{
  FixKind, patch, minor, major, FixTier, auto_merge, review_required, decline, TrustFlag,
  ownership_transfer, new_maintainer, cadence_anomaly, download_collapse, TrustDelta,
  PipelineSnapshot, FixCandidate, FixConfidence, Veto, kill_switch, project_veto, fix_kind_major,
  trust_unavailable, trust_flag, pipeline_unavailable, pipeline_test_reality, join, candidate_id,
}
use arguss.Engine.KillSwitch.{Environment, is_kill_switch_active}

abbrev pub engine_version_text : Text
engine_version_text = codes "fix-confidence-v1.0.0"

-- The identifier that stands in `veto_signals` for each signal.
unfoldable pub veto_id : Veto → Text
veto_id kill_switch = codes "kill_switch"
veto_id project_veto = codes "project_veto"
veto_id fix_kind_major = codes "fix_kind.major"
veto_id trust_unavailable = codes "trust.unavailable"
veto_id (trust_flag ownership_transfer) = codes "trust.ownership_transferred"
veto_id (trust_flag new_maintainer) = codes "trust.new_maintainer"
veto_id (trust_flag cadence_anomaly) = codes "trust.cadence_anomaly"
veto_id (trust_flag download_collapse) = codes "trust.download_collapse"
veto_id pipeline_unavailable = codes "pipeline.unavailable"
veto_id pipeline_test_reality = codes "pipeline.test_reality"

trust_flag_reason : TrustFlag → Text
trust_flag_reason ownership_transfer =
    codes "trust veto: package ownership transferred between versions"
trust_flag_reason new_maintainer = codes "trust veto: new maintainer added"
trust_flag_reason cadence_anomaly = codes "trust veto: publish cadence anomaly detected"
trust_flag_reason download_collapse = codes "trust veto: weekly download count collapsed"

-- `_SCORE_REDUCTION.get(signal, 0)`
unfoldable pub score_reduction : Veto → ℕ
score_reduction fix_kind_major = 50
score_reduction trust_unavailable = 20
score_reduction (trust_flag _) = 15
score_reduction pipeline_unavailable = 25
score_reduction pipeline_test_reality = 25
score_reduction _ = 0

fix_kind_label : FixKind → Text
fix_kind_label patch = codes "patch-level"
fix_kind_label minor = codes "minor-level"
fix_kind_label major = codes "major-level"

auto_merge_reason : FixKind → Text
unfolding fix_kind_label
auto_merge_reason k =
    fix_kind_label k ++ codes " upgrade; trust signals unchanged; CI verifies tests"

-- A veto that fired, with the reason that is appended beside it.
abbrev pub Fired : Type 0
Fired = Veto × Text

unfoldable pub kind_vetoes : FixKind → List Fired
kind_vetoes major =
    (fix_kind_major, codes "major version bump requires human review (never auto-merge)") ∷ []
kind_vetoes _ = []

flag_vetoes : List TrustFlag → List Fired
unfolding trust_flag_reason
flag_vetoes [] = []
flag_vetoes (f ∷ fs) = (trust_flag f, trust_flag_reason f) ∷ flag_vetoes fs

unfoldable pub trust_vetoes : Option TrustDelta → List Fired
unfolding flag_vetoes
trust_vetoes none =
    (trust_unavailable, codes "trust signals unavailable for this package upgrade") ∷ []
trust_vetoes (some d) = if d.safe_to_auto_merge then [] else flag_vetoes d.flags

blocked_reason : List Text → Text
blocked_reason [] =
    codes "pipeline veto: Your project's CI provides no test signal. "
    ++ codes "The agent cannot verify behavior post-upgrade."
blocked_reason (b ∷ bs) =
    codes "pipeline veto: Your project's CI provides no test signal ("
    ++ (join (codes "; ") (b ∷ bs) ++ codes "). The agent cannot verify behavior post-upgrade.")

unfoldable pub pipeline_vetoes : Option PipelineSnapshot → List Fired
unfolding blocked_reason
pipeline_vetoes none =
    (pipeline_unavailable, codes "pipeline snapshot unavailable; cannot verify CI") ∷ []
pipeline_vetoes (some p) =
    if p.test_reality.safe_to_auto_merge
    then []
    else (pipeline_test_reality, blocked_reason p.test_reality.reasons_blocked) ∷ []

-- The two lists that `_collect_review_vetoes` grows together, as one list of pairs.
unfoldable pub collect_review_vetoes :
    FixCandidate → Option TrustDelta → Option PipelineSnapshot → List Fired
collect_review_vetoes c t p = kind_vetoes c.fix_kind ++ (trust_vetoes t ++ pipeline_vetoes p)

-- The source's `score` may pass below 0 before `max(1, score)`; here it stops at 0.
unfoldable pub score_from : ℕ → List Veto → ℕ
unfolding score_reduction
score_from score [] = score
score_from score (signal ∷ rest) = score_from (score - score_reduction signal) rest

unfoldable pub score_for_review : List Veto → ℕ
unfolding score_from
score_for_review signals = max 1 (score_from 100 signals)

abbrev pub veto_le : Veto → Veto → Bool
veto_le a b = text_le (veto_id a) (veto_id b)

module _ (digest : Text → Text) (evaluated_at : ℕ) (c : FixCandidate) where
  unfoldable pub decline_confidence : Text → Veto → FixConfidence
  decline_confidence reason signal = record {
    candidate_id = candidate_id digest c;
    tier = decline;
    score = 0;
    reasons = reason ∷ [];
    veto_signals = signal ∷ [];
    evaluated_at = evaluated_at;
    engine_version = engine_version_text;
  }

  -- The end of `compute_fix_confidence`: review if any veto fired, else auto-merge.
  unfoldable pub confidence_of_vetoes : List Fired → FixConfidence
  unfolding score_for_review auto_merge_reason
  confidence_of_vetoes [] = record {
    candidate_id = candidate_id digest c;
    tier = auto_merge;
    score = 100;
    reasons = auto_merge_reason c.fix_kind ∷ [];
    veto_signals = [];
    evaluated_at = evaluated_at;
    engine_version = engine_version_text;
  }
  confidence_of_vetoes (f ∷ fs) =
      let signals = sorted veto_le (map (λ v. v.0) (f ∷ fs)) in
      record {
        candidate_id = candidate_id digest c;
        tier = review_required;
        score = score_for_review signals;
        reasons = sorted text_le (map (λ v. v.1) (f ∷ fs));
        veto_signals = signals;
        evaluated_at = evaluated_at;
        engine_version = engine_version_text;
      }

  unfoldable pub compute_fix_confidence :
      Environment → Option TrustDelta → Option PipelineSnapshot → Bool → FixConfidence
  unfolding decline_confidence confidence_of_vetoes collect_review_vetoes
  compute_fix_confidence env trust_delta pipeline_snapshot veto =
      if is_kill_switch_active env
      then decline_confidence (codes "engine administratively disabled via kill switch") kill_switch
      else if veto
      then decline_confidence
          (codes "project-level veto: all auto-merges halted for this repository") project_veto
      else confidence_of_vetoes (collect_review_vetoes c trust_delta pipeline_snapshot)
