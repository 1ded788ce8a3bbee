-- ===== src/Engine/FixConfidence/Score.antt =====
-- The score of a verdict, and how it goes with the tier.
use arguss.Base.{
  ℕ, ◌+◌, ◌-◌, ◌≤◌, max, ◌≡◌, refl, Bool, Option, List, [], ◌∷◌, ◌++◌, map, arith, Text, sum,
  sorted, sum-sorted, Bool-cases, inl, inr, false, All, All-append, if◌then◌else◌, length,
  sum-append, ap, ◌∙◌, none, some, ◌*◌,
}
use arguss.Models.{
  FixKind, patch, minor, major, FixTier, auto_merge, review_required, decline, TrustFlag,
  TrustDelta, PipelineSnapshot, FixCandidate, Veto,
}
use arguss.Engine.KillSwitch.{Environment, is_kill_switch_active}
use arguss.Engine.FixConfidence.{
  Fired, kind_vetoes, flag_vetoes, trust_vetoes, pipeline_vetoes, collect_review_vetoes, score_from,
  score_reduction, score_for_review, veto_le, decline_confidence, confidence_of_vetoes,
  compute_fix_confidence,
}

-- The running score is what the reductions leave.
score_from_lem : (n : ℕ) (vs : List Veto) → score_from n vs ≡ n - sum score_reduction vs
unfolding score_from
score_from_lem n [] = omega arith
score_from_lem n (v ∷ vs) = omega (arith, score_from_lem (n - score_reduction v) vs)

-- The score of a review does not depend on the order of the signals.
score_of_sorted :
    (vs : List Veto) → score_for_review (sorted veto_le vs) ≡ max 1 (100 - sum score_reduction vs)
unfolding score_for_review
score_of_sorted vs =
    omega (arith, score_from_lem 100 (sorted veto_le vs), sum-sorted veto_le score_reduction vs)

-- Every veto that the engine collects takes at least 15 points.
abbrev Costs : Fired → Type 0
Costs f = 15 ≤ score_reduction f.0

flag_vetoes-Costs : (fs : List TrustFlag) → All Costs (flag_vetoes fs)
unfolding flag_vetoes score_reduction
flag_vetoes-Costs [] = tt
flag_vetoes-Costs (f ∷ fs) = (omega arith, flag_vetoes-Costs fs)

collect-Costs :
    (c : FixCandidate) (t : Option TrustDelta) (p : Option PipelineSnapshot)
    → All Costs (collect_review_vetoes c t p)
unfolding collect_review_vetoes kind_vetoes trust_vetoes pipeline_vetoes score_reduction
collect-Costs c t p =
    All-append Costs (kind_vetoes c.fix_kind) _ (kind_costs c.fix_kind)
      (All-append Costs (trust_vetoes t) _ (trust_costs t) (pipeline_costs p))
  where
    kind_costs : (k : FixKind) → All Costs (kind_vetoes k)
    kind_costs patch = tt
    kind_costs minor = tt
    kind_costs major = (omega arith, tt)

    trust_costs : (t' : Option TrustDelta) → All Costs (trust_vetoes t')
    trust_costs none = (omega arith, tt)
    trust_costs (some d) = elim (Bool-cases d.safe_to_auto_merge) [
      | inl s ↦ rw s tt
      | inr u ↦ rw u (flag_vetoes-Costs d.flags)
    ]

    pipeline_costs : (p' : Option PipelineSnapshot) → All Costs (pipeline_vetoes p')
    pipeline_costs none = (omega arith, tt)
    pipeline_costs (some q) = elim (Bool-cases q.test_reality.safe_to_auto_merge) [
      | inl s ↦ rw s tt
      | inr u ↦ rw u (omega arith, tt)
    ]

-- The score that a tier allows.
abbrev pub ScoreFits : FixTier → ℕ → Type 0
ScoreFits auto_merge score = score ≡ 100
ScoreFits review_required score = (1 ≤ score) × (score ≤ 85)
ScoreFits decline score = score ≡ 0

-- The points that the fired vetoes take, said without the list of vetoes.
abbrev pub kind_points : FixKind → ℕ
kind_points major = 50
kind_points _ = 0

abbrev pub trust_points : Option TrustDelta → ℕ
trust_points none = 20
trust_points (some d) = if d.safe_to_auto_merge then 0 else 15 * length d.flags

abbrev pub pipeline_points : Option PipelineSnapshot → ℕ
pipeline_points none = 25
pipeline_points (some p) = if p.test_reality.safe_to_auto_merge then 0 else 25

flag_points :
    (fs : List TrustFlag)
    → sum (λ (f : Fired). score_reduction f.0) (flag_vetoes fs) ≡ 15 * length fs
unfolding flag_vetoes score_reduction
flag_points [] = refl
flag_points (f ∷ fs) = omega (arith, flag_points fs)

kind_sum : (k : FixKind) → sum (λ (f : Fired). score_reduction f.0) (kind_vetoes k) ≡ kind_points k
unfolding kind_vetoes score_reduction
kind_sum patch = refl
kind_sum minor = refl
kind_sum major = refl

trust_sum :
    (t : Option TrustDelta)
    → sum (λ (f : Fired). score_reduction f.0) (trust_vetoes t) ≡ trust_points t
unfolding trust_vetoes score_reduction
trust_sum none = refl
trust_sum (some d) = elim (Bool-cases d.safe_to_auto_merge) [
  | inl s ↦ rw s refl
  | inr u ↦ rw u (flag_points d.flags)
]

pipeline_sum :
    (p : Option PipelineSnapshot)
    → sum (λ (f : Fired). score_reduction f.0) (pipeline_vetoes p) ≡ pipeline_points p
unfolding pipeline_vetoes score_reduction
pipeline_sum none = refl
pipeline_sum (some p) = ground arith

sum_of_map :
    (fs : List Fired)
    → sum score_reduction (map (λ f. f.0) fs) ≡ sum (λ (f : Fired). score_reduction f.0) fs
sum_of_map [] = refl
sum_of_map (f ∷ fs) = omega (arith, sum_of_map fs)

module _ (digest : Text → Text) (now : ℕ) (c : FixCandidate) where
  vetoes_score :
      (fs : List Fired)
      → (confidence_of_vetoes digest now c fs).score
        ≡ max 1 (100 - sum (λ (f : Fired). score_reduction f.0) fs)
  unfolding confidence_of_vetoes
  vetoes_score [] = refl
  vetoes_score (f ∷ fs) =
      score_of_sorted (map (λ v. v.0) (f ∷ fs)) ∙ ap (λ n. max 1 (100 - n)) (sum_of_map (f ∷ fs))

  vetoes_fit :
      (fs : List Fired)
      → All Costs fs
      → ScoreFits
          (confidence_of_vetoes digest now c fs).tier
          (confidence_of_vetoes digest now c fs).score
  unfolding confidence_of_vetoes
  vetoes_fit [] h = refl
  vetoes_fit (f ∷ fs) h =
      let e = score_of_sorted (map (λ v. v.0) (f ∷ fs)) in
      (omega (arith, e, h.0), omega (arith, e, h.0))

  module _ (env : Environment) (t : Option TrustDelta) (p : Option PipelineSnapshot)
      (veto : Bool) where
    -- The score fits the tier: 100 for a merge, 1 to 85 for a review, 0 for a decline.
    pub verdict-ScoreFits :
        ScoreFits
          (compute_fix_confidence digest now c env t p veto).tier
          (compute_fix_confidence digest now c env t p veto).score
    unfolding compute_fix_confidence decline_confidence
    verdict-ScoreFits = elim (Bool-cases (is_kill_switch_active env)) [
      | inl k ↦ rw k refl
      | inr r ↦ elim (Bool-cases veto) [
        | inl v ↦ rw (r, v) refl
        | inr a ↦ rw (r, a) (vetoes_fit (collect_review_vetoes c t p) (collect-Costs c t p))
      ]
    ]

    -- While the engine runs, the score is 100 less the points of what fired, and at least 1: 50
    -- for a major upgrade, 20 for an unknown trust delta or 15 for each flag of an unsafe one, and
    -- 25 for a pipeline that is unknown or has no real tests.
    pub verdict_score :
        is_kill_switch_active env ≡ false
        → veto ≡ false
        → (compute_fix_confidence digest now c env t p veto).score
          ≡ max 1 (100 - (kind_points c.fix_kind + trust_points t + pipeline_points p))
    unfolding compute_fix_confidence collect_review_vetoes
    verdict_score r a =
        rw (r, a)
          (vetoes_score _
            ∙ ap (λ n. max 1 (100 - n))
                (omega (
                  arith,
                  sum-append (λ (f : Fired). score_reduction f.0) (kind_vetoes c.fix_kind)
                      (trust_vetoes t ++ pipeline_vetoes p),
                  sum-append (λ (f : Fired). score_reduction f.0) (trust_vetoes t)
                      (pipeline_vetoes p),
                  kind_sum c.fix_kind,
                  trust_sum t,
                  pipeline_sum p,
                )))
