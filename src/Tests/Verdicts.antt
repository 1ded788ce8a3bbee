-- ===== src/Tests/Verdicts.antt =====
-- Verdicts on sample data.
use arguss.Base.{◌≡◌, ◌↔◌, ◌⊎◌, refl, ◌+◌, ◌-◌, max, true, false, none, some}
use arguss.Models.{auto_merge, decline}
use arguss.Engine.KillSwitch.{is_kill_switch_active}
use arguss.Engine.FixConfidence.{compute_fix_confidence, kind_vetoes, trust_vetoes, pipeline_vetoes}
use arguss.Engine.FixConfidence.Envelope.{IsClear, auto_merge_iff, decline_iff}
use arguss.Engine.FixConfidence.Score.{
  ScoreFits, kind_points, trust_points, pipeline_points, verdict-ScoreFits, verdict_score,
}
use arguss.Tests.{same_text, no_switch, switched_off, upgrade, calm, flagged, tested}

merged_without_review :
    (compute_fix_confidence same_text 0 upgrade no_switch (some calm) (some tested) false).tier
    ≡ auto_merge
unfolding compute_fix_confidence is_kill_switch_active kind_vetoes trust_vetoes pipeline_vetoes
merged_without_review = refl

auto_merge_iff_example :
    ((compute_fix_confidence same_text 0 upgrade no_switch (some calm) (some tested) false).tier
      ≡ auto_merge)
    ↔ IsClear no_switch upgrade (some calm) (some tested) false
auto_merge_iff_example =
    auto_merge_iff same_text 0 upgrade no_switch (some calm) (some tested) false

decline_iff_example :
    ((compute_fix_confidence same_text 0 upgrade switched_off (some calm) (some tested) false).tier
      ≡ decline)
    ↔ ((is_kill_switch_active switched_off ≡ true) ⊎ (false ≡ true))
decline_iff_example = decline_iff same_text 0 upgrade switched_off (some calm) (some tested) false

verdict-ScoreFits_example :
    ScoreFits
      (compute_fix_confidence same_text 0 upgrade no_switch (some flagged) none false).tier
      (compute_fix_confidence same_text 0 upgrade no_switch (some flagged) none false).score
verdict-ScoreFits_example =
    verdict-ScoreFits same_text 0 upgrade no_switch (some flagged) none false

still_on : is_kill_switch_active no_switch ≡ false
unfolding is_kill_switch_active
still_on = refl

verdict_score_example :
    (compute_fix_confidence same_text 0 upgrade no_switch (some flagged) none false).score
    ≡ max 1
        (100 - (kind_points upgrade.fix_kind + trust_points (some flagged) + pipeline_points none))
verdict_score_example =
    verdict_score same_text 0 upgrade no_switch (some flagged) none false still_on refl
