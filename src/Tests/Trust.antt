-- ===== src/Tests/Trust.antt =====
-- The trust lens on sample data.
use arguss.Base.{
  ◌==◌, if◌then◌else◌, ◌≡◌, ◌≢◌, ◌↔◌, ◌⊎◌, refl, ℕ, ◌≤◌, false, none, some, List, [], ◌∷◌, Text,
  codes, text_eq,
}
use arguss.Models.{TrustSnapshot, new_maintainer, major, auto_merge, high}
use arguss.Engine.KillSwitch.{is_kill_switch_active}
use arguss.Engine.FixConfidence.{compute_fix_confidence}
use arguss.Engine.FixConfidence.Envelope.{PipelineClear}
use arguss.Lenses.Trust.{
  delta_of, compute_subscore, trust_severity_from_subscore, raised_flags, is_transferred,
}
use arguss.Lenses.Trust.Delta.{Calm, merge_of_snapshots_iff}
use arguss.Lenses.Trust.Subscore.{subscore_bound}
use arguss.Lenses.Trust.Distance.{
  first_row, fill, all_rows, last_cell, levenshtein, typosquat_distance,
}
use arguss.Lenses.Trust.Distance.Least.{Least}
use arguss.Lenses.Trust.Distance.Rows.{levenshtein-Least}
use arguss.Lenses.Trust.Distance.Nearest.{IsNearest, typosquat_distance-IsNearest}
use arguss.Tests.{same_text, no_switch, upgrade, tested}

kitten_to_sitting : levenshtein (codes "kitten") (codes "sitting") ≡ 3
unfolding levenshtein all_rows fill first_row last_cell text_eq
kitten_to_sitting = refl

levenshtein-Least_example :
    Least (codes "lodahs") (codes "lodash") (levenshtein (codes "lodahs") (codes "lodash"))
levenshtein-Least_example = levenshtein-Least (codes "lodahs") (codes "lodash")

abbrev popular : List Text
popular = codes "react" ∷ codes "lodash" ∷ []

typosquat_distance-IsNearest_example :
    ((popular ≡ []) × (typosquat_distance (codes "lodahs") popular ≡ none))
    ⊎ ((d : ℕ) × (best : Text) × (typosquat_distance (codes "lodahs") popular ≡ some (d, best))
        × IsNearest (codes "lodahs") popular d best)
typosquat_distance-IsNearest_example = typosquat_distance-IsNearest (codes "lodahs") popular

abbrev one : ℕ
one = 1

subscore_bound_example :
    (compute_subscore 1 (some 10) (some 1) false (some 50) ≤ (if one == 1 then 85 else 55))
    × ((trust_severity_from_subscore (compute_subscore 1 (some 10) (some 1) false (some 50)) ≢ high)
        ⊎ (one ≡ 1))
subscore_bound_example = subscore_bound one (some 10) (some 1) false (some 50)

abbrev old_snapshot : TrustSnapshot
old_snapshot = record {
  package_name = codes "lodash";
  version = codes "4.17.15";
  captured_at = 0;
  maintainer_count = 1;
  maintainer_logins = codes "ann" ∷ [];
  published_at = 0;
  days_since_previous_publish = none;
  typosquat_distance = some 0;
  typosquat_nearest = some (codes "lodash");
  weekly_downloads = some 100;
  subscore = 30;
  scorecard_score = none;
  scorecard_date = none;
  scorecard_top_concerns = none;
}

abbrev new_snapshot : TrustSnapshot
new_snapshot = record old_snapshot {
  version = codes "4.17.21";
  maintainer_logins = codes "ann" ∷ codes "bob" ∷ [];
  published_at = 86_400_000_000_000;
}

newcomer_is_flagged :
    raised_flags
      (is_transferred old_snapshot.maintainer_logins new_snapshot.maintainer_logins)
      (codes "bob" ∷ [])
      false
      none
    ≡ new_maintainer ∷ []
unfolding raised_flags is_transferred text_eq
newcomer_is_flagged = refl

merge_of_snapshots_iff_example :
    ((compute_fix_confidence same_text 0 upgrade no_switch
        (some (delta_of (codes "lodash") old_snapshot new_snapshot []))
        (some tested)
        false).tier
      ≡ auto_merge)
    ↔ ((is_kill_switch_active no_switch ≡ false)
        × (false ≡ false)
        × (upgrade.fix_kind ≢ major)
        × Calm old_snapshot new_snapshot []
        × PipelineClear (some tested))
merge_of_snapshots_iff_example =
    merge_of_snapshots_iff same_text 0 upgrade no_switch (some tested) false (codes "lodash")
      old_snapshot new_snapshot []
