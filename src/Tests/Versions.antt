-- ===== src/Tests/Versions.antt =====
-- Versions, fix candidates and their consolidation, on sample data.
use arguss.Base.{◌≡◌, ◌≢◌, inl, inr, refl, some, [], ◌∷◌, Text, codes, Member, All, arith}
use arguss.Models.{FixCandidate, major}
use arguss.Semver.{
  less, compare_versions, pick_lowest_version_gt, classify_fix_kind, parse_semver_triplet,
  lowest_of,
}
use arguss.Semver.Pick.{pick_some}
use arguss.Engine.Discovery.{Discovered, discover_fix_candidates, discover-Discovered}
use arguss.Engine.Consolidate.{max_target, best_of, is_above, consolidate_candidates}
use arguss.Engine.Consolidate.Target.{NotAbove, max_target_highest}
use arguss.Engine.Consolidate.Conservation.{Carried, consolidate-Carried}
use arguss.Tests.{advisory, upgrade, further_upgrade}

bump_is_major : classify_fix_kind (codes "4.17.15") (codes "5.0.0") ≡ major
unfolding classify_fix_kind parse_semver_triplet
bump_is_major = refl

picked : pick_lowest_version_gt (codes "4.17.15") advisory.fixed_versions ≡ some (codes "4.17.21")
unfolding pick_lowest_version_gt compare_versions parse_semver_triplet lowest_of
picked = refl

pick_some_example :
    Member (codes "4.17.21") advisory.fixed_versions
    × (compare_versions (codes "4.17.15") (codes "4.17.21") ≡ some less)
    × ((w : Text)
        → Member w advisory.fixed_versions
        → compare_versions (codes "4.17.15") w ≡ some less
        → compare_versions w (codes "4.17.21") ≢ some less)
pick_some_example = pick_some (codes "4.17.15") advisory.fixed_versions (codes "4.17.21") picked

discover-Discovered_example :
    Discovered advisory (codes "r") (discover_fix_candidates advisory (codes "r"))
discover-Discovered_example = discover-Discovered advisory (codes "r")

target_is_further : max_target (upgrade ∷ further_upgrade ∷ []) ≡ some (codes "4.18.0")
unfolding max_target best_of is_above compare_versions parse_semver_triplet
target_is_further = refl

both_upgrade :
    (compare_versions (codes "4.17.15") (codes "4.17.21") ≡ some less)
    × (compare_versions (codes "4.17.15") (codes "4.18.0") ≡ some less)
unfolding compare_versions parse_semver_triplet
both_upgrade = (refl, refl)

max_target_highest_example :
    ((c : FixCandidate) × Member c (upgrade ∷ further_upgrade ∷ [])
      × (c.to_version ≡ codes "4.18.0"))
    × All (NotAbove (codes "4.17.15") (codes "4.18.0")) (upgrade ∷ further_upgrade ∷ [])
max_target_highest_example =
    max_target_highest (codes "4.17.15") (upgrade ∷ further_upgrade ∷ []) (codes "4.18.0")
      target_is_further (both_upgrade.0, (both_upgrade.1, tt))

consolidate-Carried_example :
    Carried (codes "f2") (consolidate_candidates (upgrade ∷ further_upgrade ∷ []) (advisory ∷ []))
consolidate-Carried_example =
    consolidate-Carried (upgrade ∷ further_upgrade ∷ []) (advisory ∷ []) further_upgrade
      (codes "f2") (inr (inl refl)) (omega arith) (inl refl)
