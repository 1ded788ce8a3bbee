-- ===== src/Engine/Discovery.antt =====
-- arguss/engine/fix_discovery.py: the fix candidate of one finding, or why there is none.
use arguss.Base.{
  ◌≡◌, ◌≢◌, refl, false, Option, none, some, List, [], ◌∷◌, Text, Member, inl, inr, ◌⊎◌,
}
use arguss.Models.{Finding, FixCandidate}
use arguss.Semver.{less, compare_versions, classify_fix_kind, pick_lowest_version_gt}
use arguss.Semver.Pick.{pick_some}

-- The texts of `skip_reason`.
pub data SkipReason : Type 0 where
  no_advisory_id no_fix_version_in_osv no_fix_version_gt_current : SkipReason

pub record FixDiscoveryResult : Type 0 where
  pub candidates : List FixCandidate
  pub skip_reason : Option SkipReason

abbrev skipped : SkipReason → FixDiscoveryResult
skipped r = record { candidates = []; skip_reason = some r }

candidate_for : Finding → Text → Text → FixCandidate
candidate_for f repo_id to_version = record {
  package_name = f.dependency.name;
  from_version = f.dependency.version;
  to_version = to_version;
  fix_kind = classify_fix_kind f.dependency.version to_version;
  source_finding_ids = f.finding_id ∷ [];
  repo_id = repo_id;
  trust_subscore = none;
  max_epss_score = none;
  max_epss_percentile = none;
  has_kev_finding = false;
}

of_target : Finding → Text → Option Text → FixDiscoveryResult
unfolding candidate_for
of_target f repo_id none = skipped no_fix_version_gt_current
of_target f repo_id (some to_version) = record {
  candidates = candidate_for f repo_id to_version ∷ [];
  skip_reason = none;
}

of_fixed : Finding → Text → List Text → FixDiscoveryResult
unfolding of_target
of_fixed f repo_id [] = skipped no_fix_version_in_osv
of_fixed f repo_id (v ∷ vs) =
    of_target f repo_id (pick_lowest_version_gt f.dependency.version (v ∷ vs))

of_advisory : Finding → Text → Option Text → FixDiscoveryResult
unfolding of_fixed
of_advisory f repo_id none = skipped no_advisory_id
of_advisory f repo_id (some a) = of_fixed f repo_id f.fixed_versions

unfoldable pub discover_fix_candidates : Finding → Text → FixDiscoveryResult
unfolding of_advisory
discover_fix_candidates f repo_id = of_advisory f repo_id f.advisory_id

-- What a candidate for a finding has to be: an upgrade of the finding's package to one of its
-- fixed versions, above the installed one, and to the lowest such.
pub record Fixes (f : Finding) (repo_id : Text) (c : FixCandidate) : Type 0 where
  pub same_package : c.package_name ≡ f.dependency.name
  pub installed : c.from_version ≡ f.dependency.version
  pub fixed : Member c.to_version f.fixed_versions
  pub above : compare_versions f.dependency.version c.to_version ≡ some less
  pub lowest :
      (w : Text)
      → Member w f.fixed_versions
      → compare_versions f.dependency.version w ≡ some less
      → compare_versions w c.to_version ≢ some less
  pub one_finding : c.source_finding_ids ≡ f.finding_id ∷ []

-- Either there is no candidate and a reason, or one candidate that fixes the finding.
abbrev pub Discovered : Finding → Text → FixDiscoveryResult → Type 0
Discovered f repo_id r =
    ((r.candidates ≡ []) × (r.skip_reason ≢ none))
    ⊎ ((c : FixCandidate) × (r.candidates ≡ c ∷ []) × (r.skip_reason ≡ none) × Fixes f repo_id c)

skipped-Discovered :
    (f : Finding) (repo_id : Text) (r : SkipReason) → Discovered f repo_id (skipped r)
skipped-Discovered f repo_id r = inl (refl, λ e. cc)

-- Discovery gives a reason and no candidate, or no reason and one candidate, which upgrades the
-- finding's package to the lowest of its fixed versions above the installed version.
pub discover-Discovered :
    (f : Finding) (repo_id : Text) → Discovered f repo_id (discover_fix_candidates f repo_id)
unfolding discover_fix_candidates
discover-Discovered f repo_id = by_advisory f.advisory_id
  where
    by_target :
        (vs : List Text) (o : Option Text)
        → f.fixed_versions ≡ vs
        → pick_lowest_version_gt f.dependency.version vs ≡ o
        → Discovered f repo_id (of_target f repo_id o)
    by_target vs none e p = skipped-Discovered f repo_id no_fix_version_gt_current
    by_target vs (some v) e p =
        let r = pick_some f.dependency.version vs v p in
        inr (
          candidate_for f repo_id v,
          refl,
          refl,
          record {
            same_package = refl;
            installed = refl;
            fixed = rw e r.0;
            above = r.1;
            lowest = rw e r.2;
            one_finding = refl;
          },
        )

    by_fixed :
        (vs : List Text) → f.fixed_versions ≡ vs → Discovered f repo_id (of_fixed f repo_id vs)
    by_fixed [] e = skipped-Discovered f repo_id no_fix_version_in_osv
    by_fixed (v ∷ vs) e = by_target (v ∷ vs) _ e refl

    by_advisory : (a : Option Text) → Discovered f repo_id (of_advisory f repo_id a)
    by_advisory none = skipped-Discovered f repo_id no_advisory_id
    by_advisory (some a) = by_fixed f.fixed_versions refl
