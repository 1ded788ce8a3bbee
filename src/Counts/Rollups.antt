-- ===== src/Counts/Rollups.antt =====
-- The worst of a group of findings, and the findings and candidates of each package.
use arguss.Base.{
  ℕ, Bool, false, Option, none, some, List, [], ◌∷◌, ◌++◌, map, if◌then◌else◌, leb, length,
  is_empty, any, Text, codes, lower, text_le, is_in, sorted, sorted_set, Dict, lookup, insert, keep,
}
use arguss.Models.{derive_finding_id, Severity, critical, high, medium, low, Finding}
use arguss.Engine.Consolidate.{max_or_none}
use arguss.Counts.{ProposalEntry, NoFixSkip, Skip, no_fix, lens_failure, severity_band, related_ids}

pub record CandidateAggregates : Type 0 where
  pub max_epss_score : Option ℕ
  pub max_epss_percentile : Option ℕ
  pub max_cvss_score : Option ℕ
  pub severity_min : Option Severity
  pub severity_max : Option Severity
  pub has_kev : Bool

-- _SEVERITY_ORDER
abbrev pub severity_rank : Severity → ℕ
severity_rank critical = 0
severity_rank high = 1
severity_rank medium = 2
severity_rank low = 3

unfoldable pub first_severity : List Severity → Option Severity
first_severity [] = none
first_severity (s ∷ ss) = some s

unfoldable pub last_severity : List Severity → Option Severity
last_severity [] = none
last_severity (s ∷ []) = some s
last_severity (s ∷ t ∷ ss) = last_severity (t ∷ ss)

unfoldable pub aggregates_for_findings : List Finding → CandidateAggregates
unfolding first_severity last_severity
aggregates_for_findings fs =
    let severities =
      sorted (λ a b. leb (severity_rank a) (severity_rank b)) (map severity_band fs) in
    record {
      max_epss_score = max_or_none (map (λ (f : Finding). f.epss_score) fs);
      max_epss_percentile = max_or_none (map (λ (f : Finding). f.epss_percentile) fs);
      max_cvss_score = max_or_none (map (λ (f : Finding). f.cvss_score) fs);
      severity_min = first_severity severities;
      severity_max = last_severity severities;
      has_kev = any (λ (f : Finding). f.is_kev) fs;
    }

abbrev or_medium : Option Severity → Severity
or_medium none = medium
or_medium (some s) = s

-- The finding as it is built, before the validator of `Finding` looks at its id.
unfoldable pub unvalidated : NoFixSkip → Finding
unvalidated s = record {
  dependency = record {
    name = s.node_package;
    version = s.current_version;
    ecosystem = codes "npm";
    direct = false;
    path = s.dependency_path;
    parents = [];
    install_key = [];
  };
  lens = codes "cve";
  severity = or_medium s.severity;
  score = 0;
  cvss_score = none;
  title = s.title;
  description = s.description;
  remediation = none;
  source_url = none;
  advisory_id = if is_empty s.advisory_id then none else some s.advisory_id;
  fixed_versions = [];
  published_at = none;
  cve_id = none;
  epss_score = none;
  epss_percentile = none;
  is_kev = false;
  kev_date_added = none;
  kev_due_date = none;
  kev_known_ransomware = false;
  finding_id = s.finding_id;
}

-- `Finding._ensure_finding_id`: an empty id is derived.
unfoldable pub ensure_finding_id : (Text → Text) → Finding → Finding
ensure_finding_id digest f =
    if is_empty f.finding_id then record f { finding_id = derive_finding_id digest f } else f

unfoldable pub finding_from_no_fix : (Text → Text) → NoFixSkip → Finding
unfolding unvalidated ensure_finding_id
finding_from_no_fix digest s = ensure_finding_id digest (unvalidated s)

-- {f.finding_id: f for f in findings if f.finding_id}
unfoldable pub finding_by_id : List Finding → Dict Finding → Dict Finding
finding_by_id [] d = d
finding_by_id (f ∷ fs) d =
    finding_by_id fs (if is_empty f.finding_id then d else insert f.finding_id f d)

unfoldable pub extend : Text → List Finding → Dict (List Finding) → Dict (List Finding)
extend k fs d = insert k (elim (lookup k d) [ none ↦ fs | some old ↦ old ++ fs ]) d

unfoldable pub finding_of_skip : (Text → Text) → Dict Finding → NoFixSkip → Finding
unfolding finding_from_no_fix
finding_of_skip digest by_id s =
    if is_empty s.finding_id
    then finding_from_no_fix digest s
    else elim (lookup s.finding_id by_id) [ none ↦ finding_from_no_fix digest s | some f ↦ f ]

unfoldable pub rollup_entries : List ProposalEntry → Dict (List Finding) → Dict (List Finding)
unfolding extend
rollup_entries [] d = d
rollup_entries (e ∷ es) d = rollup_entries es (extend e.candidate.package_name e.related_findings d)

unfoldable pub rollup_skips :
    (Text → Text) → Dict Finding → List Skip → Dict (List Finding) → Dict (List Finding)
unfolding extend finding_of_skip
rollup_skips digest by_id [] d = d
rollup_skips digest by_id (lens_failure ∷ skips) d = rollup_skips digest by_id skips d
rollup_skips digest by_id (no_fix s ∷ skips) d =
    rollup_skips digest by_id skips (extend s.node_package (finding_of_skip digest by_id s ∷ []) d)

-- rollup_candidates.get(pkg, set()), sorted
unfoldable pub candidates_of_name : Text → List ProposalEntry → List Text
candidates_of_name name es = sorted_set (
    map (λ (e : ProposalEntry). e.candidate_ident)
      (keep (λ (e : ProposalEntry). is_in e.candidate.package_name (name ∷ [])) es))

pub record PackageNameRollup : Type 0 where
  pub name : Text
  pub finding_ids : List Text
  pub finding_count : ℕ
  pub candidate_ids : List Text
  pub aggregates : CandidateAggregates

unfoldable pub rollup : List ProposalEntry → Text × List Finding → PackageNameRollup
unfolding aggregates_for_findings candidates_of_name
rollup es (name, fs) = record {
  name = name;
  finding_ids = related_ids fs;
  finding_count = length (related_ids fs);
  candidate_ids = candidates_of_name name es;
  aggregates = aggregates_for_findings fs;
}

unfoldable pub package_rollups :
    (Text → Text) → List Finding → List ProposalEntry → List Skip → List PackageNameRollup
unfolding finding_by_id rollup_entries rollup_skips rollup
package_rollups digest findings entries skips = map (rollup entries) (
    sorted (λ a b. text_le (lower a.0) (lower b.0))
      (rollup_skips digest (finding_by_id findings []) skips (rollup_entries entries [])))
