-- ===== src/Models.antt =====
-- arguss/core/models.py: the values that the lenses, the engine and the web layer exchange.
-- A time is a number of nanoseconds. A score that the source keeps as a float and only compares
-- (CVSS, EPSS) is a number in a fixed decimal unit. `hashlib.sha256(…).hexdigest()[:16]` is a
-- parameter, `digest`.
use arguss.Base.Int.{ℤ}
use arguss.Base.{ℕ, ◌++◌, Bool, Option, none, some, List, [], ◌∷◌, Text, codes, sorted, text_le}

pub data Severity : Type 0 where
  critical high medium low : Severity

pub record Dependency : Type 0 where
  pub name : Text
  pub version : Text
  pub ecosystem : Text
  pub direct : Bool
  pub path : List Text
  pub parents : List Text
  pub install_key : Text

pub record Finding : Type 0 where
  pub dependency : Dependency
  pub lens : Text
  pub severity : Severity
  pub score : ℕ
  pub cvss_score : Option ℕ
  pub title : Text
  pub description : Text
  pub remediation : Option Text
  pub source_url : Option Text
  pub advisory_id : Option Text
  pub fixed_versions : List Text
  pub published_at : Option Text
  pub cve_id : Option Text
  pub epss_score : Option ℕ
  pub epss_percentile : Option ℕ
  pub is_kev : Bool
  pub kev_date_added : Option Text
  pub kev_due_date : Option Text
  pub kev_known_ransomware : Bool
  pub finding_id : Text

pub record TrustSnapshot : Type 0 where
  pub package_name : Text
  pub version : Text
  pub captured_at : ℕ
  pub maintainer_count : ℕ
  pub maintainer_logins : List Text
  pub published_at : ℕ
  pub days_since_previous_publish : Option ℕ
  pub typosquat_distance : Option ℕ
  pub typosquat_nearest : Option Text
  pub weekly_downloads : Option ℕ
  pub subscore : ℕ
  pub scorecard_score : Option ℕ
  pub scorecard_date : Option Text
  pub scorecard_top_concerns : Option (List Text)

-- `(to - from) / from`, as the two counts: an exact fraction with `before` not 0, or 0 for none.
pub record Change : Type 0 where
  pub before : ℕ
  pub after : ℕ

pub data FixKind : Type 0 where
  patch minor major : FixKind

pub data FixTier : Type 0 where
  auto_merge review_required decline : FixTier

pub data TrustFlag : Type 0 where
  ownership_transfer new_maintainer cadence_anomaly download_collapse : TrustFlag

pub record TrustDelta : Type 0 where
  pub package_name : Text
  pub from_version : Text
  pub to_version : Text
  pub maintainers_added : List Text
  pub maintainers_removed : List Text
  pub ownership_transferred : Bool
  pub days_between_publishes : ℤ
  pub publish_cadence_anomaly : Bool
  pub weekly_downloads_change_pct : Option Change
  pub flags : List TrustFlag
  pub safe_to_auto_merge : Bool

pub record TestReality : Type 0 where
  pub has_test_script : Bool
  pub test_script_is_no_op : Bool
  pub has_test_files : Bool
  pub test_count : ℕ
  pub workflow_runs_tests : Bool
  pub safe_to_auto_merge : Bool
  pub reasons_blocked : List Text

pub data ZizmorSeverity : Type 0 where
  informational low medium high : ZizmorSeverity

pub data ZizmorConfidence : Type 0 where
  unknown low medium high : ZizmorConfidence

pub record ZizmorFinding : Type 0 where
  pub ident : Text
  pub severity : ZizmorSeverity
  pub confidence : ZizmorConfidence
  pub description : Text
  pub file : Text
  pub line : ℕ
  pub column : ℕ
  pub feature : Text
  pub annotation : Text
  pub audit_url : Text

pub record PipelineSnapshot : Type 0 where
  pub repo_path : Text
  pub workflow_files : List Text
  pub zizmor_findings : List ZizmorFinding
  pub test_reality : TestReality
  pub subscore : ℕ

pub record FixCandidate : Type 0 where
  pub package_name : Text
  pub from_version : Text
  pub to_version : Text
  pub fix_kind : FixKind
  pub source_finding_ids : List Text
  pub repo_id : Text
  pub trust_subscore : Option ℕ
  pub max_epss_score : Option ℕ
  pub max_epss_percentile : Option ℕ
  pub has_kev_finding : Bool

-- The identifiers of `veto_signals`.
pub data Veto : Type 0 where
  kill_switch project_veto fix_kind_major trust_unavailable : Veto
  trust_flag : TrustFlag → Veto
  pipeline_unavailable pipeline_test_reality : Veto

pub record FixConfidence : Type 0 where
  pub candidate_id : Text
  pub tier : FixTier
  pub score : ℕ
  pub reasons : List Text
  pub veto_signals : List Veto
  pub evaluated_at : ℕ
  pub engine_version : Text

-- s.join(parts)
unfoldable pub join : Text → List Text → Text
join s [] = []
join s (x ∷ []) = x
join s (x ∷ y ∷ r) = x ++ s ++ join s (y ∷ r)

fix_kind_value : FixKind → Text
fix_kind_value patch = codes "patch"
fix_kind_value minor = codes "minor"
fix_kind_value major = codes "major"

-- `or` between an optional text and a text: the empty text counts as missing.
abbrev pub or_text : Option Text → Text → Text
or_text none t = t
or_text (some []) t = t
or_text (some (c ∷ s)) t = c ∷ s

module _ (digest : Text → Text) where
  unfoldable pub derive_finding_id : Finding → Text
  unfolding join
  derive_finding_id f = digest (
      join (codes "|") (
        f.dependency.name
        ∷ f.dependency.version
        ∷ f.dependency.install_key
        ∷ or_text f.advisory_id f.title
        ∷ []))

  -- The field `candidate_id`, which is derived from the others when a candidate is made.
  unfoldable pub candidate_id : FixCandidate → Text
  unfolding join fix_kind_value
  candidate_id c = digest (
      join (codes "|") (
        c.package_name
        ∷ c.from_version
        ∷ c.to_version
        ∷ fix_kind_value c.fix_kind
        ∷ join (codes ",") (sorted text_le c.source_finding_ids)
        ∷ c.repo_id
        ∷ []))
