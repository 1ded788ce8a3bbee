-- ===== src/Tests.antt =====
-- Sample data, and runs of the definitions on it.
mod Addresses
pub mod Versions
pub mod Verdicts
pub mod Limits
pub mod Merging
pub mod Trust
pub mod Budget
pub mod Pipeline
pub mod Archives
pub mod Lockfiles
pub mod Storage
pub mod Counting
pub mod Rewriting
pub mod Advisories
use arguss.Base.{Bool, true, false, Option, none, some, List, [], ◌∷◌, Text, codes}
use arguss.Base.Int.{pos}
use arguss.Models.{
  Dependency, Finding, Severity, high, FixKind, patch, minor, FixCandidate, TrustFlag,
  new_maintainer, cadence_anomaly, TrustDelta, TestReality, PipelineSnapshot,
}
use arguss.Engine.KillSwitch.{Environment}

-- A digest that keeps its text.
abbrev pub same_text : Text → Text
same_text t = t

abbrev pub no_switch : Environment
no_switch = record {
  kill_switch = none;
  kill_switch_file_path = none;
  path_exists = λ _. some false;
}

abbrev pub switched_off : Environment
switched_off = record no_switch { kill_switch = some (codes "TRUE") }

abbrev pub lodash : Dependency
lodash = record {
  name = codes "lodash";
  version = codes "4.17.15";
  ecosystem = codes "npm";
  direct = true;
  path = codes "lodash" ∷ [];
  parents = [];
  install_key = codes "node_modules/lodash";
}

abbrev pub advisory : Finding
advisory = record {
  dependency = lodash;
  lens = codes "vulnerability";
  severity = high;
  score = 72;
  cvss_score = some 72;
  title = codes "Command injection";
  description = [];
  remediation = none;
  source_url = none;
  advisory_id = some (codes "GHSA-1");
  fixed_versions = codes "5.0.0" ∷ codes "4.17.21" ∷ codes "4.17.11" ∷ [];
  published_at = none;
  cve_id = none;
  epss_score = none;
  epss_percentile = none;
  is_kev = false;
  kev_date_added = none;
  kev_due_date = none;
  kev_known_ransomware = false;
  finding_id = codes "f1";
}

abbrev pub upgrade : FixCandidate
upgrade = record {
  package_name = codes "lodash";
  from_version = codes "4.17.15";
  to_version = codes "4.17.21";
  fix_kind = patch;
  source_finding_ids = codes "f1" ∷ [];
  repo_id = codes "r";
  trust_subscore = none;
  max_epss_score = none;
  max_epss_percentile = none;
  has_kev_finding = false;
}

-- The upgrade of a second finding, which goes further.
abbrev pub further_upgrade : FixCandidate
further_upgrade = record upgrade {
  to_version = codes "4.18.0";
  fix_kind = minor;
  source_finding_ids = codes "f2" ∷ [];
}

abbrev pub calm : TrustDelta
calm = record {
  package_name = codes "lodash";
  from_version = codes "4.17.15";
  to_version = codes "4.17.21";
  maintainers_added = [];
  maintainers_removed = [];
  ownership_transferred = false;
  days_between_publishes = pos 200;
  publish_cadence_anomaly = false;
  weekly_downloads_change_pct = none;
  flags = [];
  safe_to_auto_merge = true;
}

abbrev pub flagged : TrustDelta
flagged = record calm { flags = new_maintainer ∷ cadence_anomaly ∷ []; safe_to_auto_merge = false }

abbrev pub real_tests : TestReality
real_tests = record {
  has_test_script = true;
  test_script_is_no_op = false;
  has_test_files = true;
  test_count = 3;
  workflow_runs_tests = true;
  safe_to_auto_merge = true;
  reasons_blocked = [];
}

abbrev pub tested : PipelineSnapshot
tested = record {
  repo_path = codes "/r";
  workflow_files = codes "ci.yml" ∷ [];
  zizmor_findings = [];
  test_reality = real_tests;
  subscore = 100;
}
