-- ===== src/Counts/Build.antt =====
-- `build_scan_counts`: all counts of a scan, and the messages of the checks that fail.
use arguss.Base.{
  ℕ, suc, ◌+◌, ◌-◌, Bool, false, ◌&&◌, List, [], ◌∷◌, ◌++◌, map, if◌then◌else◌, ◌==◌, length,
  is_empty, keep, all, Text, is_in, dedupe, Dict, insert,
}
use arguss.Base.Results.{Result, ok, ◌>>=◌}
use arguss.Base.Int.{ℤ, pos, negsuc, sub_ℕ}
use arguss.Models.{Finding}
use arguss.Counts.{
  ProposalEntry, Skip, no_fix, lens_failure, ProposalReport, DepRow, ScanCountsBalanceError,
  validate_install_keys, is_high_epss, CountTier, to_merge, to_review, declined, normalize_tier,
  TierCounts, tier_counts, tier_sum, SeverityCounts, findings_by_severity, severity_sum_of,
  related_ids,
}
use arguss.Counts.Nodes.{
  node_set, unique_dep_keys, affected_in_lockfile, package_node_tier, mixed_no_fix_nodes,
  no_fix_nodes, nodes_of_tier,
}
use arguss.Counts.Rollups.{
  CandidateAggregates, aggregates_for_findings, PackageNameRollup, package_rollups,
}

pub record CandidateCountRecord : Type 0 where
  pub candidate_ident : Text
  pub name : Text
  pub from_version : Text
  pub to_version : Text
  pub tier : CountTier
  pub related_finding_ids : List Text
  pub aggregates : CandidateAggregates

abbrev pub count_record : ProposalEntry → CandidateCountRecord
count_record e = record {
  candidate_ident = e.candidate_ident;
  name = e.candidate.package_name;
  from_version = e.candidate.from_version;
  to_version = e.candidate.to_version;
  tier = normalize_tier e.verdict.tier;
  related_finding_ids = related_ids e.related_findings;
  aggregates = aggregates_for_findings e.related_findings;
}

-- finding_ids_with_fix
unfoldable pub ids_with_fix : List ProposalEntry → List Text
ids_with_fix [] = []
ids_with_fix (e ∷ es) = related_ids e.related_findings ++ ids_with_fix es

-- candidate_finding_map
unfoldable pub candidate_finding_map : List ProposalEntry → Dict (List Text) → Dict (List Text)
candidate_finding_map [] d = d
candidate_finding_map (e ∷ es) d =
    candidate_finding_map es (insert e.candidate_ident (related_ids e.related_findings) d)

unfoldable pub mapped_ids : Dict (List Text) → List Text
mapped_ids [] = []
mapped_ids ((k, ids) ∷ d) = ids ++ mapped_ids d

-- a == b, for sets
unfoldable pub same_set : List Text → List Text → Bool
same_set a b = all (λ t. is_in t b) a && all (λ t. is_in t a) b

unfoldable pub no_fix_count : List Skip → ℕ
no_fix_count [] = 0
no_fix_count (lens_failure ∷ skips) = no_fix_count skips
no_fix_count (no_fix s ∷ skips) = no_fix_count skips + 1

-- a + b and a == b, for a count and an integer
abbrev pub add_ℤ : ℕ → ℤ → ℤ
add_ℤ a (pos b) = pos (a + b)
add_ℤ a (negsuc b) = sub_ℕ a (suc b)

abbrev pub is_pos : ℕ → ℤ → Bool
is_pos a (pos b) = a == b
is_pos a (negsuc b) = false

pub data Message : Type 0 where
  finding_partition findings_no_fix_skip_count severity_sum candidate_tier_sum : Message
  candidate_empty_related : Text → Message
  finding_candidate_bijection node_partition package_status_partition : Message
  no_fix_package_partition : Message

pub record ScanCounts : Type 0 where
  pub total_findings : ℕ
  pub findings_with_fix : ℕ
  pub findings_no_fix : ℤ
  pub by_severity : SeverityCounts
  pub high_epss_count : ℕ
  pub total_candidates : ℕ
  pub by_tier : TierCounts
  pub node_count : ℕ
  pub clean_node_count : ℕ
  pub affected_node_count : ℕ
  pub affected_package_count : ℕ
  pub package_status_auto_merge : ℕ
  pub package_status_review_required : ℕ
  pub package_status_decline : ℕ
  pub package_status_no_fix : ℕ
  pub package_status_mixed_no_fix : ℕ
  pub no_fix_or_mixed : ℕ
  pub candidates : List CandidateCountRecord
  pub rollups : List PackageNameRollup

unfoldable pub count_all : (Text → Text) → ProposalReport → List DepRow → ScanCounts
count_all digest report deps =
    let findings = report.findings_snapshot in
    let node_keys = unique_dep_keys deps in
    let affected = length (affected_in_lockfile findings node_keys) in
    let tiers = package_node_tier report.entries [] in
    let without = no_fix_nodes tiers node_keys report.skipped_findings in
    let mixed = mixed_no_fix_nodes tiers node_keys report.skipped_findings in
    record {
      total_findings = length findings;
      findings_with_fix = length (dedupe (ids_with_fix report.entries));
      findings_no_fix = sub_ℕ (length findings) (length (dedupe (ids_with_fix report.entries)));
      by_severity =
          findings_by_severity findings (record { critical = 0; high = 0; medium = 0; low = 0 });
      high_epss_count = length (keep (λ (f : Finding). is_high_epss f.epss_score) findings);
      total_candidates = length (map count_record report.entries);
      by_tier =
          tier_counts report.entries
            (record { auto_merge = 0; review_required = 0; decline = 0; unknown = 0 });
      node_count = length node_keys;
      clean_node_count = length node_keys - affected;
      affected_node_count = affected;
      affected_package_count = length (dedupe (map (λ (f : Finding). f.dependency.name) findings));
      package_status_auto_merge = nodes_of_tier to_merge tiers;
      package_status_review_required = nodes_of_tier to_review tiers;
      package_status_decline = nodes_of_tier declined tiers;
      package_status_no_fix = length without;
      package_status_mixed_no_fix = length mixed;
      no_fix_or_mixed = length (node_set (without ++ mixed));
      candidates = map count_record report.entries;
      rollups = package_rollups digest findings report.entries report.skipped_findings;
    }

abbrev pub message_unless : Bool → Message → List Message → List Message
message_unless holds m rest = if holds then rest else m ∷ rest

unfoldable pub empty_related : Dict (List Text) → List Message → List Message
empty_related [] rest = rest
empty_related ((k, ids) ∷ d) rest =
    let later = empty_related d rest in
    if is_empty ids then candidate_empty_related k ∷ later else later

abbrev pub package_status_sum : ScanCounts → ℕ
package_status_sum c =
    c.package_status_auto_merge + c.package_status_review_required + c.package_status_decline
    + c.package_status_no_fix

unfoldable pub balance_messages : ProposalReport → ScanCounts → List Message
unfolding empty_related
balance_messages report c =
    let related = candidate_finding_map report.entries [] in
    message_unless (is_pos c.total_findings (add_ℤ c.findings_with_fix c.findings_no_fix))
      finding_partition
      (message_unless (is_pos (no_fix_count report.skipped_findings) c.findings_no_fix)
        findings_no_fix_skip_count
        (message_unless (severity_sum_of c.by_severity == c.total_findings) severity_sum (
          message_unless (c.total_candidates == tier_sum c.by_tier) candidate_tier_sum (
            empty_related related (
              message_unless (same_set (mapped_ids related) (ids_with_fix report.entries))
                finding_candidate_bijection
                (message_unless (c.node_count == c.clean_node_count + c.affected_node_count)
                  node_partition
                  (message_unless (package_status_sum c + c.clean_node_count == c.node_count)
                    package_status_partition
                    (message_unless
                      (c.package_status_no_fix + c.package_status_mixed_no_fix == c.no_fix_or_mixed)
                      no_fix_package_partition []))))))))

-- The counts with the messages of `balance`; its flag `ok` is that there are none.
unfoldable pub build_scan_counts :
    (Text → Text)
    → ProposalReport
    → List DepRow
    → Result ScanCountsBalanceError (ScanCounts × List Message)
build_scan_counts digest report deps = do
  keys ← validate_install_keys deps
  let counts = count_all digest report deps
  ok (counts, balance_messages report counts)
