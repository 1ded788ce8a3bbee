-- ===== src/Counts/Balance.antt =====
-- Which checks of the balance can fail.
pub mod Disjoint
pub mod Candidates
use arguss.Base.{
  ℕ, suc, ◌+◌, ◌-◌, ◌≤◌, ◌≡◌, refl, ap, sym, ◌∙◌, subst, arith, Bool, true, false, List, [], ◌∷◌,
  ◌++◌, map, if◌then◌else◌, ◌==◌, ==_iff, all, text_eq, text_eq_refl, ◌||◌, is_in, length,
  length-map, length-keep-le, is_empty, Text, Distinct,
}
use arguss.Base.Int.{ℤ, pos, negsuc, sub_ℕ}
use arguss.Models.{Severity, critical, high, medium, low, Finding}
use arguss.Counts.{
  ProposalEntry, ProposalReport, DepRow, severity_band, SeverityCounts, findings_by_severity,
  severity_sum_of, count_severity, CountTier, to_merge, to_review, declined, unknown,
  normalize_tier, TierCounts, tier_counts, tier_sum, count_tier, related_ids,
}
use arguss.Counts.Nodes.{
  package_node_tier, unique_dep_keys, affected_in_lockfile, affected_nodes, has_node,
}
use arguss.Counts.Build.{
  add_ℤ, is_pos, Message, finding_partition, findings_no_fix_skip_count, severity_sum,
  candidate_tier_sum, candidate_empty_related, finding_candidate_bijection, node_partition,
  package_status_partition, no_fix_package_partition, ScanCounts, count_all, count_record,
  candidate_finding_map, empty_related, message_unless, package_status_sum, balance_messages,
  no_fix_count, ids_with_fix, mapped_ids, same_set,
}
use arguss.Counts.Balance.Disjoint.{no_fix_union}
use arguss.Counts.Balance.Candidates.{
  idents, empty_entries, candidate_finding_map-empties, candidate_finding_map-ids,
}

partition_lem : (t w : ℕ) → is_pos t (add_ℤ w (sub_ℕ t w)) ≡ true
partition_lem t w = ground arith

severity_step :
    (s : Severity) (c : SeverityCounts)
    → severity_sum_of (count_severity s c) ≡ severity_sum_of c + 1
severity_step critical c = omega arith
severity_step high c = omega arith
severity_step medium c = omega arith
severity_step low c = omega arith

severity_lem :
    (fs : List Finding) (c : SeverityCounts)
    → severity_sum_of (findings_by_severity fs c) ≡ severity_sum_of c + length fs
unfolding findings_by_severity
severity_lem [] c = omega arith
severity_lem (f ∷ fs) c =
    omega (
      arith,
      severity_lem fs (count_severity (severity_band f) c),
      severity_step (severity_band f) c,
    )

tier_step : (t : CountTier) (c : TierCounts) → tier_sum (count_tier t c) ≡ tier_sum c + 1
tier_step to_merge c = omega arith
tier_step to_review c = omega arith
tier_step declined c = omega arith
tier_step unknown c = omega arith

tier_lem :
    (es : List ProposalEntry) (c : TierCounts)
    → tier_sum (tier_counts es c) ≡ tier_sum c + length es
unfolding tier_counts
tier_lem [] c = omega arith
tier_lem (e ∷ es) c = omega (
  arith,
  tier_lem es (count_tier (normalize_tier e.verdict.tier) c),
  tier_step (normalize_tier e.verdict.tier) c,
)

equal_lem : (a b : ℕ) → a ≡ b → (a == b) ≡ true
equal_lem a b h = (==_iff a b).1 h

-- The checks that can fail, in their order.
abbrev pub possible_messages : ProposalReport → ScanCounts → List Message
possible_messages report c =
    message_unless (is_pos (no_fix_count report.skipped_findings) c.findings_no_fix)
      findings_no_fix_skip_count
      (empty_entries report.entries (
        message_unless (package_status_sum c + c.clean_node_count == c.node_count)
          package_status_partition []))

unless : (b : Bool) (m : Message) (r s : List Message) → b ≡ true → r ≡ s → message_unless b m r ≡ s
unless b m r s h e = rw h e

either_way :
    (b : Bool) (m : Message) (r s : List Message)
    → r ≡ s
    → message_unless b m r ≡ message_unless b m s
either_way b m r s e = ap (message_unless b m) e

is_in_self :
    (a b : List Text)
    → ((t : Text) → is_in t a ≡ true → is_in t b ≡ true)
    → all (λ t. is_in t b) a ≡ true
is_in_self [] b h = refl
is_in_self (x ∷ a) b h =
    rw (h x (rw (text_eq_refl x) refl)) (is_in_self a b (λ t k. h t (by_head (text_eq t x) _ k)))
  where
    by_head : (p q : Bool) → q ≡ true → (p || q) ≡ true
    by_head true q k = refl
    by_head false q k = k

same_set_refl : (a : List Text) → same_set a a ≡ true
unfolding same_set
same_set_refl a = rw (is_in_self a a (λ t h. h)) refl

-- Where candidates have different ids, only three of the nine checks on the counts of a scan can
-- fail: that as many findings lack a fix as there are skips for that reason, that each candidate has findings,
-- and that the states of packages and the clean nodes add up to the nodes. The messages are those of these three, in order.
pub balance-possible :
    (digest : Text → Text) (report : ProposalReport) (deps : List DepRow)
    → Distinct (idents report.entries)
    → balance_messages report (count_all digest report deps)
      ≡ possible_messages report (count_all digest report deps)
unfolding balance_messages count_all affected_in_lockfile
balance-possible digest report deps h =
    let keys = unique_dep_keys deps in
    let tiers = package_node_tier report.entries [] in
    let related = candidate_finding_map report.entries [] in
    let same : same_set (mapped_ids related) (ids_with_fix report.entries) ≡ true =
      ap (λ l. same_set l (ids_with_fix report.entries))
        (candidate_finding_map-ids report.entries h)
      ∙ same_set_refl _ in
    let c = count_all digest report deps in
    let found : severity_sum_of c.by_severity ≡ c.total_findings =
      severity_lem report.findings_snapshot (record { critical = 0; high = 0; medium = 0; low = 0 })
      ∙ omega arith in
    let tiered : c.total_candidates ≡ tier_sum c.by_tier = omega (
      arith,
      length-map count_record report.entries,
      tier_lem report.entries
          (record { auto_merge = 0; review_required = 0; decline = 0; unknown = 0 }),
    ) in
    let parted : c.node_count ≡ c.clean_node_count + c.affected_node_count =
      omega
        (arith, length-keep-le (λ n. has_node n (affected_nodes report.findings_snapshot)) keys) in
    unless _ finding_partition _ _ (partition_lem c.total_findings c.findings_with_fix) (
      either_way _ findings_no_fix_skip_count _ _ (
        unless _ severity_sum _ _ (equal_lem _ c.total_findings found) (
          unless _ candidate_tier_sum _ _ (equal_lem c.total_candidates (tier_sum c.by_tier) tiered)
            (candidate_finding_map-empties report.entries _ h
              ∙ ap (empty_entries report.entries) (
                  unless _ finding_candidate_bijection _ _ same (
                    unless _ node_partition _ _ (equal_lem c.node_count _ parted) (
                      either_way (package_status_sum c + c.clean_node_count == c.node_count)
                        package_status_partition _ []
                        (unless _ no_fix_package_partition _ _
                          (equal_lem _ _ (no_fix_union tiers keys report.skipped_findings))
                          refl))))))))
