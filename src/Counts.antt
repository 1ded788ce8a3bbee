-- ===== src/Counts.antt =====
-- arguss/engine/scan_counts.py: the counts of a scan, and the checks on them. CVSS scores are in
-- hundredths and EPSS scores in hundred-thousandths. A set is the list of what was added to it.
pub mod Nodes
pub mod Rollups
pub mod Build
pub mod Balance
use arguss.Base.{
  ℕ, zero, suc, ◌+◌, ◌-◌, Bool, true, false, not, ◌&&◌, ◌||◌, Option, none, some, List, [], ◌∷◌,
  ◌++◌, map, if◌then◌else◌, leb, ltb, ◌==◌, length, is_empty, keep, any, all, Text, codes, text_eq,
  is_in, strip, sorted, sorted_set, dedupe,
}
use arguss.Base.Results.{Result, ok, error, ◌>>=◌, require}
use arguss.Base.Int.{ℤ}
use arguss.Models.{
  Severity, critical, high, medium, low, Finding, FixCandidate, FixConfidence, FixTier, auto_merge,
  review_required, decline,
}

-- One entry of a report: core/models.py's candidate with its verdict and findings.
pub record ProposalEntry : Type 0 where
  pub related_findings : List Finding
  pub candidate : FixCandidate
  pub candidate_ident : Text
  pub verdict : FixConfidence

-- The fields of a skip without a fix that the counts read.
pub record NoFixSkip : Type 0 where
  pub finding_id : Text
  pub advisory_id : Text
  pub node_package : Text
  pub current_version : Text
  pub title : Text
  pub description : Text
  pub severity : Option Severity
  pub dependency_path : List Text

pub data Skip : Type 0 where
  no_fix : NoFixSkip → Skip
  lens_failure : Skip

pub record ProposalReport : Type 0 where
  pub entries : List ProposalEntry
  pub skipped_findings : List Skip
  pub findings_snapshot : List Finding

-- A row of the payload's dependencies.
pub record DepRow : Type 0 where
  pub node_package : Text
  pub version : Text
  pub install_key : Option Text

pub data ScanCountsBalanceError : Type 0 where
  install_key_empty install_key_duplicate install_key_count_mismatch : ScanCountsBalanceError

-- `_validate_install_keys`: the keys seen.
unfoldable pub seen_install_keys :
    List Text → List DepRow → Result ScanCountsBalanceError (List Text)
seen_install_keys keys_seen [] = ok keys_seen
seen_install_keys keys_seen (d ∷ deps) = do
  seen ← elim d.install_key [
    | none ↦ ok keys_seen
    | some k ↦
        require
          ((is_empty (strip k), install_key_empty)
            ∷ (is_in (strip k) keys_seen, install_key_duplicate)
            ∷ [])
          (keys_seen ++ (strip k ∷ []))
  ]
  seen_install_keys seen deps

abbrev pub has_install_key : DepRow → Bool
has_install_key d = elim d.install_key [ none ↦ false | some k ↦ true ]

unfoldable pub validate_install_keys : List DepRow → Result ScanCountsBalanceError (List Text)
unfolding seen_install_keys
validate_install_keys deps = do
  seen ← seen_install_keys [] deps
  let parser_rows = length (keep has_install_key deps)
  require
      ((not (parser_rows == 0) && not (length seen == parser_rows), install_key_count_mismatch)
        ∷ [])
      seen

-- `_cvss_to_severity` of arguss/lenses/vulnerability.py
unfoldable pub cvss_to_severity : Option ℕ → Severity
cvss_to_severity none = medium
cvss_to_severity (some cvss) =
    if leb 900 cvss
    then critical
    else if leb 700 cvss
    then high
    else if leb 400 cvss
    then medium
    else low

unfoldable pub severity_band : Finding → Severity
severity_band f = elim f.cvss_score [ none ↦ f.severity | some c ↦ cvss_to_severity (some c) ]

-- `is_high_epss` of arguss/scoring/unified.py: 0.10 or more
unfoldable pub is_high_epss : Option ℕ → Bool
is_high_epss none = false
is_high_epss (some epss) = leb 10000 epss

pub data CountTier : Type 0 where
  to_merge to_review declined unknown : CountTier

abbrev pub normalize_tier : FixTier → CountTier
normalize_tier auto_merge = to_merge
normalize_tier review_required = to_review
normalize_tier decline = declined

-- tier_counts
pub record TierCounts : Type 0 where
  pub auto_merge : ℕ
  pub review_required : ℕ
  pub decline : ℕ
  pub unknown : ℕ

abbrev pub count_tier : CountTier → TierCounts → TierCounts
count_tier to_merge c = record c { auto_merge = c.auto_merge + 1 }
count_tier to_review c = record c { review_required = c.review_required + 1 }
count_tier declined c = record c { decline = c.decline + 1 }
count_tier unknown c = record c { unknown = c.unknown + 1 }

abbrev pub tier_sum : TierCounts → ℕ
tier_sum c = c.auto_merge + c.review_required + c.decline + c.unknown

unfoldable pub tier_counts : List ProposalEntry → TierCounts → TierCounts
tier_counts [] c = c
tier_counts (e ∷ es) c = tier_counts es (count_tier (normalize_tier e.verdict.tier) c)

-- findings_by_severity
pub record SeverityCounts : Type 0 where
  pub critical : ℕ
  pub high : ℕ
  pub medium : ℕ
  pub low : ℕ

abbrev pub count_severity : Severity → SeverityCounts → SeverityCounts
count_severity critical c = record c { critical = c.critical + 1 }
count_severity high c = record c { high = c.high + 1 }
count_severity medium c = record c { medium = c.medium + 1 }
count_severity low c = record c { low = c.low + 1 }

abbrev pub severity_sum_of : SeverityCounts → ℕ
severity_sum_of c = c.critical + c.high + c.medium + c.low

unfoldable pub findings_by_severity : List Finding → SeverityCounts → SeverityCounts
unfolding severity_band
findings_by_severity [] c = c
findings_by_severity (f ∷ fs) c = findings_by_severity fs (count_severity (severity_band f) c)

-- [i for i in ids if i], as a sorted tuple of a set
unfoldable pub related_ids : List Finding → List Text
related_ids fs = sorted_set (keep (λ i. not (is_empty i)) (map (λ (f : Finding). f.finding_id) fs))
