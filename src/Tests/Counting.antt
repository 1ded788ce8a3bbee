-- ===== src/Tests/Counting.antt =====
-- The counts of a report with one entry and one skip.
use arguss.Base.{◌≡◌, refl, false, none, some, List, [], ◌∷◌, codes}
use arguss.Engine.FixConfidence.{compute_fix_confidence}
use arguss.Counts.{ProposalEntry, NoFixSkip, no_fix, ProposalReport, DepRow}
use arguss.Counts.Build.{balance_messages, count_all}
use arguss.Counts.Balance.{possible_messages, balance-possible}
use arguss.Tests.{same_text, same_text, no_switch, upgrade, calm, tested}

abbrev entry : ProposalEntry
entry = record {
  related_findings = [];
  candidate = upgrade;
  candidate_ident = codes "c1";
  verdict = compute_fix_confidence same_text 0 upgrade no_switch (some calm) (some tested) false;
}

abbrev unfixed : NoFixSkip
unfixed = record {
  finding_id = codes "f9";
  advisory_id = [];
  node_package = codes "left-pad";
  current_version = codes "1.0.0";
  title = [];
  description = [];
  severity = none;
  dependency_path = [];
}

abbrev report : ProposalReport
report = record {
  entries = entry ∷ [];
  skipped_findings = no_fix unfixed ∷ [];
  findings_snapshot = [];
}

abbrev deps : List DepRow
deps = record { node_package = codes "left-pad"; version = codes "1.0.0"; install_key = none } ∷ []

balance-possible_example :
    balance_messages report (count_all same_text report deps)
    ≡ possible_messages report (count_all same_text report deps)
balance-possible_example = balance-possible same_text report deps (refl, tt)
