-- ===== src/Lenses/Vulnerability/Complete.antt =====
-- The report of a scan, from the advisories that OSV lists.
use arguss.Base.{◌≤◌, ◌≡◌, true, none, List, is_in, Text, Distinct, Dict, All, ◌↔◌}
use arguss.Base.Json.{Items, Members}
use arguss.Models.{Dependency}
use arguss.Lenses.Vulnerability.{extract_fixed_versions}
use arguss.Lenses.Vulnerability.Scan.{Reading, LensScore}
use arguss.Lenses.Vulnerability.Passes.{ids}
use arguss.Lenses.Vulnerability.Listed.{Advisory, id_of}

-- What a scan reports where OSV answers.
abbrev pub ScanReport : Reading → Dict Items → List Dependency → LensScore → Type 0
ScanReport r vuln_map deps x =
    ((k : Text)
      → (is_in k (ids x.findings) ≡ true) ↔ (
          (dep : Dependency) × (vuln : Members) × Advisory vuln_map deps dep vuln
          × (k ≡ id_of r dep vuln)))
    × Distinct (ids x.findings)
    × All (λ f. f.score ≤ x.score) x.findings

-- An advisory of a dependency whose fixed versions cannot be read.
abbrev pub Unreadable : Reading → Dict Items → List Dependency → Type 0
Unreadable r vuln_map deps =
    (dep : Dependency) × (vuln : Members) × Advisory vuln_map deps dep vuln
    × (extract_fixed_versions r.str vuln dep ≡ none)
