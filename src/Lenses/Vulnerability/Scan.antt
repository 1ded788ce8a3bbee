-- ===== src/Lenses/Vulnerability/Scan.antt =====
-- The scan of the lens: a finding for each dependency and advisory, the data on exploitation, and
-- one finding for each id.
use arguss.Base.{
  ℕ, Bool, true, false, Option, none, some, List, [], ◌∷◌, ◌++◌, map, if◌then◌else◌, max, is_empty,
  is_in, Text, codes, Dict, lookup,
}
use arguss.Base.Json.{Json, object, Items, no_items, item, Members, get, string_of}
use arguss.Models.{Dependency, Finding, derive_finding_id}
use arguss.Counts.{cvss_to_severity}
use arguss.Lenses.Vulnerability.{
  extract_cvss, normalize_cvss_to_100, extract_cve_id, extract_fixed_versions, extract_fix_advice,
  vuln_id, said, text_or, normalize_osv_published,
}

-- What the code takes from other modules to read an advisory.
pub record Reading : Type 0 where
  pub parse_cvss3_vector : Text → Option ℕ
  pub str : Json → Text
  pub digest : Text → Text

abbrev pub title_of : Text → Option Text → Text
title_of ident none = ident
title_of ident (some summary) = ident ++ (codes ": " ++ summary)

unfoldable pub undigested : Reading → Members → Dependency → List Text → Finding
undigested r vuln dep fixed =
    let ident = vuln_id r.str vuln in
    let summary = said (string_of (get (codes "summary") vuln)) in
    let cvss = extract_cvss r.parse_cvss3_vector vuln in
    record {
      dependency = dep;
      lens = codes "cve";
      severity = cvss_to_severity cvss;
      score = normalize_cvss_to_100 cvss;
      cvss_score = cvss;
      title = title_of ident summary;
      description =
          text_or (text_or (codes "No summary provided") summary)
            (said (string_of (get (codes "details") vuln)));
      remediation = some (extract_fix_advice dep ident fixed);
      source_url = some (codes "https://osv.dev/vulnerability/" ++ ident);
      advisory_id = some ident;
      fixed_versions = fixed;
      published_at = normalize_osv_published vuln;
      cve_id = extract_cve_id vuln;
      epss_score = none;
      epss_percentile = none;
      is_kev = false;
      kev_date_added = none;
      kev_due_date = none;
      kev_known_ransomware = false;
      finding_id = [];
    }

abbrev pub finding_or_raise : Reading → Members → Dependency → Option (List Text) → Option Finding
finding_or_raise r vuln dep none = none
finding_or_raise r vuln dep (some fixed) =
    let finding = undigested r vuln dep fixed in
    some (record finding { finding_id = derive_finding_id r.digest finding })

-- `none` where the code raises.
unfoldable pub vuln_to_finding : Reading → Members → Dependency → Option Finding
unfolding undigested
vuln_to_finding r vuln dep = finding_or_raise r vuln dep (extract_fixed_versions r.str vuln dep)

pub record EpssData : Type 0 where
  pub epss : Option ℕ
  pub percentile : Option ℕ

pub record KevEntry : Type 0 where
  pub date_added : Option Text
  pub due_date : Option Text
  pub known_ransomware : Bool

abbrev pub found_in {ℓ} : {A : Type ℓ} → Dict A → Option Text → Option A
found_in d none = none
found_in d (some k) = lookup k d

abbrev pub with_epss : Finding → Option EpssData → Finding
with_epss f none = f
with_epss f (some d) = record f { epss_score = d.epss; epss_percentile = d.percentile }

unfoldable pub enrich_findings_with_epss : Option (Dict EpssData) → List Finding → List Finding
enrich_findings_with_epss none fs = fs
enrich_findings_with_epss (some epss_map) fs =
    map (λ (f : Finding). with_epss f (found_in epss_map f.cve_id)) fs

abbrev pub with_kev : Finding → Option KevEntry → Finding
with_kev f none = f
with_kev f (some e) = record f {
  is_kev = true;
  kev_date_added = e.date_added;
  kev_due_date = e.due_date;
  kev_known_ransomware = e.known_ransomware;
}

-- finding.cve_id and finding.cve_id in kev_catalog
abbrev pub named_cve : Option Text → Option Text
named_cve none = none
named_cve (some c) = if is_empty c then none else some c

unfoldable pub enrich_findings_with_kev : Option (Dict KevEntry) → List Finding → List Finding
enrich_findings_with_kev none fs = fs
enrich_findings_with_kev (some kev_catalog) fs =
    map (λ (f : Finding). with_kev f (found_in kev_catalog (named_cve f.cve_id))) fs

unfoldable pub dedupe_from : List Text → List Finding → List Finding
dedupe_from seen [] = []
dedupe_from seen (f ∷ fs) =
    let known = is_in f.finding_id seen in
    let rest = dedupe_from (if known then seen else f.finding_id ∷ seen) fs in
    if known then rest else f ∷ rest

unfoldable pub dedupe_findings_by_id : List Finding → List Finding
unfolding dedupe_from
dedupe_findings_by_id = dedupe_from []

-- The advisories of one dependency: what is no object is skipped.
unfoldable pub advisories_of : Dependency → Items → List (Dependency × Members)
advisories_of dep no_items = []
advisories_of dep (item (object vuln) xs) = (dep, vuln) ∷ advisories_of dep xs
advisories_of dep (item _ xs) = advisories_of dep xs

abbrev pub dep_cache_key : Dependency → Text
dep_cache_key dep = dep.name ++ (codes "@" ++ dep.version)

abbrev pub or_no_items : Option Items → Items
or_no_items none = no_items
or_no_items (some xs) = xs

-- The turns of the two loops, in order.
unfoldable pub advisories_of_deps : Dict Items → List Dependency → List (Dependency × Members)
unfolding advisories_of
advisories_of_deps vuln_map [] = []
advisories_of_deps vuln_map (dep ∷ deps) =
    advisories_of dep (or_no_items (lookup (dep_cache_key dep) vuln_map))
    ++ advisories_of_deps vuln_map deps

-- findings.append(…) for each turn, the first of which that raises ends the scan.
abbrev pub appended : Option Finding → Option (List Finding) → Option (List Finding)
appended (some f) (some fs) = some (f ∷ fs)
appended _ _ = none

unfoldable pub all_or_raise : List (Option Finding) → Option (List Finding)
all_or_raise [] = some []
all_or_raise (o ∷ os) = appended o (all_or_raise os)

unfoldable pub findings_of_deps : Reading → Dict Items → List Dependency → Option (List Finding)
unfolding vuln_to_finding advisories_of_deps all_or_raise
findings_of_deps r vuln_map deps = all_or_raise (
    map (λ (p : Dependency × Members). vuln_to_finding r p.1 p.0)
      (advisories_of_deps vuln_map deps))

unfoldable pub compute_cve_score : List Finding → ℕ
compute_cve_score [] = 0
compute_cve_score (f ∷ fs) = max f.score (compute_cve_score fs)

pub record LensScore : Type 0 where
  pub score : ℕ
  pub findings : List Finding
  pub osv_unavailable : Bool

-- The answers of the three services.
pub record Services : Type 0 where
  pub vuln_map : Option (Dict Items)
  pub epss_map : Option (Dict EpssData)
  pub kev_catalog : Option (Dict KevEntry)

-- From the findings on.
unfoldable pub scored : Services → Option (List Finding) → Option LensScore
unfolding enrich_findings_with_epss enrich_findings_with_kev dedupe_findings_by_id
scored s none = none
scored s (some found) =
    let findings =
      dedupe_findings_by_id
        (enrich_findings_with_kev s.kev_catalog (enrich_findings_with_epss s.epss_map found)) in
    some
      (record { score = compute_cve_score findings; findings = findings; osv_unavailable = false })

unfoldable pub scan_with :
    Reading → Services → List Dependency → Option (Dict Items) → Option LensScore
unfolding scored findings_of_deps
scan_with r s deps none = some (record { score = 0; findings = []; osv_unavailable = true })
scan_with r s deps (some vuln_map) = scored s (findings_of_deps r vuln_map deps)

-- `none` where an advisory cannot be read.
unfoldable pub scan : Reading → Services → List Dependency → Option LensScore
unfolding scan_with
scan r s [] = some (record { score = 0; findings = []; osv_unavailable = false })
scan r s (dep ∷ deps) = scan_with r s (dep ∷ deps) s.vuln_map
