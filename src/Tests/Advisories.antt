-- ===== src/Tests/Advisories.antt =====
-- A scan of one dependency with one advisory.
use arguss.Base.{some, none, [], ◌∷◌, codes, Text, Dict}
use arguss.Base.Json.{Json, string, object, no_items, item, Items, no_members, member}
use arguss.Lenses.Vulnerability.Scan.{Reading, Services}
use arguss.Tests.{same_text}

abbrev plain_text : Json → Text
plain_text (string s) = s
plain_text _ = []

abbrev reading : Reading
reading = record { parse_cvss3_vector = λ v. none; str = plain_text; digest = same_text }

abbrev advisories : Dict Items
advisories =
    (
      codes "lodash@4.17.15",
      item (object (member (codes "id") (string (codes "GHSA-1")) no_members)) no_items,
    )
    ∷ []

abbrev answers : Services
answers = record { vuln_map = some advisories; epss_map = none; kev_catalog = none }
