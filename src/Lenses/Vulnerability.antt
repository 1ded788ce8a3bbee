-- ===== src/Lenses/Vulnerability.antt =====
-- arguss/lenses/vulnerability.py: findings from the advisories of OSV. CVSS scores, the numbers in
-- an advisory among them, and the scores of findings are in hundredths. The answers of OSV, EPSS and
-- KEV are arguments, `none` where the client raises; so are the score of a CVSS vector
-- (arguss/lenses/_cvss.py) and Python's `str` of a decoded value.
pub mod Scan
pub mod Passes
pub mod Listed
pub mod Complete
use arguss.Base.{
  ℕ, suc, ◌+◌, ◌*◌, max, min, Bool, true, false, not, ◌&&◌, Option, none, some, List, [], ◌∷◌, ◌++◌,
  map, if◌then◌else◌, leb, is_empty, keep, take, Text, codes, text_eq, is_in, starts_with, strip,
  upper, text_le, sorted, sorted_set,
}
use arguss.Base.Json.{
  Json, null, bool, number, string, array, object, Items, no_items, item, Members, get, string_of,
  object_of,
}
use arguss.Models.{Severity, Dependency, Finding, derive_finding_id}
use arguss.Semver.{pick_lowest_version_gt}
use arguss.Counts.{cvss_to_severity}

unfoldable pub severity_string_to_cvss : Text → Option ℕ
severity_string_to_cvss label =
    let key = upper (strip label) in
    if text_eq key (codes "CRITICAL")
    then some 950
    else if text_eq key (codes "HIGH")
    then some 750
    else if is_in key (codes "MEDIUM" ∷ codes "MODERATE" ∷ [])
    then some 500
    else if text_eq key (codes "LOW")
    then some 250
    else none

-- The items, if isinstance(value, list).
abbrev pub items_of : Option Json → Items
items_of (some (array xs)) = xs
items_of _ = no_items

-- isinstance(value, (int, float)), which holds of a Boolean too; in hundredths.
abbrev pub number_of : Option Json → Option ℕ
number_of (some (number n)) = some n
number_of (some (bool true)) = some 100
number_of (some (bool false)) = some 0
number_of _ = none

abbrev pub or_else {ℓ} : {A : Type ℓ} → Option A → Option A → Option A
or_else (some a) o = some a
or_else none o = o

abbrev pub with_present {ℓ} : {A : Type ℓ} → Option A → List A → List A
with_present none xs = xs
with_present (some a) xs = a ∷ xs

-- vector.strip(), if it is that of CVSS 3
unfoldable pub vector_of : Option Members → Option Text
vector_of none = none
vector_of (some i) = elim (string_of (get (codes "type") i)) [
  | none ↦ none
  | some t ↦ elim (string_of (get (codes "score") i)) [
    | none ↦ none
    | some s ↦
        if text_eq t (codes "CVSS_V3") && starts_with (codes "CVSS:3.") (upper (strip s))
        then some (strip s)
        else none
  ]
]

abbrev pub score_of : (Text → Option ℕ) → Option Text → Option ℕ
score_of parse_cvss3_vector none = none
score_of parse_cvss3_vector (some v) = parse_cvss3_vector v

unfoldable pub vector_scores : (Text → Option ℕ) → Items → List ℕ
unfolding vector_of
vector_scores parse_cvss3_vector no_items = []
vector_scores parse_cvss3_vector (item j xs) =
    with_present (score_of parse_cvss3_vector (vector_of (object_of (some j))))
      (vector_scores parse_cvss3_vector xs)

unfoldable pub largest : List ℕ → Option ℕ
largest [] = none
largest (n ∷ ns) = elim (largest ns) [ none ↦ some n | some m ↦ some (max n m) ]

abbrev pub cvss_of_label : Option Text → Option ℕ
cvss_of_label none = none
cvss_of_label (some label) = severity_string_to_cvss label

-- database_specific.cvss.score
abbrev pub nested_score : Option Members → Option ℕ
nested_score none = none
nested_score (some ms) = number_of (get (codes "score") ms)

unfoldable pub database_cvss : Option Members → Option ℕ
unfolding severity_string_to_cvss
database_cvss none = none
database_cvss (some ds) = or_else (number_of (get (codes "cvss_score") ds)) (
    or_else (nested_score (object_of (get (codes "cvss") ds)))
      (cvss_of_label (string_of (get (codes "severity") ds))))

unfoldable pub extract_cvss : (Text → Option ℕ) → Members → Option ℕ
unfolding vector_scores largest database_cvss
extract_cvss parse_cvss3_vector vuln =
    or_else (largest (vector_scores parse_cvss3_vector (items_of (get (codes "severity") vuln))))
      (database_cvss (object_of (get (codes "database_specific") vuln)))

unfoldable pub normalize_cvss_to_100 : Option ℕ → ℕ
normalize_cvss_to_100 none = 5000
normalize_cvss_to_100 (some cvss) = min 10000 (cvss * 10)

unfoldable pub strings : Items → List Text
strings no_items = []
strings (item j xs) = with_present (string_of (some j)) (strings xs)

abbrev pub first_text : List Text → Option Text
first_text [] = none
first_text (t ∷ ts) = some t

unfoldable pub extract_cve_id : Members → Option Text
unfolding strings
extract_cve_id vuln = first_text (
    sorted text_le
      (keep (starts_with (codes "CVE-")) (strings (items_of (get (codes "aliases") vuln)))))

-- `for x in value or []`, of which only objects are read: a text and an object give none, and a
-- truthy value that cannot be iterated raises (`none`).
unfoldable pub iterated : Option Json → Option Items
iterated (some (array xs)) = some xs
iterated (some (bool true)) = none
iterated (some (number (suc n))) = none
iterated _ = some no_items

abbrev pub joined {ℓ} : {A : Type ℓ} → Option (List A) → Option (List A) → Option (List A)
joined (some xs) (some ys) = some (xs ++ ys)
joined _ _ = none

abbrev pub sorted_or_raise : Option (List Text) → Option (List Text)
sorted_or_raise none = none
sorted_or_raise (some ts) = some (sorted_set ts)

module _ (str : Json → Text) where
  -- The `fixed` events of a range.
  unfoldable pub fixed_events : Items → List Text
  fixed_events no_items = []
  fixed_events (item (object e) xs) = elim (get (codes "fixed") e) [
    | none ↦ fixed_events xs
    | some v ↦ str v ∷ fixed_events xs
  ]
  fixed_events (item _ xs) = fixed_events xs

  abbrev pub events_of : Option Items → Option (List Text)
  events_of none = none
  events_of (some xs) = some (fixed_events xs)

  unfoldable pub fixed_in_ranges : Items → Option (List Text)
  unfolding iterated
  fixed_in_ranges no_items = some []
  fixed_in_ranges (item (object r) xs) =
      joined (events_of (iterated (get (codes "events") r))) (fixed_in_ranges xs)
  fixed_in_ranges (item _ xs) = fixed_in_ranges xs

  abbrev pub ranges_of : Option Items → Option (List Text)
  ranges_of none = none
  ranges_of (some xs) = fixed_in_ranges xs

  abbrev pub is_named : Text → Option Members → Bool
  is_named name none = false
  is_named name (some p) = elim (string_of (get (codes "name") p)) [
    | none ↦ false
    | some n ↦ text_eq n name
  ]

  unfoldable pub fixed_in_affected : Text → Items → Option (List Text)
  unfolding fixed_in_ranges iterated
  fixed_in_affected name no_items = some []
  fixed_in_affected name (item (object a) xs) =
      let rest = fixed_in_affected name xs in
      if is_named name (object_of (get (codes "package") a))
      then joined (ranges_of (iterated (get (codes "ranges") a))) rest
      else rest
  fixed_in_affected name (item _ xs) = fixed_in_affected name xs

  abbrev pub affected_of : Text → Option Items → Option (List Text)
  affected_of name none = none
  affected_of name (some xs) = fixed_in_affected name xs

  unfoldable pub extract_fixed_versions : Members → Dependency → Option (List Text)
  unfolding fixed_in_affected iterated
  extract_fixed_versions vuln dep =
      sorted_or_raise (affected_of dep.name (iterated (get (codes "affected") vuln)))

  abbrev pub str_or : Text → Option Json → Text
  str_or d none = d
  str_or d (some j) = str j

  abbrev pub vuln_id : Members → Text
  vuln_id vuln = str_or (codes "unknown") (get (codes "id") vuln)

-- A text with something but white space in it, stripped.
abbrev pub said : Option Text → Option Text
said none = none
said (some s) = if is_empty (strip s) then none else some (strip s)

abbrev pub text_or : Text → Option Text → Text
text_or d none = d
text_or d (some t) = t

unfoldable pub advice_of : Dependency → Text → Option Text → Text
advice_of dep ident (some v) =
    codes "Upgrade "
    ++ (dep.name ++ (codes " from " ++ (dep.version ++ (codes " to " ++ (v ++ codes " or later")))))
advice_of dep ident none =
    codes "No fixed version of "
    ++ (dep.name
        ++ (codes " above "
            ++ (dep.version ++ (codes " is available - check the advisory: " ++ ident))))

unfoldable pub extract_fix_advice : Dependency → Text → List Text → Text
unfolding advice_of
extract_fix_advice dep ident [] = codes "Check OSV advisory for upgrade guidance: " ++ ident
extract_fix_advice dep ident (v ∷ vs) =
    advice_of dep ident (pick_lowest_version_gt dep.version (v ∷ vs))

unfoldable pub normalize_osv_published : Members → Option Text
normalize_osv_published vuln = elim (said (string_of (get (codes "published") vuln))) [
  | none ↦ none
  | some s ↦ some (take 10 s)
]
