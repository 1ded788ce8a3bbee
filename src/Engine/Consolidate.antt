-- ===== src/Engine/Consolidate.antt =====
-- arguss/engine/consolidate.py: one candidate for each package, at the highest target version.
pub mod Target
pub mod Conservation
use arguss.Base.{
  ℕ, Bool, true, false, ◌&&◌, ◌||◌, Option, none, some, List, [], ◌∷◌, ◌++◌, map, max,
  if◌then◌else◌, Text, codes, text_eq, text_lt, text_le, is_in, any, keep, sorted, sorted_set,
}
use arguss.Models.{Finding, FixCandidate}
use arguss.Semver.{
  Comparison, less, equal, greater, compare_versions, classify_fix_kind, pick_lowest_version_gt,
}

-- The package, ecosystem, installed version and repository that candidates are grouped by.
abbrev pub GroupKey : Type 0
GroupKey = List Text

-- Keys are tuples of four texts; the order of tuples is that of lists of one length.
unfoldable pub key_lt : GroupKey → GroupKey → Bool
key_lt [] k = false
key_lt (a ∷ as') [] = false
key_lt (a ∷ as') (b ∷ bs) = let rest = key_lt as' bs in if text_eq a b then rest else text_lt a b

key_eq : GroupKey → GroupKey → Bool
key_eq [] [] = true
key_eq (a ∷ as') (b ∷ bs) = text_eq a b && key_eq as' bs
key_eq _ _ = false

abbrev pub Group : Type 0
Group = GroupKey × List FixCandidate

find_finding : FixCandidate → List Finding → Option Finding
find_finding c [] = none
find_finding c (f ∷ fs) =
    if is_in f.finding_id c.source_finding_ids then some f else find_finding c fs

ecosystem_of : Option Finding → Text
ecosystem_of none = codes "npm"
ecosystem_of (some f) = f.dependency.ecosystem

group_key : List Finding → FixCandidate → GroupKey
unfolding ecosystem_of find_finding
group_key findings c =
    c.package_name ∷ ecosystem_of (find_finding c findings) ∷ c.from_version ∷ c.repo_id ∷ []

-- by_package[key].append(candidate)
unfoldable pub add_to_group : GroupKey → FixCandidate → List Group → List Group
unfolding key_eq
add_to_group key c [] = (key, c ∷ []) ∷ []
add_to_group key c ((k, cs) ∷ rest) =
    if key_eq k key then (k, cs ++ c ∷ []) ∷ rest else (k, cs) ∷ add_to_group key c rest

unfoldable pub group_all : List Finding → List FixCandidate → List Group → List Group
unfolding group_key add_to_group
group_all findings [] groups = groups
group_all findings (c ∷ rest) groups =
    group_all findings rest (add_to_group (group_key findings c) c groups)

-- cmp is not None and cmp > 0 or cmp is None and a > b
unfoldable pub is_above : Text → Text → Bool
is_above a b = elim (compare_versions a b) [
  | none ↦ text_lt b a
  | some greater ↦ true
  | some _ ↦ false
]

-- cmp is not None and cmp < 0 or cmp is None and a < b
unfoldable pub is_below : Text → Text → Bool
is_below a b = elim (compare_versions a b) [
  | none ↦ text_lt a b
  | some less ↦ true
  | some _ ↦ false
]

unfoldable pub best_of : FixCandidate → List FixCandidate → FixCandidate
unfolding is_above
best_of best [] = best
best_of best (c ∷ rest) = best_of (if is_above c.to_version best.to_version then c else best) rest

unfoldable pub max_target : List FixCandidate → Option Text
unfolding best_of
max_target [] = none
max_target (c ∷ cs) = some ((best_of c cs).to_version)

max_present : Option ℕ → Option ℕ → Option ℕ
max_present none b = b
max_present (some a) none = some a
max_present (some a) (some b) = some (max a b)

unfoldable pub max_or_none : List (Option ℕ) → Option ℕ
unfolding max_present
max_or_none [] = none
max_or_none (v ∷ vs) = max_present v (max_or_none vs)

-- The finding ids of all candidates, in order and with repetitions.
abbrev pub all_finding_ids : List FixCandidate → List Text
all_finding_ids [] = []
all_finding_ids (c ∷ cs) = c.source_finding_ids ++ all_finding_ids cs

findings_for_candidates : List FixCandidate → List Finding → List Finding
findings_for_candidates cs = keep (λ f. is_in f.finding_id (all_finding_ids cs))

meets : Text → Option Text → Bool
meets target none = false
meets target (some required) = if is_below target required then false else true

-- Of one finding. `pick_lowest_version_gt` finds nothing among no versions.
unfoldable pub satisfies : Text → Text → Finding → Bool
unfolding meets is_below
satisfies from_version target f =
    meets target (pick_lowest_version_gt from_version f.fixed_versions)

unfoldable pub max_target_satisfies_all : List Finding → Text → Text → Bool
unfolding satisfies
max_target_satisfies_all [] from_version target = true
max_target_satisfies_all (f ∷ fs) from_version target =
    satisfies from_version target f && max_target_satisfies_all fs from_version target

-- next(c for c in candidates if c.to_version == target); the target is that of `otherwise`, one
-- of the candidates, so the generator is never empty.
base_of : Text → FixCandidate → List FixCandidate → FixCandidate
base_of target otherwise [] = otherwise
base_of target otherwise (c ∷ cs) =
    if text_eq c.to_version target then c else base_of target otherwise cs

package_of : GroupKey → Text
package_of [] = []
package_of (p ∷ _) = p

unfoldable pub merged_candidate : GroupKey → FixCandidate → Text → List FixCandidate → FixCandidate
unfolding sorted_set max_or_none package_of
merged_candidate key base target cs = record {
  package_name = package_of key;
  from_version = base.from_version;
  to_version = target;
  fix_kind = classify_fix_kind base.from_version target;
  source_finding_ids = sorted_set (all_finding_ids cs);
  repo_id = base.repo_id;
  trust_subscore = base.trust_subscore;
  max_epss_score = max_or_none (map (λ c. c.max_epss_score) cs);
  max_epss_percentile = max_or_none (map (λ c. c.max_epss_percentile) cs);
  has_kev_finding = any (λ (c : FixCandidate). c.has_kev_finding) cs;
}

first_id : List Text → List Text
first_id [] = []
first_id (i ∷ is) = i ∷ []

-- The body of the loop over the sorted groups.
unfoldable pub consolidate_group : List Finding → Group → List FixCandidate
unfolding findings_for_candidates max_target_satisfies_all base_of merged_candidate first_id best_of
consolidate_group findings (key, []) = []
consolidate_group findings (key, c ∷ []) =
    record c { source_finding_ids = first_id c.source_finding_ids } ∷ []
consolidate_group findings (key, c ∷ d ∷ cs) =
    let group = c ∷ d ∷ cs in
    let best = best_of c (d ∷ cs) in
    if max_target_satisfies_all (findings_for_candidates group findings) c.from_version
      best.to_version
    then merged_candidate key (base_of best.to_version best group) best.to_version group ∷ []
    else group

unfoldable pub consolidate_groups : List Finding → List Group → List FixCandidate
unfolding consolidate_group
consolidate_groups findings [] = []
consolidate_groups findings (g ∷ gs) =
    consolidate_group findings g ++ consolidate_groups findings gs

abbrev pub group_le : Group → Group → Bool
group_le a b = if key_lt b.0 a.0 then false else true

unfoldable pub consolidate_candidates : List FixCandidate → List Finding → List FixCandidate
unfolding consolidate_groups group_all key_lt
consolidate_candidates candidates findings =
    consolidate_groups findings (sorted group_le (group_all findings candidates []))
