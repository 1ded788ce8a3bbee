-- ===== src/Counts/Nodes.antt =====
-- The nodes of a lockfile, which are pairs of a name and a version: those that a finding affects,
-- those that an upgrade covers, and those without a fix.
use arguss.Base.{
  ℕ, Bool, true, false, not, ◌&&◌, List, [], ◌∷◌, map, if◌then◌else◌, ltb, length, is_empty, keep,
  any, Text, text_eq, strip,
}
use arguss.Models.{Finding}
use arguss.Counts.{
  CountTier, to_merge, to_review, declined, unknown, normalize_tier, ProposalEntry, Skip, no_fix,
  lens_failure, DepRow,
}

abbrev pub Node : Type 0
Node = Text × Text

abbrev pub same_node : Node → Node → Bool
same_node (a, v) (b, w) = text_eq a b && text_eq v w

abbrev pub has_node : Node → List Node → Bool
has_node n = any (same_node n)

-- A set of nodes, from what was added to it.
unfoldable pub node_set : List Node → List Node
node_set [] = []
node_set (n ∷ ns) = let rest = node_set ns in if has_node n ns then rest else n ∷ rest

-- `_unique_dep_keys`
unfoldable pub unique_dep_keys : List DepRow → List Node
unfolding node_set
unique_dep_keys deps = node_set (
    keep (λ n. not (is_empty n.0) && not (is_empty n.1))
      (map (λ (d : DepRow). (strip d.node_package, strip d.version)) deps))

abbrev pub affected_nodes : List Finding → List Node
affected_nodes = map (λ (f : Finding). (f.dependency.name, f.dependency.version))

-- affected_nodes & node_keys
unfoldable pub affected_in_lockfile : List Finding → List Node → List Node
affected_in_lockfile findings = keep (λ n. has_node n (affected_nodes findings))

abbrev pub tier_rank : CountTier → ℕ
tier_rank to_merge = 0
tier_rank to_review = 1
tier_rank declined = 2
tier_rank unknown = 3

abbrev pub Tiers : Type 0
Tiers = List (Node × CountTier)

unfoldable pub has_tier : Node → Tiers → Bool
has_tier n tiers = any (λ e. same_node e.0 n) tiers

-- The better of the tiers that a node has, for a tier that is known.
unfoldable pub put_tier : Node → CountTier → Tiers → Tiers
put_tier n tier [] = (n, tier) ∷ []
put_tier n tier ((m, t) ∷ tiers) =
    let rest = put_tier n tier tiers in
    if same_node m n
    then (m, if ltb (tier_rank tier) (tier_rank t) then tier else t) ∷ tiers
    else (m, t) ∷ rest

abbrev pub put_known : Node → CountTier → Tiers → Tiers
put_known n unknown tiers = tiers
put_known n tier tiers = put_tier n tier tiers

unfoldable pub package_node_tier : List ProposalEntry → Tiers → Tiers
unfolding put_tier
package_node_tier [] tiers = tiers
package_node_tier (e ∷ es) tiers = package_node_tier es (
    put_known (e.candidate.package_name, e.candidate.from_version) (normalize_tier e.verdict.tier)
      tiers)

-- The nodes of the lockfile that a skip without a fix names.
unfoldable pub skipped_nodes : List Node → List Skip → List Node
skipped_nodes node_keys [] = []
skipped_nodes node_keys (lens_failure ∷ skips) = skipped_nodes node_keys skips
skipped_nodes node_keys (no_fix s ∷ skips) =
    let rest = skipped_nodes node_keys skips in
    if not (is_empty s.node_package)
      && not (is_empty s.current_version)
      && has_node (s.node_package, s.current_version) node_keys
    then (s.node_package, s.current_version) ∷ rest
    else rest

unfoldable pub mixed_no_fix_nodes : Tiers → List Node → List Skip → List Node
unfolding skipped_nodes has_tier node_set
mixed_no_fix_nodes tiers node_keys skips =
    node_set (keep (λ n. has_tier n tiers) (skipped_nodes node_keys skips))

unfoldable pub no_fix_nodes : Tiers → List Node → List Skip → List Node
unfolding skipped_nodes has_tier node_set
no_fix_nodes tiers node_keys skips =
    node_set (keep (λ n. not (has_tier n tiers)) (skipped_nodes node_keys skips))

abbrev pub is_tier : CountTier → CountTier → Bool
is_tier to_merge to_merge = true
is_tier to_review to_review = true
is_tier declined declined = true
is_tier unknown unknown = true
is_tier _ _ = false

abbrev pub nodes_of_tier : CountTier → Tiers → ℕ
nodes_of_tier t tiers = length (keep (λ e. is_tier t e.1) tiers)
