-- ===== src/Counts/Balance/Disjoint.antt =====
-- The nodes without a fix and those with one for other findings make up their union.
use arguss.Base.{
  ◌+◌, ◌≡◌, refl, ap, sym, ◌∙◌, subst, arith, Bool, true, false, not, List, [], ◌∷◌, ◌++◌, length,
  length-append, keep, keep-All, All, Bool-cases, inl, inr, or-false, or_of_false, text_eq_iff,
}
use arguss.Counts.{Skip}
use arguss.Counts.Nodes.{
  Node, Tiers, same_node, has_node, node_set, has_tier, skipped_nodes, mixed_no_fix_nodes,
  no_fix_nodes,
}

abbrev NoRepeat : List Node → Type 0
NoRepeat [] = Unit
NoRepeat (n ∷ ns) = (has_node n ns ≡ false) × NoRepeat ns

has_node-node_set :
    (n : Node) (ns : List Node) → has_node n ns ≡ false → has_node n (node_set ns) ≡ false
unfolding node_set
has_node-node_set n [] h = refl
has_node-node_set n (m ∷ ns) h =
    let (x, y) = or-false _ _ h in
    elim (Bool-cases (has_node m ns)) [
      | inl t ↦ rw t (has_node-node_set n ns y)
      | inr f ↦ rw f (or_of_false _ _ x (has_node-node_set n ns y))
    ]

node_set-NoRepeat : (ns : List Node) → NoRepeat (node_set ns)
unfolding node_set
node_set-NoRepeat [] = tt
node_set-NoRepeat (n ∷ ns) = elim (Bool-cases (has_node n ns)) [
  | inl t ↦ rw t (node_set-NoRepeat ns)
  | inr f ↦ rw f (has_node-node_set n ns f, node_set-NoRepeat ns)
]

node_set-All : (P : Node → Type 0) (ns : List Node) → All P ns → All P (node_set ns)
unfolding node_set
node_set-All P [] h = tt
node_set-All P (n ∷ ns) h = elim (Bool-cases (has_node n ns)) [
  | inl t ↦ rw t (node_set-All P ns h.1)
  | inr f ↦ rw f (h.0, node_set-All P ns h.1)
]

node_set_id : (ns : List Node) → NoRepeat ns → node_set ns ≡ ns
unfolding node_set
node_set_id [] h = refl
node_set_id (n ∷ ns) h = rw h.0 (ap (λ l. n ∷ l) (node_set_id ns h.1))

has_node-append :
    (n : Node) (xs ys : List Node)
    → has_node n xs ≡ false
    → has_node n ys ≡ false
    → has_node n (xs ++ ys) ≡ false
has_node-append n [] ys h k = k
has_node-append n (x ∷ xs) ys h k =
    let (a, b) = or-false _ _ h in or_of_false _ _ a (has_node-append n xs ys b k)

same_node-eq : (n m : Node) → same_node n m ≡ true → n ≡ m
same_node-eq (a, v) (b, w) h = ground (arith, text_eq_iff a b, text_eq_iff v w)

-- A node without the property is not among those with it.
apart :
    (p : Node → Bool) (n : Node) (ms : List Node)
    → p n ≡ false
    → All (λ m. p m ≡ true) ms
    → has_node n ms ≡ false
apart p n [] h k = refl
apart p n (m ∷ ms) h k = elim (Bool-cases (same_node n m)) [
  | inl t ↦ let q : p m ≡ false = subst (λ x. p x ≡ false) (same_node-eq n m t) h in cc (q, k.0)
  | inr f ↦ or_of_false _ _ f (apart p n ms h k.1)
]

NoRepeat-append :
    (p : Node → Bool) (xs ys : List Node)
    → NoRepeat xs
    → NoRepeat ys
    → All (λ m. p m ≡ false) xs
    → All (λ m. p m ≡ true) ys
    → NoRepeat (xs ++ ys)
NoRepeat-append p [] ys a b h k = b
NoRepeat-append p (x ∷ xs) ys a b h k =
    (has_node-append x xs ys a.0 (apart p x ys h.0 k), NoRepeat-append p xs ys a.1 b h.1 k)

keep-not : (p : Node → Bool) (xs : List Node) → All (λ m. p m ≡ false) (keep (λ m. not (p m)) xs)
keep-not p [] = tt
keep-not p (x ∷ xs) = elim (Bool-cases (p x)) [
  | inl t ↦ rw t (keep-not p xs)
  | inr f ↦ rw f (f, keep-not p xs)
]

pub no_fix_union :
    (tiers : Tiers) (node_keys : List Node) (skips : List Skip)
    → length (no_fix_nodes tiers node_keys skips)
        + length (mixed_no_fix_nodes tiers node_keys skips)
      ≡ length (
          node_set (no_fix_nodes tiers node_keys skips ++ mixed_no_fix_nodes tiers node_keys skips))
unfolding no_fix_nodes mixed_no_fix_nodes
no_fix_union tiers node_keys skips =
    let ns = skipped_nodes node_keys skips in
    let xs = node_set (keep (λ n. not (has_tier n tiers)) ns) in
    let ys = node_set (keep (λ n. has_tier n tiers) ns) in
    let apart_all =
      NoRepeat-append (λ n. has_tier n tiers) xs ys (node_set-NoRepeat _) (node_set-NoRepeat _)
        (node_set-All _ _ (keep-not (λ n. has_tier n tiers) ns))
        (node_set-All _ _ (keep-All (λ n. has_tier n tiers) ns)) in
    sym (ap length (node_set_id (xs ++ ys) apart_all) ∙ length-append {0} xs ys)
