-- ===== src/Lockfile/Parents/Declared.antt =====
-- What the entries of a lockfile declare, and by which name.
use arguss.Base.{
  ◌≡◌, refl, sym, ◌∙◌, true, ◌↔◌, ◌⊎◌, some, List, [], ◌∷◌, Text, codes, is_in, Member, text_eq,
  text_eq_refl, Bool-cases, inl, inr, Member-append_left, Member-append_right, Member-append_cases,
  starts_with, or_of_true,
}
use arguss.Base.Affixes.{Begins, starts_with-some, starts_with-false}
use arguss.Lockfile.{Package, Packages, last_name, node_modules, parse_package_path}
use arguss.Lockfile.Parents.{
  resolve_physical_install_key, logical_parent_name_for_pkg_path, last_of,
  child_dep_keys_for_packages_entry,
}

-- The label of an entry: the project is the root, an installed package has its own name.
abbrev pub LabelOf : Text → Text → Type 0
LabelOf pkg_path parent =
    ((pkg_path ≡ []) × (parent ≡ codes "root"))
    ⊎ (Begins node_modules pkg_path
        × (n : Text) × (ns : List Text) × (parse_package_path pkg_path ≡ n ∷ ns)
        × (parent ≡ last_name n ns))

-- An entry declares its dependencies, and the project also those for development.
abbrev pub DeclaredIn : Text → Package → Text → Type 0
DeclaredIn pkg_path pkg child =
    Member child pkg.dependencies ⊎ ((pkg_path ≡ []) × Member child pkg.dev_dependencies)

-- Some entry with the label declares a name that is served by the key, which is a dependency.
abbrev pub Declarer : Packages → List Text → Text → Text → Type 0
Declarer packages install_keys key parent =
    (pkg_path : Text) × (pkg : Package) × (child : Text) × Member (pkg_path, pkg) packages
    × LabelOf pkg_path parent
    × DeclaredIn pkg_path pkg child
    × (resolve_physical_install_key pkg_path child packages ≡ some key)
    × Member key install_keys

pub Member-is_in : (t : Text) (ts : List Text) → Member t ts → is_in t ts ≡ true
Member-is_in t [] m = absurd m
Member-is_in t (u ∷ ts) (inl e) = rw (e, text_eq_refl u) refl
Member-is_in t (u ∷ ts) (inr m) = or_of_true (text_eq t u) _ (Member-is_in t ts m)

pub label_iff :
    (pkg_path parent : Text)
    → (logical_parent_name_for_pkg_path pkg_path ≡ some parent) ↔ LabelOf pkg_path parent
unfolding logical_parent_name_for_pkg_path last_of
label_iff [] parent =
    (λ e. inl (refl, cc (e)), λ l. elim l [ inl r ↦ cc (r.1) | inr m ↦ cc (m.0.1) ])
label_iff (c ∷ s) parent = elim (Bool-cases (starts_with node_modules (c ∷ s))) [
  | inl y ↦
      rw y (label_of (starts_with-some node_modules (c ∷ s) y) (parse_package_path (c ∷ s)) refl)
  | inr n ↦ rw n (
    λ e. cc (e),
    λ l. elim l [
      | inl r ↦ cc (r.0)
      | inr m ↦ absurd (starts_with-false node_modules (c ∷ s) n m.0)
    ],
  )
]
  where
    label_of :
        Begins node_modules (c ∷ s)
        → (names : List Text) → parse_package_path (c ∷ s) ≡ names
        → (last_of names ≡ some parent) ↔ LabelOf (c ∷ s) parent
    label_of b [] e = (λ h. cc (h), λ l. elim l [ inl r ↦ cc (r.0) | inr m ↦ cc (m.3, e) ])
    label_of b (n ∷ ns) e = (
      λ h. inr (b, n, ns, e, cc (h)),
      λ l. elim l [
        | inl r ↦ cc (r.0)
        | inr (b', n', ns', e', p) ↦
            let q : n ∷ ns ≡ n' ∷ ns' = sym e ∙ e' in
            let n_same : n ≡ n' = cc (q) in
            let ns_same : ns ≡ ns' = cc (q) in rw (n_same, ns_same) (cc (p))
      ],
    )

pub keys_iff :
    (pkg_path : Text) (pkg : Package) (child : Text)
    → Member child (child_dep_keys_for_packages_entry pkg_path pkg) ↔ DeclaredIn pkg_path pkg child
unfolding child_dep_keys_for_packages_entry
keys_iff [] pkg child = (
  λ m. elim (Member-append_cases pkg.dependencies pkg.dev_dependencies child m) [
    | inl a ↦ inl a
    | inr b ↦ inr (refl, b)
  ],
  λ d. elim d [
    | inl a ↦ Member-append_left pkg.dependencies pkg.dev_dependencies child a
    | inr b ↦ Member-append_right pkg.dependencies pkg.dev_dependencies child b.1
  ],
)
keys_iff (c ∷ s) pkg child = (λ m. inl m, λ d. elim d [ inl a ↦ a | inr b ↦ cc (b.0) ])
