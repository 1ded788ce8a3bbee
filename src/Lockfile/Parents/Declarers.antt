-- ===== src/Lockfile/Parents/Declarers.antt =====
-- The map of parents that the two loops fill in, described by what the lockfile declares.
use arguss.Base.{
  ◌≡◌, refl, sym, subst, true, ◌↔◌, ◌⊎◌, Option, none, some, List, [], ◌∷◌, Text, is_in,
  is_in-Member, Member, Dict, lookup, lookup-insert, text_eq, text_eq_iff, Bool-cases, inl, inr,
  Member-append_left, Member-append_right, Member-append_cases,
}
use arguss.Lockfile.{Package, Packages}
use arguss.Lockfile.Parents.{
  prefixes_of, resolve_physical_install_key, logical_parent_name_for_pkg_path,
  child_dep_keys_for_packages_entry, added, add_to_set, add_edge, add_children, add_declarer,
  add_declarers, build_install_parents_map,
}
use arguss.Lockfile.Parents.Declared.{Declarer, Member-is_in, label_iff, keys_iff}

module _ (packages : Packages) (install_keys : List Text) (key parent : Text) where
  abbrev pub Has : Dict (List Text) → Type 0
  Has d = Member parent (prefixes_of (lookup key d))

  -- What a step adds to the set.
  abbrev Adds : Dict (List Text) → Dict (List Text) → Type 0 → Type 0
  Adds d after P = Has after ↔ (Has d ⊎ P)

  same : (d : Dict (List Text)) (P : Type 0) → ¬ P → Adds d d P
  same d P n = (λ m. inl m, λ o. elim o [ inl m ↦ m | inr p ↦ absurd (n p) ])

  abbrev Edge : Text → Option Text → Type 0
  Edge name o = (o ≡ some key) × Member key install_keys × (parent ≡ name)

  added_iff :
      (name : Text) (o : Option (List Text))
      → Member parent (added name o) ↔ (Member parent (prefixes_of o) ⊎ (parent ≡ name))
  unfolding added
  added_iff name none = (
    λ m. elim m [ inl e ↦ inr e | inr n ↦ absurd n ],
    λ m. elim m [ inl n ↦ absurd n | inr e ↦ inl e ],
  )
  added_iff name (some names) = elim (Bool-cases (is_in name names)) [
    | inl y ↦ rw y (
      λ m. inl m,
      λ m. elim m [
        | inl n ↦ n
        | inr e ↦ subst (λ t. Member t names) (sym e) (is_in-Member name names y)
      ],
    )
    | inr n ↦ rw n (
      λ m. elim (Member-append_cases names (name ∷ []) parent m) [
        | inl a ↦ inl a
        | inr b ↦ elim b [ inl e ↦ inr e | inr x ↦ absurd x ]
      ],
      λ m. elim m [
        | inl a ↦ Member-append_left names (name ∷ []) parent a
        | inr e ↦ Member-append_right names (name ∷ []) parent (inl e)
      ],
    )
  ]

  set_iff :
      (target name : Text) (d : Dict (List Text))
      → Adds d (add_to_set target name d) ((target ≡ key) × (parent ≡ name))
  unfolding add_to_set
  set_iff target name d =
      rw (lookup-insert target key (added name (lookup target d)) d)
        (elim (Bool-cases (text_eq target key)) [
          | inl y ↦
              let e = (text_eq_iff target key).0 y in
              let f = added_iff name (lookup key d) in
              rw (y, e)
                (
                  λ m. elim (f.0 m) [ inl a ↦ inl a | inr b ↦ inr (refl, b) ],
                  λ m. f.1 (elim m [ inl a ↦ inl a | inr b ↦ inr b.1 ]),
                )
          | inr n ↦
              let differ : ¬ ((target ≡ key) × (parent ≡ name)) =
                λ p. let q = (text_eq_iff target key).1 p.0 in cc (q, n) in
              rw n (same d _ differ)
        ])

  add_edge_lem :
      (name : Text) (o : Option Text) (d : Dict (List Text))
      → Adds d (add_edge install_keys name o d) (Edge name o)
  unfolding add_edge
  add_edge_lem name none d = same d _ (λ p. cc (p.0))
  add_edge_lem name (some target) d = elim (Bool-cases (is_in target install_keys)) [
    | inl y ↦
        let f = set_iff target name d in
        let m = is_in-Member target install_keys y in
        rw y (
          λ h. elim (f.0 h) [
            | inl a ↦ inl a
            | inr b ↦ inr (cc (b.0), subst (λ t. Member t install_keys) b.0 m, b.1)
          ],
          λ h. f.1 (elim h [ inl a ↦ inl a | inr b ↦ inr (cc (b.0), b.2) ]),
        )
    | inr n ↦
        let absent : ¬ Edge name (some target) = λ p.
          let e : target ≡ key = cc (p.0) in
          let q : is_in target install_keys ≡ true =
            subst (λ t. is_in t install_keys ≡ true) (sym e) (Member-is_in key install_keys p.1) in
          cc (q, n) in
        rw n (same d _ absent)
  ]

  -- A name among those of an entry that resolves to the key.
  abbrev Served : Text → Text → List Text → Type 0
  Served pkg_path name children =
      (child : Text) × Member child children
      × (resolve_physical_install_key pkg_path child packages ≡ some key)
      × Member key install_keys
      × (parent ≡ name)

  children_iff :
      (pkg_path name : Text) (children : List Text) (d : Dict (List Text))
      → Adds d
          (add_children packages install_keys pkg_path name children d)
          (Served pkg_path name children)
  unfolding add_children
  children_iff pkg_path name [] d = same d _ (λ p. p.1)
  children_iff pkg_path name (c ∷ cs) d =
      let o = resolve_physical_install_key pkg_path c packages in
      let f = add_edge_lem name o d in
      let g = children_iff pkg_path name cs (add_edge install_keys name o d) in
      (
        λ h. elim (g.0 h) [
          | inl a ↦ elim (f.0 a) [ inl b ↦ inl b | inr e ↦ inr (c, inl refl, e.0, e.1, e.2) ]
          | inr (k, m, r, i, p) ↦ inr (k, inr m, r, i, p)
        ],
        λ h. g.1 (elim h [
          | inl a ↦ inl (f.1 (inl a))
          | inr (k, inl q, r, m, e) ↦ inl (
              f.1 (
                inr (
                  subst (λ t. resolve_physical_install_key pkg_path t packages ≡ some key) q r,
                  m,
                  e,
                )))
          | inr (k, inr q, r, i, p) ↦ inr (k, q, r, i, p)
        ]),
      )

  declarer_iff :
      (pkg_path : Text) (pkg : Package) (o : Option Text) (d : Dict (List Text))
      → Adds d (add_declarer packages install_keys pkg_path pkg o d) (
          (name : Text) × (o ≡ some name)
          × Served pkg_path name (child_dep_keys_for_packages_entry pkg_path pkg))
  unfolding add_declarer
  declarer_iff pkg_path pkg none d = same d _ (λ p. cc (p.1))
  declarer_iff pkg_path pkg (some name) d =
      let f = children_iff pkg_path name (child_dep_keys_for_packages_entry pkg_path pkg) d in
      (
        λ h. elim (f.0 h) [ inl a ↦ inl a | inr s ↦ inr (name, refl, s) ],
        λ h. f.1 (elim h [
          | inl a ↦ inl a
          | inr (other, e, s) ↦
              let q : other ≡ name = cc (e) in
              inr (
                subst (λ t. Served pkg_path t (child_dep_keys_for_packages_entry pkg_path pkg)) q s)
        ]),
      )

  abbrev Labelled : Text × Package → Type 0
  Labelled z =
      (name : Text) × (logical_parent_name_for_pkg_path z.0 ≡ some name)
      × Served z.0 name (child_dep_keys_for_packages_entry z.0 z.1)

  -- As `Declarer`, with the entry among those of `rest`.
  abbrev DeclarerIn : Packages → Type 0
  DeclarerIn rest =
      (pkg_path : Text) × (pkg : Package) × Member (pkg_path, pkg) rest
      × (name : Text) × (logical_parent_name_for_pkg_path pkg_path ≡ some name)
      × Served pkg_path name (child_dep_keys_for_packages_entry pkg_path pkg)

  declarers_iff :
      (rest : Packages) (d : Dict (List Text))
      → Adds d (add_declarers packages install_keys rest d) (DeclarerIn rest)
  unfolding add_declarers
  declarers_iff [] d = same d _ (λ p. p.2)
  declarers_iff ((pkg_path, pkg) ∷ rest) d =
      let o = logical_parent_name_for_pkg_path pkg_path in
      let f = declarer_iff pkg_path pkg o d in
      let g = declarers_iff rest (add_declarer packages install_keys pkg_path pkg o d) in
      (
        λ h. elim (g.0 h) [
          | inl a ↦ elim (f.0 a) [
            | inl b ↦ inl b
            | inr s ↦ inr (pkg_path, pkg, inl refl, s.0, s.1, s.2)
          ]
          | inr (k, v, m, name, e, s) ↦ inr (k, v, inr m, name, e, s)
        ],
        λ h. g.1 (elim h [
          | inl a ↦ inl (f.1 (inl a))
          | inr (k, v, inl q, name, e, s) ↦ inl (f.1 (inr (subst Labelled q (name, e, s))))
          | inr (k, v, inr q, name, e, s) ↦ inr (k, v, q, name, e, s)
        ]),
      )

  -- The map of parents holds a name under a key exactly when the key is a dependency and an entry
  -- with that name declares a dependency that resolves to the key: the project is named root and
  -- declares its dependencies and those for development, and an installed package is named by the
  -- last name of its key and declares its dependencies.
  pub parents_map-declarers :
      Has (build_install_parents_map packages install_keys)
      ↔ Declarer packages install_keys key parent
  unfolding build_install_parents_map lookup
  parents_map-declarers =
      let f = declarers_iff packages [] in
      (
        λ h. elim (f.0 h) [
          | inl a ↦ absurd a
          | inr (k, v, m, name, e, (child, c, r, i, p)) ↦ (
            k,
            v,
            child,
            m,
            (label_iff k parent).0
                (subst (λ t. logical_parent_name_for_pkg_path k ≡ some t) (sym p) e),
            (keys_iff k v child).0 c,
            r,
            i,
          )
        ],
        λ (k, v, child, m, e, c, r, i). f.1 (
            inr (
              k,
              v,
              m,
              parent,
              (label_iff k parent).1 e,
              (child, (keys_iff k v child).1 c, r, i, refl),
            )),
      )
