-- ===== src/Rewrite/Entries.antt =====
-- The loop over the entries, and the pin of the root.
use arguss.Base.{
  ◌≡◌, inl, inr, refl, ap, sym, ◌∙◌, subst, arith, Bool, true, false, ◌||◌, Option, none, some,
  List, [], ◌∷◌, if◌then◌else◌, is_empty, Bool-cases, Text, codes, text_eq, text_eq_iff,
  text_eq_refl, is_in, Distinct, if_both,
}
use arguss.Base.Json.{Json, object, Members, get, set, get-set, string_of, object_of}
use arguss.Rewrite.{
  NewVersion, upgraded, done, update_entry, after_entry, update_entries, update_root_lockfile_dep,
  with_root, with_root_pin, has_version,
}
use arguss.Rewrite.Search.{IsObject}

-- An entry with the new version, address and digest.
abbrev pub upgraded_entry : NewVersion → Option Json → Option Json
upgraded_entry new (some (object e)) = some (object (upgraded new e))
upgraded_entry new o = o

abbrev pub Upgrades : NewVersion → List Text → Members → Members → Type 0
Upgrades new ks packages after =
    (key : Text)
    → get key after
      ≡ (if is_in key ks then upgraded_entry new (get key packages) else get key packages)

upgraded_later :
    (new : NewVersion) (k : Text) (ks : List Text) (e : Members) (packages after : Members)
    → is_in k ks ≡ false
    → get k packages ≡ some (object e)
    → Upgrades new ks (set k (object (upgraded new e)) packages) after
    → Upgrades new (k ∷ ks) packages after
upgraded_later new k ks e packages after n p h key = h key ∙ elim (Bool-cases (text_eq k key)) [
  | inl y ↦
      let same : k ≡ key = (text_eq_iff k key).0 y in
      let fresh : is_in key ks ≡ false = subst (λ x. is_in x ks ≡ false) same n in
      let here : text_eq key k ≡ true = (text_eq_iff key k).1 (sym same) in
      let old : get key packages ≡ some (object e) =
        subst (λ x. get x packages ≡ some (object e)) same p in
      rw (fresh, here, old, get-set k key (object (upgraded new e)) packages, y) refl
  | inr m ↦
      let there : text_eq key k ≡ false = ground (arith, m, text_eq_iff k key, text_eq_iff key k) in
      rw (there, get-set k key (object (upgraded new e)) packages, m) refl
]

pub update_entries-Upgrades :
    (new : NewVersion) (ks : List Text) (packages : Members)
    → Distinct ks
    → ((k : Text) → is_in k ks ≡ true → IsObject (get k packages))
    → (after : Members) × (update_entries new ks packages ≡ done after)
      × Upgrades new ks packages after
unfolding update_entries update_entry after_entry
update_entries-Upgrades new [] packages d f = (packages, refl, λ key. refl)
update_entries-Upgrades new (k ∷ ks) packages d f =
    let (e, p) = f k (rw (text_eq_refl k) refl) in
    let packages1 = set k (object (upgraded new e)) packages in
    let (after, q, u) = update_entries-Upgrades new ks packages1 d.1 (still e) in
    (
      after,
      ap (λ o. after_entry (update_entries new ks) (update_entry new k packages o)) p ∙ q,
      upgraded_later new k ks e packages after d.0 p u,
    )
  where
    still :
        (e : Members) (j : Text)
        → is_in j ks ≡ true
        → IsObject (get j (set k (object (upgraded new e)) packages))
    still e j h =
        subst IsObject (sym (get-set k j (object (upgraded new e)) packages))
          (if_both IsObject (text_eq k j) _ _ (_, refl) (f j (by_tail (text_eq j k) _ h)))
      where
        by_tail : (a b : Bool) → b ≡ true → (a || b) ≡ true
        by_tail true b h = refl
        by_tail false b h = h

-- The root's pin changes the root entry alone.
pub root_lem :
    (packages : Members) (name from_version to_version key : Text)
    → is_empty key ≡ false
    → get key (update_root_lockfile_dep packages name from_version to_version) ≡ get key packages
unfolding update_root_lockfile_dep
root_lem packages name from_version to_version key h = of_root (object_of (get [] packages))
  where
    not_root : text_eq [] key ≡ false
    not_root = elim (Bool-cases (text_eq [] key)) [
      | inl y ↦
          let q : [] ≡ key = (text_eq_iff [] key).0 y in
          let r : is_empty key ≡ true = ap is_empty (sym q) in cc (r, h)
      | inr n ↦ n
    ]

    of_root :
        (o : Option Members)
        → get key (with_root name from_version to_version o packages) ≡ get key packages
    of_root none = refl
    of_root (some root) = of_deps (object_of (get (codes "dependencies") root))
      where
        of_deps :
            (o : Option Members)
            → get key (with_root_pin name from_version to_version root o packages)
              ≡ get key packages
        of_deps none = refl
        of_deps (some deps) =
            if_both (λ l. get key l ≡ get key packages)
              (has_version from_version (string_of (get name deps))) _ _
              (get-set [] key _ packages ∙ (rw not_root refl)) refl
