-- ===== src/Rewrite/Exact.antt =====
-- Which entries of a lockfile an upgrade changes, and what a skipped upgrade leaves.
use arguss.Base.{
  ◌≡◌, ◌≢◌, ◌↔◌, ◌⊎◌, inl, inr, refl, ap, sym, ◌∙◌, subst, Bool, true, false, Option, none, some,
  List, [], ◌∷◌, if◌then◌else◌, is_empty, Bool-cases, Text, codes, text_eq, is_in, Distinct,
  if_parts, arith,
}
use arguss.Base.Results.{Result, ok, error}
use arguss.Base.Json.{
  Json, null, bool, number, string, array, object, Members, get, get-set, member_keys,
}
use arguss.Models.{FixCandidate}
use arguss.Rewrite.{
  matching_entries, find_lockfile_entries, NewVersion, upgraded, update_root_lockfile_dep, skipped,
  applied, SkippedReason, FixOutcome, with_packages, after_loop, after_manifest, after_registry,
  apply_to_packages, apply_fix_to_lockfile, validate_lockfile, is_version_3,
  LockfileModificationError, is_direct, update_package_json_version, new_version_of, files_of,
}
use arguss.Rewrite.Search.{IsCopy, matching_iff, matching-Distinct, matching-IsObject}
use arguss.Rewrite.Entries.{upgraded_entry, update_entries-Upgrades, root_lem}
use arguss.Rewrite.Manifest.{
  ManifestOf, untouched-ManifestOf, updated-ManifestOf, update_package_json_version-some,
}
use arguss.Rewrite.Answer.{Answer, new_version_of-Answer, Answer-new_version_of}

-- Nothing was done, since the package is installed nowhere at the version that is replaced, or since
-- the registry does not give the address and the digest: the files are as before.
abbrev pub Untouched :
    Option Members → FixCandidate → Members → Members → Members → FixOutcome → Type 0
Untouched meta c packages lockfile package_json o =
    (reason : SkippedReason) × (o ≡ (skipped reason, lockfile, package_json))
    × (((key : Text) → ¬ IsCopy c.package_name c.from_version packages key)
        ⊎ ((new : NewVersion) → ¬ Answer c.to_version meta new))

-- The fields of an entry after an upgrade: three are new, all others as before.
abbrev pub Refreshed : NewVersion → Members → Members → Type 0
Refreshed new e f =
    (field : Text)
    → get field f ≡ (
        if text_eq (codes "integrity") field
        then some (string new.integrity)
        else if text_eq (codes "resolved") field
        then some (string new.resolved)
        else if text_eq (codes "version") field
        then some (string new.to_version)
        else get field e)

upgraded-Refreshed : (new : NewVersion) (e : Members) → Refreshed new e (upgraded new e)
unfolding upgraded
upgraded-Refreshed new e field =
    get-set (codes "integrity") field _ _
    ∙ if_parts (text_eq (codes "integrity") field) refl (
        get-set (codes "resolved") field _ _
        ∙ if_parts (text_eq (codes "resolved") field) refl (get-set (codes "version") field _ e))

-- One entry: refreshed if it is a copy of the package at the version that is replaced, and else as
-- before.
abbrev pub EntryOf : NewVersion → FixCandidate → Members → Members → Text → Type 0
EntryOf new c packages after key =
    (IsCopy c.package_name c.from_version packages key
      × (e : Members) × (f : Members) × (get key packages ≡ some (object e))
      × (get key after ≡ some (object f))
      × Refreshed new e f)
    ⊎ ((¬ IsCopy c.package_name c.from_version packages key) × (get key after ≡ get key packages))

-- The copies have the version, address and digest that the registry gave, all other entries but the
-- root's are as before, and package.json has the new range.
abbrev pub Upgraded :
    Option Members → FixCandidate → Members → Members → Members → FixOutcome → Type 0
Upgraded meta c packages lockfile old o =
    (new : NewVersion) × (ks : List Text) × (after : Members) × (files : List Text)
    × (package_json : Members) × Answer c.to_version meta new
    × (o ≡ (applied ks files, with_packages after lockfile, package_json))
    × ((key : Text) → (is_in key ks ≡ true) ↔ IsCopy c.package_name c.from_version packages key)
    × ManifestOf c.package_name c.to_version old package_json
    × ((key : Text) → is_empty key ≡ false → EntryOf new c packages after key)

module _ (registry : Text → Text → Option Members) (c : FixCandidate)
    (packages lockfile old : Members) (d : Distinct (member_keys packages)) where
  abbrev entries : List Text
  entries = matching_entries c.package_name c.from_version packages

  abbrev meta : Option Members
  meta = registry c.package_name c.to_version

  abbrev Exact : FixOutcome → Type 0
  Exact o = Untouched meta c packages lockfile old o ⊎ Upgraded meta c packages lockfile old o

  entry_of :
      (new : NewVersion) (after : Members) (key : Text)
      → get key after
        ≡ (if is_in key entries then upgraded_entry new (get key packages) else get key packages)
      → EntryOf new c packages after key
  entry_of new after key h =
      let copies = matching_iff c.package_name c.from_version key packages d in
      elim (Bool-cases (is_in key entries)) [
        | inl y ↦
            let (e, p) = matching-IsObject c.package_name c.from_version key packages d y in
            let q : get key after ≡ upgraded_entry new (get key packages) = rw y at h in
            inl (
              copies.0 y,
              e,
              upgraded new e,
              p,
              q ∙ ap (upgraded_entry new) p,
              upgraded-Refreshed new e,
            )
        | inr n ↦
            let q : get key after ≡ get key packages = rw n at h in inr (λ k. cc (copies.1 k, n), q)
      ]

  manifest-Exact :
      (new : NewVersion) (direct : Bool) (pj : Members)
      → Answer c.to_version meta new
      → ManifestOf c.package_name c.to_version old pj
      → Exact (after_manifest c new direct entries packages lockfile old (some pj))
  unfolding after_manifest after_loop
  manifest-Exact new direct pj r m =
      let (after, q, u) =
        update_entries-Upgrades new entries packages
          (matching-Distinct c.package_name c.from_version packages d)
          (λ k h. matching-IsObject c.package_name c.from_version k packages d h) in
      inr (
        new,
        entries,
        update_root_lockfile_dep after c.package_name c.from_version c.to_version,
        files_of direct,
        pj,
        r,
        ap (after_loop c.package_name c.from_version c.to_version direct entries lockfile pj) q,
        λ key. matching_iff c.package_name c.from_version key packages d,
        m,
        λ key h.
            entry_of new _ key
              (root_lem after c.package_name c.from_version c.to_version key h ∙ u key),
      )

  registry-Exact :
      (r : Result SkippedReason NewVersion)
      → new_version_of c.to_version meta ≡ r
      → Exact (after_registry c entries packages lockfile old r)
  unfolding after_registry
  registry-Exact (error reason) e =
      inl (reason, refl, inr (λ new a. cc (Answer-new_version_of c.to_version meta new a, e)))
  registry-Exact (ok new) e = by_flag (is_direct c.package_name old) refl
    where
      answer : Answer c.to_version meta new
      answer = new_version_of-Answer c.to_version meta new e

      by_flag :
          (b : Bool)
          → is_direct c.package_name old ≡ b
          → Exact (
              after_manifest c new b entries packages lockfile old (
                if b
                then update_package_json_version old c.package_name c.to_version
                else some old))
      by_flag true y =
          let (pj, q) = update_package_json_version-some c.package_name c.to_version old y in
          subst (λ o. Exact (after_manifest c new true entries packages lockfile old o)) (sym q)
            (manifest-Exact new true pj answer
              (updated-ManifestOf c.package_name c.to_version old pj q))
      by_flag false n =
          manifest-Exact new false old answer
            (untouched-ManifestOf c.package_name c.to_version old n)

  entries-Exact :
      (ks : List Text)
      → ks ≡ entries
      → Exact (apply_to_packages registry c packages lockfile old ks)
  unfolding apply_to_packages
  entries-Exact [] e = inl (
    _,
    refl,
    inl (λ key k.
        let i = (matching_iff c.package_name c.from_version key packages d).1 k in
        let f : is_in key entries ≡ false = subst (λ l. is_in key l ≡ false) e refl in cc (i, f)),
  )
  entries-Exact (k ∷ ks) e =
      subst
        (λ l. Exact (
          after_registry c l packages lockfile old
            (new_version_of c.to_version (registry c.package_name c.to_version))))
        (sym e) (registry-Exact _ refl)

version_3 : (o : Option Json) → is_version_3 o ≡ true → o ≡ some (number 3)
version_3 (some (number n)) h = ap (λ m. some (number m)) (ground arith)
version_3 none h = cc
version_3 (some null) h = cc
version_3 (some (bool b)) h = cc
version_3 (some (string t)) h = cc
version_3 (some (array xs)) h = cc
version_3 (some (object ms)) h = cc

-- An upgrade of a lockfile whose packages have different keys raises exactly if the version of the
-- format is not 3. Where no entry is a copy of the package at the replaced version, or the registry
-- does not answer with an address and a digest, it is skipped and leaves the lockfile and
-- package.json as they are. Else each such copy gets the version, address and digest of the registry
-- and keeps its other fields; the first section of package.json that has the package gets the new
-- range, with the operator of the old one, and all else of package.json stays; the root's entry may
-- change; and nothing else of the lockfile changes.
pub apply_fix-Exact :
    (registry : Text → Text → Option Members) (lockfile old packages : Members) (c : FixCandidate)
    → get (codes "packages") lockfile ≡ some (object packages)
    → Distinct (member_keys packages)
    → ((get (codes "lockfileVersion") lockfile ≢ some (number 3))
        × (e : LockfileModificationError) × (apply_fix_to_lockfile registry lockfile old c
            ≡ error e))
      ⊎ ((get (codes "lockfileVersion") lockfile ≡ some (number 3))
          × (o : FixOutcome) × (apply_fix_to_lockfile registry lockfile old c ≡ ok o)
          × (Untouched (registry c.package_name c.to_version) c packages lockfile old o
              ⊎ Upgraded (registry c.package_name c.to_version) c packages lockfile old o))
unfolding apply_fix_to_lockfile validate_lockfile find_lockfile_entries
apply_fix-Exact registry lockfile old packages c p d =
    elim (Bool-cases (is_version_3 (get (codes "lockfileVersion") lockfile))) [
      | inr n ↦
          let other : get (codes "lockfileVersion") lockfile ≢ some (number 3) = λ e.
            let x : is_version_3 (get (codes "lockfileVersion") lockfile) ≡ true = rw e refl in
            cc (x, n) in
          rw n (inl (other, _, refl))
      | inl y ↦
          rw (y, p)
            (inr (version_3 _ y, _, refl, entries-Exact registry c packages lockfile old d _ refl))
    ]
