-- ===== src/Lenses/Vulnerability/Listed.antt =====
-- The advisories that OSV lists for the dependencies, and the findings that they give.
use arguss.Base.{
  ◌≡◌, ◌≢◌, ◌⊎◌, inl, inr, refl, sym, ◌∙◌, subst, true, Option, none, some, List, [], ◌∷◌, ◌++◌,
  map, is_in, ap, codes, lookup, Member, Member-append_cases, Member-append_left,
  Member-append_right, text_eq, Text, Bool-cases, or_of_true, text_eq_iff, Dict, ◌↔◌,
}
use arguss.Base.Json.{
  Json, null, bool, number, string, array, object, Items, no_items, item, Members, get, string_of,
}
use arguss.Models.{Dependency, Finding, derive_finding_id, or_text, join}
use arguss.Lenses.Vulnerability.{extract_fixed_versions, vuln_id, said}
use arguss.Lenses.Vulnerability.Scan.{
  Reading, undigested, finding_or_raise, title_of, vuln_to_finding, advisories_of,
  advisories_of_deps, appended, all_or_raise, dep_cache_key, or_no_items,
}
use arguss.Lenses.Vulnerability.Passes.{ids}

-- The value stands in the list.
abbrev pub ItemIn : Json → Items → Type 0
ItemIn j no_items = ⊥
ItemIn j (item i xs) = (j ≡ i) ⊎ ItemIn j xs

-- OSV lists the advisory for the name and the version of a dependency.
abbrev pub Advisory : Dict Items → List Dependency → Dependency → Members → Type 0
Advisory vuln_map deps dep vuln =
    (items : Items) × Member dep deps
    × (lookup (dep.name ++ (codes "@" ++ dep.version)) vuln_map ≡ some items)
    × ItemIn (object vuln) items

Advisory-later :
    (vuln_map : Dict Items) (dep other : Dependency) (deps : List Dependency) (vuln : Members)
    → Advisory vuln_map deps other vuln
    → Advisory vuln_map (dep ∷ deps) other vuln
Advisory-later vuln_map dep other deps vuln (items, m, e, i) = (items, inr m, e, i)

advisories_of-ItemIn :
    (dep other : Dependency) (vuln : Members) (xs : Items)
    → Member (other, vuln) (advisories_of dep xs)
    → (other ≡ dep) × ItemIn (object vuln) xs
unfolding advisories_of
advisories_of-ItemIn dep other vuln no_items m = absurd m
advisories_of-ItemIn dep other vuln (item (object v) xs) (inl e) =
    (ap (λ p. p.0) e, inl (ap (λ p. object p.1) e))
advisories_of-ItemIn dep other vuln (item (object v) xs) (inr m) =
    let (e, i) = advisories_of-ItemIn dep other vuln xs m in (e, inr i)
advisories_of-ItemIn dep other vuln (item null xs) m =
    let (e, i) = advisories_of-ItemIn dep other vuln xs m in (e, inr i)
advisories_of-ItemIn dep other vuln (item (bool b) xs) m =
    let (e, i) = advisories_of-ItemIn dep other vuln xs m in (e, inr i)
advisories_of-ItemIn dep other vuln (item (number n) xs) m =
    let (e, i) = advisories_of-ItemIn dep other vuln xs m in (e, inr i)
advisories_of-ItemIn dep other vuln (item (string t) xs) m =
    let (e, i) = advisories_of-ItemIn dep other vuln xs m in (e, inr i)
advisories_of-ItemIn dep other vuln (item (array ys) xs) m =
    let (e, i) = advisories_of-ItemIn dep other vuln xs m in (e, inr i)

ItemIn-advisories_of :
    (dep : Dependency) (vuln : Members) (xs : Items)
    → ItemIn (object vuln) xs
    → Member (dep, vuln) (advisories_of dep xs)
unfolding advisories_of
ItemIn-advisories_of dep vuln no_items i = absurd i
ItemIn-advisories_of dep vuln (item (object v) xs) (inl e) =
    let q : vuln ≡ v = cc (e) in inl (ap (λ x. (dep, x)) q)
ItemIn-advisories_of dep vuln (item (object v) xs) (inr i) =
    inr (ItemIn-advisories_of dep vuln xs i)
ItemIn-advisories_of dep vuln (item null xs) (inl e) = cc (e)
ItemIn-advisories_of dep vuln (item null xs) (inr i) = ItemIn-advisories_of dep vuln xs i
ItemIn-advisories_of dep vuln (item (bool b) xs) (inl e) = cc (e)
ItemIn-advisories_of dep vuln (item (bool b) xs) (inr i) = ItemIn-advisories_of dep vuln xs i
ItemIn-advisories_of dep vuln (item (number n) xs) (inl e) = cc (e)
ItemIn-advisories_of dep vuln (item (number n) xs) (inr i) = ItemIn-advisories_of dep vuln xs i
ItemIn-advisories_of dep vuln (item (string t) xs) (inl e) = cc (e)
ItemIn-advisories_of dep vuln (item (string t) xs) (inr i) = ItemIn-advisories_of dep vuln xs i
ItemIn-advisories_of dep vuln (item (array ys) xs) (inl e) = cc (e)
ItemIn-advisories_of dep vuln (item (array ys) xs) (inr i) = ItemIn-advisories_of dep vuln xs i

-- The turns of the loops are the advisories of the dependencies.
pub advisories_iff :
    (vuln_map : Dict Items) (deps : List Dependency) (dep : Dependency) (vuln : Members)
    → Member (dep, vuln) (advisories_of_deps vuln_map deps) ↔ Advisory vuln_map deps dep vuln
unfolding advisories_of_deps
advisories_iff vuln_map [] dep vuln = (λ m. absurd m, λ (items, m, e, i). absurd m)
advisories_iff vuln_map (d ∷ deps) dep vuln = (
  λ m.
      elim (Member-append_cases (advisories_of d (or_no_items (lookup (dep_cache_key d) vuln_map)))
        (advisories_of_deps vuln_map deps) (dep, vuln) m) [
          | inl a ↦ here (lookup (dep_cache_key d) vuln_map) refl a
          | inr b ↦
              Advisory-later vuln_map d dep deps vuln ((advisories_iff vuln_map deps dep vuln).0 b)
        ],
  λ (items, m, e, i). elim m [
    | inl q ↦
        Member-append_left _ (advisories_of_deps vuln_map deps) (dep, vuln)
          (subst (λ o. Member (dep, vuln) (advisories_of d (or_no_items o)))
            (sym (subst (λ x. lookup (dep_cache_key x) vuln_map ≡ some items) q e))
            (subst (λ x. Member (dep, vuln) (advisories_of x items)) q
              (ItemIn-advisories_of dep vuln items i)))
    | inr n ↦
        Member-append_right (advisories_of d (or_no_items (lookup (dep_cache_key d) vuln_map))) _
          (dep, vuln) ((advisories_iff vuln_map deps dep vuln).1 (items, n, e, i))
  ],
)
  where
    here :
        (o : Option Items)
        → lookup (dep_cache_key d) vuln_map ≡ o
        → Member (dep, vuln) (advisories_of d (or_no_items o))
        → Advisory vuln_map (d ∷ deps) dep vuln
    here none e m = absurd (advisories_of-ItemIn d dep vuln no_items m).1
    here (some items) e m =
        let (q, i) = advisories_of-ItemIn d dep vuln items m in
        (items, inl q, subst (λ x. lookup (dep_cache_key x) vuln_map ≡ some items) (sym q) e, i)

module _ (r : Reading) where
  abbrev pub read : Dependency × Members → Option Finding
  read p = vuln_to_finding r p.1 p.0

  unfoldable pub Gives : List (Dependency × Members) → Text → Type 0
  Gives ps k =
      (p : Dependency × Members) × (f : Finding) × Member p ps
      × (read p ≡ some f)
      × (k ≡ f.finding_id)

  -- Some turn raises, or all give findings, which are those collected.
  unfoldable pub Collected : List (Dependency × Members) → Option (List Finding) → Type 0
  unfolding Gives
  Collected ps none = (p : Dependency × Members) × Member p ps × (read p ≡ none)
  Collected ps (some fs) =
      ((p : Dependency × Members) → Member p ps → read p ≢ none)
      × ((k : Text) → (is_in k (ids fs) ≡ true) ↔ Gives ps k)

  pub collected : (ps : List (Dependency × Members)) → Collected ps (all_or_raise (map read ps))
  unfolding Collected Gives all_or_raise
  collected [] = (λ p m. absurd m, λ k. (λ h. cc, λ (p, f, m, e, q). absurd m))
  collected (p ∷ ps) = by_head (read p) refl (all_or_raise (map read ps)) (collected ps)
    where
      by_head :
          (o : Option Finding)
          → read p ≡ o
          → (rest : Option (List Finding)) → Collected ps rest
          → Collected (p ∷ ps) (appended o rest)
      by_head none e rest c = (p, inl refl, e)
      by_head (some f) e none (q, m, n) = (q, inr m, n)
      by_head (some f) e (some fs) (good, exact) = (
        λ q m h. elim m [
          | inl s ↦ let z = subst (λ x. read x ≡ none) s h in cc (z, e)
          | inr t ↦ good q t h
        ],
        λ k. (
          λ h. elim (Bool-cases (text_eq k f.finding_id)) [
            | inl y ↦ (p, f, inl refl, e, (text_eq_iff k f.finding_id).0 y)
            | inr n ↦ let (q, g, m, u, w) = (exact k).0 (rw n at h) in (q, g, inr m, u, w)
          ],
          λ (q, g, m, u, w). elim m [
            | inl s ↦
                let z = subst (λ x. read x ≡ some g) s u in
                let same : g ≡ f = cc (z, e) in
                let i : k ≡ f.finding_id = w ∙ ap (λ (x : Finding). x.finding_id) same in
                rw ((text_eq_iff k f.finding_id).1 i) refl
            | inr t ↦ or_of_true (text_eq k f.finding_id) _ ((exact k).1 (q, g, t, u, w))
          ],
        ),
      )

-- The id that an advisory's finding has: the digest of the dependency's name, version and key, and of
-- the advisory's id, or of its title if the id is empty.
abbrev pub id_of : Reading → Dependency → Members → Text
id_of r dep vuln =
    let ident = vuln_id r.str vuln in
    let advisory =
      or_text (some ident) (title_of ident (said (string_of (get (codes "summary") vuln)))) in
    r.digest (
      (dep.name ++ codes "|")
      ++ ((dep.version ++ codes "|") ++ ((dep.install_key ++ codes "|") ++ advisory)))

abbrev found_id : Option Finding → Text
found_id none = []
found_id (some f) = f.finding_id

pub vuln_to_finding-some :
    (r : Reading) (vuln : Members) (dep : Dependency) (f : Finding)
    → vuln_to_finding r vuln dep ≡ some f
    → f.finding_id ≡ id_of r dep vuln
unfolding vuln_to_finding undigested derive_finding_id join
vuln_to_finding-some r vuln dep f h = of_fixed (extract_fixed_versions r.str vuln dep) h
  where
    of_fixed :
        (o : Option (List Text))
        → finding_or_raise r vuln dep o ≡ some f
        → f.finding_id ≡ id_of r dep vuln
    of_fixed none h = cc
    of_fixed (some fixed) h = sym (ap found_id h)

pub vuln_to_finding-none :
    (r : Reading) (vuln : Members) (dep : Dependency)
    → vuln_to_finding r vuln dep ≡ none
    → extract_fixed_versions r.str vuln dep ≡ none
unfolding vuln_to_finding
vuln_to_finding-none r vuln dep h = of_fixed (extract_fixed_versions r.str vuln dep) h
  where
    of_fixed : (o : Option (List Text)) → finding_or_raise r vuln dep o ≡ none → o ≡ none
    of_fixed none h = refl
    of_fixed (some fixed) h = cc

pub none-vuln_to_finding :
    (r : Reading) (vuln : Members) (dep : Dependency)
    → extract_fixed_versions r.str vuln dep ≡ none
    → vuln_to_finding r vuln dep ≡ none
unfolding vuln_to_finding
none-vuln_to_finding r vuln dep h = ap (finding_or_raise r vuln dep) h
