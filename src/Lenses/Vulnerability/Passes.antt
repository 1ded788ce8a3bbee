-- ===== src/Lenses/Vulnerability/Passes.antt =====
-- The passes over the findings of a scan: their ids and their scores.
use arguss.Base.{
  ◌≤◌, ◌≡◌, ◌⊎◌, inl, inr, refl, sym, subst, arith, Bool, true, false, ◌||◌, Option, none, some,
  List, [], ◌∷◌, map, is_in, text_eq, text_eq_refl, Text, Bool-cases, or_of_false, or_of_true,
  text_eq_iff, Distinct, Dict, All, All-weaken,
}
use arguss.Models.{Finding}
use arguss.Lenses.Vulnerability.Scan.{
  EpssData, KevEntry, with_epss, with_kev, found_in, named_cve, enrich_findings_with_epss,
  enrich_findings_with_kev, dedupe_from, compute_cve_score,
}

abbrev pub ids : List Finding → List Text
ids = map (λ f. f.finding_id)

-- What a pass over the findings leaves alone: the id and the score.
with_epss-id : (f : Finding) (o : Option EpssData) → (with_epss f o).finding_id ≡ f.finding_id
with_epss-id f none = refl
with_epss-id f (some d) = refl

with_kev-id : (f : Finding) (o : Option KevEntry) → (with_kev f o).finding_id ≡ f.finding_id
with_kev-id f none = refl
with_kev-id f (some e) = refl

map-ids :
    (g : Finding → Finding)
    → ((f : Finding) → (g f).finding_id ≡ f.finding_id)
    → (fs : List Finding) → ids (map g fs) ≡ ids fs
map-ids g h [] = refl
map-ids g h (f ∷ fs) = λ i. h f i ∷ map-ids g h fs i

pub epss-ids :
    (o : Option (Dict EpssData)) (fs : List Finding) → ids (enrich_findings_with_epss o fs) ≡ ids fs
unfolding enrich_findings_with_epss
epss-ids none fs = refl
epss-ids (some m) fs =
    map-ids (λ f. with_epss f (found_in m f.cve_id)) (λ f. with_epss-id f (found_in m f.cve_id)) fs

pub kev-ids :
    (o : Option (Dict KevEntry)) (fs : List Finding) → ids (enrich_findings_with_kev o fs) ≡ ids fs
unfolding enrich_findings_with_kev
kev-ids none fs = refl
kev-ids (some m) fs =
    map-ids (λ f. with_kev f (found_in m (named_cve f.cve_id)))
      (λ f. with_kev-id f (found_in m (named_cve f.cve_id))) fs

-- The findings kept have different ids, none of which was seen before, and every id is kept or was seen.
dedupe-fresh :
    (seen : List Text) (fs : List Finding) (k : Text)
    → is_in k seen ≡ true
    → is_in k (ids (dedupe_from seen fs)) ≡ false
unfolding dedupe_from
dedupe-fresh seen [] k h = refl
dedupe-fresh seen (f ∷ fs) k h = elim (Bool-cases (is_in f.finding_id seen)) [
  | inl y ↦ rw y (dedupe-fresh seen fs k h)
  | inr n ↦
      let differ : text_eq k f.finding_id ≡ false = other f.finding_id n in
      rw n (or_of_false _ _ differ (dedupe-fresh (f.finding_id ∷ seen) fs k (or_of_true _ _ h)))
]
  where
    other : (i : Text) → is_in i seen ≡ false → text_eq k i ≡ false
    other i n = elim (Bool-cases (text_eq k i)) [
      | inl y ↦
          let q : is_in i seen ≡ true =
            subst (λ x. is_in x seen ≡ true) ((text_eq_iff k i).0 y) h in
          cc (q, n)
      | inr m ↦ m
    ]

pub dedupe-Distinct : (seen : List Text) (fs : List Finding) → Distinct (ids (dedupe_from seen fs))
unfolding dedupe_from
dedupe-Distinct seen [] = tt
dedupe-Distinct seen (f ∷ fs) = elim (Bool-cases (is_in f.finding_id seen)) [
  | inl y ↦ rw y (dedupe-Distinct seen fs)
  | inr n ↦ rw n (
    dedupe-fresh (f.finding_id ∷ seen) fs f.finding_id (rw (text_eq_refl f.finding_id) refl),
    dedupe-Distinct (f.finding_id ∷ seen) fs,
  )
]

pub dedupe-keeps :
    (seen : List Text) (fs : List Finding) (k : Text)
    → is_in k (ids fs) ≡ true
    → (is_in k seen ≡ true) ⊎ (is_in k (ids (dedupe_from seen fs)) ≡ true)
unfolding dedupe_from
dedupe-keeps seen [] k h = cc
dedupe-keeps seen (f ∷ fs) k h = elim (Bool-cases (text_eq k f.finding_id)) [
  | inl e ↦ elim (Bool-cases (is_in f.finding_id seen)) [
    | inl y ↦ inl (subst (λ x. is_in x seen ≡ true) (sym ((text_eq_iff k f.finding_id).0 e)) y)
    | inr n ↦ inr (rw (n, e) refl)
  ]
  | inr m ↦ elim (Bool-cases (is_in f.finding_id seen)) [
    | inl y ↦ rw y (dedupe-keeps seen fs k (rw m at h))
    | inr n ↦ rw n (elim (dedupe-keeps (f.finding_id ∷ seen) fs k (rw m at h)) [
      | inl i ↦ inl (rw m at i)
      | inr j ↦ inr (or_of_true _ _ j)
    ])
  ]
]

-- Every score is at most that of the lens.
pub score_bound : (fs : List Finding) → All (λ f. f.score ≤ compute_cve_score fs) fs
unfolding compute_cve_score
score_bound [] = tt
score_bound (f ∷ fs) = (
  omega arith,
  All-weaken (λ (x : Finding). x.score ≤ compute_cve_score fs) _ fs (λ x h. omega (arith, h))
      (score_bound fs),
)

-- An id that is kept was there.
pub dedupe-of :
    (seen : List Text) (fs : List Finding) (k : Text)
    → is_in k (ids (dedupe_from seen fs)) ≡ true
    → is_in k (ids fs) ≡ true
unfolding dedupe_from
dedupe-of seen [] k h = h
dedupe-of seen (f ∷ fs) k h = elim (Bool-cases (is_in f.finding_id seen)) [
  | inl y ↦ or_of_true _ _ (dedupe-of seen fs k (rw y at h))
  | inr n ↦ by_head (text_eq k f.finding_id) (dedupe-of (f.finding_id ∷ seen) fs k) (rw n at h)
]
  where
    by_head :
        (b : Bool)
        → (is_in k (ids (dedupe_from (f.finding_id ∷ seen) fs)) ≡ true → is_in k (ids fs) ≡ true)
        → (b || is_in k (ids (dedupe_from (f.finding_id ∷ seen) fs))) ≡ true
        → (b || is_in k (ids fs)) ≡ true
    by_head true rec h = refl
    by_head false rec h = rec h
