-- ===== src/Semver/Pick.antt =====
-- `pick_lowest_version_gt` returns the least eligible version, and nothing only if there is none.
use arguss.Base.{
  ◌≡◌, ◌≢◌, ◌↔◌, refl, sym, subst, true, false, Option, none, some, List, [], ◌∷◌, arith, Text,
  keep, Member, Member-keep, Member-of_keep, inl, inr, Bool-cases, All, All-Member, All-of_Member,
}
use arguss.Semver.{
  Comparison, less, compare_versions, is_less, lowest_of, lowest_eligible, pick_lowest_version_gt,
}
use arguss.Semver.Order.{compare_versions_trans, compare_versions_lt_le, compare_versions_irrefl}

is_less→eq : (o : Option Comparison) → is_less o ≡ true → o ≡ some less
is_less→eq o h = ground arith

eq→is_less : (o : Option Comparison) → o ≡ some less → is_less o ≡ true
eq→is_less o h = ground arith

module _ (v w : Text) (ws : List Text) where
  lowest_of_lower : is_less (compare_versions w v) ≡ true → lowest_of v (w ∷ ws) ≡ lowest_of w ws
  unfolding lowest_of
  lowest_of_lower t = rw t

  lowest_of_skip : is_less (compare_versions w v) ≡ false → lowest_of v (w ∷ ws) ≡ lowest_of v ws
  unfolding lowest_of
  lowest_of_skip f = rw f

lowest_of-nil : (v : Text) → lowest_of v [] ≡ v
unfolding lowest_of
lowest_of-nil v = refl

lowest_of-Member : (v : Text) (vs : List Text) → Member (lowest_of v vs) (v ∷ vs)
lowest_of-Member v [] = inl (lowest_of-nil v)
lowest_of-Member v (w ∷ ws) = elim (Bool-cases (is_less (compare_versions w v))) [
  | inl t ↦
      subst (λ r. Member r (v ∷ w ∷ ws)) (sym (lowest_of_lower v w ws t))
        (inr (lowest_of-Member w ws))
  | inr f ↦
      subst (λ r. Member r (v ∷ w ∷ ws)) (sym (lowest_of_skip v w ws f))
        (elim (lowest_of-Member v ws) [ inl e ↦ inl e | inr m ↦ inr (inr m) ])
]

module _ (from_version : Text) where
  abbrev Eligible : Text → Type 0
  Eligible v = compare_versions from_version v ≡ some less

  abbrev NotBelow : Text → Text → Type 0
  NotBelow r w = compare_versions w r ≢ some less

  lowest_of_least :
      (v : Text) (vs : List Text) → All Eligible (v ∷ vs) → All (NotBelow (lowest_of v vs)) (v ∷ vs)
  lowest_of_least v [] h = rw (lowest_of-nil v) (compare_versions_irrefl v, tt)
  lowest_of_least v (w ∷ ws) h = elim (Bool-cases (is_less (compare_versions w v))) [
    | inl t ↦
        let ih = lowest_of_least w ws h.1 in
        subst (λ r. All (NotBelow r) (v ∷ w ∷ ws)) (sym (lowest_of_lower v w ws t))
          (λ e. ih.0 (compare_versions_trans w v (lowest_of w ws) (is_less→eq _ t) e), ih)
    | inr f ↦
        let ih = lowest_of_least v ws (h.0, h.1.1) in
        subst (λ r. All (NotBelow r) (v ∷ w ∷ ws)) (sym (lowest_of_skip v w ws f))
          (
            ih.0,
            (
              λ e.
                  absurd
                    (cc (f, compare_versions_lt_le w (lowest_of v ws) v from_version e h.0 ih.0)),
              ih.1,
            ),
          )
  ]

  kept-Eligible :
      (vs : List Text) → All Eligible (keep (λ w. is_less (compare_versions from_version w)) vs)
  kept-Eligible vs = All-of_Member Eligible _ (λ w m. is_less→eq _ (Member-of_keep _ vs w m).1)

  -- What is picked is one of the candidates, is above the installed version, and no candidate
  -- that is above the installed version is below it.
  pub pick_some :
      (candidates : List Text) (v : Text)
      → pick_lowest_version_gt from_version candidates ≡ some v
      → Member v candidates
        × (compare_versions from_version v ≡ some less)
        × ((w : Text)
            → Member w candidates
            → compare_versions from_version w ≡ some less
            → compare_versions w v ≢ some less)
  unfolding pick_lowest_version_gt
  pick_some candidates v h = from_eligible (keep _ candidates) refl h
    where
      from_eligible :
          (vs : List Text)
          → keep (λ w. is_less (compare_versions from_version w)) candidates ≡ vs
          → lowest_eligible vs ≡ some v
          → Member v candidates
            × (compare_versions from_version v ≡ some less)
            × ((w : Text)
                → Member w candidates
                → compare_versions from_version w ≡ some less
                → compare_versions w v ≢ some less)
      from_eligible [] k e = cc
      from_eligible (u ∷ us) k e =
          let r : lowest_of u us ≡ v = cc in
          let kept : All Eligible (u ∷ us) = subst (All Eligible) k (kept-Eligible candidates) in
          let m : Member v (u ∷ us) = subst (λ x. Member x (u ∷ us)) r (lowest_of-Member u us) in
          (
            (Member-of_keep _ candidates v (subst (Member v) (sym k) m)).0,
            All-Member Eligible (u ∷ us) v kept m,
            λ w mw ew.
                subst (λ x. NotBelow x w) r
                  (All-Member (NotBelow (lowest_of u us)) (u ∷ us) w (lowest_of_least u us kept)
                    (subst (Member w) k (Member-keep _ candidates w mw (eq→is_less _ ew)))),
          )

  -- Nothing is picked exactly when no candidate is above the installed version.
  pub pick_none :
      (candidates : List Text)
      → (pick_lowest_version_gt from_version candidates ≡ none)
        ↔ All (λ w. compare_versions from_version w ≢ some less) candidates
  unfolding pick_lowest_version_gt
  pick_none [] = (λ _. tt, λ _. refl)
  pick_none (w ∷ ws) = elim (Bool-cases (is_less (compare_versions from_version w))) [
    | inl t ↦ (λ e. absurd (cc), λ h. absurd (h.0 (is_less→eq _ t)))
    | inr f ↦ let ih = pick_none ws in rw f ((λ e. (λ k. absurd (cc), ih.0 e)), λ h. ih.1 h.1)
  ]
