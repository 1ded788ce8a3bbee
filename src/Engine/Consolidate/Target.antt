-- ===== src/Engine/Consolidate/Target.antt =====
-- The target of a merged candidate is the highest target of its group.
use arguss.Base.{
  ◌≡◌, ◌≢◌, refl, sym, subst, true, false, some, List, [], ◌∷◌, arith, Text, Member, All,
  Bool-cases, inl, inr,
}
use arguss.Models.{FixCandidate}
use arguss.Semver.{less, compare_versions}
use arguss.Semver.Order.{compare_versions_trans, compare_versions_irrefl, compare_versions_le_lt}
use arguss.Engine.Consolidate.{is_above, best_of, max_target}

module _ (from_version a b : Text) where
  is_above-lt :
      is_above a b ≡ true
      → compare_versions from_version a ≡ some less
      → compare_versions from_version b ≡ some less
      → compare_versions b a ≡ some less
  unfolding is_above compare_versions
  is_above-lt t p q = ground arith

lt-is_above : (a b : Text) → compare_versions b a ≡ some less → is_above a b ≡ true
unfolding is_above compare_versions
lt-is_above a b p = ground arith

best_of-nil : (b : FixCandidate) → best_of b [] ≡ b
unfolding best_of
best_of-nil b = refl

module _ (b c : FixCandidate) (cs : List FixCandidate) where
  best_of_higher : is_above c.to_version b.to_version ≡ true → best_of b (c ∷ cs) ≡ best_of c cs
  unfolding best_of
  best_of_higher t = rw t

  best_of_skip : is_above c.to_version b.to_version ≡ false → best_of b (c ∷ cs) ≡ best_of b cs
  unfolding best_of
  best_of_skip f = rw f

pub best_of-Member : (b : FixCandidate) (cs : List FixCandidate) → Member (best_of b cs) (b ∷ cs)
best_of-Member b [] = inl (best_of-nil b)
best_of-Member b (c ∷ cs) = elim (Bool-cases (is_above c.to_version b.to_version)) [
  | inl t ↦
      subst (λ r. Member r (b ∷ c ∷ cs)) (sym (best_of_higher b c cs t)) (inr (best_of-Member c cs))
  | inr f ↦
      subst (λ r. Member r (b ∷ c ∷ cs)) (sym (best_of_skip b c cs f))
        (elim (best_of-Member b cs) [ inl e ↦ inl e | inr m ↦ inr (inr m) ])
]

module _ (from_version : Text) where
  abbrev pub Upgrades : FixCandidate → Type 0
  Upgrades c = compare_versions from_version c.to_version ≡ some less

  abbrev pub NotAbove : Text → FixCandidate → Type 0
  NotAbove v c = compare_versions v c.to_version ≢ some less

  best_of_highest :
      (b : FixCandidate) (cs : List FixCandidate)
      → All Upgrades (b ∷ cs)
      → All (NotAbove (best_of b cs).to_version) (b ∷ cs)
  best_of_highest b [] h = rw (best_of-nil b) (compare_versions_irrefl b.to_version, tt)
  best_of_highest b (c ∷ cs) h = elim (Bool-cases (is_above c.to_version b.to_version)) [
    | inl t ↦
        let ih = best_of_highest c cs h.1 in
        subst (λ r. All (NotAbove r.to_version) (b ∷ c ∷ cs)) (sym (best_of_higher b c cs t))
          (
            λ e. ih.0 (
                compare_versions_trans (best_of c cs).to_version b.to_version c.to_version e
                  (is_above-lt from_version c.to_version b.to_version t h.1.0 h.0)),
            ih,
          )
    | inr f ↦
        let ih = best_of_highest b cs (h.0, h.1.1) in
        subst (λ r. All (NotAbove r.to_version) (b ∷ c ∷ cs)) (sym (best_of_skip b c cs f))
          (
            ih.0,
            (
              λ e. absurd (
                  cc (
                    f,
                    lt-is_above c.to_version b.to_version (
                        compare_versions_le_lt b.to_version (best_of b cs).to_version c.to_version
                          from_version e h.0 ih.0),
                  )),
              ih.1,
            ),
          )
  ]

  -- Of candidates that all upgrade one installed version, the target is the version of one, and
  -- is not below the version of any.
  pub max_target_highest :
      (cs : List FixCandidate) (target : Text)
      → max_target cs ≡ some target
      → All Upgrades cs
      → ((c : FixCandidate) × Member c cs × (c.to_version ≡ target)) × All (NotAbove target) cs
  unfolding max_target
  max_target_highest [] target e h = cc
  max_target_highest (c ∷ cs) target e h =
      let p : (best_of c cs).to_version ≡ target = cc in
      (
        (best_of c cs, best_of-Member c cs, p),
        subst (λ v. All (NotAbove v) (c ∷ cs)) p (best_of_highest c cs h),
      )
