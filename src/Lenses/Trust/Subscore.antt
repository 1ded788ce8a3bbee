-- ===== src/Lenses/Trust/Subscore.antt =====
-- What a trust subscore can be.
use arguss.Base.{
  if◌then◌else◌, ◌==◌, ◌≢◌, ◌⊎◌, inl, inr, Bool-cases, ℕ, ◌≤◌, ◌≡◌, Bool, true, false, Option, none,
  some, arith,
}
use arguss.Models.{high}
use arguss.Lenses.Trust.{compute_subscore, points_if, distance_points, trust_severity_from_subscore}

distance_points_bound : (b : Bool) (d : Option ℕ) → distance_points b d ≤ 25
unfolding distance_points
distance_points_bound true d = omega arith
distance_points_bound false none = omega arith
distance_points_bound false (some d) = ground arith

-- The subscore is at most 85 with a sole maintainer and at most 55 else, so it never reaches the
-- cap of 100, and a trust finding of high severity has a sole maintainer.
pub subscore_bound :
    (maintainers : ℕ) (age distance : Option ℕ) (in_top : Bool) (downloads : Option ℕ)
    → (compute_subscore maintainers age distance in_top downloads
        ≤ (if maintainers == 1 then 85 else 55))
      × ((trust_severity_from_subscore (compute_subscore maintainers age distance in_top downloads)
            ≢ high)
          ⊎ (maintainers ≡ 1))
unfolding compute_subscore trust_severity_from_subscore points_if
subscore_bound maintainers age distance in_top downloads =
    let k = distance_points_bound in_top distance in
    elim (Bool-cases (maintainers == 1)) [
      | inl one ↦ (ground (arith, k), inr (ground arith))
      | inr more ↦ (ground (arith, k), inl (λ e. ground (arith, k)))
    ]
