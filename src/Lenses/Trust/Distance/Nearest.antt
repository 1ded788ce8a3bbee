-- ===== src/Lenses/Trust/Distance/Nearest.antt =====
-- The nearest popular name is nearest.
use arguss.Base.{
  ℕ, ◌≤◌, ◌≡◌, ◌⊎◌, inl, inr, refl, sym, Bool, true, false, none, some, List, [], ◌∷◌, arith,
  if◌then◌else◌, Text, is_in, is_in-Member, Member, All, Bool-cases,
}
use arguss.Lenses.Trust.Distance.{levenshtein, is_better, nearest, typosquat_distance}
use arguss.Lenses.Trust.Distance.Least.{retains}
use arguss.Lenses.Trust.Distance.Rows.{levenshtein-Least}

module _ (name : Text) where
  -- A name of the list at the distance `d`, and no name of the list is nearer.
  abbrev pub IsNearest : List Text → ℕ → Text → Type 0
  IsNearest top d best =
      Member best top × (d ≡ levenshtein name best) × All (λ other. d ≤ levenshtein name other) top

  nearest-IsNearest :
      (d : ℕ) (best : Text) (rest : List Text)
      → d ≡ levenshtein name best
      → IsNearest (best ∷ rest) (nearest name d best rest).0 (nearest name d best rest).1
  unfolding nearest
  nearest-IsNearest d best [] e = (inl refl, e, (omega (arith, e), tt))
  nearest-IsNearest d best (c ∷ rest) e =
      with_choice (is_better (levenshtein name c) c d best) (λ t. ground arith) (λ n. ground arith)
        (nearest-IsNearest (levenshtein name c) c rest refl) (nearest-IsNearest d best rest e)
    where
      with_choice :
          (b : Bool)
          → (b ≡ true → levenshtein name c ≤ d)
          → (b ≡ false → d ≤ levenshtein name c)
          → IsNearest
              (c ∷ rest)
              (nearest name (levenshtein name c) c rest).0
              (nearest name (levenshtein name c) c rest).1
          → IsNearest (best ∷ rest) (nearest name d best rest).0 (nearest name d best rest).1
          → IsNearest
              (best ∷ c ∷ rest)
              (nearest name (if b then levenshtein name c else d) (if b then c else best) rest).0
              (nearest name (if b then levenshtein name c else d) (if b then c else best) rest).1
      with_choice true near far (m, f, (l, ls)) other =
          (inr m, f, (omega (arith, l, near refl), (l, ls)))
      with_choice false near far other (m, f, (l, ls)) =
          (elim m [ inl p ↦ inl p | inr k ↦ inr (inr k) ], f, (l, (omega (arith, l, far refl), ls)))

-- The distance of a name to the popular ones is 0 if it is one of them, and else that of a nearest;
-- it is missing only where there are none.
pub typosquat_distance-IsNearest :
    (name : Text) (top : List Text)
    → ((top ≡ []) × (typosquat_distance name top ≡ none))
      ⊎ ((d : ℕ) × (best : Text) × (typosquat_distance name top ≡ some (d, best))
          × IsNearest name top d best)
unfolding typosquat_distance
typosquat_distance-IsNearest name [] = inl (refl, refl)
typosquat_distance-IsNearest name (c ∷ rest) = inr (elim (Bool-cases (is_in name (c ∷ rest))) [
  | inl t ↦ (
    0,
    name,
    rw t refl,
    (is_in-Member name (c ∷ rest) t, sym (levenshtein_self name), nothing_below_0 (c ∷ rest)),
  )
  | inr n ↦ (_, _, rw n refl, nearest-IsNearest name (levenshtein name c) c rest refl)
])
  where
    levenshtein_self : (a : Text) → levenshtein a a ≡ 0
    levenshtein_self a =
        omega (
          arith,
          (levenshtein-Least a a).1 (retains a).0 (retains a).1 (retains a).2,
          (retains a).3,
        )

    nothing_below_0 : (ts : List Text) → All (λ other. 0 ≤ levenshtein name other) ts
    nothing_below_0 [] = tt
    nothing_below_0 (t ∷ ts) = (omega arith, nothing_below_0 ts)
