-- ===== src/Base/Sorting.antt =====
-- `sorted(xs, key=…)`: a stable insertion sort by a test `le`.
use Prim.Native.Nat.{ℕ, suc, ◌+◌}
use mathlib.Core.Path.{◌≡◌, refl}
use mathlib.Core.Logic.{inl, inr}
use mathlib.Core.Bool.{Bool, true, false}
use mathlib.Core.List.{List, [], ◌∷◌}
use mathlib.Core.List.{Perm}
use mathlib.Core.List.Perm
use native.Mathlib.Omega.{arith}
use arguss.Base.Tests.{if◌then◌else◌, Bool-cases}
use arguss.Base.Lists.{length, sum, All, Member, All-Member, All-of_Member, All-weaken}

module _ {A : Type 0} (le : A → A → Bool) where
  unfoldable pub insert_sorted : A → List A → List A
  insert_sorted a [] = a ∷ []
  insert_sorted a (x ∷ xs) =
      let rest = insert_sorted a xs in if le a x then a ∷ x ∷ xs else x ∷ rest

  unfoldable pub sorted : List A → List A
  unfolding insert_sorted
  sorted [] = []
  sorted (x ∷ xs) = insert_sorted x (sorted xs)

  insert_sorted-perm : (a : A) (xs : List A) → Perm (insert_sorted a xs) (a ∷ xs)
  unfolding insert_sorted
  insert_sorted-perm a [] = Perm.refl _
  insert_sorted-perm a (x ∷ xs) = elim (Bool-cases (le a x)) [
    | inl t ↦ rw t (Perm.refl _)
    | inr f ↦ rw f (Perm.trans (Perm.cons x (insert_sorted-perm a xs)) (Perm.swap a x xs))
  ]

  -- Sorting only changes the order.
  pub sorted-perm : (xs : List A) → Perm (sorted xs) xs
  unfolding sorted
  sorted-perm [] = Perm.refl _
  sorted-perm (x ∷ xs) =
      Perm.trans (insert_sorted-perm x (sorted xs)) (Perm.cons x (sorted-perm xs))

  insert_sorted-length : (a : A) (xs : List A) → length (insert_sorted a xs) ≡ suc (length xs)
  unfolding insert_sorted
  insert_sorted-length a [] = refl
  insert_sorted-length a (x ∷ xs) = ground (arith, insert_sorted-length a xs)

  pub length-sorted : (xs : List A) → length (sorted xs) ≡ length xs
  unfolding sorted
  length-sorted [] = refl
  length-sorted (x ∷ xs) = omega (arith, insert_sorted-length x (sorted xs), length-sorted xs)

  insert_sorted-sum :
      (f : A → ℕ) (a : A) (xs : List A) → sum f (insert_sorted a xs) ≡ f a + sum f xs
  unfolding insert_sorted
  insert_sorted-sum f a [] = refl
  insert_sorted-sum f a (x ∷ xs) = ground (arith, insert_sorted-sum f a xs)

  pub sum-sorted : (f : A → ℕ) (xs : List A) → sum f (sorted xs) ≡ sum f xs
  unfolding sorted
  sum-sorted f [] = refl
  sum-sorted f (x ∷ xs) = omega (arith, insert_sorted-sum f x (sorted xs), sum-sorted f xs)

  insert_sorted-All :
      (P : A → Type 0) (a : A) (xs : List A) → P a → All P xs → All P (insert_sorted a xs)
  unfolding insert_sorted
  insert_sorted-All P a [] p h = (p, tt)
  insert_sorted-All P a (x ∷ xs) p h = elim (Bool-cases (le a x)) [
    | inl t ↦ rw t (p, h)
    | inr f ↦ rw f (h.0, insert_sorted-All P a xs p h.1)
  ]

  pub All-sorted : (P : A → Type 0) (xs : List A) → All P xs → All P (sorted xs)
  unfolding sorted
  All-sorted P [] h = tt
  All-sorted P (x ∷ xs) h = insert_sorted-All P x (sorted xs) h.0 (All-sorted P xs h.1)

  Member-insert_sorted_head : (a : A) (xs : List A) → Member a (insert_sorted a xs)
  unfolding insert_sorted
  Member-insert_sorted_head a [] = inl refl
  Member-insert_sorted_head a (x ∷ xs) = elim (Bool-cases (le a x)) [
    | inl t ↦ rw t (inl refl)
    | inr f ↦ rw f (inr (Member-insert_sorted_head a xs))
  ]

  Member-insert_sorted_tail : (a b : A) (xs : List A) → Member b xs → Member b (insert_sorted a xs)
  unfolding insert_sorted
  Member-insert_sorted_tail a b [] m = absurd m
  Member-insert_sorted_tail a b (x ∷ xs) m = elim (Bool-cases (le a x)) [
    | inl t ↦ rw t (inr m)
    | inr f ↦ rw f (elim m [ inl e ↦ inl e | inr k ↦ inr (Member-insert_sorted_tail a b xs k) ])
  ]

  pub Member-sorted : (xs : List A) (b : A) → Member b xs → Member b (sorted xs)
  unfolding sorted
  Member-sorted [] b m = m
  Member-sorted (x ∷ xs) b (inl e) = rw e (Member-insert_sorted_head x (sorted xs))
  Member-sorted (x ∷ xs) b (inr m) =
      Member-insert_sorted_tail x b (sorted xs) (Member-sorted xs b m)

  pub Member-of_sorted : (xs : List A) (b : A) → Member b (sorted xs) → Member b xs
  Member-of_sorted xs b =
      All-Member (λ c. Member c xs) (sorted xs) b
        (All-sorted (λ c. Member c xs) xs (All-of_Member (λ c. Member c xs) xs (λ c m. m)))

  -- Each element is at most all that come after it.
  abbrev pub IsSorted : List A → Type 0
  IsSorted [] = Unit
  IsSorted (x ∷ xs) = All (λ y. le x y ≡ true) xs × IsSorted xs

module _ {A : Type 0} (le : A → A → Bool) (total : (a b : A) → le a b ≡ false → le b a ≡ true)
    (trans : (a b c : A) → le a b ≡ true → le b c ≡ true → le a c ≡ true) where
  insert_sorted-IsSorted :
      (a : A) (xs : List A) → IsSorted le xs → IsSorted le (insert_sorted le a xs)
  unfolding insert_sorted
  insert_sorted-IsSorted a [] h = (tt, tt)
  insert_sorted-IsSorted a (x ∷ xs) h = elim (Bool-cases (le a x)) [
    | inl t ↦
        rw t
          ((t, All-weaken (λ y. le x y ≡ true) (λ y. le a y ≡ true) xs (λ y. trans a x y t) h.0), h)
    | inr f ↦ rw f (
      insert_sorted-All le (λ y. le x y ≡ true) a xs (total a x f) h.0,
      insert_sorted-IsSorted a xs h.1,
    )
  ]

  -- Sorting by a total and transitive order puts each element before all that are above it.
  pub sorted-IsSorted : (xs : List A) → IsSorted le (sorted le xs)
  unfolding sorted
  sorted-IsSorted [] = tt
  sorted-IsSorted (x ∷ xs) = insert_sorted-IsSorted x (sorted le xs) (sorted-IsSorted xs)
