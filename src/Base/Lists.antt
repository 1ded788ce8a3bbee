-- ===== src/Base/Lists.antt =====
-- Lists measured by native numbers, predicates on all or some of their elements, and folds.
use Prim.Native.Nat.{ℕ, zero, suc, ◌+◌, ◌≤◌}
use mathlib.Core.Path.{◌≡◌, refl, ap, sym, subst}
use mathlib.Core.Logic.{◌⊎◌, inl, inr}
use mathlib.Core.Bool.{Bool, true, false, ◌&&◌, ◌||◌}
use mathlib.Core.List.{List, [], ◌∷◌, ◌++◌, map}
use mathlib.Core.Option.{Option, none, some}
use native.Mathlib.Omega.{arith}
use arguss.Base.Tests.{if◌then◌else◌, Bool-cases}

module _ {ℓ} {A : Type ℓ} where
  abbrev pub length : List A → ℕ
  length [] = 0
  length (x ∷ xs) = suc (length xs)

  abbrev pub get_elem? : List A → ℕ → Option A
  get_elem? [] i = none
  get_elem? (x ∷ xs) zero = some x
  get_elem? (x ∷ xs) (suc i) = get_elem? xs i

  abbrev pub take : ℕ → List A → List A
  take zero xs = []
  take (suc n) [] = []
  take (suc n) (x ∷ xs) = x ∷ take n xs

  abbrev pub drop : ℕ → List A → List A
  drop zero xs = xs
  drop (suc n) [] = []
  drop (suc n) (x ∷ xs) = drop n xs

  abbrev pub is_empty : List A → Bool
  is_empty [] = true
  is_empty (x ∷ xs) = false

  -- The elements that pass a test, in order: a comprehension with a condition.
  abbrev pub keep : (A → Bool) → List A → List A
  keep p [] = []
  keep p (x ∷ xs) = if p x then x ∷ keep p xs else keep p xs

  -- `any` and `all` over a generator.
  abbrev pub any : (A → Bool) → List A → Bool
  any p [] = false
  any p (x ∷ xs) = p x || any p xs

  abbrev pub all : (A → Bool) → List A → Bool
  all p [] = true
  all p (x ∷ xs) = p x && all p xs

module _ {ℓ κ} {A : Type ℓ} (P : A → Type κ) where
  abbrev pub All : List A → Type κ
  All [] = Unit
  All (x ∷ xs) = P x × All xs

module _ {A : Type 0} (p : A → Bool) where
  pub all→All : (xs : List A) → all p xs ≡ true → All (λ x. p x ≡ true) xs
  all→All [] h = tt
  all→All (x ∷ xs) h = (ground (arith, h), all→All xs (ground (arith, h)))

  pub All→all : (xs : List A) → All (λ x. p x ≡ true) xs → all p xs ≡ true
  All→all [] h = refl
  All→all (x ∷ xs) h = rw (h.0, All→all xs h.1) refl

-- Membership with its position, which tactics can split on.
module _ {A : Type 0} where
  abbrev pub Member : A → List A → Type 0
  Member a [] = ⊥
  Member a (x ∷ xs) = (a ≡ x) ⊎ Member a xs

  pub All-Member : (P : A → Type 0) (xs : List A) (a : A) → All P xs → Member a xs → P a
  All-Member P [] a h m = absurd m
  All-Member P (x ∷ xs) a h (inl e) = subst P (sym e) h.0
  All-Member P (x ∷ xs) a h (inr m) = All-Member P xs a h.1 m

  pub All-of_Member : (P : A → Type 0) (xs : List A) → ((a : A) → Member a xs → P a) → All P xs
  All-of_Member P [] h = tt
  All-of_Member P (x ∷ xs) h = (h x (inl refl), All-of_Member P xs (λ a m. h a (inr m)))

  pub All-weaken : (P Q : A → Type 0) (xs : List A) → ((a : A) → P a → Q a) → All P xs → All Q xs
  All-weaken P Q [] f h = tt
  All-weaken P Q (x ∷ xs) f h = (f x h.0, All-weaken P Q xs f h.1)

  pub All-append : (P : A → Type 0) (xs ys : List A) → All P xs → All P ys → All P (xs ++ ys)
  All-append P [] ys h k = k
  All-append P (x ∷ xs) ys h k = (h.0, All-append P xs ys h.1 k)

  pub Member-append_left : (xs ys : List A) (a : A) → Member a xs → Member a (xs ++ ys)
  Member-append_left [] ys a m = absurd m
  Member-append_left (x ∷ xs) ys a (inl e) = inl e
  Member-append_left (x ∷ xs) ys a (inr m) = inr (Member-append_left xs ys a m)

  pub Member-append_right : (xs ys : List A) (a : A) → Member a ys → Member a (xs ++ ys)
  Member-append_right [] ys a m = m
  Member-append_right (x ∷ xs) ys a m = inr (Member-append_right xs ys a m)

  pub Member-append_cases :
      (xs ys : List A) (a : A) → Member a (xs ++ ys) → Member a xs ⊎ Member a ys
  Member-append_cases [] ys a m = inr m
  Member-append_cases (x ∷ xs) ys a (inl e) = inl (inl e)
  Member-append_cases (x ∷ xs) ys a (inr m) = elim (Member-append_cases xs ys a m) [
    | inl l ↦ inl (inr l)
    | inr r ↦ inr r
  ]

  -- What a comprehension keeps: the members that pass its test, and no others.
  pub Member-keep :
      (p : A → Bool) (xs : List A) (a : A) → Member a xs → p a ≡ true → Member a (keep p xs)
  Member-keep p [] a m h = m
  Member-keep p (x ∷ xs) a (inl e) h = rw (← e, h) (inl refl)
  Member-keep p (x ∷ xs) a (inr m) h = elim (Bool-cases (p x)) [
    | inl t ↦ rw t (inr (Member-keep p xs a m h))
    | inr f ↦ rw f (Member-keep p xs a m h)
  ]

  pub Member-of_keep :
      (p : A → Bool) (xs : List A) (a : A) → Member a (keep p xs) → Member a xs × (p a ≡ true)
  Member-of_keep p [] a m = absurd m
  Member-of_keep p (x ∷ xs) a m = split (p x) refl (Member-of_keep p xs a) m
    where
      split :
          (b : Bool)
          → p x ≡ b
          → (Member a (keep p xs) → Member a xs × (p a ≡ true))
          → Member a (if b then x ∷ keep p xs else keep p xs)
          → Member a (x ∷ xs) × (p a ≡ true)
      split true t rec (inl e) = (inl e, rw e t)
      split true t rec (inr k) = (inr (rec k).0, (rec k).1)
      split false t rec k = (inr (rec k).0, (rec k).1)

  pub keep-All : (p : A → Bool) (xs : List A) → All (λ x. p x ≡ true) (keep p xs)
  keep-All p [] = tt
  keep-All p (x ∷ xs) = elim (Bool-cases (p x)) [
    | inl t ↦ rw t (t, keep-All p xs)
    | inr f ↦ rw f (keep-All p xs)
  ]

  pub length-keep-le : (p : A → Bool) (xs : List A) → length (keep p xs) ≤ length xs
  length-keep-le p [] = omega arith
  length-keep-le p (x ∷ xs) = ground (arith, length-keep-le p xs)

pub length-append {ℓ} : {A : Type ℓ} (xs ys : List A) → length (xs ++ ys) ≡ length xs + length ys
length-append [] ys = omega arith
length-append (x ∷ xs) ys = omega (arith, length-append xs ys)

pub length-map {ℓ κ} :
    {A : Type ℓ} {B : Type κ} (f : A → B) (xs : List A) → length (map f xs) ≡ length xs
length-map f [] = refl
length-map f (x ∷ xs) = ap suc (length-map f xs)

-- The sum of a generator.
abbrev pub sum {ℓ} : {A : Type ℓ} → (A → ℕ) → List A → ℕ
sum f [] = 0
sum f (x ∷ xs) = f x + sum f xs

pub sum-append {ℓ} :
    {A : Type ℓ} (f : A → ℕ) (xs ys : List A) → sum f (xs ++ ys) ≡ sum f xs + sum f ys
sum-append f [] ys = omega arith
sum-append f (x ∷ xs) ys = omega (arith, sum-append f xs ys)

pub map-append_one {ℓ κ} :
    {A : Type ℓ} {B : Type κ} (f : A → B) (xs : List A) (x : A)
    → map f (xs ++ (x ∷ [])) ≡ map f xs ++ (f x ∷ [])
map-append_one f [] x = refl
map-append_one f (y ∷ xs) x = ap (λ l. f y ∷ l) (map-append_one f xs x)
