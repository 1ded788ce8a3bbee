-- ===== src/Base/Dicts.antt =====
-- Python's `dict` with string keys, as the list of its items in order of insertion.
use mathlib.Core.Path.{◌≡◌, refl, subst}
use mathlib.Core.Logic.{inl, inr}
use mathlib.Core.Bool.{Bool, false}
use mathlib.Core.Option.{Option, none, some}
use mathlib.Core.List.{List, [], ◌∷◌, map}
use native.Mathlib.Omega.{arith}
use arguss.Base.Tests.{if◌then◌else◌, Bool-cases, or-false, or_of_false}
use arguss.Base.Lists.{keep}
use arguss.Base.Sets.{Distinct}
use arguss.Base.Texts.{Text, text_eq, text_eq_iff, is_in}

abbrev pub Dict {ℓ} : Type ℓ → Type ℓ
Dict V = List (Text × V)

module _ {ℓ} {V : Type ℓ} where
  -- d.get(k)
  unfoldable pub lookup : Text → Dict V → Option V
  lookup k [] = none
  lookup k ((j, v) ∷ d) = if text_eq j k then some v else lookup k d

  -- d[k] = v
  unfoldable pub insert : Text → V → Dict V → Dict V
  insert k v [] = (k, v) ∷ []
  insert k v ((j, w) ∷ d) = if text_eq j k then (j, v) ∷ d else (j, w) ∷ insert k v d

  pub lookup-insert :
      (k j : Text) (v : V) (d : Dict V)
      → lookup j (insert k v d) ≡ (if text_eq k j then some v else lookup j d)
  unfolding lookup insert
  lookup-insert k j v [] = refl
  lookup-insert k j v ((i, w) ∷ d) =
      ground (arith, text_eq_iff k j, text_eq_iff i k, text_eq_iff i j, lookup-insert k j v d)

  abbrev pub keys : Dict V → List Text
  keys = map (λ e. e.0)

  pub lookup-absent : (key : Text) (d : Dict V) → is_in key (keys d) ≡ false → lookup key d ≡ none
  unfolding lookup
  lookup-absent key [] h = refl
  lookup-absent key ((k, v) ∷ d) h =
      ground (arith, lookup-absent key d, text_eq_iff k key, text_eq_iff key k)

  abbrev pub if_kept : (V → Bool) → Option V → Option V
  if_kept p none = none
  if_kept p (some v) = if p v then some v else none

  -- Where keys are different, filtering the items filters each lookup.
  pub lookup-keep :
      (p : V → Bool) (key : Text) (d : Dict V)
      → Distinct (keys d)
      → lookup key (keep (λ e. p e.1) d) ≡ if_kept p (lookup key d)
  unfolding lookup
  lookup-keep p key [] u = refl
  lookup-keep p key ((k, v) ∷ d) u = elim (Bool-cases (text_eq k key)) [
    | inl e ↦ rw e (elim (Bool-cases (p v)) [
      | inl y ↦ rw (y, e) refl
      | inr n ↦ rw n (
          lookup-absent key (keep (λ x. p x.1) d)
            (absent-keep d (subst (λ x. is_in x (keys d) ≡ false) ((text_eq_iff k key).0 e) u.0)))
    ])
    | inr m ↦ rw m (elim (Bool-cases (p v)) [
      | inl y ↦ rw (y, m) (lookup-keep p key d u.1)
      | inr n ↦ rw n (lookup-keep p key d u.1)
    ])
  ]
    where
      absent-keep :
          (d : Dict V) → is_in key (keys d) ≡ false → is_in key (keys (keep (λ e. p e.1) d)) ≡ false
      absent-keep [] h = h
      absent-keep ((j, w) ∷ d) h =
          let (x, y) = or-false _ _ h in
          elim (Bool-cases (p w)) [
            | inl t ↦ rw t (or_of_false _ _ x (absent-keep d y))
            | inr f ↦ rw f (absent-keep d y)
          ]
