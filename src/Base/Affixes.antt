-- ===== src/Base/Affixes.antt =====
-- The tests for a prefix, a suffix and an infix, as statements about the parts of a text.
use mathlib.Core.Path.{◌≡◌, refl, ap, sym, ◌∙◌, subst}
use mathlib.Core.Logic.{inl, inr}
use mathlib.Core.Bool.{true, false}
use mathlib.Core.List.{[], ◌∷◌, ◌++◌, reverse, reverse-append, reverse-reverse}
use native.Mathlib.Omega.{arith}
use arguss.Base.Tests.{or_of_true, Bool-cases}
use arguss.Base.Texts.{Text, starts_with, ends_with, has_substring}
use arguss.Base.Splits.{starts_with_self}

abbrev pub Begins : Text → Text → Type 0
Begins p s = (t : Text) × (s ≡ p ++ t)

abbrev pub Ends : Text → Text → Type 0
Ends p s = (t : Text) × (s ≡ t ++ p)

abbrev pub Inside : Text → Text → Type 0
Inside p s = (a : Text) × (b : Text) × (s ≡ a ++ (p ++ b))

pub starts_with-some : (p s : Text) → starts_with p s ≡ true → Begins p s
unfolding starts_with
starts_with-some [] s h = (s, refl)
starts_with-some (c ∷ p) [] h = cc
starts_with-some (c ∷ p) (d ∷ s) h =
    let r : starts_with p s ≡ true = ground (arith, h) in
    let e : d ≡ c = ground (arith, h) in let (t, q) = starts_with-some p s r in (t, cc)

pub starts_with-false : (p s : Text) → starts_with p s ≡ false → ¬ Begins p s
starts_with-false p s h (t, e) =
    let y = starts_with_self p t in let x = subst (λ w. starts_with p w ≡ false) e h in cc

pub starts_with-absent : (p s : Text) → ¬ Begins p s → starts_with p s ≡ false
starts_with-absent p s f = elim (Bool-cases (starts_with p s)) [
  | inl h ↦ absurd (f (starts_with-some p s h))
  | inr h ↦ h
]

has_substring_here : (p s : Text) → starts_with p s ≡ true → has_substring p s ≡ true
unfolding has_substring
has_substring_here p [] h = h
has_substring_here p (c ∷ s) h = rw h refl

has_substring_self : (p a b : Text) → has_substring p (a ++ (p ++ b)) ≡ true
unfolding has_substring
has_substring_self p [] b = has_substring_here p (p ++ b) (starts_with_self p b)
has_substring_self p (c ∷ a) b = or_of_true _ _ (has_substring_self p a b)

has_substring-some : (p s : Text) → has_substring p s ≡ true → Inside p s
unfolding has_substring
has_substring-some p [] h = let (t, e) = starts_with-some p [] h in ([], t, e)
has_substring-some p (c ∷ s) h = elim (Bool-cases (starts_with p (c ∷ s))) [
  | inl t ↦ let (r, e) = starts_with-some p (c ∷ s) t in ([], r, e)
  | inr f ↦
      let (a, b, e) = has_substring-some p s (ground (arith, h, f)) in (c ∷ a, b, ap (λ w. c ∷ w) e)
]

pub has_substring-false : (p s : Text) → has_substring p s ≡ false → ¬ Inside p s
has_substring-false p s h (a, b, e) =
    let y = has_substring_self p a b in let x = subst (λ w. has_substring p w ≡ false) e h in cc

pub has_substring-absent : (p s : Text) → ¬ Inside p s → has_substring p s ≡ false
has_substring-absent p s f = elim (Bool-cases (has_substring p s)) [
  | inl h ↦ absurd (f (has_substring-some p s h))
  | inr h ↦ h
]

ends_with_self : (p t : Text) → ends_with p (t ++ p) ≡ true
unfolding ends_with
ends_with_self p t = rw (reverse-append t p) (starts_with_self (reverse p) (reverse t))

ends_with-some : (p s : Text) → ends_with p s ≡ true → Ends p s
unfolding ends_with
ends_with-some p s h =
    let (t, e) = starts_with-some (reverse p) (reverse s) h in
    (
      reverse t,
      sym (reverse-reverse s)
          ∙ (ap reverse e
              ∙ (reverse-append (reverse p) t ∙ ap (λ q. reverse t ++ q) (reverse-reverse p))),
    )

pub ends_with-false : (p s : Text) → ends_with p s ≡ false → ¬ Ends p s
ends_with-false p s h (t, e) =
    let y = ends_with_self p t in let x = subst (λ w. ends_with p w ≡ false) e h in cc

pub ends_with-absent : (p s : Text) → ¬ Ends p s → ends_with p s ≡ false
ends_with-absent p s f = elim (Bool-cases (ends_with p s)) [
  | inl h ↦ absurd (f (ends_with-some p s h))
  | inr h ↦ h
]
