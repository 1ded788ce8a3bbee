-- ===== src/Base/Sets.antt =====
-- A Python set of texts, as a list; `sorted` makes a tuple of it.
use mathlib.Core.Path.{◌≡◌, refl}
use native.Mathlib.Omega.{arith}
use mathlib.Core.Logic.{inl, inr}
use mathlib.Core.Bool.{true, false}
use mathlib.Core.List.{List, [], ◌∷◌, ◌++◌}
use arguss.Base.Tests.{if◌then◌else◌, Bool-cases}
use arguss.Base.Lists.{keep, Member}
use arguss.Base.Texts.{Text, text_eq, text_eq_iff, text_le, is_in}
use arguss.Base.Sorting.{sorted, Member-sorted}

unfoldable pub dedupe : List Text → List Text
dedupe [] = []
dedupe (t ∷ ts) = let rest = dedupe ts in if is_in t ts then rest else t ∷ rest

-- sorted({…})
unfoldable pub sorted_set : List Text → List Text
unfolding dedupe
sorted_set ts = sorted text_le (dedupe ts)

-- a - b, for the elements of a in order
abbrev pub set_minus : List Text → List Text → List Text
set_minus a b = keep (λ t. if is_in t b then false else true) a

-- a & b
abbrev pub set_both : List Text → List Text → List Text
set_both a b = keep (λ t. is_in t b) a

pub is_in-Member : (t : Text) (ts : List Text) → is_in t ts ≡ true → Member t ts
is_in-Member t [] h = cc
is_in-Member t (u ∷ ts) h = elim (Bool-cases (text_eq t u)) [
  | inl e ↦ inl ((text_eq_iff t u).0 e)
  | inr n ↦ inr (is_in-Member t ts (rw n at h))
]

pub dedupe-Member : (t : Text) (ts : List Text) → Member t ts → Member t (dedupe ts)
unfolding dedupe
dedupe-Member t [] m = m
dedupe-Member t (u ∷ ts) m = elim (Bool-cases (is_in u ts)) [
  | inl i ↦ rw i (dedupe-Member t ts (elim m [ inl e ↦ rw e (is_in-Member u ts i) | inr k ↦ k ]))
  | inr n ↦ rw n (elim m [ inl e ↦ inl e | inr k ↦ inr (dedupe-Member t ts k) ])
]

pub sorted_set-Member : (t : Text) (ts : List Text) → Member t ts → Member t (sorted_set ts)
unfolding sorted_set
sorted_set-Member t ts m = Member-sorted text_le (dedupe ts) t (dedupe-Member t ts m)

-- No text stands twice in the list.
abbrev pub Distinct : List Text → Type 0
Distinct [] = Unit
Distinct (t ∷ ts) = (is_in t ts ≡ false) × Distinct ts

is_in-append :
    (t u : Text) (ts : List Text)
    → is_in t ts ≡ false
    → text_eq t u ≡ false
    → is_in t (ts ++ (u ∷ [])) ≡ false
is_in-append t u [] h n = rw n refl
is_in-append t u (v ∷ ts) h n = ground (arith, is_in-append t u ts)

pub Distinct-append :
    (ts : List Text) (u : Text) → Distinct ts → is_in u ts ≡ false → Distinct (ts ++ (u ∷ []))
Distinct-append [] u d h = (refl, tt)
Distinct-append (t ∷ ts) u d h = (
  is_in-append t u ts d.0 (ground (arith, text_eq_iff t u, text_eq_iff u t)),
  Distinct-append ts u d.1 (ground arith),
)
