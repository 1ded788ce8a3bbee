-- ===== src/Base/Results.antt =====
-- Code that raises: a value or the exception, for `do` blocks, and a run of checks in their order.
use mathlib.Core.Path.{◌≡◌, refl}
use mathlib.Core.Logic.{◌⊎◌, inl, inr}
use mathlib.Core.Bool.{Bool, true, false}
use mathlib.Core.Option.{Option, none, some}
use mathlib.Core.List.{List, [], ◌∷◌}
use arguss.Base.Lists.{All}

pub data Result (E A : Type 0) : Type 0 where
  ok : A → Result E A
  error : E → Result E A

infixl 5 ◌>>=◌
abbrev pub ◌>>=◌ : {E A B : Type 0} → Result E A → (A → Result E B) → Result E B
ok a >>= f = f a
error e >>= f = error e

-- What a bind needed to succeed.
pub bind-ok :
    {E A B : Type 0} (r : Result E A) (f : A → Result E B) (b : B)
    → (r >>= f) ≡ ok b
    → (a : A) × (r ≡ ok a) × (f a ≡ ok b)
bind-ok (ok a) f b h = (a, refl, h)
bind-ok (error e) f b h = cc

pub Result-cases :
    {E A : Type 0} (r : Result E A) → ((e : E) × (r ≡ error e)) ⊎ ((a : A) × (r ≡ ok a))
Result-cases (ok a) = inr (a, refl)
Result-cases (error e) = inl (e, refl)

-- `if test: raise error`, one after the other.
unfoldable pub first_failure : {E : Type 0} → List (Bool × E) → Option E
first_failure [] = none
first_failure ((true, e) ∷ cs) = some e
first_failure ((false, e) ∷ cs) = first_failure cs

unfoldable pub require : {E A : Type 0} → List (Bool × E) → A → Result E A
unfolding first_failure
require cs a = elim (first_failure cs) [ none ↦ ok a | some e ↦ error e ]

abbrev pub Passed : {E : Type 0} → Bool × E → Type 0
Passed c = c.0 ≡ false

pub require-Passed :
    {E A : Type 0} (cs : List (Bool × E)) (a b : A) → require cs a ≡ ok b → (a ≡ b) × All Passed cs
unfolding require first_failure
require-Passed [] a b h = (cc, tt)
require-Passed ((true, e) ∷ cs) a b h = cc
require-Passed ((false, e) ∷ cs) a b h = let r = require-Passed cs a b h in (r.0, (refl, r.1))

pub Passed-require :
    {E A : Type 0} (cs : List (Bool × E)) (a : A) → All Passed cs → require cs a ≡ ok a
unfolding require first_failure
Passed-require [] a h = refl
Passed-require ((true, e) ∷ cs) a h = cc
Passed-require ((false, e) ∷ cs) a h = Passed-require cs a h.1

-- A run of checks before the rest of a block.
pub require-bind :
    {E A B : Type 0} (cs : List (Bool × E)) (a : A) (f : A → Result E B) (b : B)
    → (require cs a >>= f) ≡ ok b
    → All Passed cs × (f a ≡ ok b)
unfolding require first_failure
require-bind [] a f b h = (tt, h)
require-bind ((true, e) ∷ cs) a f b h = cc
require-bind ((false, e) ∷ cs) a f b h = let r = require-bind cs a f b h in ((refl, r.0), r.1)
