-- ===== src/Base/Splits.antt =====
-- Python's `split` and `rsplit` at a separator of several characters, and when they undo a join.
use mathlib.Core.Path.{◌≡◌, refl, ap, sym, ◌∙◌, subst}
use mathlib.Core.Bool.{true, false, ◌&&◌, ◌||◌}
use mathlib.Core.Option.{Option, none, some}
use mathlib.Core.List.{List, [], ◌∷◌, ◌++◌, append_assoc}
use Prim.Native.Nat.{ℕ, zero, suc, ◌-◌, ◌≤◌, ◌<◌}
use native.Mathlib.Omega.{arith}
use arguss.Base.Tests.{◌==◌, if◌then◌else◌, is_some}
use arguss.Base.Lists.{length, length-append}
use arguss.Base.Texts.{Text, starts_with, has_substring}
use arguss.Base.Paths.{push_char}

-- The parts from here on, the next `skip` characters being those of a separator.
unfoldable pub split_from : Text → ℕ → Text → List Text
unfolding push_char
split_from sep skip [] = [] ∷ []
split_from sep (suc k) (c ∷ s) = split_from sep k s
split_from sep zero (c ∷ s) =
    let hit = starts_with sep (c ∷ s) in
    let rest = split_from sep (if hit then length sep - 1 else 0) s in
    if hit then [] ∷ rest else push_char c rest

-- s.split(sep)
unfoldable pub split_text : Text → Text → List Text
unfolding split_from
split_text sep s = split_from sep 0 s

-- What stands before the last occurrence: s.rsplit(sep, 1)[0], where sep in s.
unfoldable pub before_last : Text → Text → Option Text
before_last sep [] = none
before_last sep (c ∷ s) =
    let here : Option Text = if starts_with sep (c ∷ s) then some [] else none in
    elim (before_last sep s) [ some p ↦ some (c ∷ p) | none ↦ here ]

pub before_last-lt : (sep s p : Text) → before_last sep s ≡ some p → length p < length s
unfolding before_last
before_last-lt sep [] p h = cc
before_last-lt sep (c ∷ s) p h = by_rest (before_last sep s) (before_last-lt sep s) p h
  where
    by_rest :
        (o : Option Text)
        → ((q : Text) → o ≡ some q → length q < length s)
        → (p : Text)
        → ◌≡◌ {A = Option Text}
            (elim o [
              | some q ↦ some (c ∷ q)
              | none ↦ if starts_with sep (c ∷ s) then some [] else none
            ])
            (some p)
        → length p < suc (length s)
    by_rest none f p h = ground arith
    by_rest (some q) f p h = ground (arith, f q refl)

pub starts_with_self : (p r : Text) → starts_with p (p ++ r) ≡ true
unfolding starts_with
starts_with_self [] r = refl
starts_with_self (c ∷ p) r = ground (arith, starts_with_self p r)

-- Text beyond the length of the prefix does not matter.
starts_with-append : (p s r : Text) → length p ≤ length s → starts_with p (s ++ r) ≡ starts_with p s
unfolding starts_with
starts_with-append [] s r h = refl
starts_with-append (c ∷ p) [] r h = ground arith
starts_with-append (c ∷ p) (d ∷ s) r h =
    ap (λ b. (c == d) && b) (starts_with-append p s r (omega (arith, h)))

starts_with-extend : (p s r : Text) → starts_with p (s ++ r) ≡ false → starts_with p s ≡ false
unfolding starts_with
starts_with-extend [] s r h = h
starts_with-extend (c ∷ p) [] r h = refl
starts_with-extend (c ∷ p) (d ∷ s) r h = ground (arith, starts_with-extend p s r)

split_from-skip : (sep ds r : Text) → split_from sep (length ds) (ds ++ r) ≡ split_from sep 0 r
unfolding split_from
split_from-skip sep [] r = refl
split_from-skip sep (d ∷ ds) r = split_from-skip sep ds r

-- No separator begins inside the text, one that follows it included.
abbrev pub Clean : Text → Text → Type 0
Clean sep [] = Unit
Clean sep (c ∷ s) = (starts_with sep ((c ∷ s) ++ sep) ≡ false) × Clean sep s

pub split_text-append :
    (d : ℕ) (ds n r : Text)
    → Clean (d ∷ ds) n
    → split_text (d ∷ ds) (n ++ ((d ∷ ds) ++ r)) ≡ n ∷ split_text (d ∷ ds) r
unfolding split_text split_from
split_text-append d ds [] r k = rw (starts_with_self (d ∷ ds) r) (
    ap (λ l. [] ∷ l)
      (subst (λ m. split_from (d ∷ ds) m (ds ++ r) ≡ split_from (d ∷ ds) 0 r) (omega arith)
        (split_from-skip (d ∷ ds) ds r)))
split_text-append d ds (c ∷ n) r k =
    let e = sym (append_assoc (c ∷ n) (d ∷ ds) r) in
    let no_hit : starts_with (d ∷ ds) ((c ∷ n) ++ ((d ∷ ds) ++ r)) ≡ false =
      ap (starts_with (d ∷ ds)) e
      ∙ (starts_with-append (d ∷ ds) ((c ∷ n) ++ (d ∷ ds)) r
            (omega (arith, length-append {0} (c ∷ n) (d ∷ ds)))
          ∙ k.0) in
    rw no_hit (ap (push_char c) (split_text-append d ds n r k.1))

pub split_text-Clean : (d : ℕ) (ds n : Text) → Clean (d ∷ ds) n → split_text (d ∷ ds) n ≡ n ∷ []
unfolding split_text split_from
split_text-Clean d ds [] k = refl
split_text-Clean d ds (c ∷ n) k =
    rw (starts_with-extend (d ∷ ds) (c ∷ n) (d ∷ ds) k.0)
      (ap (push_char c) (split_text-Clean d ds n k.1))

-- The last separator stands after the text that ends before it.
pub before_last-Clean : (sep s : Text) → Clean sep s → before_last sep s ≡ none
unfolding before_last
before_last-Clean sep [] k = refl
before_last-Clean sep (c ∷ s) k =
    rw (before_last-Clean sep s k.1, starts_with-extend sep (c ∷ s) sep k.0) refl

pub before_last-append :
    (d : ℕ) (ds s n : Text)
    → Clean (d ∷ ds) (ds ++ n)
    → before_last (d ∷ ds) (s ++ ((d ∷ ds) ++ n)) ≡ some s
unfolding before_last
before_last-append d ds [] n k =
    rw (before_last-Clean (d ∷ ds) (ds ++ n) k, starts_with_self (d ∷ ds) n) refl
before_last-append d ds (c ∷ s) n k = rw (before_last-append d ds s n k) refl

-- s.rsplit(sep, 1)[0]
abbrev head_or : Text → Option Text → Text
head_or s none = s
head_or s (some p) = p

unfoldable pub rsplit_head : Text → Text → Text
rsplit_head sep s = head_or s (before_last sep s)

pub rsplit_head-some : (sep s p : Text) → before_last sep s ≡ some p → rsplit_head sep s ≡ p
unfolding rsplit_head
rsplit_head-some sep s p e = ap (head_or s) e

pub has_substring-before_last :
    (d : ℕ) (ds s : Text) → has_substring (d ∷ ds) s ≡ is_some (before_last (d ∷ ds) s)
unfolding has_substring before_last starts_with
has_substring-before_last d ds [] = refl
has_substring-before_last d ds (c ∷ s) =
    by_rest (before_last (d ∷ ds) s) (has_substring-before_last d ds s)
  where
    by_rest :
        (o : Option Text)
        → has_substring (d ∷ ds) s ≡ is_some o
        → (starts_with (d ∷ ds) (c ∷ s) || has_substring (d ∷ ds) s)
          ≡ is_some {A = Text} (elim o [
            | some q ↦ some (c ∷ q)
            | none ↦ if starts_with (d ∷ ds) (c ∷ s) then some [] else none
          ])
    by_rest none h = ground arith
    by_rest (some q) h = ground arith
