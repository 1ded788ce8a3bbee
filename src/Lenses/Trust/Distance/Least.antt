-- ===== src/Lenses/Trust/Distance/Least.antt =====
-- The edit distance is the least number of edits that turn one text into the other.
use arguss.Base.{
  ℕ, ◌+◌, ◌≤◌, min, ◌≡◌, ◌⊎◌, inl, inr, refl, sym, subst, ap, ◌∙◌, List, [], ◌∷◌, ◌==◌, arith,
  if◌then◌else◌, length, Text, Bool-cases,
}

-- One step of an edit script.
pub data Edit : Type 0 where
  retain erase add : ℕ → Edit
  change : ℕ → ℕ → Edit

-- The text that a script reads, the text that it writes, and how many edits it makes.
abbrev pub reads : List Edit → Text
reads [] = []
reads (retain c ∷ s) = c ∷ reads s
reads (erase c ∷ s) = c ∷ reads s
reads (add c ∷ s) = reads s
reads (change c d ∷ s) = c ∷ reads s

abbrev pub writes : List Edit → Text
writes [] = []
writes (retain c ∷ s) = c ∷ writes s
writes (erase c ∷ s) = writes s
writes (add c ∷ s) = c ∷ writes s
writes (change c d ∷ s) = d ∷ writes s

abbrev pub edits : List Edit → ℕ
edits [] = 0
edits (retain c ∷ s) = edits s
edits (erase c ∷ s) = 1 + edits s
edits (add c ∷ s) = 1 + edits s
edits (change c d ∷ s) = 1 + edits s

abbrev pub Turns : Text → Text → ℕ → Type 0
Turns a b n = (s : List Edit) × (reads s ≡ a) × (writes s ≡ b) × (edits s ≡ n)

-- Some script turns a into b with n edits, and none does with fewer.
abbrev pub Least : Text → Text → ℕ → Type 0
Least a b n = Turns a b n × ((s : List Edit) → reads s ≡ a → writes s ≡ b → n ≤ edits s)

adds : (b : Text) → Turns [] b (length b)
adds [] = ([], refl, refl, refl)
adds (c ∷ b) = let (s, r, w, e) = adds b in (add c ∷ s, r, ap (λ t. c ∷ t) w, omega (arith, e))

erases : (a : Text) → Turns a [] (length a)
erases [] = ([], refl, refl, refl)
erases (c ∷ a) =
    let (s, r, w, e) = erases a in (erase c ∷ s, ap (λ t. c ∷ t) r, w, omega (arith, e))

pub retains : (a : Text) → Turns a a 0
retains [] = ([], refl, refl, refl)
retains (c ∷ a) =
    let (s, r, w, e) = retains a in (retain c ∷ s, ap (λ t. c ∷ t) r, ap (λ t. c ∷ t) w, e)

-- A script writes no more than it reads and adds, and reads no more than it writes and erases.
writes_bound : (s : List Edit) → length (writes s) ≤ length (reads s) + edits s
writes_bound [] = omega arith
writes_bound (retain c ∷ s) = omega (arith, writes_bound s)
writes_bound (erase c ∷ s) = omega (arith, writes_bound s)
writes_bound (add c ∷ s) = omega (arith, writes_bound s)
writes_bound (change c d ∷ s) = omega (arith, writes_bound s)

reads_bound : (s : List Edit) → length (reads s) ≤ length (writes s) + edits s
reads_bound [] = omega arith
reads_bound (retain c ∷ s) = omega (arith, reads_bound s)
reads_bound (erase c ∷ s) = omega (arith, reads_bound s)
reads_bound (add c ∷ s) = omega (arith, reads_bound s)
reads_bound (change c d ∷ s) = omega (arith, reads_bound s)

pub Least-adds : (b : Text) → Least [] b (length b)
Least-adds b = (adds b, fewest)
  where
    fewest : (s : List Edit) → reads s ≡ [] → writes s ≡ b → length b ≤ edits s
    fewest s r w =
        let h : length b ≤ 0 + edits s = (rw (r, w) at (writes_bound s)) in omega (arith, h)

pub Least-erases : (a : Text) → Least a [] (length a)
Least-erases a = (erases a, fewest)
  where
    fewest : (s : List Edit) → reads s ≡ a → writes s ≡ [] → length a ≤ edits s
    fewest s r w =
        let h : length a ≤ 0 + edits s = (rw (r, w) at (reads_bound s)) in omega (arith, h)

pub Least-retains : (a : Text) → Least a a 0
Least-retains a = (retains a, λ s r w. omega arith)

min_cases : (m n : ℕ) → (min m n ≡ m) ⊎ (min m n ≡ n)
min_cases m n = ground arith

module _ (x y : ℕ) (a b : Text) where
  abbrev cost : ℕ
  cost = if x == y then 0 else 1

  by_add : (l : ℕ) → Turns (x ∷ a) b l → Turns (x ∷ a) (y ∷ b) (l + 1)
  by_add l (s, r, w, e) = (add y ∷ s, r, ap (λ t. y ∷ t) w, omega (arith, e))

  by_erase : (u : ℕ) → Turns a (y ∷ b) u → Turns (x ∷ a) (y ∷ b) (u + 1)
  by_erase u (s, r, w, e) = (erase x ∷ s, ap (λ t. x ∷ t) r, w, omega (arith, e))

  by_both : (d : ℕ) → Turns a b d → Turns (x ∷ a) (y ∷ b) (d + cost)
  by_both d (s, r, w, e) = elim (Bool-cases (x == y)) [
    | inl t ↦
        let same : x ≡ y = ground arith in (retain x ∷ s, ap (λ t. x ∷ t) r, cc, ground (arith, e))
    | inr f ↦ (change x y ∷ s, ap (λ t. x ∷ t) r, ap (λ t. y ∷ t) w, ground (arith, e))
  ]

  cheapest :
      (l u d : ℕ)
      → Turns (x ∷ a) b l
      → Turns a (y ∷ b) u
      → Turns a b d
      → Turns (x ∷ a) (y ∷ b) (min (l + 1) (min (u + 1) (d + cost)))
  cheapest l u d p q r = elim (min_cases (l + 1) (min (u + 1) (d + cost))) [
    | inl e ↦ subst (Turns (x ∷ a) (y ∷ b)) (sym e) (by_add l p)
    | inr e ↦ subst (Turns (x ∷ a) (y ∷ b)) (sym e) (elim (min_cases (u + 1) (d + cost)) [
      | inl f ↦ subst (Turns (x ∷ a) (y ∷ b)) (sym f) (by_erase u q)
      | inr f ↦ subst (Turns (x ∷ a) (y ∷ b)) (sym f) (by_both d r)
    ])
  ]

  pub Least-step :
      (l u d : ℕ)
      → Least (x ∷ a) b l
      → Least a (y ∷ b) u
      → Least a b d
      → Least (x ∷ a) (y ∷ b) (min (l + 1) (min (u + 1) (d + cost)))
  Least-step l u d (p, pl) (q, ql) (r, rl) = (cheapest l u d p q r, fewest)
    where
      fewest :
          (s : List Edit)
          → reads s ≡ x ∷ a
          → writes s ≡ y ∷ b
          → min (l + 1) (min (u + 1) (d + cost)) ≤ edits s
      fewest [] h k = cc
      fewest (retain c ∷ s) h k =
          let rs : reads s ≡ a = cc in
          let ws : writes s ≡ b = cc in
          let xs : c ≡ x = cc in let ys : c ≡ y = cc in ground (arith, rl s rs ws)
      fewest (erase c ∷ s) h k = let rs : reads s ≡ a = cc in omega (arith, ql s rs k)
      fewest (add c ∷ s) h k = let ws : writes s ≡ b = cc in omega (arith, pl s h ws)
      fewest (change c e ∷ s) h k =
          let rs : reads s ≡ a = cc in let ws : writes s ≡ b = cc in ground (arith, rl s rs ws)

-- The texts that a row stands for are prefixes, and a prefix grows at its end: they are kept
-- reversed. `onto a b` is a reversed, followed by b.
abbrev pub onto {ℓ} : {A : Type ℓ} → List A → List A → List A
onto [] b = b
onto (c ∷ a) b = onto a (c ∷ b)

onto_twice : (a b : Text) → onto (onto a b) [] ≡ onto b a
onto_twice [] b = refl
onto_twice (c ∷ a) b = onto_twice a (c ∷ b)

reads-onto : (s t : List Edit) → reads (onto s t) ≡ onto (reads s) (reads t)
reads-onto [] t = refl
reads-onto (retain c ∷ s) t = reads-onto s (retain c ∷ t)
reads-onto (erase c ∷ s) t = reads-onto s (erase c ∷ t)
reads-onto (add c ∷ s) t = reads-onto s (add c ∷ t)
reads-onto (change c d ∷ s) t = reads-onto s (change c d ∷ t)

writes-onto : (s t : List Edit) → writes (onto s t) ≡ onto (writes s) (writes t)
writes-onto [] t = refl
writes-onto (retain c ∷ s) t = writes-onto s (retain c ∷ t)
writes-onto (erase c ∷ s) t = writes-onto s (erase c ∷ t)
writes-onto (add c ∷ s) t = writes-onto s (add c ∷ t)
writes-onto (change c d ∷ s) t = writes-onto s (change c d ∷ t)

edits-onto : (s t : List Edit) → edits (onto s t) ≡ edits s + edits t
edits-onto [] t = omega arith
edits-onto (retain c ∷ s) t = omega (arith, edits-onto s (retain c ∷ t))
edits-onto (erase c ∷ s) t = omega (arith, edits-onto s (erase c ∷ t))
edits-onto (add c ∷ s) t = omega (arith, edits-onto s (add c ∷ t))
edits-onto (change c d ∷ s) t = omega (arith, edits-onto s (change c d ∷ t))

-- What is least for two texts read backwards is least for them.
pub Least-of_reversed : (a b : Text) (n : ℕ) → Least (onto a []) (onto b []) n → Least a b n
Least-of_reversed a b n ((s, r, w, e), least) = (
  (
    onto s [],
    reads-onto s [] ∙ (ap (λ t. onto t []) r ∙ onto_twice a []),
    writes-onto s [] ∙ (ap (λ t. onto t []) w ∙ onto_twice b []),
    omega (arith, e, edits-onto s []),
  ),
  fewest,
)
  where
    fewest : (t : List Edit) → reads t ≡ a → writes t ≡ b → n ≤ edits t
    fewest t p q =
        let h =
          least (onto t []) (reads-onto t [] ∙ ap (λ u. onto u []) p)
            (writes-onto t [] ∙ ap (λ u. onto u []) q) in
        omega (arith, h, edits-onto t [])
