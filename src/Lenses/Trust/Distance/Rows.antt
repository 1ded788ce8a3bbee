-- ===== src/Lenses/Trust/Distance/Rows.antt =====
-- The rows of the table hold the least numbers of edits, and so does its last cell.
use arguss.Base.{
  ℕ, ◌≡◌, refl, subst, false, List, [], ◌∷◌, ◌==◌, arith, if◌then◌else◌, length, Text, text_eq,
  text_eq_iff, Bool-cases, inl, inr,
}
use arguss.Lenses.Trust.Distance.{first_row, fill, all_rows, last_cell, levenshtein}
use arguss.Lenses.Trust.Distance.Least.{
  Least, Least-step, Least-adds, Least-erases, Least-retains, Least-of_reversed, onto,
}

-- The row of a prefix `a` of the first text, both texts' prefixes kept reversed: from the prefix
-- `b` of the second text on, which `rest` extends.
abbrev IsRow : Text → Text → Text → List ℕ → Type 0
IsRow a b [] [] = ⊥
IsRow a b [] (n ∷ row) = Least a b n × (row ≡ [])
IsRow a b (c ∷ rest) [] = ⊥
IsRow a b (c ∷ rest) (n ∷ row) = Least a b n × IsRow a (c ∷ b) rest row

first_row-IsRow : (b rest : Text) → IsRow [] b rest (first_row (length b) rest)
unfolding first_row
first_row-IsRow b [] = (Least-adds b, refl)
first_row-IsRow b (c ∷ rest) = (
  Least-adds b,
  subst (λ k. IsRow [] (c ∷ b) rest (first_row k rest)) (omega arith)
      (first_row-IsRow (c ∷ b) rest),
)

fill-IsRow :
    (x : ℕ) (a b rest : Text) (left : ℕ) (row : List ℕ)
    → Least (x ∷ a) b left
    → IsRow a b rest row
    → IsRow (x ∷ a) b rest (left ∷ fill x left row rest)
unfolding fill
fill-IsRow x a b [] left [] p h = absurd h
fill-IsRow x a b [] left (d ∷ []) p h = (p, refl)
fill-IsRow x a b [] left (d ∷ u ∷ row) p h = (p, refl)
fill-IsRow x a b (c ∷ rest) left [] p h = absurd h
fill-IsRow x a b (c ∷ []) left (d ∷ []) p h = absurd h.1
fill-IsRow x a b (c ∷ e ∷ rest) left (d ∷ []) p h = absurd h.1
fill-IsRow x a b (c ∷ []) left (d ∷ u ∷ row) p (q, r) =
    (p, fill-IsRow x a (c ∷ b) [] _ (u ∷ row) (Least-step x c a b left u d p r.0 q) r)
fill-IsRow x a b (c ∷ e ∷ rest) left (d ∷ u ∷ row) p (q, r) =
    (p, fill-IsRow x a (c ∷ b) (e ∷ rest) _ (u ∷ row) (Least-step x c a b left u d p r.0 q) r)

last_cell-Least :
    (a b rest : Text) (row : List ℕ) → IsRow a b rest row → Least a (onto rest b) (last_cell row)
unfolding last_cell
last_cell-Least a b [] [] h = absurd h
last_cell-Least a b [] (n ∷ []) h = h.0
last_cell-Least a b [] (n ∷ m ∷ row) h = cc
last_cell-Least a b (c ∷ rest) [] h = absurd h
last_cell-Least a b (c ∷ []) (n ∷ []) h = absurd h.1
last_cell-Least a b (c ∷ d ∷ rest) (n ∷ []) h = absurd h.1
last_cell-Least a b (c ∷ rest) (n ∷ m ∷ row) h = last_cell-Least a (c ∷ b) rest (m ∷ row) h.1

all_rows-IsRow :
    (a rest b : Text) (row : List ℕ)
    → IsRow a [] b row
    → IsRow (onto rest a) [] b (all_rows (length a) row rest b)
unfolding all_rows
all_rows-IsRow a [] b row h = h
all_rows-IsRow a (x ∷ rest) b row h =
    subst (λ i. IsRow (onto rest (x ∷ a)) [] b (all_rows i (i ∷ fill x i row b) rest b))
      (omega arith)
      (all_rows-IsRow (x ∷ a) rest b _
        (fill-IsRow x a [] b (length (x ∷ a)) row (Least-erases (x ∷ a)) h))

-- The distance of two names is the least number of characters to insert, erase and change that
-- turns one into the other.
pub levenshtein-Least : (a b : Text) → Least a b (levenshtein a b)
unfolding levenshtein
levenshtein-Least a b = elim (Bool-cases (text_eq a b)) [
  | inl e ↦ rw e (subst (λ c. Least a c 0) ((text_eq_iff a b).0 e) (Least-retains a))
  | inr f ↦ rw f (by_length a b)
]
  where
    in_table : (a b : Text) → Least a b (last_cell (all_rows 0 (first_row 0 b) a b))
    in_table a b = Least-of_reversed a b _ (
        last_cell-Least (onto a []) [] b _
          (all_rows-IsRow [] a b (first_row 0 b) (first_row-IsRow [] b)))

    by_length :
        (a b : Text)
        → Least a b (
            if length a == 0
            then length b
            else if length b == 0
            then length a
            else last_cell (all_rows 0 (first_row 0 b) a b))
    by_length [] b = Least-adds b
    by_length (x ∷ a) [] =
        let f : (length (x ∷ a) == 0) ≡ false = ground arith in rw f (Least-erases (x ∷ a))
    by_length (x ∷ a) (y ∷ b) =
        let f : (length (x ∷ a) == 0) ≡ false = ground arith in
        let g : (length (y ∷ b) == 0) ≡ false = ground arith in rw (f, g) (in_table (x ∷ a) (y ∷ b))
