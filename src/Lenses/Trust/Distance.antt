-- ===== src/Lenses/Trust/Distance.antt =====
-- `_levenshtein` and `_typosquat_distance`: how far a package's name is from a popular one.
pub mod Least
pub mod Rows
pub mod Nearest
use arguss.Base.{
  ℕ, ◌+◌, min, Bool, true, false, ◌&&◌, ◌||◌, Option, none, some, List, [], ◌∷◌, ◌==◌, ltb,
  if◌then◌else◌, length, Text, text_eq, text_lt, is_in,
}

-- list(range(len(b) + 1)), from k on
unfoldable pub first_row : ℕ → Text → List ℕ
first_row k [] = k ∷ []
first_row k (c ∷ b) = k ∷ first_row (k + 1) b

-- The cells that the inner loop appends: `left` is cur_row[j - 1], and the row starts at
-- row[j - 1].
unfoldable pub fill : ℕ → ℕ → List ℕ → Text → List ℕ
fill ca left (d ∷ u ∷ row) (c ∷ b) =
    let cell = min (left + 1) (min (u + 1) (d + (if ca == c then 0 else 1))) in
    cell ∷ fill ca cell (u ∷ row) b
fill ca left _ _ = []

-- The outer loop from index i on.
unfoldable pub all_rows : ℕ → List ℕ → Text → Text → List ℕ
unfolding fill
all_rows i row [] b = row
all_rows i row (ca ∷ a) b = all_rows (i + 1) ((i + 1) ∷ fill ca (i + 1) row b) a b

-- row[lb], which the row always has.
unfoldable pub last_cell : List ℕ → ℕ
last_cell [] = 0
last_cell (n ∷ []) = n
last_cell (n ∷ m ∷ row) = last_cell (m ∷ row)

unfoldable pub levenshtein : Text → Text → ℕ
unfolding all_rows first_row last_cell
levenshtein a b =
    if text_eq a b
    then 0
    else if length a == 0
    then length b
    else if length b == 0
    then length a
    else last_cell (all_rows 0 (first_row 0 b) a b)

-- best_d is None or d < best_d or (d == best_d and candidate < best_name)
abbrev pub is_better : ℕ → Text → ℕ → Text → Bool
is_better d candidate best_d best_name =
    ltb d best_d || (d == best_d && text_lt candidate best_name)

unfoldable pub nearest : Text → ℕ → Text → List Text → ℕ × Text
unfolding levenshtein
nearest name best_d best_name [] = (best_d, best_name)
nearest name best_d best_name (candidate ∷ rest) =
    let d = levenshtein name candidate in
    let better = is_better d candidate best_d best_name in
    nearest name (if better then d else best_d) (if better then candidate else best_name) rest

-- The set of popular names is a list of its elements, in the order in which they are walked.
unfoldable pub typosquat_distance : Text → List Text → Option (ℕ × Text)
unfolding nearest
typosquat_distance name [] = none
typosquat_distance name (candidate ∷ rest) =
    if is_in name (candidate ∷ rest)
    then some (0, name)
    else some (nearest name (levenshtein name candidate) candidate rest)
