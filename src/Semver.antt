-- ===== src/Semver.antt =====
-- arguss/engine/fix_kind.py: relaxed semver triplets, their order, the lowest fix version above
-- the installed one, and the kind of an upgrade. `ch.isdigit()` is read over ASCII.
pub mod Order
pub mod Pick
use arguss.Base.{
  ℕ, zero, suc, ◌+◌, ◌-◌, ◌*◌, Bool, true, false, ◌&&◌, ◌||◌, Option, none, some, List, [], ◌∷◌,
  ltb, ◌==◌, if◌then◌else◌, Text, is_digit, is_empty, drop, keep,
}
use arguss.Base.Options.{◌>>=◌}
use arguss.Models.{FixKind, patch, minor, major}

unfoldable pub first_digit_index : Text → Option ℕ
first_digit_index [] = none
first_digit_index (c ∷ s) =
    let rest = first_digit_index s in if is_digit c then some 0 else (do i ← rest; some (suc i))

unfoldable pub strip_to_version_start : Text → Text
unfolding first_digit_index
strip_to_version_start s = elim (first_digit_index s) [ none ↦ [] | some i ↦ drop i s ]

-- The prefix that the `while` loop of `_leading_nonnegative_int` walks over.
unfoldable pub leading_digits : Text → Text
leading_digits [] = []
leading_digits (c ∷ s) = let rest = leading_digits s in if is_digit c then c ∷ rest else []

-- int(s), for decimal digits
unfoldable pub int_of : ℕ → Text → ℕ
int_of acc [] = acc
int_of acc (c ∷ s) = int_of (acc * 10 + (c - b'0')) s

unfoldable pub leading_nonnegative_int : Text → Option ℕ
unfolding leading_digits int_of
leading_nonnegative_int segment =
    if is_empty (leading_digits segment) then none else some (int_of 0 (leading_digits segment))

cons_first : ℕ → List Text → List Text
cons_first c [] = (c ∷ []) ∷ []
cons_first c (w ∷ ws) = (c ∷ w) ∷ ws

-- s.split(sep, most)
unfoldable pub split_most : ℕ → ℕ → Text → List Text
unfolding cons_first
split_most sep most [] = [] ∷ []
split_most sep most (c ∷ s) =
    let hit = c == sep && ltb 0 most in
    let rest = split_most sep (if hit then most - 1 else most) s in
    if hit then [] ∷ rest else cons_first c rest

pub record Triplet : Type 0 where
  pub major_number : ℕ
  pub minor_number : ℕ
  pub patch_number : ℕ

triplet_of_parts : List Text → Option Triplet
unfolding leading_nonnegative_int
triplet_of_parts [] = none
triplet_of_parts (a ∷ []) = do
  m ← leading_nonnegative_int a
  some (record { major_number = m; minor_number = 0; patch_number = 0 })
triplet_of_parts (a ∷ b ∷ []) = do
  m ← leading_nonnegative_int a
  n ← leading_nonnegative_int b
  some (record { major_number = m; minor_number = n; patch_number = 0 })
triplet_of_parts (a ∷ b ∷ c ∷ _) = do
  m ← leading_nonnegative_int a
  n ← leading_nonnegative_int b
  p ← leading_nonnegative_int c
  some (record { major_number = m; minor_number = n; patch_number = p })

unfoldable pub parse_semver_triplet : Text → Option Triplet
unfolding strip_to_version_start split_most triplet_of_parts
parse_semver_triplet version =
    let core = strip_to_version_start version in
    if is_empty core then none else triplet_of_parts (split_most b'.' 2 core)

-- The results -1, 0 and 1.
pub data Comparison : Type 0 where
  less equal greater : Comparison

-- The order of tuples.
abbrev pub triplet_lt : Triplet → Triplet → Bool
triplet_lt a b =
    if ltb a.major_number b.major_number
    then true
    else if ltb b.major_number a.major_number
    then false
    else if ltb a.minor_number b.minor_number
    then true
    else if ltb b.minor_number a.minor_number
    then false
    else ltb a.patch_number b.patch_number

unfoldable pub compare_versions : Text → Text → Option Comparison
compare_versions left right = do
  a ← parse_semver_triplet left
  b ← parse_semver_triplet right
  some (if triplet_lt a b then less else if triplet_lt b a then greater else equal)

abbrev pub is_less : Option Comparison → Bool
is_less (some less) = true
is_less _ = false

-- The `for` loop over the eligible versions.
unfoldable pub lowest_of : Text → List Text → Text
lowest_of lowest [] = lowest
lowest_of lowest (ver ∷ rest) =
    lowest_of (if is_less (compare_versions ver lowest) then ver else lowest) rest

abbrev pub lowest_eligible : List Text → Option Text
lowest_eligible [] = none
lowest_eligible (v ∷ vs) = some (lowest_of v vs)

unfoldable pub pick_lowest_version_gt : Text → List Text → Option Text
pick_lowest_version_gt from_version candidates =
    lowest_eligible (keep (λ ver. is_less (compare_versions from_version ver)) candidates)

unfoldable pub kind_of_triplets : Option Triplet → Option Triplet → FixKind
kind_of_triplets none b = major
kind_of_triplets (some a) none = major
kind_of_triplets (some a) (some b) =
    if a.major_number == b.major_number
    then (if a.minor_number == b.minor_number then patch else minor)
    else major

unfoldable pub classify_fix_kind : Text → Text → FixKind
unfolding kind_of_triplets
classify_fix_kind from_version to_version =
    kind_of_triplets (parse_semver_triplet from_version) (parse_semver_triplet to_version)
