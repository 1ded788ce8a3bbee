-- ===== src/Cache/Migrations.antt =====
-- `init_db`: which migrations a start applies. The files are given in their sorted order, each with
-- the number of its name; a number that the table holds already cannot be inserted again.
use arguss.Base.{
  ℕ, ◌≤◌, ◌≡◌, refl, subst, ap, sym, ◌∙◌, arith, Bool, true, false, List, [], ◌∷◌, ◌++◌, map, max,
  if◌then◌else◌, ltb, ◌==◌, Bool-cases, inl, inr, keep, any, All, Text,
}
use mathlib.Core.List.{append-nil, append_assoc}
use arguss.Base.Results.{Result, ok, ◌>>=◌, bind-ok, require, require-Passed}

pub record Migration : Type 0 where
  pub version : ℕ
  pub sql : Text

-- The numbers in schema_version, and the scripts that were run, in their order.
pub record Schema : Type 0 where
  pub applied : List ℕ
  pub scripts : List Text

pub data MigrationError : Type 0 where
  version_applied_twice : MigrationError

-- SELECT MAX(version) FROM schema_version, or 0
abbrev pub max_version : List ℕ → ℕ
max_version [] = 0
max_version (v ∷ vs) = max v (max_version vs)

unfoldable pub insert_version : Migration → Schema → Result MigrationError Schema
insert_version m s =
    require ((any (λ v. v == m.version) s.applied, version_applied_twice) ∷ [])
      (record { applied = s.applied ++ (m.version ∷ []); scripts = s.scripts ++ (m.sql ∷ []) })

unfoldable pub apply_file : ℕ → Migration → Schema → Result MigrationError Schema
unfolding insert_version
apply_file current m s = if ltb current m.version then insert_version m s else ok s

unfoldable pub apply_files : ℕ → List Migration → Schema → Result MigrationError Schema
unfolding apply_file
apply_files current [] s = ok s
apply_files current (m ∷ ms) s = apply_file current m s >>= apply_files current ms

unfoldable pub init_db : List Migration → Schema → Result MigrationError Schema
unfolding apply_files
init_db files s = apply_files (max_version s.applied) files s

abbrev pub is_pending : ℕ → Migration → Bool
is_pending current m = ltb current m.version

-- The schema with the files that are pending added, in their order.
abbrev pub with_files : List Migration → Schema → Schema
with_files ms s = record {
  applied = s.applied ++ map (λ m. m.version) ms;
  scripts = s.scripts ++ map (λ m. m.sql) ms;
}

apply_file_lem :
    (current : ℕ) (m : Migration) (s t : Schema)
    → apply_file current m s ≡ ok t
    → t ≡ with_files (keep (is_pending current) (m ∷ [])) s
unfolding apply_file insert_version
apply_file_lem current m s t h = elim (Bool-cases (ltb current m.version)) [
  | inl y ↦ let (q, p) = require-Passed _ _ t (rw y at h) in rw y (sym q)
  | inr n ↦
      let q : s ≡ t = cc (rw n at h) in rw (n, append-nil s.applied, append-nil s.scripts) (sym q)
]

apply_files_lem :
    (current : ℕ) (ms : List Migration) (s t : Schema)
    → apply_files current ms s ≡ ok t
    → t ≡ with_files (keep (is_pending current) ms) s
unfolding apply_files
apply_files_lem current [] s t h =
    let q : s ≡ t = cc h in rw (append-nil s.applied, append-nil s.scripts) (sym q)
apply_files_lem current (m ∷ ms) s t h =
    let (u, e1, e2) = bind-ok (apply_file current m s) _ t h in
    apply_files_lem current ms u t e2
    ∙ (ap (with_files (keep (is_pending current) ms)) (apply_file_lem current m s u e1)
        ∙ joined (ltb current m.version))
  where
    joined :
        (b : Bool)
        → with_files (keep (is_pending current) ms) (with_files (if b then m ∷ [] else []) s)
          ≡ with_files
              (if b then m ∷ keep (is_pending current) ms else keep (is_pending current) ms)
              s
    joined true =
        rw
          (
            append_assoc s.applied (m.version ∷ [])
                (map (λ f. f.version) (keep (is_pending current) ms)),
            append_assoc s.scripts (m.sql ∷ []) (map (λ f. f.sql) (keep (is_pending current) ms)),
          )
          refl
    joined false = rw (append-nil s.applied, append-nil s.scripts) refl

max_version-left : (xs ys : List ℕ) → max_version xs ≤ max_version (xs ++ ys)
max_version-left [] ys = omega arith
max_version-left (x ∷ xs) ys = omega (arith, max_version-left xs ys)

max_version-right : (xs ys : List ℕ) → max_version ys ≤ max_version (xs ++ ys)
max_version-right [] ys = omega arith
max_version-right (x ∷ xs) ys = omega (arith, max_version-right xs ys)

-- Every file is covered by the largest number that a run leaves.
covered :
    (current : ℕ) (ms : List Migration) (top : ℕ)
    → current ≤ top
    → max_version (map (λ m. m.version) (keep (is_pending current) ms)) ≤ top
    → All (λ m. m.version ≤ top) ms
covered current [] top h k = tt
covered current (m ∷ ms) top h k = by_test (ltb current m.version) refl (covered current ms top h) k
  where
    by_test :
        (b : Bool)
        → ltb current m.version ≡ b
        → (max_version (map (λ f. f.version) (keep (is_pending current) ms)) ≤ top
            → All (λ f. f.version ≤ top) ms)
        → max_version (
            map
              (λ f. f.version)
              (if b then m ∷ keep (is_pending current) ms else keep (is_pending current) ms))
          ≤ top
        → All (λ f. f.version ≤ top) (m ∷ ms)
    by_test true e rec k = (omega (arith, k), rec (omega (arith, k)))
    by_test false e rec k = (ground (arith, h), rec k)

apply_none :
    (top : ℕ) (ms : List Migration) (s : Schema)
    → All (λ m. m.version ≤ top) ms
    → apply_files top ms s ≡ ok s
unfolding apply_files apply_file
apply_none top [] s h = refl
apply_none top (m ∷ ms) s h =
    let off : ltb top m.version ≡ false = ground (arith, h.0) in rw off (apply_none top ms s h.1)

-- A start that succeeds has run the scripts of exactly the files whose number is above the largest
-- one applied before, in their order, and has recorded their numbers; another start then succeeds
-- and applies nothing.
pub init_db-twice :
    (files : List Migration) (s t : Schema)
    → init_db files s ≡ ok t
    → (t ≡ with_files (keep (is_pending (max_version s.applied)) files) s)
      × (init_db files t ≡ ok t)
unfolding init_db
init_db-twice files s t h =
    let e = apply_files_lem (max_version s.applied) files s t h in
    (
      e,
      apply_none (max_version t.applied) files t (
          subst (λ a. All (λ m. m.version ≤ max_version a) files) (sym (ap (λ x. x.applied) e))
            (covered (max_version s.applied) files _ (max_version-left s.applied _)
              (max_version-right s.applied _))),
    )
