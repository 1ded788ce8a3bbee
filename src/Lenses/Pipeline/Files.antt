-- ===== src/Lenses/Pipeline/Files.antt =====
-- The count of test files, which the walk stops at 1000.
use arguss.Base.{
  ℕ, ◌+◌, ◌≤◌, min, ◌≡◌, Bool, List, [], ◌∷◌, suc, arith, leb, if◌then◌else◌, Text, sum,
}
use arguss.Lenses.Pipeline.{WalkedDir, is_test_file, in_test_dir, count_files, count_test_files}

-- The test files of a directory, and of the whole walk, without the stop.
abbrev pub files_in : Bool → List Text → ℕ
files_in in_dir = sum (λ f. if is_test_file in_dir f then 1 else 0)

abbrev pub all_files : List WalkedDir → ℕ
all_files = sum (λ (d : WalkedDir). files_in (in_test_dir d.first_part) d.filenames)

count_files-min :
    (in_dir : Bool) (n : ℕ) (fs : List Text)
    → n ≤ 1000
    → count_files in_dir n fs ≡ min 1000 (n + files_in in_dir fs)
unfolding count_files
count_files-min in_dir n [] h = ground arith
count_files-min in_dir n (f ∷ fs) h =
    let m = if leb 1000 n then n else if is_test_file in_dir f then suc n else n in
    let b : m ≤ 1000 = ground arith in let ih = count_files-min in_dir m fs b in ground (arith, ih)

count_from :
    (n : ℕ) (walk : List WalkedDir)
    → n ≤ 1000
    → count_test_files n walk ≡ min 1000 (n + all_files walk)
unfolding count_test_files
count_from n [] h = ground arith
count_from n (d ∷ ds) h =
    let k = count_files-min (in_test_dir d.first_part) n d.filenames h in
    let b : count_files (in_test_dir d.first_part) n d.filenames ≤ 1000 = ground (arith, k) in
    let ih = count_from (count_files (in_test_dir d.first_part) n d.filenames) ds b in
    ground (arith, k, ih)

-- The walk counts the test files of all directories, or 1000 if there are more.
pub count_test_files-min :
    (walk : List WalkedDir) → count_test_files 0 walk ≡ min 1000 (all_files walk)
count_test_files-min walk = omega (arith, count_from 0 walk (omega arith))
