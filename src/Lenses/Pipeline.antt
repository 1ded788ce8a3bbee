-- ===== src/Lenses/Pipeline.antt =====
-- arguss/lenses/pipeline.py: does the repository's CI verify a change? What Python's `re`, `os.walk`
-- and `json` give is an argument: the tests of the three patterns, the directories that the walk
-- visits, and the parsed package.json.
pub mod Reality
pub mod Files
use arguss.Base.{
  ℕ, suc, ◌+◌, min, Bool, true, false, ◌&&◌, not, Option, none, some, List, [], ◌∷◌, ◌++◌, ltb, leb,
  if◌then◌else◌, Text, codes, text_eq, text_le, is_in, is_empty, lower, strip, ends_with, any,
  sorted, sum,
}
use arguss.Models.{
  TestReality, ZizmorSeverity, informational, low, medium, high, ZizmorFinding, PipelineSnapshot,
}

-- `re.fullmatch(r"exit\s+0", …)`, _NO_OP_ECHO_NO_TEST_RE.search and _TEST_INVOCATION_RE.search.
pub record Patterns : Type 0 where
  pub exit_zero : Text → Bool
  pub echo_no_test : Text → Bool
  pub test_invocation : Text → Bool

-- package_json.get("scripts") where it is a dict, and its "test" where that is a string.
pub record PackageJson : Type 0 where
  pub scripts : Option (Option Text)

-- A directory of the walk: the first part of its relative path, and the names of its files.
pub record WalkedDir : Type 0 where
  pub first_part : Option Text
  pub filenames : List Text

-- `.github/workflows`, if it is a directory: the texts of its files, `none` for an `OSError`.
abbrev pub Workflows : Type 0
Workflows = Option (List (Option Text))

script_text : PackageJson → Text
script_text j = elim j.scripts [ none ↦ [] | some t ↦ elim t [ none ↦ [] | some raw ↦ strip raw ] ]

-- `_has_test_script`, for a file that was read: whether there is a script, and the script.
unfoldable pub has_test_script : PackageJson → Bool × Text
unfolding script_text
has_test_script j = (not (is_empty (script_text j)), script_text j)

unfoldable pub test_script_is_no_op : Patterns → Text → Bool
test_script_is_no_op re script =
    let s = strip script in
    if is_empty s
    then true
    else if text_eq (lower s) (codes "true")
    then true
    else if re.exit_zero (lower s)
    then true
    else re.echo_no_test s

test_dir_names : List Text
test_dir_names = codes "test" ∷ codes "tests" ∷ codes "__tests__" ∷ codes "spec" ∷ []

test_file_suffixes : List Text
test_file_suffixes =
    codes ".test.js"
    ∷ codes ".test.jsx"
    ∷ codes ".test.ts"
    ∷ codes ".test.tsx"
    ∷ codes ".test.mjs"
    ∷ codes ".spec.js"
    ∷ codes ".spec.jsx"
    ∷ codes ".spec.ts"
    ∷ codes ".spec.tsx"
    ∷ codes ".spec.mjs"
    ∷ []

unfoldable pub in_test_dir : Option Text → Bool
unfolding test_dir_names
in_test_dir none = false
in_test_dir (some part) = is_in part test_dir_names

unfoldable pub is_test_file : Bool → Text → Bool
unfolding test_file_suffixes
is_test_file true name = true
is_test_file false name = any (λ suffix. ends_with suffix (lower name)) test_file_suffixes

-- The early return at _MAX_TEST_FILE_WALK keeps the count, whatever files follow.
count_files : Bool → ℕ → List Text → ℕ
unfolding is_test_file
count_files in_dir n [] = n
count_files in_dir n (f ∷ fs) =
    count_files in_dir (if leb 1000 n then n else if is_test_file in_dir f then suc n else n) fs

unfoldable pub count_test_files : ℕ → List WalkedDir → ℕ
unfolding count_files in_test_dir
count_test_files n [] = n
count_test_files n (d ∷ ds) =
    count_test_files (count_files (in_test_dir d.first_part) n d.filenames) ds

runs_tests : Patterns → Option Text → Bool
runs_tests re none = false
runs_tests re (some text) = re.test_invocation text

unfoldable pub workflow_runs_tests : Patterns → Workflows → Bool
unfolding runs_tests
workflow_runs_tests re none = false
workflow_runs_tests re (some files) = any (runs_tests re) files

abbrev pub reason_if : Bool → Text → List Text
reason_if true r = r ∷ []
reason_if false r = []

script_reasons : Bool → Bool → Bool → List Text
script_reasons false has_script is_noop = codes "no package.json in your submission" ∷ []
script_reasons true false is_noop = codes "package.json has no scripts.test" ∷ []
script_reasons true true is_noop =
    reason_if is_noop (codes "test script is a no-op (matches sentinel pattern)")

workflow_reasons : Bool → Bool → List Text
workflow_reasons false runs = codes "no .github/workflows in your project" ∷ []
workflow_reasons true runs = reason_if (not runs) (codes "no GitHub Actions workflow runs tests")

-- From the conditions to the assessment.
unfoldable pub assess : Bool → Bool → Bool → ℕ → Bool → Bool → TestReality
unfolding script_reasons workflow_reasons
assess has_json has_script is_noop count has_dir runs =
    let reasons =
      script_reasons has_json has_script is_noop
      ++ (reason_if (not (ltb 0 count)) (codes "no test files in your project")
          ++ workflow_reasons has_dir runs) in
    let safe = has_script && (not is_noop && (ltb 0 count && runs)) in
    record {
      has_test_script = has_script;
      test_script_is_no_op = is_noop;
      has_test_files = ltb 0 count;
      test_count = count;
      workflow_runs_tests = runs;
      safe_to_auto_merge = safe;
      reasons_blocked = if safe then [] else sorted text_le reasons;
    }

abbrev pub is_present {ℓ} : {A : Type ℓ} → Option A → Bool
is_present none = false
is_present (some a) = true

abbrev pub found_script : Option PackageJson → Bool
found_script none = false
found_script (some j) = (has_test_script j).0

abbrev pub found_noop : Patterns → Option PackageJson → Bool
found_noop re none = false
found_noop re (some j) =
    if (has_test_script j).0 then test_script_is_no_op re (has_test_script j).1 else false

unfoldable pub build_test_reality :
    Patterns → List WalkedDir → Workflows → Option PackageJson → TestReality
unfolding assess
build_test_reality re walk workflows package_json =
    assess (is_present package_json) (found_script package_json) (found_noop re package_json)
      (count_test_files 0 walk) (is_present workflows) (workflow_runs_tests re workflows)

weight : ZizmorSeverity → ℕ
weight informational = 2
weight low = 5
weight medium = 15
weight high = 30

unfoldable pub compute_pipeline_subscore : List ZizmorFinding → TestReality → ℕ
unfolding weight
compute_pipeline_subscore findings reality =
    min
      (sum (λ (f : ZizmorFinding). weight f.severity) findings
        + (if reality.safe_to_auto_merge then 0 else 40))
      100
