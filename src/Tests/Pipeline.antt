-- ===== src/Tests/Pipeline.antt =====
-- The pipeline lens on a sample repository.
use arguss.Base.{
  ◌≡◌, ◌↔◌, refl, true, Option, none, some, List, [], ◌∷◌, codes, text_eq, strip, has_substring,
  ends_with,
}
use arguss.Lenses.Pipeline.{
  Patterns, PackageJson, WalkedDir, Workflows, build_test_reality, count_test_files,
  workflow_runs_tests, has_test_script, test_script_is_no_op, assess,
}
use arguss.Lenses.Pipeline.Reality.{reasons_iff}

-- Patterns that are narrower than those of the source.
abbrev plain_patterns : Patterns
plain_patterns = record {
  exit_zero = λ t. text_eq t (codes "exit 0");
  echo_no_test = λ t. has_substring (codes "no test") t;
  test_invocation = λ t. has_substring (codes "npm test") t;
}

abbrev one_test : List WalkedDir
one_test = record { first_part = none; filenames = codes "a.js" ∷ codes "a.test.js" ∷ [] } ∷ []

abbrev npm_test : Workflows
npm_test = some (some (codes "run: npm test") ∷ [])

abbrev jest : Option PackageJson
jest = some (record { scripts = some (some (codes "jest")) })

jest_is_real : (build_test_reality plain_patterns one_test npm_test jest).safe_to_auto_merge ≡ true
unfolding build_test_reality assess count_test_files workflow_runs_tests has_test_script
    test_script_is_no_op text_eq strip has_substring ends_with
jest_is_real = refl

reasons_iff_example :
    ((build_test_reality plain_patterns one_test npm_test jest).reasons_blocked ≡ [])
    ↔ ((build_test_reality plain_patterns one_test npm_test jest).safe_to_auto_merge ≡ true)
reasons_iff_example = reasons_iff plain_patterns one_test npm_test jest
