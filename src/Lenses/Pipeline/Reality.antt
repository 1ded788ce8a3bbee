-- ===== src/Lenses/Pipeline/Reality.antt =====
-- When tests count as real, and what is said when they do not.
use arguss.Base.{
  ℕ, ◌≤◌, ◌≡◌, ◌↔◌, refl, Bool, true, false, ◌&&◌, not, Option, List, [], ◌++◌, arith, ltb, length,
  length-sorted, sorted, text_le, Text, codes, Bool-cases, inl, inr,
}
use arguss.Lenses.Pipeline.{
  Patterns, PackageJson, WalkedDir, Workflows, script_reasons, workflow_reasons, reason_if, assess,
  is_present, found_script, found_noop, count_test_files, workflow_runs_tests, build_test_reality,
}

abbrev all_reasons : Bool → Bool → Bool → Bool → Bool → Bool → List Text
all_reasons json script noop files dir runs =
    script_reasons json script noop
    ++ (reason_if (not files) (codes "no test files in your project") ++ workflow_reasons dir runs)

some_reason :
    (json script noop files dir runs : Bool)
    → (script && (not noop && (files && runs))) ≡ false
    → 1 ≤ length (all_reasons json script noop files dir runs)
unfolding script_reasons workflow_reasons
some_reason false script noop files dir runs h = omega arith
some_reason true false noop files dir runs h = omega arith
some_reason true true true files dir runs h = omega arith
some_reason true true false false dir runs h = omega arith
some_reason true true false true false runs h = omega arith
some_reason true true false true true false h = omega arith
some_reason true true false true true true h = cc

nonempty_sorted : (ts : List Text) → 1 ≤ length ts → sorted text_le ts ≡ [] → ⊥
nonempty_sorted ts h e =
    let k = length-sorted text_le ts in let l : 0 ≡ length ts = (rw e at k) in omega (arith, l)

assess_reasons :
    (json script noop : Bool) (count : ℕ) (dir runs : Bool)
    → ((assess json script noop count dir runs).reasons_blocked ≡ [])
      ↔ ((assess json script noop count dir runs).safe_to_auto_merge ≡ true)
unfolding assess
assess_reasons json script noop count dir runs =
    elim (Bool-cases (script && (not noop && (ltb 0 count && runs)))) [
      | inl t ↦ rw t (λ _. refl, λ _. refl)
      | inr f ↦
          let k = nonempty_sorted _ (some_reason json script noop (ltb 0 count) dir runs f) in
          rw f (λ e. absurd (k e), λ e. cc)
    ]

-- The reasons of a blocked repository are missing exactly when it is not blocked: none is blocked
-- without a reason.
pub reasons_iff :
    (re : Patterns) (walk : List WalkedDir) (workflows : Workflows)
    (package_json : Option PackageJson)
    → ((build_test_reality re walk workflows package_json).reasons_blocked ≡ [])
      ↔ ((build_test_reality re walk workflows package_json).safe_to_auto_merge ≡ true)
unfolding build_test_reality
reasons_iff re walk workflows package_json =
    assess_reasons (is_present package_json) (found_script package_json)
      (found_noop re package_json) (count_test_files 0 walk) (is_present workflows)
      (workflow_runs_tests re workflows)
