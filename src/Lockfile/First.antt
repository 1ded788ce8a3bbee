-- ===== src/Lockfile/First.antt =====
-- The first pass: one dependency for each place in `node_modules`, under a key of its own.
use arguss.Base.{
  not-false, or-false, or_of_false, ◌⊎◌, ◌∙◌, ◌≡◌, refl, sym, subst, ap, arith, Bool, true, false,
  Option, none, some, List, [], ◌∷◌, map, if◌then◌else◌, is_empty, All, All-of_Member, Text, is_in,
  starts_with, text_eq_iff, Bool-cases, inl, inr, Distinct,
}
use arguss.Base.Results.{first_failure, ok, error, bind-ok, require, require-Passed, Result-cases}
use arguss.Models.{Dependency}
use arguss.Lockfile.{
  Package, Packages, ParserError, node_modules, install_key_checks, parse_package_path,
  dependency_at, build_dependency, is_passed_over, with_dependency, first_pass, assert_install_keys,
}

abbrev pub keys_of : List Dependency → List Text
keys_of = map (λ d. d.install_key)

abbrev pub paths_of : Packages → List Text
paths_of = map (λ e. e.0)

-- A key that the parser gives out.
pub record Relative (d : Dependency) : Type 0 where
  pub inside : starts_with node_modules d.install_key ≡ true
  pub versioned : is_empty d.version ≡ false

built :
    (names : List Text) (pkg_path : Text) (pkg : Package) (d : Dependency)
    → build_dependency pkg_path pkg names ≡ ok (some d)
    → (d.install_key ≡ pkg_path) × Relative d
unfolding build_dependency dependency_at install_key_checks
built names pkg_path pkg d h = elim (Bool-cases (is_empty pkg.version)) [
  | inl y ↦ cc (rw y at h)
  | inr n ↦ elim (Bool-cases (is_empty (parse_package_path pkg_path))) [
    | inl y ↦ cc (rw (n, y) at h)
    | inr m ↦
        let (q, p) = require-Passed _ _ (some d) (rw (n, m) at h) in
        let e : dependency_at names pkg_path pkg.version (parse_package_path pkg_path) ≡ d = cc q in
        (
          ap (λ x. x.install_key) (sym e),
          subst Relative e (record { inside = not-false _ p.1.1.1.1.0; versioned = n }),
        )
  ]
]

-- What the first pass has gathered from the entries `packages`.
record Gathered (packages : Packages) (deps : List Dependency) : Type 0 where
  relative : All Relative deps
  fresh : (k : Text) → is_in k (paths_of packages) ≡ false → is_in k (keys_of deps) ≡ false
  distinct : Distinct (keys_of deps)

gather :
    (pkg_path : Text) (pkg : Package) (packages : Packages) (o : Option Dependency)
    (deps : List Dependency)
    → is_in pkg_path (paths_of packages) ≡ false
    → ((d : Dependency) → o ≡ some d → (d.install_key ≡ pkg_path) × Relative d)
    → Gathered packages deps
    → Gathered ((pkg_path, pkg) ∷ packages) (with_dependency o deps)
unfolding with_dependency
gather pkg_path pkg packages none deps n f g = record {
  relative = g.relative;
  fresh = λ k h. g.fresh k (ground arith);
  distinct = g.distinct;
}
gather pkg_path pkg packages (some d) deps n f g =
    let (e, r) = f d refl in
    record {
      relative = (r, g.relative);
      fresh = λ k h. let (x, y) = or-false _ _ h in or_of_false _ _ (rw e x) (g.fresh k y);
      distinct = (rw e (g.fresh pkg_path n), g.distinct);
    }

first_pass-Gathered :
    (names : List Text) (packages : Packages) (deps : List Dependency)
    → Distinct (paths_of packages)
    → first_pass names packages ≡ ok deps
    → Gathered packages deps
unfolding first_pass
first_pass-Gathered names [] deps h e =
    let q : [] ≡ deps = cc e in
    subst (Gathered []) q (record { relative = tt; fresh = λ k h. h; distinct = tt })
first_pass-Gathered names ((pkg_path, pkg) ∷ packages) deps h e =
    let (o, e1, rest) =
      bind-ok (if is_passed_over pkg_path pkg then ok none else build_dependency pkg_path pkg names)
        _ deps e in
    let (later, e2, e3) = bind-ok (first_pass names packages) _ deps rest in
    let q : with_dependency o later ≡ deps = cc e3 in
    subst (Gathered ((pkg_path, pkg) ∷ packages)) q (
      gather pkg_path pkg packages o later h.0
        (λ d s. of_entry (is_passed_over pkg_path pkg) o d e1 s)
        (first_pass-Gathered names packages later h.1 e2))
  where
    of_entry :
        (b : Bool) (o : Option Dependency) (d : Dependency)
        → (if b then ok none else build_dependency pkg_path pkg names) ≡ ok o
        → o ≡ some d
        → (d.install_key ≡ pkg_path) × Relative d
    of_entry true o d e1 s = cc
    of_entry false o d e1 s = built names pkg_path pkg d (e1 ∙ ap ok s)

-- The final assertion on the keys holds of dependencies with distinct keys in `node_modules`.
assert-ok :
    (seen : List Text) (deps : List Dependency)
    → All Relative deps
    → Distinct (keys_of deps)
    → All (λ d. is_in d.install_key seen ≡ false) deps
    → assert_install_keys seen deps ≡ ok tt
unfolding assert_install_keys require first_failure starts_with
assert-ok seen [] r d f = refl
assert-ok seen (x ∷ deps) r d f =
    rw (not_empty x.install_key r.0.inside, f.0)
      (assert-ok (x.install_key ∷ seen) deps r.1 d.1 (unseen deps d.0 f.1))
  where
    not_empty : (k : Text) → starts_with node_modules k ≡ true → is_empty k ≡ false
    not_empty [] h = cc
    not_empty (c ∷ k) h = refl

    unseen :
        (ds : List Dependency)
        → is_in x.install_key (keys_of ds) ≡ false
        → All (λ d. is_in d.install_key seen ≡ false) ds
        → All (λ d. is_in d.install_key (x.install_key ∷ seen) ≡ false) ds
    unseen [] n f = tt
    unseen (d ∷ ds) n f = (
      ground
          (arith, text_eq_iff x.install_key d.install_key, text_eq_iff d.install_key x.install_key),
      unseen ds (ground arith) f.1,
    )

-- The first pass over entries with different keys either raises, or gives dependencies under
-- different keys inside `node_modules`, each with a version, on which the parser's final assertion does not fire.
pub first_pass-asserted :
    (names : List Text) (packages : Packages)
    → Distinct (paths_of packages)
    → ((e : ParserError) × (first_pass names packages ≡ error e))
      ⊎ ((deps : List Dependency) × (first_pass names packages ≡ ok deps)
          × All Relative deps
          × Distinct (keys_of deps)
          × (assert_install_keys [] deps ≡ ok tt))
first_pass-asserted names packages h = elim (Result-cases (first_pass names packages)) [
  | inl x ↦ inl x
  | inr (deps, e) ↦
      let g = first_pass-Gathered names packages deps h e in
      inr (
        deps,
        e,
        g.relative,
        g.distinct,
        assert-ok [] deps g.relative g.distinct (All-of_Member _ deps (λ d m. refl)),
      )
]
