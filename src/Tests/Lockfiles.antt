-- ===== src/Tests/Lockfiles.antt =====
-- A small lockfile: two copies of one package, at different depths.
use arguss.Base.{
  ◌≡◌, ◌↔◌, ◌⊎◌, refl, true, false, some, List, [], ◌∷◌, ◌++◌, codes, Text, text_eq, starts_with,
  has_substring, All, Distinct, is_some, lookup, arith,
}
use arguss.Base.Results.{ok, error}
use arguss.Base.Splits.{before_last, rsplit_head}
use arguss.Models.{Dependency}
use arguss.Lockfile.{
  Package, Packages, ParserError, node_modules, parse_package_path, first_pass, assert_install_keys,
}
use arguss.Lockfile.Scopes.{
  ancestor_prefixes, next_scope, cons_to, from_next, key_of, enclosing, CleanName, scopes_end,
}
use arguss.Lockfile.Keys.{IsName, join_names, parse-join}
use arguss.Lockfile.Parents.{
  resolve_physical_install_key, first_installed, candidate_key, is_installed,
  build_install_parents_map,
}
use arguss.Lockfile.Parents.Nearest.{IsNearest, resolve-IsNearest}
use arguss.Lockfile.Parents.Declared.{Declarer}
use arguss.Lockfile.Parents.Declarers.{Has, parents_map-declarers}
use arguss.Lockfile.First.{Relative, keys_of, paths_of, first_pass-asserted}

abbrev needing : List Text → Package
needing names = record {
  version = codes "1.0.0";
  link = false;
  extraneous = false;
  dependencies = names;
  dev_dependencies = [];
}

abbrev packages : Packages
packages =
    (codes "", needing (codes "a" ∷ codes "b" ∷ []))
    ∷ (codes "node_modules/a", needing (codes "b" ∷ []))
    ∷ (codes "node_modules/a/node_modules/b", needing [])
    ∷ (codes "node_modules/b", needing [])
    ∷ []

nearest_copy :
    resolve_physical_install_key (codes "node_modules/a") (codes "b") packages
    ≡ some (codes "node_modules/a/node_modules/b")
unfolding resolve_physical_install_key first_installed candidate_key is_installed ancestor_prefixes
    next_scope cons_to from_next rsplit_head before_last has_substring starts_with lookup text_eq
nearest_copy = refl

a-IsName : IsName (codes "a")
unfolding starts_with
a-IsName = record { some_name = refl; clean = (refl, (refl, tt)) }

b-IsName : IsName (codes "b")
unfolding starts_with
b-IsName = record { some_name = refl; clean = (refl, (refl, tt)) }

a_clean : CleanName (codes "a")
a_clean = a-IsName.clean

parse-join_example :
    parse_package_path (node_modules ++ join_names (codes "a") (codes "b" ∷ []))
    ≡ codes "a" ∷ codes "b" ∷ []
parse-join_example = parse-join (codes "a") (codes "b" ∷ []) (a-IsName, (b-IsName, tt))

scopes_end_example : is_some (ancestor_prefixes 40 (codes "node_modules/a")) ≡ true
scopes_end_example = scopes_end 40 (codes "node_modules/a") (omega arith)

resolve-IsNearest_example :
    IsNearest
      (codes "b")
      packages
      (enclosing (codes "a" ∷ []))
      (resolve_physical_install_key (key_of (codes "a" ∷ [])) (codes "b") packages)
resolve-IsNearest_example = resolve-IsNearest (codes "b") packages (codes "a" ∷ []) (a_clean, tt)

parents_map-declarers_example :
    Has packages
      (codes "node_modules/b" ∷ [])
      (codes "node_modules/b")
      (codes "a")
      (build_install_parents_map packages (codes "node_modules/b" ∷ []))
    ↔ Declarer packages (codes "node_modules/b" ∷ []) (codes "node_modules/b") (codes "a")
parents_map-declarers_example =
    parents_map-declarers packages (codes "node_modules/b" ∷ []) (codes "node_modules/b")
      (codes "a")

keys_differ : Distinct (paths_of packages)
unfolding text_eq
keys_differ = (refl, (refl, (refl, (refl, tt))))

first_pass-asserted_example :
    ((e : ParserError) × (first_pass [] packages ≡ error e))
    ⊎ ((deps : List Dependency) × (first_pass [] packages ≡ ok deps)
        × All Relative deps
        × Distinct (keys_of deps)
        × (assert_install_keys [] deps ≡ ok tt))
first_pass-asserted_example = first_pass-asserted [] packages keys_differ
