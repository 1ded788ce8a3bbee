-- ===== src/Lockfile/Parents.antt =====
-- The second pass: which packages declare each installed one, by npm's nearest-ancestor rule.
-- The display path, a breadth-first search over names, is left out.
pub mod Nearest
pub mod Declared
pub mod Declarers
use arguss.Base.{
  ℕ, suc, ◌≡◌, refl, Bool, true, false, not, ◌||◌, ◌&&◌, Option, none, some, List, [], ◌∷◌, ◌++◌,
  map, if◌then◌else◌, is_empty, length, Text, codes, is_in, starts_with, Dict, lookup, insert,
  sorted_set, text_eq,
}
use arguss.Models.{Dependency}
use arguss.Lockfile.{
  Package, Packages, separator, node_modules, root_name, last_name, parse_package_path,
}
use arguss.Lockfile.Scopes.{ancestor_prefixes}

unfoldable pub last_of : List Text → Option Text
last_of [] = none
last_of (n ∷ ns) = some (last_name n ns)

unfoldable pub logical_parent_name_for_pkg_path : Text → Option Text
unfolding last_of
logical_parent_name_for_pkg_path pkg_path =
    if is_empty pkg_path
    then some root_name
    else if starts_with node_modules pkg_path
    then last_of (parse_package_path pkg_path)
    else none

unfoldable pub child_dep_keys_for_packages_entry : Text → Package → List Text
child_dep_keys_for_packages_entry pkg_path pkg =
    if is_empty pkg_path then pkg.dependencies ++ pkg.dev_dependencies else pkg.dependencies

abbrev pub prefixes_of : Option (List Text) → List Text
prefixes_of none = []
prefixes_of (some l) = l

unfoldable pub candidate_key : Text → Text → Text
candidate_key prefix child_name =
    if is_empty prefix then node_modules ++ child_name else prefix ++ (separator ++ child_name)

-- A package that is really installed at its key.
unfoldable pub is_installed : Option Package → Bool
is_installed none = false
is_installed (some pkg) = not (pkg.link || pkg.extraneous) && not (is_empty pkg.version)

unfoldable pub first_installed : Text → Packages → List Text → Option Text
unfolding candidate_key is_installed
first_installed child_name packages [] = none
first_installed child_name packages (prefix ∷ prefixes) =
    let later = first_installed child_name packages prefixes in
    if is_installed (lookup (candidate_key prefix child_name) packages)
    then some (candidate_key prefix child_name)
    else later

unfoldable pub resolve_physical_install_key : Text → Text → Packages → Option Text
unfolding first_installed
resolve_physical_install_key declarer_key child_name packages =
    first_installed child_name packages
      (prefixes_of (ancestor_prefixes (suc (length declarer_key)) declarer_key))

-- install_parents.setdefault(key, set()).add(name); a set is a list without repetitions, whose
-- order nothing reads.
unfoldable pub added : Text → Option (List Text) → List Text
added name none = name ∷ []
added name (some names) = if is_in name names then names else names ++ (name ∷ [])

unfoldable pub add_to_set : Text → Text → Dict (List Text) → Dict (List Text)
unfolding added
add_to_set key name d = insert key (added name (lookup key d)) d

unfoldable pub add_edge : List Text → Text → Option Text → Dict (List Text) → Dict (List Text)
unfolding add_to_set
add_edge install_keys parent_name none d = d
add_edge install_keys parent_name (some target_key) d =
    if is_in target_key install_keys then add_to_set target_key parent_name d else d

unfoldable pub add_children :
    Packages → List Text → Text → Text → List Text → Dict (List Text) → Dict (List Text)
unfolding add_edge
add_children packages install_keys pkg_path parent_name [] d = d
add_children packages install_keys pkg_path parent_name (child ∷ children) d =
    add_children packages install_keys pkg_path parent_name children
      (add_edge install_keys parent_name (resolve_physical_install_key pkg_path child packages) d)

unfoldable pub add_declarer :
    Packages → List Text → Text → Package → Option Text → Dict (List Text) → Dict (List Text)
unfolding add_children
add_declarer packages install_keys pkg_path pkg none d = d
add_declarer packages install_keys pkg_path pkg (some parent_name) d =
    add_children packages install_keys pkg_path parent_name
      (child_dep_keys_for_packages_entry pkg_path pkg) d

-- The loop over `packages.items()`, of which `rest` is to come.
unfoldable pub add_declarers : Packages → List Text → Packages → Dict (List Text) → Dict (List Text)
unfolding add_declarer
add_declarers packages install_keys [] d = d
add_declarers packages install_keys ((pkg_path, pkg) ∷ rest) d =
    add_declarers packages install_keys rest (
      add_declarer packages install_keys pkg_path pkg (logical_parent_name_for_pkg_path pkg_path) d)

unfoldable pub build_install_parents_map : Packages → List Text → Dict (List Text)
unfolding add_declarers
build_install_parents_map packages install_keys = add_declarers packages install_keys packages []

-- sorted(install_parents.get(install_key, {"root"}))
unfoldable pub parents_of : Dict (List Text) → Text → List Text
parents_of install_parents install_key =
    sorted_set
      (elim (lookup install_key install_parents) [ none ↦ root_name ∷ [] | some names ↦ names ])
