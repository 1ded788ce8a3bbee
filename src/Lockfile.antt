-- ===== src/Lockfile.antt =====
-- arguss/core/parser.py: an npm lockfile as a list of dependencies, each at its place on disk.
-- The file is read and decoded elsewhere: `packages` is the decoded object, its entries being
-- objects. A value that the code only tests for truth is a Boolean; a missing version is empty.
pub mod Scopes
pub mod Keys
pub mod Parents
pub mod First
use arguss.Base.{
  ℕ, zero, suc, Bool, true, false, not, ◌||◌, ◌&&◌, Option, none, some, List, [], ◌∷◌, ◌++◌, map,
  if◌then◌else◌, is_empty, keep, drop, length, Text, codes, text_eq, is_in, starts_with,
  has_substring, lower, Dict, lookup, insert, sorted, text_le, text_lt, any, ◌==◌,
}
use arguss.Base.Results.{Result, ok, error, ◌>>=◌, require}
use arguss.Base.Splits.{split_text, before_last}
use arguss.Models.{Dependency}

pub record Package : Type 0 where
  pub version : Text
  pub link : Bool
  pub extraneous : Bool
  pub dependencies : List Text
  pub dev_dependencies : List Text

abbrev pub Packages : Type 0
Packages = Dict Package

pub data ParserError : Type 0 where
  unsupported_version : ParserError
  empty_key absolute_key url_key temp_path_key foreign_key : ParserError
  missing_key duplicate_key : ParserError

abbrev pub separator : Text
separator = codes "/node_modules/"

abbrev pub node_modules : Text
node_modules = codes "node_modules/"

unfoldable pub validate_lockfile_version : Option ℕ → Result ParserError ℕ
validate_lockfile_version none = error unsupported_version
validate_lockfile_version (some v) =
    require ((not ((v == 2) || (v == 3)), unsupported_version) ∷ []) v

unfoldable pub extract_direct_dep_names : Packages → List Text
extract_direct_dep_names packages = elim (lookup [] packages) [
  | none ↦ []
  | some root ↦ root.dependencies ++ root.dev_dependencies
]

abbrev pub non_empty : Text → Bool
non_empty p = not (is_empty p)

unfoldable pub strip_first : List Text → List Text
strip_first [] = []
strip_first (p ∷ ps) = (if starts_with node_modules p then drop (length node_modules) p else p) ∷ ps

unfoldable pub parse_package_path : Text → List Text
unfolding strip_first
parse_package_path pkg_path =
    if starts_with node_modules pkg_path
    then keep non_empty (strip_first (split_text separator pkg_path))
    else []

abbrev temp_fragments : List Text
temp_fragments =
    codes "/tmp/" ∷ codes "/var/folders/" ∷ codes "/private/var/folders/" ∷ codes "\\temp\\" ∷ []

-- `_assert_install_key_is_lockfile_relative`
unfoldable pub install_key_checks : Text → List (Bool × ParserError)
install_key_checks key =
    (is_empty key, empty_key)
    ∷ (starts_with (codes "/") key || starts_with (92 ∷ []) key, absolute_key)
    ∷ (has_substring (codes "://") key, url_key)
    ∷ (any (λ fragment. has_substring fragment (lower key)) temp_fragments, temp_path_key)
    ∷ (not (starts_with node_modules key), foreign_key)
    ∷ []

abbrev pub root_name : Text
root_name = codes "root"

-- The last two names of a chain, the nearer to the end first: `chain[-1]` and `chain[-2]`.
unfoldable pub last_name : Text → List Text → Text
last_name d [] = d
last_name d (x ∷ xs) = last_name x xs

unfoldable pub parent_of_chain : Text → List Text → Text
parent_of_chain d [] = d
parent_of_chain d (x ∷ []) = d
parent_of_chain d (x ∷ y ∷ r) = parent_of_chain x (y ∷ r)

unfoldable pub dependency_at : List Text → Text → Text → List Text → Dependency
unfolding last_name parent_of_chain
dependency_at direct_dep_names pkg_path version chain = record {
  name = last_name [] chain;
  version = version;
  ecosystem = codes "npm";
  direct = is_in (last_name [] chain) direct_dep_names;
  path = root_name ∷ chain;
  parents = parent_of_chain root_name chain ∷ [];
  install_key = pkg_path;
}

unfoldable pub build_dependency :
    Text → Package → List Text → Result ParserError (Option Dependency)
unfolding dependency_at
build_dependency pkg_path pkg direct_dep_names =
    let chain = parse_package_path pkg_path in
    if is_empty pkg.version
    then ok none
    else if is_empty chain
    then ok none
    else require (install_key_checks pkg_path)
        (some (dependency_at direct_dep_names pkg_path pkg.version chain))

-- The tests of the loop in `parse_lockfile` that pass an entry over.
unfoldable pub is_passed_over : Text → Package → Bool
is_passed_over pkg_path pkg =
    if is_empty pkg_path
    then true
    else if starts_with node_modules pkg_path
    then pkg.link || pkg.extraneous
    else true

unfoldable pub with_dependency : Option Dependency → List Dependency → List Dependency
with_dependency none later = later
with_dependency (some d) later = d ∷ later

-- The first pass: `by_install_key.values()`, in the order of the file.
unfoldable pub first_pass : List Text → Packages → Result ParserError (List Dependency)
unfolding is_passed_over with_dependency
first_pass direct_dep_names [] = ok []
first_pass direct_dep_names ((pkg_path, pkg) ∷ packages) = do
  d ←
      if is_passed_over pkg_path pkg
      then ok none
      else build_dependency pkg_path pkg direct_dep_names
  later ← first_pass direct_dep_names packages
  ok (with_dependency d later)

-- `_assert_parser_install_keys`
unfoldable pub assert_install_keys : List Text → List Dependency → Result ParserError (Unit {0})
assert_install_keys seen [] = ok tt
assert_install_keys seen (d ∷ ds) = do
  u ←
      require
        ((is_empty d.install_key, missing_key) ∷ (is_in d.install_key seen, duplicate_key) ∷ []) tt
  assert_install_keys (d.install_key ∷ seen) ds
