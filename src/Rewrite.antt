-- ===== src/Rewrite.antt =====
-- arguss/web/lockfile_fix.py: one upgrade, written into a decoded lockfile and package.json. The
-- answer of the npm registry is a parameter, `none` where the client raises. The texts of the
-- reasons are constructors.
pub mod Search
pub mod Entries
pub mod Manifest
pub mod Answer
pub mod Exact
use arguss.Base.{
  ℕ, ◌+◌, ◌-◌, Bool, true, false, not, ◌&&◌, Option, none, some, List, [], ◌∷◌, ◌++◌, if◌then◌else◌,
  ◌==◌, drop, length, is_empty, is_some, any, Text, codes, text_eq, starts_with,
}
use arguss.Base.Results.{Result, ok, error, ◌>>=◌}
use arguss.Base.Splits.{split_text}
use arguss.Base.Paths.{last_or}
use arguss.Base.Json.{
  Json, null, bool, number, string, array, object, Members, no_members, member, get, set, string_of,
  object_of,
}
use arguss.Models.{FixCandidate}

abbrev direct_dep_sections : List Text
direct_dep_sections =
    codes "dependencies"
    ∷ codes "devDependencies"
    ∷ codes "optionalDependencies"
    ∷ codes "peerDependencies"
    ∷ []

pub data LockfileModificationError : Type 0 where
  unsupported_version packages_not_object : LockfileModificationError

pub data SkippedReason : Type 0 where
  no_entry registry_unavailable missing_dist incomplete_dist : SkippedReason
  not_declared corrupt_entry : SkippedReason

pub data FixApplicationResult : Type 0 where
  skipped : SkippedReason → FixApplicationResult
  applied : List Text → List Text → FixApplicationResult

-- package in deps
abbrev pub declares : Text → Option Members → Bool
declares name none = false
declares name (some deps) = is_some (get name deps)

unfoldable pub is_direct : Text → Members → Bool
is_direct name package_json =
    any (λ section. declares name (object_of (get section package_json))) direct_dep_sections

unfoldable pub entry_key_matches_package : Text → Text → Bool
unfolding last_or
entry_key_matches_package entry_key name =
    let dirs = codes "node_modules/" in
    if starts_with dirs entry_key
    then text_eq (last_or [] (split_text (codes "/node_modules/") (drop (length dirs) entry_key)))
        name
    else false

-- entry_data.get("version") == from_version
abbrev pub has_version : Text → Option Text → Bool
has_version v none = false
has_version v (some w) = text_eq w v

unfoldable pub is_entry : Text → Text → Text → Json → Bool
is_entry name from_version entry_key (object fields) =
    not (is_empty entry_key)
    && (entry_key_matches_package entry_key name
        && has_version from_version (string_of (get (codes "version") fields)))
is_entry name from_version entry_key _ = false

unfoldable pub matching_entries : Text → Text → Members → List Text
unfolding is_entry
matching_entries name from_version no_members = []
matching_entries name from_version (member k j ms) =
    let rest = matching_entries name from_version ms in
    if is_entry name from_version k j then k ∷ rest else rest

abbrev pub entries_of : Text → Text → Option Members → List Text
entries_of name from_version none = []
entries_of name from_version (some packages) = matching_entries name from_version packages

unfoldable pub find_lockfile_entries : Members → Text → Text → List Text
unfolding matching_entries
find_lockfile_entries lockfile name from_version =
    entries_of name from_version (object_of (get (codes "packages") lockfile))

unfoldable pub bump_range : Text → Text → Text
bump_range current_range to_version =
    if starts_with (codes "^") current_range
    then codes "^" ++ to_version
    else if starts_with (codes "~") current_range
    then codes "~" ++ to_version
    else if starts_with (codes ">=") current_range
    then codes ">=" ++ to_version
    else if starts_with (codes ">") current_range
    then codes ">" ++ to_version
    else to_version

abbrev pub new_range : Text → Option Text → Text
new_range to_version none = to_version
new_range to_version (some current_range) = bump_range current_range to_version

abbrev pub bumped : Text → Text → Option Members → Members
bumped name to_version none = no_members
bumped name to_version (some deps) =
    set name (string (new_range to_version (string_of (get name deps)))) deps

-- The loop over the sections; `none` where the code raises.
unfoldable pub update_sections : Text → Text → List Text → Members → Option Members
unfolding bump_range
update_sections name to_version [] package_json = none
update_sections name to_version (section ∷ sections) package_json =
    let deps = object_of (get section package_json) in
    let later = update_sections name to_version sections package_json in
    if declares name deps
    then some (set section (object (bumped name to_version deps)) package_json)
    else later

unfoldable pub update_package_json_version : Members → Text → Text → Option Members
unfolding update_sections
update_package_json_version package_json name to_version =
    update_sections name to_version direct_dep_sections package_json

abbrev pub is_version_3 : Option Json → Bool
is_version_3 (some (number n)) = n == 3
is_version_3 _ = false

abbrev pub packages_or_error : Option Members → Result LockfileModificationError Members
packages_or_error none = error packages_not_object
packages_or_error (some packages) = ok packages

unfoldable pub validate_lockfile : Members → Result LockfileModificationError Members
validate_lockfile lockfile =
    if is_version_3 (get (codes "lockfileVersion") lockfile)
    then packages_or_error (object_of (get (codes "packages") lockfile))
    else error unsupported_version

abbrev pub with_root_pin : Text → Text → Text → Members → Option Members → Members → Members
with_root_pin name from_version to_version root none packages = packages
with_root_pin name from_version to_version root (some deps) packages =
    if has_version from_version (string_of (get name deps))
    then set []
        (object (set (codes "dependencies") (object (set name (string to_version) deps)) root))
        packages
    else packages

abbrev pub with_root : Text → Text → Text → Option Members → Members → Members
with_root name from_version to_version none packages = packages
with_root name from_version to_version (some root) packages =
    with_root_pin name from_version to_version root (object_of (get (codes "dependencies") root))
      packages

unfoldable pub update_root_lockfile_dep : Members → Text → Text → Text → Members
update_root_lockfile_dep packages name from_version to_version =
    with_root name from_version to_version (object_of (get [] packages)) packages

pub record NewVersion : Type 0 where
  pub to_version : Text
  pub resolved : Text
  pub integrity : Text

unfoldable pub upgraded : NewVersion → Members → Members
upgraded new e =
    set (codes "integrity") (string new.integrity) (
      set (codes "resolved") (string new.resolved)
        (set (codes "version") (string new.to_version) e))

-- The loop over the entries, which stops at one that is no object.
pub data Loop : Type 0 where
  done : Members → Loop
  halted : Members → Loop

unfoldable pub update_entry : NewVersion → Text → Members → Option Json → Loop
unfolding upgraded
update_entry new k packages (some (object e)) = done (set k (object (upgraded new e)) packages)
update_entry new k packages _ = halted packages

unfoldable pub after_entry : (Members → Loop) → Loop → Loop
after_entry loop (halted packages) = halted packages
after_entry loop (done packages) = loop packages

unfoldable pub update_entries : NewVersion → List Text → Members → Loop
unfolding update_entry after_entry
update_entries new [] packages = done packages
update_entries new (k ∷ ks) packages =
    after_entry (update_entries new ks) (update_entry new k packages (get k packages))

-- The result, the lockfile and package.json.
abbrev pub FixOutcome : Type 0
FixOutcome = FixApplicationResult × Members × Members

abbrev pub complete : Text → Option Text → Option Text → Result SkippedReason NewVersion
complete to_version (some tarball) (some integrity) =
    ok (record { to_version = to_version; resolved = tarball; integrity = integrity })
complete to_version _ _ = error incomplete_dist

unfoldable pub new_version : Text → Option Members → Result SkippedReason NewVersion
new_version to_version none = error missing_dist
new_version to_version (some dist) =
    complete to_version (string_of (get (codes "tarball") dist))
      (string_of (get (codes "integrity") dist))

unfoldable pub new_version_of : Text → Option Members → Result SkippedReason NewVersion
unfolding new_version
new_version_of to_version none = error registry_unavailable
new_version_of to_version (some meta) = new_version to_version (object_of (get (codes "dist") meta))

abbrev pub files_of : Bool → List Text
files_of true = codes "package.json" ∷ codes "package-lock.json" ∷ []
files_of false = codes "package-lock.json" ∷ []

abbrev pub with_packages : Members → Members → Members
with_packages packages lockfile = set (codes "packages") (object packages) lockfile

-- From the loop over the entries on.
unfoldable pub after_loop :
    Text → Text → Text → Bool → List Text → Members → Members → Loop → FixOutcome
after_loop name from_version to_version direct entries lockfile package_json (halted packages) =
    (skipped corrupt_entry, with_packages packages lockfile, package_json)
after_loop name from_version to_version direct entries lockfile package_json (done packages) = (
  applied entries (files_of direct),
  with_packages (update_root_lockfile_dep packages name from_version to_version) lockfile,
  package_json,
)

-- From the update of package.json on, which a direct dependency needs.
unfoldable pub after_manifest :
    FixCandidate
    → NewVersion
    → Bool
    → List Text
    → Members
    → Members
    → Members
    → Option Members
    → FixOutcome
unfolding after_loop
after_manifest c new direct entries packages lockfile old none =
    (skipped not_declared, lockfile, old)
after_manifest c new direct entries packages lockfile old (some package_json) =
    after_loop c.package_name c.from_version c.to_version direct entries lockfile package_json
      (update_entries new entries packages)

unfoldable pub after_registry :
    FixCandidate
    → List Text
    → Members
    → Members
    → Members
    → Result SkippedReason NewVersion
    → FixOutcome
unfolding after_manifest
after_registry c entries packages lockfile package_json (error reason) =
    (skipped reason, lockfile, package_json)
after_registry c entries packages lockfile package_json (ok new) =
    let direct = is_direct c.package_name package_json in
    after_manifest c new direct entries packages lockfile package_json (
      if direct
      then update_package_json_version package_json c.package_name c.to_version
      else some package_json)

unfoldable pub apply_to_packages :
    (Text → Text → Option Members)
    → FixCandidate
    → Members
    → Members
    → Members
    → List Text
    → FixOutcome
unfolding after_registry
apply_to_packages registry c packages lockfile package_json [] =
    (skipped no_entry, lockfile, package_json)
apply_to_packages registry c packages lockfile package_json (k ∷ ks) =
    after_registry c (k ∷ ks) packages lockfile package_json
      (new_version_of c.to_version (registry c.package_name c.to_version))

unfoldable pub apply_fix_to_lockfile :
    (Text → Text → Option Members)
    → Members
    → Members
    → FixCandidate
    → Result LockfileModificationError FixOutcome
unfolding apply_to_packages
apply_fix_to_lockfile registry lockfile package_json c = do
  packages ← validate_lockfile lockfile
  ok (
      apply_to_packages registry c packages lockfile package_json
        (find_lockfile_entries lockfile c.package_name c.from_version))
