-- ===== src/Tests/Rewriting.antt =====
-- An upgrade written into a lockfile with one copy of the package.
use arguss.Base.{◌≡◌, ◌≢◌, ◌⊎◌, refl, Option, some, [], ◌∷◌, codes, Text, text_eq, starts_with}
use arguss.Base.Results.{ok, error}
use arguss.Base.Splits.{split_text, split_from}
use arguss.Base.Paths.{last_or, push_char}
use arguss.Base.Json.{number, string, object, Members, no_members, member, get}
use arguss.Rewrite.{
  FixOutcome, LockfileModificationError, apply_fix_to_lockfile, find_lockfile_entries,
  matching_entries, is_entry, entry_key_matches_package,
}
use arguss.Rewrite.Exact.{Untouched, Upgraded, apply_fix-Exact}
use arguss.Tests.{upgrade}

abbrev packages : Members
packages =
    member (codes "node_modules/lodash")
      (object (member (codes "version") (string (codes "4.17.15")) no_members)) no_members

abbrev lockfile : Members
lockfile =
    member (codes "lockfileVersion") (number 3)
      (member (codes "packages") (object packages) no_members)

-- The registry has every version.
abbrev registry : Text → Text → Option Members
registry name version = some (
    member (codes "dist")
      (object (
        member (codes "tarball") (string name)
          (member (codes "integrity") (string version) no_members)))
      no_members)

one_entry :
    find_lockfile_entries lockfile (codes "lodash") (codes "4.17.15")
    ≡ codes "node_modules/lodash" ∷ []
unfolding find_lockfile_entries matching_entries is_entry entry_key_matches_package get text_eq
    starts_with split_text split_from push_char last_or
one_entry = refl

packages_found : get (codes "packages") lockfile ≡ some (object packages)
unfolding get text_eq
packages_found = refl

abbrev manifest : Members
manifest =
    member (codes "dependencies")
      (object (member (codes "lodash") (string (codes "^4.17.0")) no_members)) no_members

apply_fix-Exact_example :
    ((get (codes "lockfileVersion") lockfile ≢ some (number 3))
      × (e : LockfileModificationError) × (apply_fix_to_lockfile registry lockfile manifest upgrade
          ≡ error e))
    ⊎ ((get (codes "lockfileVersion") lockfile ≡ some (number 3))
        × (o : FixOutcome) × (apply_fix_to_lockfile registry lockfile manifest upgrade ≡ ok o)
        × (Untouched
              (registry upgrade.package_name upgrade.to_version)
              upgrade
              packages
              lockfile
              manifest
              o
            ⊎ Upgraded
                (registry upgrade.package_name upgrade.to_version)
                upgrade
                packages
                lockfile
                manifest
                o))
apply_fix-Exact_example =
    apply_fix-Exact registry lockfile manifest packages upgrade packages_found (refl, tt)
