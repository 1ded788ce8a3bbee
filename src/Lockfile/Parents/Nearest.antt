-- ===== src/Lockfile/Parents/Nearest.antt =====
-- Which installed package serves a name: the nearest one around the package that declares it.
use arguss.Base.{
  suc, ◌≤◌, ◌≡◌, inl, inr, refl, ap, sym, subst, arith, true, false, Option, none, some, List, [],
  ◌∷◌, ◌++◌, length, is_empty, length-append, All, Bool-cases, Text, lookup,
}
use arguss.Lockfile.{Package, Packages, separator}
use arguss.Lockfile.Scopes.{key_of, enclosing, CleanName, scopes-enclosing}
use arguss.Lockfile.Parents.{
  candidate_key, is_installed, first_installed, prefixes_of, resolve_physical_install_key,
}

key_of-length : (names : List Text) → length names ≤ length (key_of names)
unfolding key_of
key_of-length [] = omega arith
key_of-length (n ∷ []) = omega arith
key_of-length (n ∷ m ∷ r) =
    omega (arith, key_of-length (m ∷ r), length-append {0} (key_of (m ∷ r)) (separator ++ n))

-- A package is installed at the key: an entry that is neither a link nor extraneous and has a version.
abbrev pub Installed : Packages → Text → Type 0
Installed packages key =
    (pkg : Package) × (lookup key packages ≡ some pkg)
    × (pkg.link ≡ false)
    × (pkg.extraneous ≡ false)
    × (is_empty pkg.version ≡ false)

of_installed :
    (o : Option Package)
    → is_installed o ≡ true
    → (pkg : Package) × (o ≡ some pkg)
      × (pkg.link ≡ false)
      × (pkg.extraneous ≡ false)
      × (is_empty pkg.version ≡ false)
unfolding is_installed
of_installed none h = cc
of_installed (some pkg) h = (pkg, refl, ground arith, ground arith, ground arith)

not-Installed :
    (packages : Packages) (key : Text)
    → is_installed (lookup key packages) ≡ false
    → Installed packages key
    → ⊥
unfolding is_installed
not-Installed packages key h (pkg, e, l, x, v) =
    let yes_installed : is_installed (lookup key packages) ≡ true =
      rw (e, is_installed, l, x, v) refl in
    cc (h, yes_installed)

module _ (child : Text) (packages : Packages) where
  abbrev pub Missing : Text → Type 0
  Missing prefix = Installed packages (candidate_key prefix child) → ⊥

  -- The answer for the scopes `ps`.
  abbrev pub IsNearest : List Text → Option Text → Type 0
  IsNearest ps none = All Missing ps
  IsNearest ps (some key) =
      (before : List Text) × (p : Text) × (after : List Text) × (ps ≡ before ++ (p ∷ after))
      × (key ≡ candidate_key p child)
      × Installed packages key
      × All Missing before

  farther :
      (p : Text) (ps : List Text) (o : Option Text)
      → Missing p
      → IsNearest ps o
      → IsNearest (p ∷ ps) o
  farther p ps none m h = (m, h)
  farther p ps (some key) m (before, q, after, e, k, s, a) =
      (p ∷ before, q, after, ap (λ l. p ∷ l) e, k, s, (m, a))

  first_installed-IsNearest : (ps : List Text) → IsNearest ps (first_installed child packages ps)
  unfolding first_installed
  first_installed-IsNearest [] = tt
  first_installed-IsNearest (p ∷ ps) =
      elim (Bool-cases (is_installed (lookup (candidate_key p child) packages))) [
        | inl y ↦ rw y ([], p, ps, refl, refl, of_installed _ y, tt)
        | inr n ↦ rw n (
            farther p ps _ (not-Installed packages (candidate_key p child) n)
              (first_installed-IsNearest ps))
      ]

-- A name that a package declares is served by the copy in the nearest scope, from the package's own
-- outward, that has one installed (neither a link nor extraneous, and with a version); it is served by none if
-- no scope has one. The names on the way have no separator inside.
pub resolve-IsNearest :
    (child : Text) (packages : Packages) (names : List Text)
    → All CleanName names
    → IsNearest child packages
        (enclosing names)
        (resolve_physical_install_key (key_of names) child packages)
unfolding resolve_physical_install_key
resolve-IsNearest child packages names k =
    let e =
      scopes-enclosing (suc (length (key_of names))) names k (omega (arith, key_of-length names)) in
    subst
      (λ o.
        IsNearest child packages (enclosing names) (first_installed child packages (prefixes_of o)))
      (sym e) (first_installed-IsNearest child packages (enclosing names))
