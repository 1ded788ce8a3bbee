-- ===== src/Rewrite/Manifest.antt =====
-- What an upgrade makes of package.json: the section, the range and everything else.
use arguss.Base.{
  ◌≡◌, ◌⊎◌, inl, inr, refl, ap, sym, ◌∙◌, Bool, true, false, or-false, Option, none, some, List, [],
  ◌∷◌, ◌++◌, any, if◌then◌else◌, is_some, Bool-cases, Text, codes, text_eq, starts_with,
}
use arguss.Base.Affixes.{Begins, starts_with-some, starts_with-false}
use arguss.Base.Json.{
  Json, null, bool, number, string, array, object, Members, get, set, get-set, string_of, object_of,
}
use arguss.Rewrite.{
  declares, is_direct, bump_range, new_range, bumped, update_sections, update_package_json_version,
}

-- The sections of package.json in the order in which they are searched.
abbrev pub four_sections : List Text
four_sections =
    codes "dependencies"
    ∷ codes "devDependencies"
    ∷ codes "optionalDependencies"
    ∷ codes "peerDependencies"
    ∷ []

-- The new range keeps the operator of the old one; a range without one becomes the version.
abbrev pub NewRange : Text → Text → Text → Type 0
NewRange to_version old new =
    (Begins (codes "^") old × (new ≡ codes "^" ++ to_version))
    ⊎ ((Begins (codes "~") old × (new ≡ codes "~" ++ to_version))
        ⊎ ((Begins (codes ">=") old × (new ≡ codes ">=" ++ to_version))
            ⊎ ((Begins (codes ">") old
                  × (¬ Begins (codes ">=") old)
                  × (new ≡ codes ">" ++ to_version))
                ⊎ ((¬ Begins (codes "^") old)
                    × (¬ Begins (codes "~") old)
                    × (¬ Begins (codes ">") old)
                    × (new ≡ to_version)))))

-- A range that is no text becomes the version too.
abbrev pub NewValue : Text → Json → Text → Type 0
NewValue to_version (string old) new = NewRange to_version old new
NewValue to_version _ new = new ≡ to_version

bump_range-NewRange : (old to_version : Text) → NewRange to_version old (bump_range old to_version)
unfolding bump_range
bump_range-NewRange old to_version = elim (Bool-cases (starts_with (codes "^") old)) [
  | inl y ↦ inl (starts_with-some (codes "^") old y, rw y refl)
  | inr n ↦ elim (Bool-cases (starts_with (codes "~") old)) [
    | inl y ↦ inr (inl (starts_with-some (codes "~") old y, rw (n, y) refl))
    | inr m ↦ elim (Bool-cases (starts_with (codes ">=") old)) [
      | inl y ↦ inr (inr (inl (starts_with-some (codes ">=") old y, rw (n, m, y) refl)))
      | inr k ↦ elim (Bool-cases (starts_with (codes ">") old)) [
        | inl y ↦ inr (
            inr (
              inr (
                inl (
                  starts_with-some (codes ">") old y,
                  starts_with-false (codes ">=") old k,
                  rw (n, m, k, y) refl,
                ))))
        | inr l ↦ inr (
            inr (
              inr (
                inr (
                  starts_with-false (codes "^") old n,
                  starts_with-false (codes "~") old m,
                  starts_with-false (codes ">") old l,
                  rw (n, m, k, l) refl,
                ))))
      ]
    ]
  ]
]

new_range-NewValue :
    (to_version : Text) (j : Json)
    → NewValue to_version j (new_range to_version (string_of (some j)))
new_range-NewValue to_version null = refl
new_range-NewValue to_version (bool b) = refl
new_range-NewValue to_version (number n) = refl
new_range-NewValue to_version (string old) = bump_range-NewRange old to_version
new_range-NewValue to_version (array xs) = refl
new_range-NewValue to_version (object ms) = refl

module _ (name to_version : Text) (old : Members) where
  abbrev pub InSection : Text → Type 0
  InSection section =
      (deps : Members) × (j : Json) × (get section old ≡ some (object deps))
      × (get name deps ≡ some j)

  declared-InSection :
      (section : Text) → declares name (object_of (get section old)) ≡ true → InSection section
  declared-InSection section h = of_value (get section old) refl h
    where
      of_value :
          (o : Option Json)
          → get section old ≡ o
          → declares name (object_of o) ≡ true
          → InSection section
      of_value (some (object deps)) e h = of_name (get name deps) refl h
        where
          of_name : (v : Option Json) → get name deps ≡ v → is_some v ≡ true → InSection section
          of_name (some j) f h = (deps, j, e, f)
          of_name none f h = cc
      of_value none e h = cc
      of_value (some null) e h = cc
      of_value (some (bool b)) e h = cc
      of_value (some (number n)) e h = cc
      of_value (some (string t)) e h = cc
      of_value (some (array xs)) e h = cc

  absent-InSection :
      (section : Text) → declares name (object_of (get section old)) ≡ false → ¬ InSection section
  absent-InSection section h (deps, j, e, f) =
      let x : declares name (object_of (get section old)) ≡ true =
        ap (λ o. declares name (object_of o)) e ∙ ap is_some f in
      cc (x, h)

  -- The range is replaced in this section, and all else stays.
  abbrev pub ReplacedIn : Members → Text → Type 0
  ReplacedIn new section =
      (deps : Members) × (j : Json) × (deps' : Members) × (v : Text) × (get section old
        ≡ some (object deps))
      × (get name deps ≡ some j)
      × NewValue to_version j v
      × ((field : Text)
          → get field new ≡ (if text_eq section field then some (object deps') else get field old))
      × ((dep : Text)
          → get dep deps' ≡ (if text_eq name dep then some (string v) else get dep deps))

  -- In the first of the sections that has the package.
  abbrev pub ReplacedInFirst : Members → List Text → Type 0
  ReplacedInFirst new [] = ⊥
  ReplacedInFirst new (section ∷ sections) =
      ReplacedIn new section ⊎ ((¬ InSection section) × ReplacedInFirst new sections)

  abbrev pub InNone : List Text → Type 0
  InNone [] = Unit
  InNone (section ∷ sections) = (¬ InSection section) × InNone sections

  replaced_here :
      (section : Text) (new : Members)
      → InSection section
      → set section (object (bumped name to_version (object_of (get section old)))) old ≡ new
      → ReplacedIn new section
  replaced_here section new (deps, j, e, f) q = (
    deps,
    j,
    bumped name to_version (object_of (get section old)),
    new_range to_version (string_of (some j)),
    e,
    f,
    new_range-NewValue to_version j,
    λ field. ap (get field) (sym q) ∙ get-set section field _ old,
    λ dep.
        ap (λ o. get dep (bumped name to_version (object_of o))) e
        ∙ (get-set name dep _ deps
            ∙ ap
                (λ o.
                  if text_eq name dep
                  then some (string (new_range to_version (string_of o)))
                  else get dep deps)
                f),
  )

  update_sections-ReplacedInFirst :
      (sections : List Text) (new : Members)
      → update_sections name to_version sections old ≡ some new
      → ReplacedInFirst new sections
  unfolding update_sections
  update_sections-ReplacedInFirst [] new h = cc
  update_sections-ReplacedInFirst (section ∷ sections) new h =
      by_test (update_sections-ReplacedInFirst sections new)
        (declares name (object_of (get section old))) refl h
    where
      by_test :
          (update_sections name to_version sections old ≡ some new → ReplacedInFirst new sections)
          → (b : Bool) → declares name (object_of (get section old)) ≡ b
          → ◌≡◌ {A = Option Members}
              (if b
                then some (
                    set section (object (bumped name to_version (object_of (get section old)))) old)
                else update_sections name to_version sections old)
              (some new)
          → ReplacedInFirst new (section ∷ sections)
      by_test f true y h = inl (replaced_here section new (declared-InSection section y) (cc (h)))
      by_test f false n h = inr (absent-InSection section n, f h)

  none-InNone :
      (sections : List Text)
      → any (λ section. declares name (object_of (get section old))) sections ≡ false
      → InNone sections
  none-InNone [] h = tt
  none-InNone (section ∷ sections) h =
      let (a, b) = or-false (declares name (object_of (get section old))) _ h in
      (absent-InSection section a, none-InNone sections b)

  -- package.json after an upgrade: unchanged where no section has the package.
  abbrev pub ManifestOf : Members → Type 0
  ManifestOf new = (InNone four_sections × (new ≡ old)) ⊎ ReplacedInFirst new four_sections

  update_sections-some :
      (sections : List Text)
      → any (λ section. declares name (object_of (get section old))) sections ≡ true
      → (new : Members) × (update_sections name to_version sections old ≡ some new)
  unfolding update_sections
  update_sections-some [] h = cc
  update_sections-some (section ∷ sections) h =
      elim (Bool-cases (declares name (object_of (get section old)))) [
        | inl y ↦ rw y (_, refl)
        | inr n ↦ rw n (update_sections-some sections (rw n at h))
      ]

  -- A package that is in a section is always updated.
  pub update_package_json_version-some :
      is_direct name old ≡ true
      → (new : Members) × (update_package_json_version old name to_version ≡ some new)
  unfolding is_direct update_package_json_version
  update_package_json_version-some h = update_sections-some four_sections h

  pub untouched-ManifestOf : is_direct name old ≡ false → ManifestOf old
  unfolding is_direct
  untouched-ManifestOf h = inl (none-InNone four_sections h, refl)

  pub updated-ManifestOf :
      (new : Members) → update_package_json_version old name to_version ≡ some new → ManifestOf new
  unfolding update_package_json_version
  updated-ManifestOf new h = inr (update_sections-ReplacedInFirst four_sections new h)
