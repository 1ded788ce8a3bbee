-- ===== src/Rewrite/Search.antt =====
-- The entries of a lockfile that hold the package.
use arguss.Base.{
  ◌≡◌, ◌↔◌, inl, inr, refl, ap, sym, ◌∙◌, subst, arith, none, List, [], ◌++◌, codes, starts_with,
  if_both, text_eq_refl, Bool, true, false, Option, some, ◌∷◌, if◌then◌else◌, Bool-cases, or-false,
  or_of_false, Text, text_eq, text_eq_iff, is_in, Distinct,
}
use arguss.Base.Json.{
  Json, null, bool, number, string, array, object, Members, no_members, member, get, member_keys,
  string_of,
}
use arguss.Base.Affixes.{starts_with-some}
use arguss.Base.Splits.{split_text}
use arguss.Base.Paths.{last_or}
use arguss.Rewrite.{is_entry, matching_entries, has_version, entry_key_matches_package}

abbrev pub IsObject : Option Json → Type 0
IsObject o = (e : Members) × (o ≡ some (object e))

absent :
    (name from_version : Text) (k : Text) (ms : Members)
    → is_in k (member_keys ms) ≡ false
    → is_in k (matching_entries name from_version ms) ≡ false
unfolding matching_entries
absent name from_version k no_members h = refl
absent name from_version k (member i j ms) h =
    let r = or-false (text_eq k i) (is_in k (member_keys ms)) h in
    elim (Bool-cases (is_entry name from_version i j)) [
      | inl t ↦ rw t (or_of_false _ _ r.0 (absent name from_version k ms r.1))
      | inr f ↦ rw f (absent name from_version k ms r.1)
    ]

pub matching-Distinct :
    (name from_version : Text) (ms : Members)
    → Distinct (member_keys ms)
    → Distinct (matching_entries name from_version ms)
unfolding matching_entries
matching-Distinct name from_version no_members d = tt
matching-Distinct name from_version (member i j ms) d =
    elim (Bool-cases (is_entry name from_version i j)) [
      | inl t ↦ rw t (absent name from_version i ms d.0, matching-Distinct name from_version ms d.1)
      | inr f ↦ rw f (matching-Distinct name from_version ms d.1)
    ]

entry-IsObject :
    (name from_version k : Text) (j : Json)
    → is_entry name from_version k j ≡ true
    → IsObject (some j)
unfolding is_entry
entry-IsObject name from_version k (object e) h = (e, refl)
entry-IsObject name from_version k null h = cc
entry-IsObject name from_version k (bool b) h = cc
entry-IsObject name from_version k (number n) h = cc
entry-IsObject name from_version k (string s) h = cc
entry-IsObject name from_version k (array a) h = cc

-- The keys that match are those of objects, also beside other members.
pub matching-IsObject :
    (name from_version k : Text) (ms : Members)
    → Distinct (member_keys ms)
    → is_in k (matching_entries name from_version ms) ≡ true
    → IsObject (get k ms)
unfolding matching_entries get
matching-IsObject name from_version k no_members d h = cc
matching-IsObject name from_version k (member i j ms) d h = elim (Bool-cases (text_eq i k)) [
  | inl e ↦ rw e (elim (Bool-cases (is_entry name from_version i j)) [
    | inl t ↦ entry-IsObject name from_version i j t
    | inr f ↦
        let gone : is_in k (matching_entries name from_version ms) ≡ false =
          absent name from_version k ms
            (subst (λ x. is_in x (member_keys ms) ≡ false) ((text_eq_iff i k).0 e) d.0) in
        cc (rw f at h, gone)
  ])
  | inr n ↦
      rw n
        (matching-IsObject name from_version k ms d.1 (later n (is_entry name from_version i j) h))
]
  where
    later :
        text_eq i k ≡ false
        → (b : Bool)
        → is_in k (
            if b
            then i ∷ matching_entries name from_version ms
            else matching_entries name from_version ms)
          ≡ true
        → is_in k (matching_entries name from_version ms) ≡ true
    later n true h =
        let m : text_eq k i ≡ false = ground (arith, n, text_eq_iff i k, text_eq_iff k i) in
        rw m at h
    later n false h = h

-- An installed copy of the package at the version that is replaced: an object under a key inside
-- node_modules, whose last name is that of the package.
abbrev pub IsCopy : Text → Text → Members → Text → Type 0
IsCopy name from_version packages key =
    (e : Members) × (get key packages ≡ some (object e))
    × (get (codes "version") e ≡ some (string from_version))
    × (path : Text) × (key ≡ codes "node_modules/" ++ path)
    × (last_or [] (split_text (codes "/node_modules/") path) ≡ name)

-- What the search says of the value under a key.
entry_at : Text → Text → Text → Option Json → Bool
entry_at name from_version key none = false
entry_at name from_version key (some j) = is_entry name from_version key j

found_if :
    (b : Bool) (i : Text) (ks : List Text)
    → is_in i ks ≡ false
    → is_in i (if b then i ∷ ks else ks) ≡ b
found_if true i ks h = rw (text_eq_refl i) refl
found_if false i ks h = h

matching-entry_at :
    (name from_version key : Text) (ms : Members)
    → Distinct (member_keys ms)
    → is_in key (matching_entries name from_version ms)
      ≡ entry_at name from_version key (get key ms)
unfolding matching_entries get entry_at
matching-entry_at name from_version key no_members d = refl
matching-entry_at name from_version key (member i j ms) d = elim (Bool-cases (text_eq i key)) [
  | inl y ↦
      let e : i ≡ key = (text_eq_iff i key).0 y in
      rw (y, ← e)
        (found_if (is_entry name from_version i j) i (matching_entries name from_version ms)
          (absent name from_version i ms d.0))
  | inr n ↦
      let m : text_eq key i ≡ false = ground (arith, n, text_eq_iff i key, text_eq_iff key i) in
      rw n (
        if_both (λ l. is_in key l ≡ entry_at name from_version key (get key ms))
          (is_entry name from_version i j) (i ∷ matching_entries name from_version ms)
          (matching_entries name from_version ms)
          (rw m (matching-entry_at name from_version key ms d.1))
          (matching-entry_at name from_version key ms d.1))
]

has_version-string :
    (v : Text) (o : Option Json) → has_version v (string_of o) ≡ true → o ≡ some (string v)
has_version-string v (some (string w)) h = ap (λ t. some (string t)) ((text_eq_iff w v).0 h)
has_version-string v none h = cc
has_version-string v (some null) h = cc
has_version-string v (some (bool b)) h = cc
has_version-string v (some (number n)) h = cc
has_version-string v (some (array xs)) h = cc
has_version-string v (some (object ms)) h = cc

matches_path :
    (path name : Text)
    → entry_key_matches_package (codes "node_modules/" ++ path) name
      ≡ text_eq (last_or [] (split_text (codes "/node_modules/") path)) name
unfolding entry_key_matches_package starts_with
matches_path path name = refl

-- The key of a copy: what follows node_modules ends in the name.
abbrev KeyOf : Text → Text → Type 0
KeyOf key name =
    (path : Text) × (key ≡ codes "node_modules/" ++ path)
    × (last_or [] (split_text (codes "/node_modules/") path) ≡ name)

match-KeyOf : (key name : Text) → entry_key_matches_package key name ≡ true → KeyOf key name
unfolding entry_key_matches_package
match-KeyOf key name h = elim (Bool-cases (starts_with (codes "node_modules/") key)) [
  | inl y ↦
      let (path, e) = starts_with-some (codes "node_modules/") key y in
      let q : text_eq (last_or [] (split_text (codes "/node_modules/") path)) name ≡ true =
        sym (matches_path path name) ∙ subst (λ k. entry_key_matches_package k name ≡ true) e h in
      (path, e, (text_eq_iff _ name).0 q)
  | inr n ↦ cc (rw n at h)
]

KeyOf-match : (key name : Text) → KeyOf key name → entry_key_matches_package key name ≡ true
KeyOf-match key name (path, e, h) =
    subst (λ k. entry_key_matches_package k name ≡ true) (sym e)
      (matches_path path name ∙ (text_eq_iff _ name).1 h)

entry-IsCopy :
    (name from_version key : Text) (ms : Members) (o : Option Json)
    → get key ms ≡ o
    → entry_at name from_version key o ≡ true
    → IsCopy name from_version ms key
unfolding entry_at is_entry
entry-IsCopy name from_version key ms (some (object e)) p h =
    let v : has_version from_version (string_of (get (codes "version") e)) ≡ true =
      ground (arith, h) in
    let m : entry_key_matches_package key name ≡ true = ground (arith, h) in
    let (path, q, r) = match-KeyOf key name m in
    (e, p, has_version-string from_version (get (codes "version") e) v, path, q, r)
entry-IsCopy name from_version key ms none p h = cc
entry-IsCopy name from_version key ms (some null) p h = cc
entry-IsCopy name from_version key ms (some (bool b)) p h = cc
entry-IsCopy name from_version key ms (some (number n)) p h = cc
entry-IsCopy name from_version key ms (some (string t)) p h = cc
entry-IsCopy name from_version key ms (some (array xs)) p h = cc

IsCopy-entry :
    (name from_version key : Text) (ms : Members)
    → IsCopy name from_version ms key
    → entry_at name from_version key (get key ms) ≡ true
unfolding entry_at is_entry
IsCopy-entry name from_version key ms (e, p, v, path, q, r) =
    rw (p, v, text_eq_refl from_version, KeyOf-match key name (path, q, r), q) refl

-- The search finds exactly the copies.
pub matching_iff :
    (name from_version key : Text) (ms : Members)
    → Distinct (member_keys ms)
    → (is_in key (matching_entries name from_version ms) ≡ true) ↔ IsCopy name from_version ms key
matching_iff name from_version key ms d =
    let e = matching-entry_at name from_version key ms d in
    (
      λ h. entry-IsCopy name from_version key ms (get key ms) refl (sym e ∙ h),
      λ c. e ∙ IsCopy-entry name from_version key ms c,
    )
