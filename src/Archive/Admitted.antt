-- ===== src/Archive/Admitted.antt =====
-- What the loop that validates the entries of an archive knows of those it has admitted.
use arguss.Base.{
  ℕ, not-false, ◌≤◌, ◌≡◌, ◌≢◌, refl, ap, ◌∙◌, sym, subst, arith, Bool, true, false, not, List, [],
  ◌∷◌, ◌++◌, map, leb→le, inl, inr, keep, sum, sum-append, All, All-append, Bool-cases, Text, codes,
  is_in, has_substring, map-append_one, Distinct, Distinct-append,
}
use mathlib.Core.List.{append-nil, append_assoc}
use arguss.Base.Results.{Result, ok, bind-ok, Passed, require-Passed, require-bind}
use arguss.Base.Paths.{is_relative_to, join_path}
use arguss.Archive.{
  ZipInfo, FileEntry, Validation, max_per_file_bytes, max_total_extracted_bytes, unix_symlink,
  file_mode, has_allowed_extension, entry_name_checks, entry_type_checks, entry_basename,
  entry_checks, append_entry, admit_entry, is_skipped, validate_entry, validate_entries,
}

abbrev pub sizes : List FileEntry → ℕ
sizes = sum (λ f. f.info.file_size)

abbrev pub infos_of : List FileEntry → List ZipInfo
infos_of = map (λ f. f.info)

abbrev pub is_wanted : ZipInfo → Bool
is_wanted info = not (is_skipped info)

keep-cons :
    (p : ZipInfo → Bool) (x : ZipInfo) (xs : List ZipInfo)
    → keep p (x ∷ []) ++ keep p xs ≡ keep p (x ∷ xs)
keep-cons p x xs = elim (Bool-cases (p x)) [ inl y ↦ rw y refl | inr n ↦ rw n refl ]

ok_of : {E A : Type 0} {a b : A} → ◌≡◌ {A = Result E A} (ok a) (ok b) → a ≡ b
ok_of h = cc

module _ (resolve : Text → Text) (dest : Text) where
  -- An entry that is safe to write.
  pub record Accepted (f : FileEntry) : Type 0 where
    pub workflow : has_allowed_extension f.basename ≡ true
    pub small : f.info.file_size ≤ max_per_file_bytes
    pub inside : is_relative_to f.target dest ≡ true
    pub no_traversal : has_substring (codes "..") f.info.filename ≡ false
    pub no_symlink : file_mode f.info ≢ unix_symlink

  pub record Inv (s : Validation) : Type 0 where
    pub accepted : All Accepted s.file_entries
    pub counted : sizes s.file_entries ≡ s.total_uncompressed
    pub bounded : s.total_uncompressed ≤ max_total_extracted_bytes
    pub seen : s.seen_basenames ≡ map (λ f. f.basename) s.file_entries
    pub distinct : Distinct (map (λ f. f.basename) s.file_entries)

  abbrev new_entry : ZipInfo → Text → FileEntry
  new_entry info basename = record {
    info = info;
    basename = basename;
    target = resolve (join_path dest basename);
  }

  append-Inv :
      (info : ZipInfo) (basename : Text) (s : Validation)
      → Inv s
      → All Passed (entry_name_checks info.filename)
      → All Passed (entry_type_checks info)
      → All Passed (entry_checks resolve dest info basename s)
      → Inv (append_entry resolve dest info basename s)
  unfolding entry_name_checks entry_type_checks entry_checks append_entry
  append-Inv info basename s h (a, (b, (c, (d, u1)))) (e, (f, u2)) (p, (q, (r, (t, (k, u3))))) =
      let m =
        map-append_one (λ (g : FileEntry). g.basename) s.file_entries (new_entry info basename) in
      record {
        accepted = All-append Accepted s.file_entries _ h.accepted (
          record {
            workflow = not-false _ p;
            small = leb→le _ _ (not-false _ r);
            inside = not-false _ k;
            no_traversal = d;
            no_symlink = λ x. ground arith;
          },
          tt,
        );
        counted =
            omega
              (arith, sum-append (λ (g : FileEntry). g.info.file_size) s.file_entries _, h.counted);
        bounded = leb→le _ _ (not-false _ t);
        seen = cc (m, h.seen);
        distinct = subst Distinct (sym m) (
            Distinct-append _ basename h.distinct (subst (λ l. is_in basename l ≡ false) h.seen q));
      }

  -- An admitted entry passed every check.
  admit-Passed :
      (info : ZipInfo) (s t : Validation)
      → admit_entry resolve dest info s ≡ ok t
      → (basename : Text) × (append_entry resolve dest info basename s ≡ t)
        × All Passed (entry_name_checks info.filename)
        × All Passed (entry_type_checks info)
        × All Passed (entry_checks resolve dest info basename s)
  unfolding admit_entry
  admit-Passed info s t h =
      let (p1, h1) = require-bind (entry_name_checks info.filename) info.filename _ t h in
      let (p2, h2) = require-bind (entry_type_checks info) info.filename _ t h1 in
      let (basename, e, h3) = bind-ok (entry_basename info.filename) _ t h2 in
      let (q, p3) = require-Passed _ _ t h3 in (basename, q, p1, p2, p3)

  validate_entry-Inv :
      (info : ZipInfo) (s t : Validation)
      → Inv s
      → validate_entry resolve dest info s ≡ ok t
      → Inv t
  unfolding validate_entry
  validate_entry-Inv info s t h e = elim (Bool-cases (is_skipped info)) [
    | inl y ↦ subst Inv (ok_of (rw y at e)) h
    | inr n ↦
        let (basename, q, a, b, c) = admit-Passed info s t (rw n at e) in
        subst Inv q (append-Inv info basename s h a b c)
  ]

  pub validate_entries-Inv :
      (infos : List ZipInfo) (s t : Validation)
      → Inv s
      → validate_entries resolve dest infos s ≡ ok t
      → Inv t
  unfolding validate_entries
  validate_entries-Inv [] s t h e = subst Inv (ok_of e) h
  validate_entries-Inv (info ∷ infos) s t h e =
      let (u, e1, e2) = bind-ok (validate_entry resolve dest info s) _ t e in
      validate_entries-Inv infos u t (validate_entry-Inv info s u h e1) e2

  -- The entries admitted are those that are not skipped, in their order.
  validate_entry-infos :
      (info : ZipInfo) (s t : Validation)
      → validate_entry resolve dest info s ≡ ok t
      → infos_of t.file_entries ≡ infos_of s.file_entries ++ keep is_wanted (info ∷ [])
  unfolding validate_entry append_entry
  validate_entry-infos info s t e = elim (Bool-cases (is_skipped info)) [
    | inl y ↦ rw (y, ← ok_of (rw y at e)) (sym (append-nil _))
    | inr n ↦
        let (basename, q, a, b, c) = admit-Passed info s t (rw n at e) in
        rw n (
          subst (λ u. infos_of u.file_entries ≡ infos_of s.file_entries ++ (info ∷ [])) q
            (map-append_one (λ (g : FileEntry). g.info) s.file_entries _))
  ]

  pub validate_entries-infos :
      (infos : List ZipInfo) (s t : Validation)
      → validate_entries resolve dest infos s ≡ ok t
      → infos_of t.file_entries ≡ infos_of s.file_entries ++ keep is_wanted infos
  unfolding validate_entries
  validate_entries-infos [] s t e = rw (← ok_of e) (sym (append-nil _))
  validate_entries-infos (info ∷ infos) s t e =
      let (u, e1, e2) = bind-ok (validate_entry resolve dest info s) _ t e in
      validate_entries-infos infos u t e2
      ∙ (ap (λ l. l ++ keep is_wanted infos) (validate_entry-infos info s u e1)
          ∙ (append_assoc (infos_of s.file_entries) (keep is_wanted (info ∷ []))
                (keep is_wanted infos)
              ∙ ap (λ l. infos_of s.file_entries ++ l) (keep-cons is_wanted info infos)))
