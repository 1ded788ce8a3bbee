-- ===== src/Archive/Safety.antt =====
-- What an extraction has written by the time it ends, whether it succeeds or stops.
use arguss.Base.{
  ℕ, not-false, ◌+◌, ◌≤◌, ◌≡◌, refl, arith, false, Option, none, some, List, [], ◌∷◌, map, leb→le,
  length, length-map, is_empty, sum, All, Text, is_in, keep, length-keep-le, inl, inr, ◌⊎◌,
  Distinct, if_both, ap, sym, subst, ◌∙◌,
}
use arguss.Base.Results.{ok, bind-ok, require, require-Passed, require-bind, Result-cases}
use arguss.Archive.{
  ZipInfo, ZipFile, FileEntry, nothing_yet, ZipExtractionError, max_total_extracted_bytes,
  max_entries, Extraction, stopped, also_written, data_checks, write_checked, write_file,
  write_validated, write_files, validate_entries, validate_archive, extract_entries,
  extract_workflows_zip,
}
use arguss.Archive.Admitted.{
  sizes, Accepted, Inv, infos_of, is_wanted, validate_entries-Inv, validate_entries-infos,
}

abbrev pub basenames : List (FileEntry × Text) → List Text
basenames = map (λ w. w.0.basename)

-- A file is written whole, or the extraction stops.
pub write_file-cases :
    (f : FileEntry) (o : Option Text) (later : Extraction)
    → ((e : ZipExtractionError) × (write_file f o later ≡ stopped e))
      ⊎ ((content : Text) × (length content ≡ f.info.file_size)
          × (write_file f o later ≡ also_written f content later))
unfolding write_file write_checked data_checks
write_file-cases f none later = inl (_, refl)
write_file-cases f (some content) later =
    elim (Result-cases (require (data_checks f content) content)) [
      | inl (e, h) ↦ inl (e, rw (write_file, h) refl)
      | inr (c, h) ↦
          let (q, (p, rest)) = require-Passed (data_checks f content) content c h in
          inr (content, ground (arith, not-false _ p), rw (write_file, h, q) refl)
    ]

module _ (resolve : Text → Text) (dest : Text) where
  abbrev pub AcceptedFile : FileEntry × Text → Type 0
  AcceptedFile w = Accepted resolve dest w.0 × (length w.1 ≡ w.0.info.file_size)

  -- What the written files have when the entries that may be written are `fs`.
  record Within (fs : List FileEntry) (o : Extraction) : Type 0 where
    all_accepted : All AcceptedFile o.written
    total : sum (λ w. length w.1) o.written ≤ sizes fs
    few : length o.written ≤ length fs
    fresh :
        (b : Text)
        → is_in b (map (λ f. f.basename) fs) ≡ false
        → is_in b (basenames o.written) ≡ false
    distinct : Distinct (basenames o.written)

  stopped-Within : (fs : List FileEntry) (e : ZipExtractionError) → Within fs (stopped e)
  stopped-Within fs e = record {
    all_accepted = tt;
    total = omega arith;
    few = omega arith;
    fresh = λ b h. refl;
    distinct = tt;
  }

  written-Within :
      (f : FileEntry) (fs : List FileEntry) (content : Text) (o : Extraction)
      → Accepted resolve dest f
      → is_in f.basename (map (λ g. g.basename) fs) ≡ false
      → length content ≡ f.info.file_size
      → Within fs o
      → Within (f ∷ fs) (also_written f content o)
  written-Within f fs content o a d l w = record {
    all_accepted = ((a, l), w.all_accepted);
    total = omega (arith, w.total, l);
    few = omega (arith, w.few);
    fresh = λ b h. ground (arith, w.fresh b);
    distinct = (w.fresh _ d, w.distinct);
  }

  write_files-Within :
      (read : Text → Option Text) (n : ℕ) (fs : List FileEntry)
      → All (Accepted resolve dest) fs
      → Distinct (map (λ f. f.basename) fs)
      → Within fs (write_files read n fs)
  unfolding write_files
  write_files-Within read n [] a d = record {
    all_accepted = tt;
    total = omega arith;
    few = omega arith;
    fresh = λ b h. h;
    distinct = tt;
  }
  write_files-Within read n (f ∷ fs) a d =
      let ih = write_files-Within read (n + 1) fs a.1 d.1 in
      elim (write_file-cases f (read f.info.filename) (write_files read (n + 1) fs)) [
        | inl (e, h) ↦ rw h (stopped-Within _ e)
        | inr (content, l, h) ↦ rw h (written-Within f fs content _ a.0 d.0 l ih)
      ]

  -- The files that pass the validation.
  pub validated :
      (entries : List ZipInfo) (files : List FileEntry)
      → validate_archive resolve dest entries ≡ ok files
      → (length entries ≤ max_entries)
        × (is_empty files ≡ false)
        × (infos_of files ≡ keep is_wanted entries)
        × All (Accepted resolve dest) files
        × (sizes files ≤ max_total_extracted_bytes)
        × Distinct (map (λ f. f.basename) files)
  unfolding validate_archive
  validated entries files h =
      let (p, h1) = require-bind _ entries _ files h in
      let (s, e, h2) = bind-ok (validate_entries resolve dest entries nothing_yet) _ files h1 in
      let (q, r) = require-Passed _ s.file_entries files h2 in
      let inv = validate_entries-Inv resolve dest entries nothing_yet s start_Inv e in
      let infos = validate_entries-infos resolve dest entries nothing_yet s e in
      (
        leb→le _ _ (not-false _ p.0),
        ap is_empty (sym q) ∙ r.0,
        ap infos_of (sym q) ∙ infos,
        subst (All (Accepted resolve dest)) q inv.accepted,
        subst (λ l. sizes l ≤ max_total_extracted_bytes) q
            (omega (arith, inv.counted, inv.bounded)),
        subst (λ l. Distinct (map (λ f. f.basename) l)) q inv.distinct,
      )
    where
      start_Inv : Inv resolve dest nothing_yet
      start_Inv = record {
        accepted = tt;
        counted = refl;
        bounded = omega arith;
        seen = refl;
        distinct = tt;
      }

  -- What an extraction has written.
  pub record Safe (o : Extraction) : Type 0 where
    pub all_accepted : All AcceptedFile o.written
    pub total : sum (λ w. length w.1) o.written ≤ max_total_extracted_bytes
    pub few : length o.written ≤ max_entries
    pub distinct : Distinct (basenames o.written)

  stopped-Safe : (e : ZipExtractionError) → Safe (stopped e)
  stopped-Safe e = record {
    all_accepted = tt;
    total = omega arith;
    few = omega arith;
    distinct = tt;
  }

  entries-Safe :
      (read : Text → Option Text) (o : Option (List ZipInfo))
      → Safe (extract_entries resolve dest read o)
  unfolding extract_entries write_validated
  entries-Safe read none = stopped-Safe _
  entries-Safe read (some entries) = elim (Result-cases (validate_archive resolve dest entries)) [
    | inl (e, h) ↦ subst (λ r. Safe (write_validated read r)) (sym h) (stopped-Safe e)
    | inr (files, h) ↦
        let (few, em, infos, a, t, d) = validated entries files h in
        let w = write_files-Within read 0 files a d in
        let n : length files ≤ length entries = wanted_few entries files infos in
        subst (λ r. Safe (write_validated read r)) (sym h)
          (record {
            all_accepted = w.all_accepted;
            total = omega (arith, w.total, t);
            few = omega (arith, w.few, n, few);
            distinct = w.distinct;
          })
  ]
    where
      wanted_few :
          (entries : List ZipInfo) (files : List FileEntry)
          → infos_of files ≡ keep is_wanted entries
          → length files ≤ length entries
      wanted_few entries files e = omega (
        arith,
        length-map (λ (f : FileEntry). f.info) files,
        ap length e,
        length-keep-le is_wanted entries,
      )

-- Whatever the archive holds and whatever `zipfile` returns, and also where the extraction stops
-- with an error, every file written so far has an allowed extension, holds as many bytes as its
-- entry announces and at most 2 MiB, lies inside the resolved destination, and comes from an
-- entry that is no symlink and has no ".." in its name; the files have different basenames, are at
-- most 200 and have at most 10 MiB together.
pub extract-Safe :
    (resolve : Text → Text) (zipfile : Text → ZipFile) (zip_bytes dest_dir : Text)
    → Safe resolve (resolve dest_dir) (extract_workflows_zip resolve zipfile zip_bytes dest_dir)
unfolding extract_workflows_zip
extract-Safe resolve zipfile zip_bytes dest_dir =
    if_both (Safe resolve (resolve dest_dir)) (is_empty zip_bytes) _ _ (stopped-Safe resolve _ _) (
      if_both (Safe resolve (resolve dest_dir)) (zipfile zip_bytes).is_zipfile _ _
        (entries-Safe resolve _ _ _) (stopped-Safe resolve _ _))
