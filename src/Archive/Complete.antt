-- ===== src/Archive/Complete.antt =====
-- An extraction from an archive whose entries can be read is whole or does nothing.
use arguss.Base.{
  ℕ, ◌+◌, ◌≡◌, refl, arith, Bool, false, Option, none, some, List, [], ◌∷◌, map, ==_refl, le→leb,
  length, is_empty, All, if_both, Text, keep, Bool-cases, inl, inr, ◌⊎◌, ap, sym, subst, ◌∙◌,
}
use arguss.Base.Results.{ok, error, require, first_failure, Result-cases}
use arguss.Archive.{
  ZipInfo, ZipFile, FileEntry, ZipExtractionError, max_per_file_bytes, Extraction, also_written,
  data_checks, write_checked, write_file, write_files, validate_archive, write_validated,
  extract_entries, extract_workflows_zip,
}
use arguss.Archive.Admitted.{Accepted, infos_of, is_wanted}
use arguss.Archive.Safety.{validated}

-- `ZipFile.read` of a listed entry gives its bytes, as many as the entry announces.
abbrev pub Readable : (Text → Option Text) → ZipInfo → Type 0
Readable read info =
    (content : Text) × (read info.filename ≡ some content) × (length content ≡ info.file_size)

abbrev pub AllReadable : ZipFile → Type 0
AllReadable zf =
    (entries : List ZipInfo) → zf.infolist ≡ some entries → All (Readable zf.read) entries

abbrev pub written_infos : Extraction → List ZipInfo
written_infos o = infos_of (map (λ w. w.0) o.written)

abbrev pub Nothing : Extraction → Type 0
Nothing o = (e : ZipExtractionError) × (o.result ≡ error e) × (o.written ≡ [])

abbrev pub Everything : Option (List ZipInfo) → Extraction → Type 0
Everything listed o =
    (entries : List ZipInfo) × (listed ≡ some entries)
    × (written_infos o ≡ keep is_wanted entries)
    × (is_empty o.written ≡ false)
    × (o.result ≡ ok (length o.written))

All-keep :
    (P : ZipInfo → Type 0) (p : ZipInfo → Bool) (xs : List ZipInfo) → All P xs → All P (keep p xs)
All-keep P p [] h = tt
All-keep P p (x ∷ xs) h = elim (Bool-cases (p x)) [
  | inl y ↦ rw y (h.0, All-keep P p xs h.1)
  | inr n ↦ rw n (All-keep P p xs h.1)
]

module _ (resolve : Text → Text) (dest : Text) (read : Text → Option Text) where
  write_file-Written :
      (f : FileEntry) (later : Extraction)
      → Accepted resolve dest f
      → Readable read f.info
      → (content : Text) × (write_file f (read f.info.filename) later
          ≡ also_written f content later)
  unfolding write_file write_checked data_checks require first_failure
  write_file-Written f later a (content, h, l) =
      let checked : require (data_checks f content) content ≡ ok content = passes content l in
      (content, rw (h, write_file, checked) refl)
    where
      passes :
          (content : Text)
          → length content ≡ f.info.file_size
          → require (data_checks f content) content ≡ ok content
      passes content l =
          rw (l, ==_refl f.info.file_size, le→leb f.info.file_size max_per_file_bytes a.small) refl

  write_files-Written :
      (n : ℕ) (fs : List FileEntry)
      → All (Accepted resolve dest) fs
      → All (Readable read) (infos_of fs)
      → (map (λ w. w.0) (write_files read n fs).written ≡ fs)
        × ((write_files read n fs).result ≡ ok (length (write_files read n fs).written + n))
  unfolding write_files
  write_files-Written n [] a r = (refl, ap ok (omega arith))
  write_files-Written n (f ∷ fs) a r =
      let (e, ih) = write_files-Written (n + 1) fs a.1 r.1 in
      let (content, h) = write_file-Written f (write_files read (n + 1) fs) a.0 r.0 in
      rw h (ap (λ l. f ∷ l) e, ih ∙ ap ok (omega arith))

  -- All or nothing, for the entries that `infolist` gave.
  entries_whole :
      (o : Option (List ZipInfo))
      → ((entries : List ZipInfo) → o ≡ some entries → All (Readable read) entries)
      → Nothing (extract_entries resolve dest read o)
        ⊎ Everything o (extract_entries resolve dest read o)
  unfolding extract_entries write_validated
  entries_whole none r = inl (_, refl, refl)
  entries_whole (some entries) r = elim (Result-cases (validate_archive resolve dest entries)) [
    | inl (e, h) ↦ inl (subst (λ x. Nothing (write_validated read x)) (sym h) (e, refl, refl))
    | inr (files, h) ↦
        let (few, em, infos, a, t, d) = validated resolve dest entries files h in
        let readable : All (Readable read) (infos_of files) =
          subst (All (Readable read)) (sym infos)
            (All-keep (Readable read) is_wanted entries (r entries refl)) in
        let (e, n) = write_files-Written 0 files a readable in
        inr (
          subst (λ x. Everything (some entries) (write_validated read x)) (sym h)
            (
              entries,
              refl,
              ap infos_of e ∙ infos,
              some_written _ files e em,
              n ∙ ap ok (omega arith),
            ))
  ]
    where
      some_written :
          (ws : List (FileEntry × Text)) (files : List FileEntry)
          → map (λ w. w.0) ws ≡ files
          → is_empty files ≡ false
          → is_empty ws ≡ false
      some_written [] files e n = ap is_empty e ∙ n
      some_written (w ∷ ws) files e n = refl

-- Where `zipfile` reads each entry that it lists, with as many bytes as the entry announces, the
-- extraction either raises and has written nothing, or writes, in the order of the archive, the file of every
-- entry that is neither a directory nor metadata of macOS, at least one, and returns their number.
pub extract-whole :
    (resolve : Text → Text) (zipfile : Text → ZipFile) (zip_bytes dest_dir : Text)
    → AllReadable (zipfile zip_bytes)
    → Nothing (extract_workflows_zip resolve zipfile zip_bytes dest_dir)
      ⊎ Everything
          (zipfile zip_bytes).infolist
          (extract_workflows_zip resolve zipfile zip_bytes dest_dir)
unfolding extract_workflows_zip
extract-whole resolve zipfile zip_bytes dest_dir r =
    if_both Whole (is_empty zip_bytes) _ _ (inl (_, refl, refl)) (
      if_both Whole (zipfile zip_bytes).is_zipfile _ _
        (entries_whole resolve (resolve dest_dir) (zipfile zip_bytes).read
          (zipfile zip_bytes).infolist r)
        (inl (_, refl, refl)))
  where
    Whole : Extraction → Type 0
    Whole o = Nothing o ⊎ Everything (zipfile zip_bytes).infolist o
