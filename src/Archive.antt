-- ===== src/Archive.antt =====
-- arguss/web/zip_safe.py: the checks of an uploaded archive of workflows, and its extraction.
-- `zipfile` and the resolution of a path on the file system are parameters. A message that only
-- names the entry is left out of an error.
pub mod Admitted
pub mod Safety
pub mod Complete
use arguss.Base.{
  ℕ, zero, suc, ◌+◌, ◌*◌, ◌/◌, ◌%◌, Bool, true, false, not, ◌&&◌, ◌||◌, Option, none, some, List,
  [], ◌∷◌, ◌++◌, if◌then◌else◌, ◌==◌, leb, length, is_empty, Text, codes, is_in, starts_with,
  ends_with, has_substring, lower,
}
use arguss.Base.Results.{Result, ok, error, ◌>>=◌, require}
use arguss.Base.Paths.{
  replace_char, rstrip_char, split_char, last_or, path_name, path_suffix, join_path, is_relative_to,
}

abbrev pub max_entries : ℕ
max_entries = 200

abbrev pub max_total_extracted_bytes : ℕ
max_total_extracted_bytes = 10 * 1024 * 1024

abbrev pub max_per_file_bytes : ℕ
max_per_file_bytes = 2 * 1024 * 1024

abbrev allowed_extensions : List Text
allowed_extensions = codes ".yml" ∷ codes ".yaml" ∷ []

abbrev unix_symlink : ℕ
unix_symlink = 40960

abbrev unix_regular_file : ℕ
unix_regular_file = 32768

-- `unreadable` stands for the exceptions of `zipfile` itself.
pub data ZipExtractionError : Type 0 where
  empty_archive not_a_zip too_many_entries no_workflow_files : ZipExtractionError
  empty_name absolute_path backslash path_traversal invalid_name : ZipExtractionError
  symlink not_regular wrong_extension duplicate_basename : ZipExtractionError
  file_too_large archive_too_large outside_destination : ZipExtractionError
  size_mismatch unreadable : ZipExtractionError

pub record ZipInfo : Type 0 where
  pub filename : Text
  pub external_attr : ℕ
  pub file_size : ℕ

-- What the code uses of `zipfile`; `none` where the library raises.
pub record ZipFile : Type 0 where
  pub is_zipfile : Bool
  pub infolist : Option (List ZipInfo)
  pub read : Text → Option Text

unfoldable pub is_directory_entry : Text → Bool
is_directory_entry name = ends_with (codes "/") name

unfoldable pub is_macos_metadata : Text → Bool
unfolding last_or split_char
is_macos_metadata entry_name =
    let basename = last_or [] (split_char b'/' entry_name) in
    starts_with (codes "__MACOSX/") entry_name || starts_with (codes "._") basename

unfoldable pub entry_basename : Text → Result ZipExtractionError Text
entry_basename name =
    let normalized = rstrip_char b'/' (replace_char 92 b'/' name) in
    require ((is_empty normalized, invalid_name) ∷ []) (path_name normalized)

unfoldable pub entry_name_checks : Text → List (Bool × ZipExtractionError)
entry_name_checks name =
    (is_empty name, empty_name)
    ∷ (starts_with (codes "/") name, absolute_path)
    ∷ (has_substring (92 ∷ []) name, backslash)
    ∷ (has_substring (codes "..") name, path_traversal)
    ∷ []

-- (external_attr >> 16) & 0o170000
unfoldable pub file_mode : ZipInfo → ℕ
file_mode info = info.external_attr / 65536 / 4096 % 16 * 4096

unfoldable pub entry_type_checks : ZipInfo → List (Bool × ZipExtractionError)
unfolding file_mode
entry_type_checks info =
    (file_mode info == unix_symlink, symlink)
    ∷ (not ((file_mode info == 0) || (file_mode info == unix_regular_file)), not_regular)
    ∷ []

unfoldable pub has_allowed_extension : Text → Bool
has_allowed_extension basename = is_in (lower (path_suffix basename)) allowed_extensions

pub record FileEntry : Type 0 where
  pub info : ZipInfo
  pub basename : Text
  pub target : Text

-- The state of the loop that validates.
pub record Validation : Type 0 where
  pub file_entries : List FileEntry
  pub total_uncompressed : ℕ
  pub seen_basenames : List Text

abbrev pub nothing_yet : Validation
nothing_yet = record { file_entries = []; total_uncompressed = 0; seen_basenames = [] }

unfoldable pub is_skipped : ZipInfo → Bool
is_skipped info = is_directory_entry info.filename || is_macos_metadata info.filename

module _ (resolve : Text → Text) (dest : Text) where
  -- The checks on an entry whose basename is known, up to that on its target.
  unfoldable pub entry_checks : ZipInfo → Text → Validation → List (Bool × ZipExtractionError)
  entry_checks info basename s =
      (not (has_allowed_extension basename), wrong_extension)
      ∷ (is_in basename s.seen_basenames, duplicate_basename)
      ∷ (not (leb info.file_size max_per_file_bytes), file_too_large)
      ∷ (
        not (leb (s.total_uncompressed + info.file_size) max_total_extracted_bytes),
        archive_too_large,
      )
      ∷ (not (is_relative_to (resolve (join_path dest basename)) dest), outside_destination)
      ∷ []

  unfoldable pub append_entry : ZipInfo → Text → Validation → Validation
  append_entry info basename s = record {
    file_entries =
        s.file_entries
        ++ (record { info = info; basename = basename; target = resolve (join_path dest basename) }
            ∷ []);
    total_uncompressed = s.total_uncompressed + info.file_size;
    seen_basenames = s.seen_basenames ++ (basename ∷ []);
  }

  unfoldable pub admit_entry : ZipInfo → Validation → Result ZipExtractionError Validation
  unfolding append_entry
  admit_entry info s = do
    name ← require (entry_name_checks info.filename) info.filename
    checked ← require (entry_type_checks info) name
    basename ← entry_basename checked
    require (entry_checks info basename s) (append_entry info basename s)

  unfoldable pub validate_entry : ZipInfo → Validation → Result ZipExtractionError Validation
  unfolding is_skipped admit_entry
  validate_entry info s = if is_skipped info then ok s else admit_entry info s

  unfoldable pub validate_entries : List ZipInfo → Validation → Result ZipExtractionError Validation
  unfolding validate_entry
  validate_entries [] s = ok s
  validate_entries (info ∷ infos) s = validate_entry info s >>= validate_entries infos

  -- Everything up to the first write.
  unfoldable pub validate_archive : List ZipInfo → Result ZipExtractionError (List FileEntry)
  unfolding validate_entries
  validate_archive entries = do
    few ← require ((not (leb (length entries) max_entries), too_many_entries) ∷ []) entries
    s ← validate_entries few nothing_yet
    require ((is_empty s.file_entries, no_workflow_files) ∷ []) s.file_entries

-- The result, and the files that were written by then.
pub record Extraction : Type 0 where
  pub result : Result ZipExtractionError ℕ
  pub written : List (FileEntry × Text)

abbrev pub stopped : ZipExtractionError → Extraction
stopped e = record { result = error e; written = [] }

abbrev pub also_written : FileEntry → Text → Extraction → Extraction
also_written f content x = record x { written = (f, content) ∷ x.written }

unfoldable pub data_checks : FileEntry → Text → List (Bool × ZipExtractionError)
data_checks f content =
    (not (length content == f.info.file_size), size_mismatch)
    ∷ (not (leb (length content) max_per_file_bytes), file_too_large)
    ∷ []

unfoldable pub write_checked : FileEntry → Result ZipExtractionError Text → Extraction → Extraction
write_checked f (ok content) later = also_written f content later
write_checked f (error e) later = stopped e

unfoldable pub write_file : FileEntry → Option Text → Extraction → Extraction
unfolding write_checked data_checks
write_file f none later = stopped unreadable
write_file f (some content) later = write_checked f (require (data_checks f content) content) later

unfoldable pub write_files : (Text → Option Text) → ℕ → List FileEntry → Extraction
unfolding write_file
write_files read extracted [] = record { result = ok extracted; written = [] }
write_files read extracted (f ∷ fs) =
    write_file f (read f.info.filename) (write_files read (extracted + 1) fs)

unfoldable pub write_validated :
    (Text → Option Text) → Result ZipExtractionError (List FileEntry) → Extraction
write_validated read (ok files) = write_files read 0 files
write_validated read (error e) = stopped e

unfoldable pub extract_entries :
    (Text → Text) → Text → (Text → Option Text) → Option (List ZipInfo) → Extraction
unfolding write_validated
extract_entries resolve dest read none = stopped not_a_zip
extract_entries resolve dest read (some entries) =
    write_validated read (validate_archive resolve dest entries)

unfoldable pub extract_workflows_zip : (Text → Text) → (Text → ZipFile) → Text → Text → Extraction
unfolding extract_entries
extract_workflows_zip resolve zipfile zip_bytes dest_dir =
    let zf = zipfile zip_bytes in
    if is_empty zip_bytes
    then stopped empty_archive
    else if zf.is_zipfile
    then extract_entries resolve (resolve dest_dir) zf.read zf.infolist
    else stopped not_a_zip
