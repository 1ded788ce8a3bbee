-- ===== src/Tests/Archives.antt =====
-- Extracting a small archive of workflows.
use arguss.Base.{
  ◌≡◌, refl, subst, All, ◌⊎◌, true, some, List, [], ◌∷◌, codes, Text, text_eq, starts_with,
  ends_with, has_substring, if◌then◌else◌,
}
use arguss.Base.Results.{ok, require, first_failure}
use arguss.Base.Paths.{
  replace_char, rstrip_char, lstrip_char, split_char, segments, last_or, path_parts, path_name,
  path_suffix, join_path, is_relative_to,
}
use arguss.Archive.{
  ZipInfo, ZipFile, Extraction, write_files, write_file, write_checked, data_checks,
  write_validated, extract_entries, validate_archive, validate_entries, validate_entry, admit_entry,
  append_entry, is_skipped, is_directory_entry, is_macos_metadata, entry_name_checks,
  entry_type_checks, entry_basename, entry_checks, file_mode, has_allowed_extension,
  extract_workflows_zip,
}
use arguss.Archive.Safety.{Safe, extract-Safe}
use arguss.Archive.Complete.{AllReadable, Readable, Nothing, Everything, extract-whole}

abbrev folder : ZipInfo
folder = record { filename = codes "w/"; external_attr = 0; file_size = 0 }

abbrev workflow : ZipInfo
workflow = record { filename = codes "w/ci.yml"; external_attr = 0; file_size = 2 }

abbrev climber : ZipInfo
climber = record { filename = codes "../x.yml"; external_attr = 0; file_size = 2 }

abbrev holding : List ZipInfo → Text → ZipFile
holding entries _ = record {
  is_zipfile = true;
  infolist = some entries;
  read = λ name. some (if text_eq name (codes "w/") then [] else codes "on");
}

abbrev in_place : Text → Text
in_place path = path

abbrev run : List ZipInfo → Extraction
run entries = extract_workflows_zip in_place (holding entries) (codes "PK") (codes "/tmp/d")

test_ok : (run (folder ∷ workflow ∷ [])).result ≡ ok 1
unfolding extract_workflows_zip extract_entries write_validated write_files write_file write_checked
    data_checks require first_failure validate_archive validate_entries validate_entry admit_entry
    append_entry is_skipped is_directory_entry is_macos_metadata entry_name_checks entry_type_checks
    entry_basename entry_checks file_mode has_allowed_extension replace_char rstrip_char lstrip_char
    split_char segments last_or path_parts path_name path_suffix join_path is_relative_to text_eq
    starts_with ends_with has_substring
test_ok = refl

both_readable : AllReadable (holding (folder ∷ workflow ∷ []) [])
unfolding text_eq
both_readable entries e =
    let same : folder ∷ workflow ∷ [] ≡ entries = cc e in
    subst (All (Readable (holding [] []).read)) same ((_, refl, refl), ((_, refl, refl), tt))

extract-Safe_example : Safe in_place (codes "/tmp/d") (run (folder ∷ workflow ∷ []))
extract-Safe_example =
    extract-Safe in_place (holding (folder ∷ workflow ∷ [])) (codes "PK") (codes "/tmp/d")

extract-whole_example :
    Nothing (run (folder ∷ workflow ∷ []))
    ⊎ Everything (some (folder ∷ workflow ∷ [])) (run (folder ∷ workflow ∷ []))
extract-whole_example =
    extract-whole in_place (holding (folder ∷ workflow ∷ [])) (codes "PK") (codes "/tmp/d")
      both_readable
