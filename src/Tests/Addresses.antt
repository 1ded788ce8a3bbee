-- ===== src/Tests/Addresses.antt =====
-- Refs, addresses and fields of arguss/web/github_url.py.
use arguss.Base.{
  ◌≡◌, refl, ◌↔◌, ◌⊎◌, Option, some, [], Text, codes, starts_with, ends_with, has_substring,
  text_eq, strip, lstrip,
}
use arguss.Base.Results.{ok, error, require, first_failure}
use arguss.Base.Paths.{segments, split_char, push_char, lstrip_char, rstrip_char}
use arguss.GithubUrl
use arguss.GithubUrl.Fields
use arguss.GithubUrl.Fields.{text, extract_github_owner_repo}
use arguss.GithubUrl.{ParseResult, ParsedGithubRepo, lock_suffix, validate_git_ref}
use arguss.GithubUrl.{parse_github_url}
use arguss.GithubUrl.Safety.{
  FromAddress, ValidSegment, parse_github_url-FromAddress, extract_github_owner_repo-ValidSegment,
}
use arguss.GithubUrl.Refs.{SafeRef, validate_git_ref_iff}

-- An address of GitHub with the path that is given.
abbrev parsed_lodash : Text → Option ParseResult
parsed_lodash url = some (record {
  scheme = codes "https";
  hostname = some (codes "GitHub.com");
  path = codes "/lodash/lodash.js.git";
})

abbrev lodash_repo : ParsedGithubRepo
lodash_repo = record {
  owner = codes "lodash";
  name = codes "lodash.js";
  clone_url = codes "https://github.com/lodash/lodash.js.git";
}

lodash_accepted :
    parse_github_url parsed_lodash (codes " github.com/lodash/lodash.js.git") ≡ ok lodash_repo
unfolding parse_github_url GithubUrl.address_checks GithubUrl.normalize_scheme GithubUrl.parse_path
    GithubUrl.parsed_checks GithubUrl.parse_segments GithubUrl.valid_segment
    GithubUrl.segment_matches GithubUrl.without_git GithubUrl.drop_last_four GithubUrl.clone_address
    require first_failure starts_with ends_with has_substring text_eq strip lstrip segments
    split_char push_char lstrip_char rstrip_char
lodash_accepted = refl

parse_github_url-FromAddress_example :
    FromAddress parsed_lodash (codes " github.com/lodash/lodash.js.git") lodash_repo
parse_github_url-FromAddress_example =
    parse_github_url-FromAddress parsed_lodash (codes " github.com/lodash/lodash.js.git")
      lodash_repo lodash_accepted

field_accepted :
    extract_github_owner_repo parsed_lodash
      (text (codes "git+ssh://git@github.com/lodash/lodash.js"))
    ≡ ok (some (codes "lodash", codes "lodash.js"))
unfolding extract_github_owner_repo Fields.repository_url Fields.extract_from_url
    Fields.normalize_repository Fields.replace_prefix Fields.after_prefix Fields.parse_repository
    Fields.caught parse_github_url GithubUrl.address_checks GithubUrl.normalize_scheme
    GithubUrl.parse_path GithubUrl.parsed_checks GithubUrl.parse_segments GithubUrl.valid_segment
    GithubUrl.segment_matches GithubUrl.without_git GithubUrl.drop_last_four GithubUrl.clone_address
    require first_failure starts_with ends_with has_substring text_eq strip lstrip segments
    split_char push_char lstrip_char rstrip_char
field_accepted = refl

extract_github_owner_repo-ValidSegment_example :
    ValidSegment (codes "lodash") × ValidSegment (codes "lodash.js")
extract_github_owner_repo-ValidSegment_example =
    extract_github_owner_repo-ValidSegment parsed_lodash
      (text (codes "git+ssh://git@github.com/lodash/lodash.js")) (codes "lodash")
      (codes "lodash.js") field_accepted

validate_git_ref_iff_example : (validate_git_ref (codes "feature/x") ≡ ok (codes "feature/x")) ↔ (
    ((codes "feature/x" ≡ []) × (codes "feature/x" ≡ codes "HEAD"))
    ⊎ (SafeRef (codes "feature/x") × (codes "feature/x" ≡ codes "feature/x")))
validate_git_ref_iff_example = validate_git_ref_iff (codes "feature/x") (codes "feature/x")

lock_refused : validate_git_ref (codes "main.lock") ≡ error lock_suffix
unfolding validate_git_ref GithubUrl.ref_checks GithubUrl.ref_matches require first_failure
    starts_with ends_with has_substring text_eq
lock_refused = refl
