-- ===== src/GithubUrl.antt =====
-- arguss/web/github_url.py: the git refs and the GitHub addresses that a scan accepts.
-- `urllib.parse.urlparse` is a parameter; a message that repeats the input is left out of an error.
pub mod Fields
pub mod Safety
pub mod Refs
use arguss.Base.{
  ℕ, ◌-◌, Bool, true, false, not, ◌&&◌, ◌||◌, Option, none, some, List, [], ◌∷◌, ◌++◌,
  if◌then◌else◌, ◌==◌, leb, ltb, length, is_empty, all, any, Text, codes, text_eq, starts_with,
  ends_with, has_substring, is_digit, lower, strip,
}
use arguss.Base.Results.{Result, ok, error, ◌>>=◌, require}
use arguss.Base.Paths.{segments, lstrip_char, rstrip_char}

abbrev pub git_ref_max_len : ℕ
git_ref_max_len = 255

pub data InvalidGitRefError : Type 0 where
  too_long invalid_characters leading_dash outer_slash lock_suffix double_dot_or_slash :
      InvalidGitRefError

-- `unparsable` stands for the ValueError of `urlparse` itself, which is of the base class.
pub data InvalidGithubUrlError : Type 0 where
  empty_url ssh_url git_scheme not_https other_host no_path one_segment : InvalidGithubUrlError
  traversal invalid_owner invalid_name unparsable : InvalidGithubUrlError

-- [a-zA-Z0-9]
abbrev pub is_alnum : ℕ → Bool
is_alnum c = (leb b'a' c && leb c b'z') || ((leb b'A' c && leb c b'Z') || is_digit c)

-- [a-zA-Z0-9._-]
abbrev pub is_segment_char : ℕ → Bool
is_segment_char c = is_alnum c || ((c == b'.') || ((c == b'_') || (c == b'-')))

-- _GITHUB_SEGMENT_RE.fullmatch; its first character excludes a dot by itself.
unfoldable pub segment_matches : Text → Bool
segment_matches [] = false
segment_matches (c ∷ s) =
    not (c == b'.')
    && (not (has_substring (codes "..") (c ∷ s)) && (is_alnum c && all is_segment_char s))

-- [A-Za-z0-9._/-]
abbrev pub is_ref_char : ℕ → Bool
is_ref_char c = is_segment_char c || (c == b'/')

-- _GIT_REF_ALLOWED_RE.fullmatch
unfoldable pub ref_matches : Text → Bool
ref_matches s = not (is_empty s) && all is_ref_char s

unfoldable pub ref_checks : Text → List (Bool × InvalidGitRefError)
unfolding ref_matches
ref_checks ref =
    (ltb git_ref_max_len (length ref), too_long)
    ∷ (not (ref_matches ref), invalid_characters)
    ∷ (starts_with (codes "-") ref, leading_dash)
    ∷ (starts_with (codes "/") ref || ends_with (codes "/") ref, outer_slash)
    ∷ (ends_with (codes ".lock") ref, lock_suffix)
    ∷ (has_substring (codes "..") ref || has_substring (codes "//") ref, double_dot_or_slash)
    ∷ []

unfoldable pub validate_git_ref : Text → Result InvalidGitRefError Text
unfolding ref_checks
validate_git_ref ref =
    if is_empty ref || text_eq ref (codes "HEAD")
    then ok (codes "HEAD")
    else require (ref_checks ref) ref

pub record ParsedGithubRepo : Type 0 where
  pub owner : Text
  pub name : Text
  pub clone_url : Text

unfoldable pub repo_identity : ParsedGithubRepo → Text
repo_identity r = r.owner ++ (codes "/" ++ r.name)

-- What the code reads of the result of `urlparse`.
pub record ParseResult : Type 0 where
  pub scheme : Text
  pub hostname : Option Text
  pub path : Text

unfoldable pub valid_segment : InvalidGithubUrlError → Text → Result InvalidGithubUrlError Text
valid_segment e segment = require ((not (segment_matches segment), e) ∷ []) segment

-- if name.endswith(".git"): name = name[:-4]
unfoldable pub drop_last_four : Text → Text
drop_last_four (a ∷ b ∷ c ∷ d ∷ []) = []
drop_last_four (a ∷ s) = a ∷ drop_last_four s
drop_last_four [] = []

unfoldable pub without_git : Text → Text
unfolding drop_last_four
without_git name = if ends_with (codes ".git") name then drop_last_four name else name

unfoldable pub clone_address : Text → Text → Text
clone_address owner name =
    codes "https://github.com/" ++ (owner ++ (codes "/" ++ (name ++ codes ".git")))

-- The end of `parse_github_url`, from the segments of the path on.
unfoldable pub parse_segments : List Text → Result InvalidGithubUrlError ParsedGithubRepo
unfolding valid_segment without_git clone_address
parse_segments (s0 ∷ s1 ∷ rest) =
    require
      ((
        any (has_substring (codes "..")) (s0 ∷ s1 ∷ rest)
            || any (text_eq (codes ".")) (s0 ∷ s1 ∷ rest),
        traversal,
      )
        ∷ [])
      tt
    >>= λ _. valid_segment invalid_owner s0 >>= λ owner.
        valid_segment invalid_name (without_git s1) >>= λ name.
        ok (record { owner = owner; name = name; clone_url = clone_address owner name })
parse_segments _ = error one_segment

unfoldable pub normalize_scheme : Text → Text
normalize_scheme s =
    if starts_with (codes "http://") s || starts_with (codes "https://") s
    then s
    else codes "https://" ++ s

abbrev pub hostname_or_empty : Option Text → Text
hostname_or_empty none = []
hostname_or_empty (some s) = s

unfoldable pub address_checks : Text → List (Bool × InvalidGithubUrlError)
address_checks stripped =
    (is_empty stripped, empty_url)
    ∷ (starts_with (codes "git@") stripped || starts_with (codes "ssh://") stripped, ssh_url)
    ∷ (starts_with (codes "git://") (normalize_scheme stripped), git_scheme)
    ∷ []

unfoldable pub parsed_checks : ParseResult → List (Bool × InvalidGithubUrlError)
parsed_checks parsed =
    (not (text_eq parsed.scheme (codes "https")), not_https)
    ∷ (not (text_eq (lower (hostname_or_empty parsed.hostname)) (codes "github.com")), other_host)
    ∷ (is_empty (rstrip_char b'/' (lstrip_char b'/' parsed.path)), no_path)
    ∷ []

-- What `parse_github_url` does with the result of `urlparse`.
unfoldable pub parse_path : Option ParseResult → Result InvalidGithubUrlError ParsedGithubRepo
unfolding parsed_checks parse_segments
parse_path none = error unparsable
parse_path (some parsed) =
    require (parsed_checks parsed) (rstrip_char b'/' (lstrip_char b'/' parsed.path)) >>= λ raw_path.
    parse_segments (segments raw_path)

module _ (urlparse : Text → Option ParseResult) where
  unfoldable pub parse_github_url : Text → Result InvalidGithubUrlError ParsedGithubRepo
  unfolding address_checks normalize_scheme parse_path
  parse_github_url url =
      require (address_checks (strip url)) (normalize_scheme (strip url)) >>= λ normalized.
      parse_path (urlparse normalized)
