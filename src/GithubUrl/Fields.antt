-- ===== src/GithubUrl/Fields.antt =====
-- arguss/web/github_url.py: extract_github_owner_repo, the `repository` field of a package.
use arguss.Base.{
  ◌||◌, Option, none, some, List, [], ◌∷◌, ◌++◌, if◌then◌else◌, ◌==◌, is_empty, Text, codes,
  has_substring, lower, strip,
}
use arguss.Base.Results.{Result, ok, error}
use arguss.Base.Paths.{segments, lstrip_char, rstrip_char}
use arguss.GithubUrl.{
  InvalidGithubUrlError, invalid_owner, invalid_name, unparsable, ParsedGithubRepo, ParseResult,
  valid_segment, without_git, parse_github_url,
}

unfoldable pub github_shorthand : List Text → Option (Text × Text)
unfolding valid_segment without_git
github_shorthand (owner ∷ name ∷ rest) = elim (valid_segment invalid_owner owner) [
  | error e ↦ none
  | ok o ↦ elim (valid_segment invalid_name (without_git name)) [
    | error e ↦ none
    | ok n ↦ some (o, n)
  ]
]
github_shorthand _ = none

-- s[len(p):] behind a test that s starts with p
unfoldable pub after_prefix : Text → Text → Option Text
after_prefix [] s = some s
after_prefix (p ∷ ps) [] = none
after_prefix (p ∷ ps) (c ∷ s) = let rest = after_prefix ps s in if p == c then rest else none

-- The first of the prefixes that a text starts with is replaced.
unfoldable pub replace_prefix : List (Text × Text) → Text → Text
unfolding after_prefix
replace_prefix [] s = s
replace_prefix ((p, q) ∷ ps) s = elim (after_prefix p s) [
  | some rest ↦ q ++ rest
  | none ↦ replace_prefix ps s
]

unfoldable pub normalize_repository : Text → Text
unfolding replace_prefix
normalize_repository = replace_prefix (
    (codes "git+https://", codes "https://")
    ∷ (codes "git+ssh://git@github.com/", codes "https://github.com/")
    ∷ (codes "git@github.com:", codes "https://github.com/")
    ∷ (codes "git://github.com/", codes "https://github.com/")
    ∷ [])

-- `except InvalidGitHubURLError: return None`; the ValueError of `urlparse` is not caught.
unfoldable pub caught :
    Result InvalidGithubUrlError ParsedGithubRepo
    → Result InvalidGithubUrlError (Option (Text × Text))
caught (ok r) = ok (some (r.owner, r.name))
caught (error unparsable) = error unparsable
caught (error _) = ok none

-- The `repository` field of a package: absent, a dict with or without a text as its url, a text,
-- or something else.
pub data RepositoryField : Type 0 where
  missing other : RepositoryField
  dict : Option Text → RepositoryField
  text : Text → RepositoryField

unfoldable pub repository_url : RepositoryField → Text
repository_url missing = []
repository_url other = []
repository_url (dict none) = []
repository_url (dict (some raw)) = strip raw
repository_url (text s) = strip s

module _ (urlparse : Text → Option ParseResult) where
  unfoldable pub parse_repository : Text → Result InvalidGithubUrlError (Option (Text × Text))
  unfolding caught parse_github_url
  parse_repository normalized =
      if has_substring (codes "github.com") (lower normalized)
      then caught (parse_github_url urlparse normalized)
      else ok none

  unfoldable pub extract_from_url : Text → Result InvalidGithubUrlError (Option (Text × Text))
  unfolding after_prefix github_shorthand normalize_repository parse_repository
  extract_from_url url = elim (after_prefix (codes "github:") url) [
    | some rest ↦
        ok (github_shorthand (segments (rstrip_char b'/' (lstrip_char b'/' (strip rest)))))
    | none ↦
        if has_substring (codes "gitlab.com") (lower url)
          || has_substring (codes "bitbucket.org") (lower url)
        then ok none
        else parse_repository (normalize_repository url)
  ]

  unfoldable pub extract_github_owner_repo :
      RepositoryField → Result InvalidGithubUrlError (Option (Text × Text))
  unfolding repository_url extract_from_url
  extract_github_owner_repo field =
      if is_empty (repository_url field) then ok none else extract_from_url (repository_url field)
