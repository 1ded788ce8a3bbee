-- ===== src/GithubUrl/Safety.antt =====
-- What the checks of a ref, of an address and of a `repository` field let through.
use arguss.Base.{
  ℕ, ◌≡◌, refl, ap, sym, arith, Bool, true, false, ◌||◌, inl, inr, Option, none, some, List, [],
  ◌∷◌, is_empty, any, All, all→All, Text, codes, text_eq, text_eq_iff, has_substring, lower, strip,
  not-false, or-false, subst, if_both, Option-cases,
}
use arguss.Base.Results.{Result, ok, error, bind-ok, require-Passed, require-bind}
use arguss.Base.Paths.{segments, lstrip_char, rstrip_char}
use arguss.Base.Affixes.{Inside, has_substring-false}
use arguss.GithubUrl.{
  is_alnum, is_segment_char, segment_matches, InvalidGithubUrlError, ParsedGithubRepo, ParseResult,
  valid_segment, without_git, clone_address, parse_segments, parsed_checks, parse_path,
  hostname_or_empty, normalize_scheme, parse_github_url, empty_url, ssh_url, git_scheme, not_https,
  other_host, no_path, one_segment, traversal, invalid_owner, invalid_name, unparsable,
}
use arguss.GithubUrl.Fields.{
  github_shorthand, caught, RepositoryField, parse_repository, extract_from_url,
  extract_github_owner_repo, after_prefix, normalize_repository, repository_url,
}

-- The name of an owner or of a repository that is safe in a path and in a command.
pub record ValidSegment (s : Text) : Type 0 where
  characters : All (λ c. is_segment_char c ≡ true) s
  first : (c : ℕ) × (t : Text) × (s ≡ c ∷ t) × (is_alnum c ≡ true)
  no_double_dot : ¬ Inside (codes "..") s

segment_matches-ValidSegment : (s : Text) → segment_matches s ≡ true → ValidSegment s
unfolding segment_matches
segment_matches-ValidSegment [] h = cc
segment_matches-ValidSegment (c ∷ s) h = record {
  characters = (ground (arith, h), all→All is_segment_char s (ground (arith, h)));
  first = (c, s, refl, ground (arith, h));
  no_double_dot = has_substring-false (codes "..") (c ∷ s) (ground (arith, h));
}

valid_segment-ok :
    (e : InvalidGithubUrlError) (s o : Text) → valid_segment e s ≡ ok o → (s ≡ o) × ValidSegment o
unfolding valid_segment
valid_segment-ok e s o h =
    let (q, (p, _)) = require-Passed _ s o h in
    (q, subst ValidSegment q (segment_matches-ValidSegment s (not-false _ p)))

-- What the segments of a path must be for the repository that is read from them.
record FromSegments (segs : List Text) (r : ParsedGithubRepo) : Type 0 where
  second : Text
  others : List Text
  in_path : segs ≡ r.owner ∷ second ∷ others
  no_traversal : All (λ s. has_substring (codes "..") s ≡ false) segs
  name_of : r.name ≡ without_git second
  owner_valid : ValidSegment r.owner
  name_valid : ValidSegment r.name
  clone_of : r.clone_url ≡ clone_address r.owner r.name

any-none : (p : Text → Bool) (xs : List Text) → any p xs ≡ false → All (λ x. p x ≡ false) xs
any-none p [] h = tt
any-none p (x ∷ xs) h = let (a, b) = or-false (p x) _ h in (a, any-none p xs b)

parse_segments-FromSegments :
    (segs : List Text) (r : ParsedGithubRepo) → parse_segments segs ≡ ok r → FromSegments segs r
unfolding parse_segments
parse_segments-FromSegments [] r h = cc
parse_segments-FromSegments (s0 ∷ []) r h = cc
parse_segments-FromSegments (s0 ∷ s1 ∷ rest) r h =
    let ((p, _), h1) = require-bind _ tt _ r h in
    let (o, k, h2) = bind-ok _ _ r h1 in
    let (n, l, h3) = bind-ok _ _ r h2 in
    let (qo, vo) = valid_segment-ok _ s0 o k in
    let (qn, vn) = valid_segment-ok _ (without_git s1) n l in
    let e : record { owner = o; name = n; clone_url = clone_address o n } ≡ r = cc in
    subst (FromSegments (s0 ∷ s1 ∷ rest)) e (record {
      second = s1;
      others = rest;
      in_path = ap (λ x. x ∷ s1 ∷ rest) qo;
      no_traversal =
          any-none (has_substring (codes "..")) (s0 ∷ s1 ∷ rest)
            (or-false _ (any (text_eq (codes ".")) (s0 ∷ s1 ∷ rest)) p).0;
      name_of = sym qn;
      owner_valid = vo;
      name_valid = vn;
      clone_of = refl;
    })

host_of :
    (o : Option Text)
    → text_eq (lower (hostname_or_empty o)) (codes "github.com") ≡ true
    → (h : Text) × (o ≡ some h) × (lower h ≡ codes "github.com")
unfolding text_eq
host_of none h = cc
host_of (some s) h = (s, refl, (text_eq_iff (lower s) (codes "github.com")).0 h)

-- A pair of names that is given is made of valid segments.
Both : Option (Text × Text) → Type 0
Both none = Unit
Both (some q) = ValidSegment q.0 × ValidSegment q.1

github_shorthand-Both : (parts : List Text) → Both (github_shorthand parts)
unfolding Both github_shorthand
github_shorthand-Both [] = tt
github_shorthand-Both (s0 ∷ []) = tt
github_shorthand-Both (s0 ∷ s1 ∷ rest) =
    by_owner (valid_segment invalid_owner s0) (valid_segment-ok _ s0)
      (valid_segment invalid_name (without_git s1)) (valid_segment-ok _ (without_git s1))
  where
    by_owner :
        (x : Result InvalidGithubUrlError Text)
        → ((o : Text) → x ≡ ok o → (s0 ≡ o) × ValidSegment o)
        → (y : Result InvalidGithubUrlError Text)
        → ((n : Text) → y ≡ ok n → (without_git s1 ≡ n) × ValidSegment n)
        → Both (elim x [ error e ↦ none | ok o ↦ elim y [ error e ↦ none | ok n ↦ some (o, n) ] ])
    by_owner (error e) f y g = tt
    by_owner (ok o) f (error e) g = tt
    by_owner (ok o) f (ok n) g = ((f o refl).1, (g n refl).1)

-- The result of reading a field gives no other names.
Sound : Result InvalidGithubUrlError (Option (Text × Text)) → Type 0
unfolding Both
Sound (error e) = Unit
Sound (ok o) = Both o

caught-Sound :
    (r : Result InvalidGithubUrlError ParsedGithubRepo)
    → ((p : ParsedGithubRepo) → r ≡ ok p → ValidSegment p.owner × ValidSegment p.name)
    → Sound (caught r)
unfolding Sound caught
caught-Sound (ok p) f = f p refl
caught-Sound (error empty_url) f = tt
caught-Sound (error ssh_url) f = tt
caught-Sound (error git_scheme) f = tt
caught-Sound (error not_https) f = tt
caught-Sound (error other_host) f = tt
caught-Sound (error no_path) f = tt
caught-Sound (error one_segment) f = tt
caught-Sound (error traversal) f = tt
caught-Sound (error invalid_owner) f = tt
caught-Sound (error invalid_name) f = tt
caught-Sound (error unparsable) f = tt

module _ (urlparse : Text → Option ParseResult) where
  -- What an address must be for the repository that is read from it.
  pub record FromAddress (url : Text) (r : ParsedGithubRepo) : Type 0 where
    parsed : ParseResult
    found : urlparse (normalize_scheme (strip url)) ≡ some parsed
    https : parsed.scheme ≡ codes "https"
    host : (h : Text) × (parsed.hostname ≡ some h) × (lower h ≡ codes "github.com")
    from_path : FromSegments (segments (rstrip_char b'/' (lstrip_char b'/' parsed.path))) r

  -- An address that is accepted is read by urlparse with the scheme https and the host github.com;
  -- its owner and its repository, less '.git', are the first two segments of its path, in which
  -- no segment has '..' inside; both begin with a letter or a digit and hold only letters, digits,
  -- dots, underscores and dashes; and the address to clone is made of the two.
  pub parse_github_url-FromAddress :
      (url : Text) (r : ParsedGithubRepo) → parse_github_url urlparse url ≡ ok r → FromAddress url r
  unfolding parse_github_url parse_path parsed_checks
  parse_github_url-FromAddress url r h =
      of_parsed (urlparse (normalize_scheme (strip url))) refl (require-bind _ _ _ r h).1
    where
      of_parsed :
          (o : Option ParseResult)
          → urlparse (normalize_scheme (strip url)) ≡ o
          → parse_path o ≡ ok r
          → FromAddress url r
      of_parsed none e h = cc
      of_parsed (some p) e h =
          let ((s, (k, _)), h1) = require-bind _ _ _ r h in
          record {
            parsed = p;
            found = e;
            https = (text_eq_iff p.scheme (codes "https")).0 (not-false _ s);
            host = host_of p.hostname (not-false _ k);
            from_path = parse_segments-FromSegments _ r h1;
          }

  parse_repository-Sound : (s : Text) → Sound (parse_repository urlparse s)
  unfolding Sound Both parse_repository
  parse_repository-Sound s =
      if_both Sound (has_substring (codes "github.com") (lower s)) _ _
        (caught-Sound (parse_github_url urlparse s) (λ p e.
          let a = (parse_github_url-FromAddress s p e).from_path in (a.owner_valid, a.name_valid)))
        tt

  extract_from_url-Sound : (url : Text) → Sound (extract_from_url urlparse url)
  unfolding Sound Both extract_from_url
  extract_from_url-Sound url = elim (Option-cases (after_prefix (codes "github:") url)) [
    | inr (rest, e) ↦ rw e (github_shorthand-Both _)
    | inl e ↦ rw e (
        if_both Sound
          (has_substring (codes "gitlab.com") (lower url)
            || has_substring (codes "bitbucket.org") (lower url))
          (ok none) _ tt (parse_repository-Sound (normalize_repository url)))
  ]

  -- An owner and a repository that are taken from a `repository` field, in any of its forms, begin
  -- with a letter or a digit, hold only letters, digits, dots, underscores and dashes, and have
  -- no '..' inside.
  pub extract_github_owner_repo-ValidSegment :
      (field : RepositoryField) (owner name : Text)
      → extract_github_owner_repo urlparse field ≡ ok (some (owner, name))
      → ValidSegment owner × ValidSegment name
  unfolding Sound Both extract_github_owner_repo
  extract_github_owner_repo-ValidSegment field owner name h = subst Sound h (
      if_both Sound (is_empty (repository_url field)) _ _ tt
        (extract_from_url-Sound (repository_url field)))
