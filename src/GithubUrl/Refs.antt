-- ===== src/GithubUrl/Refs.antt =====
-- The git refs that `validate_git_ref` accepts.
use arguss.Base.{
  ◌≤◌, ◌≡◌, ◌≢◌, refl, sym, ◌∙◌, arith, true, false, not, ◌↔◌, ◌⊎◌, inl, inr, [], ◌∷◌, length,
  is_empty, All, all→All, All→all, Text, codes, text_eq, text_eq_iff, starts_with, ends_with,
  has_substring, Bool-cases, not-false, or-false, or_of_false, subst,
}
use arguss.Base.Results.{ok, require, Passed, require-Passed, Passed-require}
use arguss.Base.Affixes.{
  Begins, Ends, Inside, starts_with-false, starts_with-absent, has_substring-false,
  has_substring-absent, ends_with-false, ends_with-absent,
}
use arguss.GithubUrl.{is_ref_char, ref_matches, ref_checks, validate_git_ref}

-- A git ref that can stand in a path of GitHub's API and on the command line of git.
pub record SafeRef (ref : Text) : Type 0 where
  bounded : length ref ≤ 255
  not_empty : ref ≢ []
  characters : All (λ c. is_ref_char c ≡ true) ref
  no_option : ¬ Begins (codes "-") ref
  no_leading_slash : ¬ Begins (codes "/") ref
  no_trailing_slash : ¬ Ends (codes "/") ref
  no_lock : ¬ Ends (codes ".lock") ref
  no_double_dot : ¬ Inside (codes "..") ref
  no_double_slash : ¬ Inside (codes "//") ref

ref_checks-SafeRef : (ref : Text) → All Passed (ref_checks ref) → SafeRef ref
unfolding ref_checks ref_matches
ref_checks-SafeRef ref (long, (chars, (dash, (slashes, (lock, (doubles, _)))))) = record {
  bounded = ground (arith, long);
  not_empty = λ e. let x = subst (λ w. not (ref_matches w) ≡ false) e chars in cc;
  characters = all→All is_ref_char ref (ground (arith, not-false _ chars));
  no_option = starts_with-false (codes "-") ref dash;
  no_leading_slash =
      starts_with-false (codes "/") ref (or-false (starts_with (codes "/") ref) _ slashes).0;
  no_trailing_slash =
      ends_with-false (codes "/") ref (or-false (starts_with (codes "/") ref) _ slashes).1;
  no_lock = ends_with-false (codes ".lock") ref lock;
  no_double_dot =
      has_substring-false (codes "..") ref (or-false (has_substring (codes "..") ref) _ doubles).0;
  no_double_slash =
      has_substring-false (codes "//") ref (or-false (has_substring (codes "..") ref) _ doubles).1;
}

not-empty : (s : Text) → s ≢ [] → is_empty s ≡ false
not-empty [] h = absurd (h refl)
not-empty (c ∷ s) h = refl

SafeRef-ref_checks : (ref : Text) → SafeRef ref → All Passed (ref_checks ref)
unfolding ref_checks ref_matches
SafeRef-ref_checks ref s =
    let slashes =
      or_of_false (starts_with (codes "/") ref) (ends_with (codes "/") ref)
        (starts_with-absent (codes "/") ref s.no_leading_slash)
        (ends_with-absent (codes "/") ref s.no_trailing_slash) in
    let doubles =
      or_of_false (has_substring (codes "..") ref) (has_substring (codes "//") ref)
        (has_substring-absent (codes "..") ref s.no_double_dot)
        (has_substring-absent (codes "//") ref s.no_double_slash) in
    let chars : not (ref_matches ref) ≡ false =
      rw (not-empty ref s.not_empty, All→all is_ref_char ref s.characters) refl in
    let dash = starts_with-absent (codes "-") ref s.no_option in
    let lock = ends_with-absent (codes ".lock") ref s.no_lock in
    (ground (arith, s.bounded), (chars, (dash, (slashes, (lock, (doubles, tt))))))

head-SafeRef : SafeRef (codes "HEAD")
unfolding ref_checks starts_with ends_with has_substring
head-SafeRef = ref_checks-SafeRef (codes "HEAD") (refl, (refl, (refl, (refl, (refl, (refl, tt))))))

-- The ref that is returned, with its cause.
abbrev Accepted : Text → Text → Type 0
Accepted ref r = ((ref ≡ []) × (r ≡ codes "HEAD")) ⊎ (SafeRef ref × (r ≡ ref))

head-accepted : (ref : Text) → text_eq ref (codes "HEAD") ≡ true → validate_git_ref ref ≡ ok ref
unfolding validate_git_ref text_eq
head-accepted ref t =
    subst (λ w. validate_git_ref w ≡ ok w) (sym ((text_eq_iff ref (codes "HEAD")).0 t)) refl

checked :
    (ref : Text)
    → ref ≢ []
    → text_eq ref (codes "HEAD") ≡ false
    → validate_git_ref ref ≡ require (ref_checks ref) ref
unfolding validate_git_ref
checked ref n f = rw (not-empty ref n, f) refl

accepted : (ref r : Text) → validate_git_ref ref ≡ ok r → Accepted ref r
unfolding validate_git_ref
accepted [] r h = inl (refl, cc)
accepted (c ∷ s) r h = elim (Bool-cases (text_eq (c ∷ s) (codes "HEAD"))) [
  | inl t ↦
      let q = head-accepted (c ∷ s) t in
      inr (subst SafeRef (sym ((text_eq_iff (c ∷ s) (codes "HEAD")).0 t)) head-SafeRef, cc)
  | inr f ↦
      let n : c ∷ s ≢ [] = λ e. cc in
      let (e, p) = require-Passed (ref_checks (c ∷ s)) (c ∷ s) r (sym (checked (c ∷ s) n f) ∙ h) in
      inr (ref_checks-SafeRef (c ∷ s) p, sym e)
]

accepts : (ref r : Text) → Accepted ref r → validate_git_ref ref ≡ ok r
unfolding validate_git_ref
accepts ref r (inl (e, q)) = rw (e, q) refl
accepts ref r (inr (s, q)) = rw q (elim (Bool-cases (text_eq ref (codes "HEAD"))) [
  | inl t ↦ head-accepted ref t
  | inr f ↦
      checked ref s.not_empty f ∙ Passed-require (ref_checks ref) ref (SafeRef-ref_checks ref s)
])

-- The refs that are accepted, and returned as they are, are exactly those that have 1 to 255
-- letters, digits, dots, underscores, dashes and slashes, do not begin with a dash or a slash, do
-- not end with a slash or '.lock', and have no '..' and no '//' inside; and the empty ref gives
-- 'HEAD'.
pub validate_git_ref_iff :
    (ref r : Text)
    → (validate_git_ref ref ≡ ok r)
      ↔ (((ref ≡ []) × (r ≡ codes "HEAD")) ⊎ (SafeRef ref × (r ≡ ref)))
validate_git_ref_iff ref r = (accepted ref r, accepts ref r)
