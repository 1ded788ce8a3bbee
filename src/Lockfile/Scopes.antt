-- ===== src/Lockfile/Scopes.antt =====
-- `_ancestor_node_modules_prefixes`: the scopes in which npm looks for a package, the nearest first.
-- The loop runs on fuel, which `scopes_end` shows to suffice.
use arguss.Base.{
  ℕ, zero, suc, ◌<◌, ◌≡◌, refl, ap, ◌∙◌, subst, arith, true, false, Option, none, some, List, [],
  ◌∷◌, ◌++◌, if◌then◌else◌, is_empty, is_some, length, All, Option-cases, inl, inr, Text,
  starts_with, has_substring,
}
use arguss.Base.Splits.{
  before_last, before_last-lt, before_last-append, rsplit_head, rsplit_head-some, before_last-Clean,
  has_substring-before_last, Clean,
}
use arguss.Lockfile.{separator, node_modules}

-- The next value of `cur`, or `none` at a `break`.
unfoldable pub next_scope : Text → Option Text
next_scope cur =
    if is_empty cur
    then none
    else if has_substring separator cur
    then some (rsplit_head separator cur)
    else if starts_with node_modules cur
    then some []
    else none

unfoldable pub cons_to : Text → Option (List Text) → Option (List Text)
cons_to cur none = none
cons_to cur (some rest) = some (cur ∷ rest)

unfoldable pub from_next : (Text → Option (List Text)) → Option Text → Option (List Text)
from_next loop none = some []
from_next loop (some cur) = loop cur

-- The loop, or `none` without fuel.
unfoldable pub ancestor_prefixes : ℕ → Text → Option (List Text)
unfolding next_scope cons_to from_next
ancestor_prefixes zero cur = none
ancestor_prefixes (suc fuel) cur = cons_to cur (from_next (ancestor_prefixes fuel) (next_scope cur))

next_scope_inner : (cur p : Text) → before_last separator cur ≡ some p → next_scope cur ≡ some p
unfolding next_scope before_last
next_scope_inner [] p e = cc
next_scope_inner (c ∷ s) p e =
    let y : has_substring separator (c ∷ s) ≡ true =
      has_substring-before_last b'/' node_modules (c ∷ s) ∙ ap is_some e in
    rw y (ap some (rsplit_head-some separator (c ∷ s) p e))

next_scope_outer :
    (c : ℕ) (s : Text)
    → before_last separator (c ∷ s) ≡ none
    → next_scope (c ∷ s) ≡ (if starts_with node_modules (c ∷ s) then some [] else none)
unfolding next_scope
next_scope_outer c s e =
    let n : has_substring separator (c ∷ s) ≡ false =
      has_substring-before_last b'/' node_modules (c ∷ s) ∙ ap is_some e in
    rw n refl

-- Each turn of the loop shortens the text.
next_scope-lt : (cur next : Text) → next_scope cur ≡ some next → length next < length cur
unfolding next_scope
next_scope-lt [] next h = cc
next_scope-lt (c ∷ s) next h = elim (Option-cases (before_last separator (c ∷ s))) [
  | inl e ↦ let q = next_scope_outer c s e in ground arith
  | inr (p, e) ↦
      let q : p ≡ next = cc (next_scope_inner (c ∷ s) p e, h) in
      subst (λ t. length t < suc (length s)) q (before_last-lt separator (c ∷ s) p e)
]

cons_to-is_some :
    (cur : Text) (o : Option (List Text)) → is_some o ≡ true → is_some (cons_to cur o) ≡ true
unfolding cons_to
cons_to-is_some cur none h = h
cons_to-is_some cur (some l) h = refl

-- The loop ends on every text: with fuel for one turn more than the text has characters, it returns
-- its prefixes.
pub scopes_end :
    (fuel : ℕ) (cur : Text) → length cur < fuel → is_some (ancestor_prefixes fuel cur) ≡ true
unfolding ancestor_prefixes from_next
scopes_end zero cur h = ground arith
scopes_end (suc fuel) cur h =
    cons_to-is_some cur (from_next (ancestor_prefixes fuel) (next_scope cur)) (
      by_next (next_scope cur)
        (λ next e. scopes_end fuel next (omega (arith, next_scope-lt cur next e, h))))
  where
    by_next :
        (o : Option Text)
        → ((next : Text) → o ≡ some next → is_some (ancestor_prefixes fuel next) ≡ true)
        → is_some (from_next (ancestor_prefixes fuel) o) ≡ true
    by_next none f = refl
    by_next (some next) f = f next refl

-- A lockfile key that names a package inside others, the innermost first.
unfoldable pub key_of : List Text → Text
key_of [] = []
key_of (n ∷ []) = node_modules ++ n
key_of (n ∷ m ∷ r) = key_of (m ∷ r) ++ (separator ++ n)

-- The keys of a package and of those around it, up to the project's own, which is empty.
unfoldable pub enclosing : List Text → List Text
unfolding key_of
enclosing [] = [] ∷ []
enclosing (n ∷ r) = key_of (n ∷ r) ∷ enclosing r

-- A name inside of which no separator begins, whether at its start or at its end.
abbrev pub CleanName : Text → Type 0
CleanName n = Clean separator (b'/' ∷ n)

Clean-dirs : (n : Text) → CleanName n → Clean separator (node_modules ++ n)
unfolding starts_with
Clean-dirs n k = (
  refl,
  (refl, (refl, (refl, (refl, (refl, (refl, (refl, (refl, (refl, (refl, (refl, k))))))))))),
)

next_scope-key_of :
    (n : Text) (r : List Text) → CleanName n → next_scope (key_of (n ∷ r)) ≡ some (key_of r)
unfolding key_of starts_with
next_scope-key_of n [] k =
    next_scope_outer b'n' _ (before_last-Clean separator (node_modules ++ n) (Clean-dirs n k))
    ∙ refl
next_scope-key_of n (m ∷ r) k =
    next_scope_inner _ _ (before_last-append b'/' node_modules (key_of (m ∷ r)) n (Clean-dirs n k))

-- From the key of a package whose name and whose enclosing packages' names have no separator
-- inside, the loop visits the keys of the package, of each package around it from the inside out,
-- and last the project's, and no others.
pub scopes-enclosing :
    (fuel : ℕ) (names : List Text)
    → All CleanName names
    → length names < fuel
    → ancestor_prefixes fuel (key_of names) ≡ some (enclosing names)
unfolding ancestor_prefixes from_next cons_to enclosing
scopes-enclosing zero names k h = ground arith
scopes-enclosing (suc fuel) [] k h = refl
scopes-enclosing (suc fuel) (n ∷ r) k h =
    rw (next_scope-key_of n r k.0, scopes-enclosing fuel r k.1 (omega (arith, h))) refl
