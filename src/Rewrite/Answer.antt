-- ===== src/Rewrite/Answer.antt =====
-- What the registry must answer for a version to be written.
use arguss.Base.{◌≡◌, refl, sym, ◌∙◌, ap, Option, none, some, Text, codes}
use arguss.Base.Results.{ok}
use arguss.Base.Json.{
  Json, null, bool, number, string, array, object, Members, get, string_of, object_of,
}
use arguss.Rewrite.{NewVersion, complete, new_version, new_version_of}

pub string_of-string : (o : Option Json) (s : Text) → string_of o ≡ some s → o ≡ some (string s)
string_of-string (some (string t)) s h = let e : t ≡ s = cc in ap (λ x. some (string x)) e
string_of-string none s h = cc
string_of-string (some null) s h = cc
string_of-string (some (bool b)) s h = cc
string_of-string (some (number n)) s h = cc
string_of-string (some (array xs)) s h = cc
string_of-string (some (object ms)) s h = cc

object_of-object : (o : Option Json) (m : Members) → object_of o ≡ some m → o ≡ some (object m)
object_of-object (some (object l)) m h = let e : l ≡ m = cc in ap (λ x. some (object x)) e
object_of-object none m h = cc
object_of-object (some null) m h = cc
object_of-object (some (bool b)) m h = cc
object_of-object (some (number n)) m h = cc
object_of-object (some (string t)) m h = cc
object_of-object (some (array xs)) m h = cc

-- The registry answers, and its `dist` has the address and the digest of the version.
abbrev pub Answer : Text → Option Members → NewVersion → Type 0
Answer to_version meta new =
    (m : Members) × (dist : Members) × (meta ≡ some m)
    × (get (codes "dist") m ≡ some (object dist))
    × (get (codes "tarball") dist ≡ some (string new.resolved))
    × (get (codes "integrity") dist ≡ some (string new.integrity))
    × (new.to_version ≡ to_version)

pub new_version_of-Answer :
    (to_version : Text) (meta : Option Members) (new : NewVersion)
    → new_version_of to_version meta ≡ ok new
    → Answer to_version meta new
unfolding new_version_of new_version
new_version_of-Answer to_version none new h = cc
new_version_of-Answer to_version (some m) new h = of_dist (object_of (get (codes "dist") m)) refl h
  where
    of_dist :
        (o : Option Members)
        → object_of (get (codes "dist") m) ≡ o
        → new_version to_version o ≡ ok new
        → Answer to_version (some m) new
    of_dist none e h = cc
    of_dist (some dist) e h =
        of_fields (string_of (get (codes "tarball") dist)) refl
          (string_of (get (codes "integrity") dist)) refl h
      where
        of_fields :
            (t : Option Text)
            → string_of (get (codes "tarball") dist) ≡ t
            → (i : Option Text) → string_of (get (codes "integrity") dist) ≡ i
            → complete to_version t i ≡ ok new
            → Answer to_version (some m) new
        of_fields none p i q h = cc
        of_fields (some t) p none q h = cc
        of_fields (some t) p (some i) q h =
            let e' : record { to_version = to_version; resolved = t; integrity = i } ≡ new = cc in
            (
              m,
              dist,
              refl,
              object_of-object _ dist e,
              string_of-string _ _ (p ∙ ap some (λ k. (e' k).resolved)),
              string_of-string _ _ (q ∙ ap some (λ k. (e' k).integrity)),
              sym (λ k. (e' k).to_version),
            )

pub Answer-new_version_of :
    (to_version : Text) (meta : Option Members) (new : NewVersion)
    → Answer to_version meta new
    → new_version_of to_version meta ≡ ok new
unfolding new_version_of new_version
Answer-new_version_of to_version meta new (m, dist, e, d, t, i, v) = rw (e, d, t, i, ← v) refl
