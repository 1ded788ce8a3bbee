-- ===== src/Lockfile/Keys.antt =====
-- `_parse_package_path`, as the inverse of the way npm writes the key of an installed package.
use arguss.Base.{
  ◌≡◌, refl, ap, sym, ◌∙◌, false, List, [], ◌∷◌, ◌++◌, is_empty, keep, All, Text, starts_with,
}
use mathlib.Core.List.{append_assoc}
use arguss.Base.Splits.{split_text, split_text-append, split_text-Clean, Clean}
use arguss.Lockfile.{separator, node_modules, non_empty, strip_first, parse_package_path}

-- The names of the packages, joined by the separator, the outermost first.
unfoldable pub join_names : Text → List Text → Text
join_names n [] = n
join_names n (m ∷ r) = n ++ (separator ++ join_names m r)

pub record IsName (n : Text) : Type 0 where
  pub some_name : is_empty n ≡ false
  pub clean : Clean separator (b'/' ∷ n)

split-join :
    (n : Text) (r : List Text)
    → Clean separator n
    → All IsName r
    → split_text separator (join_names n r) ≡ n ∷ r
unfolding join_names
split-join n [] k h = split_text-Clean b'/' node_modules n k
split-join n (m ∷ r) k h =
    split_text-append b'/' node_modules n (join_names m r) k
    ∙ ap (λ l. n ∷ l) (split-join m r h.0.clean.1 h.1)

keep_names : (r : List Text) → All IsName r → keep non_empty r ≡ r
keep_names [] h = refl
keep_names (n ∷ r) h = rw h.0.some_name (ap (λ l. n ∷ l) (keep_names r h.1))

Clean-dirs : (n : Text) → Clean separator (b'/' ∷ n) → Clean separator (node_modules ++ n)
unfolding starts_with
Clean-dirs n k = (
  refl,
  (refl, (refl, (refl, (refl, (refl, (refl, (refl, (refl, (refl, (refl, (refl, k))))))))))),
)

join-shift : (p n : Text) (r : List Text) → p ++ join_names n r ≡ join_names (p ++ n) r
unfolding join_names
join-shift p n [] = refl
join-shift p n (m ∷ r) = sym (append_assoc p n (separator ++ join_names m r))

-- The key of a package inside others, for names that are not empty and inside of which no separator
-- begins, gives back the names, the outermost first.
pub parse-join :
    (n : Text) (r : List Text)
    → All IsName (n ∷ r)
    → parse_package_path (node_modules ++ join_names n r) ≡ n ∷ r
unfolding parse_package_path strip_first starts_with
parse-join n r h =
    ap (λ l. keep non_empty (strip_first l))
      (ap (split_text separator) (join-shift node_modules n r)
        ∙ split-join (node_modules ++ n) r (Clean-dirs n h.0.clean) h.1)
    ∙ keep_names (n ∷ r) h
