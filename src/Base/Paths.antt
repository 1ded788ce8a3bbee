-- ===== src/Base/Paths.antt =====
-- Splitting texts, and the parts of `pathlib` that look only at the text of a path.
use mathlib.Core.Bool.{Bool, true, false, ◌&&◌}
use mathlib.Core.List.{List, [], ◌∷◌, ◌++◌, map, reverse}
use Prim.Native.Nat.{ℕ}
use arguss.Base.Tests.{◌==◌, if◌then◌else◌}
use arguss.Base.Lists.{is_empty, keep}
use arguss.Base.Texts.{Text, text_eq}

unfoldable pub push_char : ℕ → List Text → List Text
push_char c [] = (c ∷ []) ∷ []
push_char c (p ∷ ps) = (c ∷ p) ∷ ps

-- s.split(sep), for one character
unfoldable pub split_char : ℕ → Text → List Text
unfolding push_char
split_char sep [] = [] ∷ []
split_char sep (c ∷ s) =
    let rest = split_char sep s in if c == sep then [] ∷ rest else push_char c rest

-- [p for p in s.split("/") if p]
unfoldable pub segments : Text → List Text
unfolding split_char
segments s = keep (λ p. if is_empty p then false else true) (split_char b'/' s)

unfoldable pub lstrip_char : ℕ → Text → Text
lstrip_char k [] = []
lstrip_char k (c ∷ s) = let rest = lstrip_char k s in if c == k then rest else c ∷ s

unfoldable pub rstrip_char : ℕ → Text → Text
unfolding lstrip_char
rstrip_char k s = reverse (lstrip_char k (reverse s))

unfoldable pub replace_char : ℕ → ℕ → Text → Text
replace_char a b = map (λ c. if c == a then b else c)

unfoldable pub last_or : Text → List Text → Text
last_or d [] = d
last_or d (x ∷ xs) = last_or x xs

-- The parts of a path that `pathlib` keeps: those that are not empty and not ".".
unfoldable pub path_parts : Text → List Text
unfolding segments
path_parts s = keep (λ p. if text_eq p (b'.' ∷ []) then false else true) (segments s)

-- Path(s).name
unfoldable pub path_name : Text → Text
unfolding path_parts last_or
path_name s = last_or [] (path_parts s)

-- The extension from the reversed name: up to the first dot that is not at either end.
extension : Text → Text → Text
extension acc [] = []
extension acc (c ∷ s) =
    let rest = extension (c ∷ acc) s in
    if c == b'.' then (if is_empty acc then [] else if is_empty s then [] else c ∷ acc) else rest

-- Path(s).suffix
unfoldable pub path_suffix : Text → Text
unfolding path_name extension
path_suffix s = extension [] (reverse (path_name s))

-- dest / name
unfoldable pub join_path : Text → Text → Text
join_path dest name = dest ++ (b'/' ∷ name)

is_prefix : List Text → List Text → Bool
is_prefix [] ys = true
is_prefix (x ∷ xs) [] = false
is_prefix (x ∷ xs) (y ∷ ys) = text_eq x y && is_prefix xs ys

-- path.is_relative_to(dest), for absolute paths
unfoldable pub is_relative_to : Text → Text → Bool
unfolding is_prefix path_parts
is_relative_to path dest = is_prefix (path_parts dest) (path_parts path)
