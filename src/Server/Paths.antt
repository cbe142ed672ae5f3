-- ===== src/Server/Paths.antt =====
-- Vault-relative paths: `safeRelativePath` (apps/server/src/seafile.ts), the ancestors of a path
-- (apps/server/src/manifest.ts) and `folderPaths` (apps/server/src/operation-state.ts).
pub mod Laws
pub mod Tests
use gib_sync.Prelude.{
  ℕ, zero, suc, ◌-◌, ◌+◌, Bool, true, false, ◌||◌, Option, none, some, List, [], ◌∷◌, ◌++◌, map,
  contains, some_of, keep, length, take, not, if◌then◌else◌, ◌==◌, nat_eq,
}
use gib_sync.Prelude.Text.{Text, text, text_eq, split, join, starts_with, text_leb}
use gib_sync.Prelude.Sorting.{sort}

abbrev pub is_empty : Text → Bool
is_empty [] = true
is_empty (c ∷ s) = false

abbrev pub bad_part : Text → Bool
bad_part part = is_empty part || part == text "." || part == text ".."

abbrev pub first_is : Text → List Text → Bool
first_is name [] = false
first_is name (p ∷ ps) = p == name

-- `none` is the error "Invalid vault-relative path".
unfoldable pub safe_relative_path : Text → Option Text
safe_relative_path value =
    if is_empty value || contains value 0x5c || starts_with value (text "/")
    then none
    else (let parts = split value in
        if some_of bad_part parts || first_is (text ".gib-sync") parts
        then none
        else some (join parts))

-- from, from + 1, …
abbrev count_from : ℕ → ℕ → List ℕ
count_from from zero = []
count_from from (suc n) = from ∷ count_from (suc from) n

abbrev prefix_of : List Text → ℕ → Text
prefix_of parts index = join (take index parts)

-- The folders that a path lies in, from the outermost.
unfoldable pub ancestors : Text → List Text
ancestors path = let parts = split path in map (prefix_of parts) (count_from 1 (length parts - 1))

-- `new Set(...)` in insertion order, one element at a time
abbrev pub add_once : List Text → Text → List Text
add_once set p = if contains set p then set else set ++ (p ∷ [])

abbrev pub add_all : List Text → List Text → List Text
add_all set [] = set
add_all set (p ∷ ps) = add_all (add_once set p) ps

abbrev pub parent_of : Text → Text
parent_of path = let parts = split path in join (take (length parts - 1) parts)

add_prefixes : List Text → List Text → List Text
add_prefixes set [] = set
add_prefixes set (raw ∷ raws) =
    let parts = keep (λ p. not (is_empty p)) (split raw) in
    add_prefixes (add_all set (map (prefix_of parts) (count_from 1 (length parts)))) raws

-- Every folder that the files lie in or that is listed, with its ancestors.
unfoldable pub folder_paths : List Text → List Text → List Text
unfolding add_prefixes
folder_paths files folders = sort text_leb (add_prefixes [] (folders ++ map parent_of files))
