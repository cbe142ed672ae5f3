-- ===== src/Prelude/Sorting.antt =====
-- Sorting by a total order on which equal rank is equality, as `Array.prototype.sort` does it to
-- an array of distinct strings, and the merge of two sorted runs.
use Prim.Native.Nat.{suc}
use mathlib.Core.Path.{◌≡◌, refl, ap, ◌∙◌}
use mathlib.Core.Bool.{Bool, true, false}
use mathlib.Core.List.{List, [], ◌∷◌, ◌++◌}
use native.Mathlib.Omega.{arith}
use gib_sync.Prelude.Tests.{if◌then◌else◌}
use gib_sync.Prelude.Lists.{length}
use gib_sync.Prelude.Text.{Text, text_leb}

pub record IsOrder {ℓ} {A : Type ℓ} (le : A → A → Bool) : Type ℓ where
  pub total : (a b : A) → le a b ≡ false → le b a ≡ true
  pub antisym : (a b : A) → le a b ≡ true → le b a ≡ true → a ≡ b
  pub trans : (a b c : A) → le a b ≡ true → le b c ≡ true → le a c ≡ true

text_leb-total : (a b : Text) → text_leb a b ≡ false → text_leb b a ≡ true
unfolding text_leb
text_leb-total [] b h = cc
text_leb-total (x ∷ a) [] h = refl
text_leb-total (x ∷ a) (y ∷ b) h = ground (arith, text_leb-total a b)

text_leb-antisym : (a b : Text) → text_leb a b ≡ true → text_leb b a ≡ true → a ≡ b
unfolding text_leb
text_leb-antisym [] [] h k = refl
text_leb-antisym [] (y ∷ b) h k = cc
text_leb-antisym (x ∷ a) [] h k = cc
text_leb-antisym (x ∷ a) (y ∷ b) h k = ground (arith, text_leb-antisym a b)

text_leb_trans : (a b c : Text) → text_leb a b ≡ true → text_leb b c ≡ true → text_leb a c ≡ true
unfolding text_leb
text_leb_trans [] b c h k = refl
text_leb_trans (x ∷ a) [] c h k = cc
text_leb_trans (x ∷ a) (y ∷ b) [] h k = cc
text_leb_trans (x ∷ a) (y ∷ b) (z ∷ c) h k = ground (arith, text_leb_trans a b c)

pub text_leb-IsOrder : IsOrder text_leb
text_leb-IsOrder = record {
  total = text_leb-total;
  antisym = text_leb-antisym;
  trans = text_leb_trans;
}

module _ {ℓ} {A : Type ℓ} (le : A → A → Bool) where
  unfoldable pub insert_sorted : A → List A → List A
  insert_sorted x [] = x ∷ []
  insert_sorted x (y ∷ ys) = if le x y then x ∷ y ∷ ys else y ∷ insert_sorted x ys

  -- `Array.prototype.sort`: equal elements keep their order.
  unfoldable pub sort : List A → List A
  unfolding insert_sorted
  sort [] = []
  sort (x ∷ xs) = insert_sorted x (sort xs)

  -- The next element comes from the second run only where the first has ended or is greater.
  unfoldable pub merge : List A → List A → List A
  merge [] right = right
  merge (l ∷ left) [] = l ∷ left
  merge (l ∷ left) (r ∷ right) = elim (le l r) [
    | false ↦ r ∷ merge (l ∷ left) right
    | true ↦ l ∷ merge left (r ∷ right)
  ]

  abbrev pub IsSorted : List A → Type 0
  IsSorted [] = Unit
  IsSorted (x ∷ []) = Unit
  IsSorted (x ∷ y ∷ ys) = (le x y ≡ true) × IsSorted (y ∷ ys)

module _ {ℓ} {A : Type ℓ} (le : A → A → Bool) where
  length-insert_sorted : (x : A) (xs : List A) → length (insert_sorted le x xs) ≡ suc (length xs)
  unfolding insert_sorted
  length-insert_sorted x [] = refl
  length-insert_sorted x (y ∷ ys) = ground (arith, length-insert_sorted x ys)

  pub length-sort : (xs : List A) → length (sort le xs) ≡ length xs
  unfolding sort
  length-sort [] = refl
  length-sort (x ∷ xs) = length-insert_sorted x (sort le xs) ∙ ap suc (length-sort xs)

module _ {ℓ} {A : Type ℓ} {le : A → A → Bool} (O : IsOrder le) where
  merge-nil : (xs : List A) → merge le xs [] ≡ xs
  unfolding merge
  merge-nil [] = refl
  merge-nil (x ∷ xs) = refl

  merge-insert_sorted :
      (x : A) (xs ys : List A)
      → merge le (insert_sorted le x xs) ys ≡ insert_sorted le x (merge le xs ys)
  unfolding merge insert_sorted
  merge-insert_sorted x [] [] = refl
  merge-insert_sorted x [] (y ∷ ys) = ground (arith, merge-insert_sorted x [] ys)
  merge-insert_sorted x (z ∷ xs) [] = merge-nil _
  merge-insert_sorted x (z ∷ xs) (y ∷ ys) = ground (
    arith,
    merge-insert_sorted x xs (y ∷ ys),
    merge-insert_sorted x (z ∷ xs) ys,
    O.trans x z y,
    O.trans y z x,
    O.total x z,
    O.total x y,
    O.total z y,
    O.trans x y z,
    O.trans z x y,
  )

  -- Merging two sorted halves sorts the whole.
  pub merge-sort : (xs ys : List A) → merge le (sort le xs) (sort le ys) ≡ sort le (xs ++ ys)
  unfolding sort
  merge-sort [] ys = unfold merge in refl
  merge-sort (x ∷ xs) ys =
      merge-insert_sorted x (sort le xs) (sort le ys) ∙ ap (insert_sorted le x) (merge-sort xs ys)
