-- ===== src/Server/Compatibility/Laws.antt =====
-- The order of versions (apps/server/src/compatibility.ts) has two directions that agree.
use gib_sync.Prelude.{
  ℕ, ◌≡◌, refl, true, false, Option, none, some, List, [], ◌∷◌, arith, ◌==◌, option_eq, nat_eq,
  Option-cases, Bool-cases, inl, inr,
}
use gib_sync.Prelude.Text.{Text, text_eq, text_beq_iff}
use gib_sync.Prelude.Sorting.{text_leb-IsOrder}
use gib_sync.Server.Compatibility.{
  Version, Sign, less, same, more, sign, compare_labels, compare_all, compare_prereleases, or_else,
  compare_parsed, compare_versions, parse_version, number_from,
}

abbrev pub flip : Sign → Sign
flip less = more
flip same = same
flip more = less

sign-flip : (a b : ℕ) → sign b a ≡ flip (sign a b)
sign-flip a b = ground arith

compare_labels-flip :
    (x y : Text) → (x == y) ≡ false → compare_labels y x ≡ flip (compare_labels x y)
compare_labels-flip x y h = ground (
  arith,
  sign-flip (number_from 0 x) (number_from 0 y),
  text_leb-IsOrder.total x y,
  text_leb-IsOrder.antisym x y,
  text_beq_iff x y,
)

compare_all-flip : (xs ys : List Text) → compare_all ys xs ≡ flip (compare_all xs ys)
unfolding compare_all
compare_all-flip [] [] = refl
compare_all-flip [] (y ∷ ys) = refl
compare_all-flip (x ∷ xs) [] = refl
compare_all-flip (x ∷ xs) (y ∷ ys) = elim (Bool-cases (x == y)) [
  | inl e ↦
      let turned : (y == x) ≡ true = ground (arith, text_beq_iff x y, text_beq_iff y x) in
      rw (e, turned) (compare_all-flip xs ys)
  | inr d ↦
      let turned : (y == x) ≡ false = ground (arith, text_beq_iff x y, text_beq_iff y x) in
      rw (d, turned) (compare_labels-flip x y d)
]

compare_prereleases-flip :
    (xs ys : List Text) → compare_prereleases ys xs ≡ flip (compare_prereleases xs ys)
compare_prereleases-flip [] [] = refl
compare_prereleases-flip [] (y ∷ ys) = refl
compare_prereleases-flip (x ∷ xs) [] = refl
compare_prereleases-flip (x ∷ xs) (y ∷ ys) = compare_all-flip (x ∷ xs) (y ∷ ys)

or_else-flip : (s t : Sign) → or_else (flip s) (flip t) ≡ flip (or_else s t)
or_else-flip less t = refl
or_else-flip same t = refl
or_else-flip more t = refl

compare_parsed-flip : (a b : Version) → compare_parsed b a ≡ flip (compare_parsed a b)
unfolding compare_parsed
compare_parsed-flip a b = rw (
  sign-flip a.major b.major,
  sign-flip a.minor b.minor,
  sign-flip a.patch b.patch,
  compare_prereleases-flip a.prerelease b.prerelease,
  or_else-flip,
  or_else-flip,
  or_else-flip,
)

abbrev pub flipped : Option Sign → Option Sign
flipped none = none
flipped (some s) = some (flip s)

-- Exchanging two versions turns the comparison round, and a comparison fails on the same pairs
-- in either order.
pub compare_versions-flip :
    (trim : Text → Text) (left right : Text)
    → compare_versions trim right left ≡ flipped (compare_versions trim left right)
unfolding compare_versions
compare_versions-flip trim left right = elim (Option-cases (parse_version trim left)) [
  | inl e ↦ elim (Option-cases (parse_version trim right)) [
    | inl f ↦ rw (e, f)
    | inr (b, f) ↦ rw (e, f)
  ]
  | inr (a, e) ↦ elim (Option-cases (parse_version trim right)) [
    | inl f ↦ rw (e, f)
    | inr (b, f) ↦ rw (e, f, compare_parsed-flip a b)
  ]
]
