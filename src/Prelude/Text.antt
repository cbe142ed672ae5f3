-- ===== src/Prelude/Text.antt =====
-- JavaScript strings that the program takes apart, as lists of UTF-16 code units. Identifiers,
-- hashes and labels, which it only compares, are native `String`s.
use Prim.Native.Nat.{ℕ, suc}
use Prim.Native.Char.{code}
use Prim.Native.String.{String}
use mathlib.Core.Path.{◌≡◌, refl, ap, ◌∙◌}
use mathlib.Core.Logic.{◌↔◌, ◌≢◌, inl, inr}
use mathlib.Core.Bool.{Bool, true, false, ◌&&◌, ◌||◌}
use mathlib.Core.List.{List, [], ◌∷◌, ◌++◌}
use native.Mathlib.Omega.{arith}
use gib_sync.Prelude.Tests.{nat_beq, nat_beq_iff, leb, ltb, if◌then◌else◌, Bool-cases}
use gib_sync.Prelude.Equality.{Eq}

abbrev pub Text : Type 0
Text = List ℕ

-- A literal: its code points are its code units below U+10000.
abbrev pub text : String → Text
text String.[] = []
text (String.◌∷◌ c s) = code c ∷ text s

unfoldable pub text_beq : Text → Text → Bool
text_beq [] [] = true
text_beq [] (b ∷ bs) = false
text_beq (a ∷ as') [] = false
text_beq (a ∷ as') (b ∷ bs) = if nat_beq a b then text_beq as' bs else false

pub text_beq_iff : (a b : Text) → (text_beq a b ≡ true) ↔ (a ≡ b)
unfolding text_beq
text_beq_iff [] [] = (λ h. refl, λ h. refl)
text_beq_iff [] (b ∷ bs) = (λ h. cc, λ h. cc)
text_beq_iff (a ∷ as') [] = (λ h. cc, λ h. cc)
text_beq_iff (a ∷ as') (b ∷ bs) =
    (λ h. ground (arith, text_beq_iff as' bs), λ h. ground (arith, text_beq_iff as' bs))

instance abbrev pub text_eq : Eq Text
text_eq = record { equal = text_beq; equal_iff = text_beq_iff }

-- `s.startsWith(prefix)`
unfoldable pub starts_with : Text → Text → Bool
starts_with s [] = true
starts_with [] (p ∷ ps) = false
starts_with (c ∷ s) (p ∷ ps) = if nat_beq c p then starts_with s ps else false

-- `s.endsWith(suffix)`
unfoldable pub ends_with : Text → Text → Bool
ends_with [] suffix = text_beq [] suffix
ends_with (c ∷ s) suffix = if text_beq (c ∷ s) suffix then true else ends_with s suffix

-- `s.slice(n)`
abbrev pub slice_from : ℕ → Text → Text
slice_from ℕ.zero s = s
slice_from (suc n) [] = []
slice_from (suc n) (c ∷ s) = slice_from n s

-- `a <= b`: strings compare by code units.
unfoldable pub text_leb : Text → Text → Bool
text_leb [] b = true
text_leb (x ∷ a) [] = false
text_leb (x ∷ a) (y ∷ b) = if nat_beq x y then text_leb a b else ltb x y

-- `s.split(separator).join(replacement)` for single units, as `replace(/x/g, "y")` has it
abbrev pub replace_unit : ℕ → ℕ → Text → Text
replace_unit old new [] = []
replace_unit old new (c ∷ s) = (if nat_beq c old then new else c) ∷ replace_unit old new s

abbrev pub slash : ℕ
slash = b'/'

abbrev cons_part : ℕ → List Text → List Text
cons_part c [] = (c ∷ []) ∷ []
cons_part c (p ∷ ps) = (c ∷ p) ∷ ps

-- `path.split("/")`: never an empty array
unfoldable pub split : Text → List Text
split [] = [] ∷ []
split (c ∷ s) = let rest = split s in if nat_beq c slash then [] ∷ rest else cons_part c rest

-- `parts.join("/")`
unfoldable pub join : List Text → Text
join [] = []
join (p ∷ []) = p
join (p ∷ q ∷ ps) = p ++ (slash ∷ join (q ∷ ps))

split-ne-nil : (s : Text) → split s ≢ []
unfolding split
split-ne-nil [] h = cc
split-ne-nil (c ∷ s) h = ground arith

join-cons : (parts : List Text) → parts ≢ [] → join ([] ∷ parts) ≡ slash ∷ join parts
unfolding join
join-cons [] h = absurd (h refl)
join-cons (p ∷ ps) h = refl

join-cons_part :
    (c : ℕ) (parts : List Text) → parts ≢ [] → join (cons_part c parts) ≡ c ∷ join parts
unfolding join
join-cons_part c [] h = absurd (h refl)
join-cons_part c (p ∷ []) h = refl
join-cons_part c (p ∷ q ∷ ps) h = refl

-- Splitting and joining gives the path back.
pub join-split : (s : Text) → join (split s) ≡ s
unfolding split
join-split [] = unfold join in refl
join-split (c ∷ s) = elim (Bool-cases (nat_beq c slash)) [
  | inl e ↦
      rw e (join-cons (split s) (split-ne-nil s) ∙ cc ((nat_beq_iff c slash).0 e, join-split s))
  | inr e ↦ rw e (join-cons_part c (split s) (split-ne-nil s) ∙ ap (λ r. c ∷ r) (join-split s))
]

-- The white space and line ends of ECMAScript.
abbrev pub is_space : ℕ → Bool
is_space c =
    (leb 9 c && leb c 13)
    || nat_beq c 0x20
    || nat_beq c 0xa0
    || nat_beq c 0x1680
    || (leb 0x2000 c && leb c 0x200a)
    || nat_beq c 0x2028
    || nat_beq c 0x2029
    || nat_beq c 0x202f
    || nat_beq c 0x205f
    || nat_beq c 0x3000
    || nat_beq c 0xfeff

-- `s.trimStart()`
unfoldable pub trim_start : Text → Text
trim_start [] = []
trim_start (c ∷ s) = let rest = trim_start s in if is_space c then rest else c ∷ s

abbrev pub keep_unless_blank : ℕ → Text → Text
keep_unless_blank c [] = if is_space c then [] else c ∷ []
keep_unless_blank c (d ∷ s) = c ∷ d ∷ s

-- `s.trimEnd()`
unfoldable pub trim_end : Text → Text
trim_end [] = []
trim_end (c ∷ s) = keep_unless_blank c (trim_end s)

-- `s.trim()`
abbrev pub trim : Text → Text
trim s = trim_end (trim_start s)
