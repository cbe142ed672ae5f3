-- ===== src/Server/Compatibility/Gate.antt =====
-- The gate for clients (apps/server/src/compatibility.ts) against the precedence of versions.
use gib_sync.Prelude.{
  ℕ, ◌≡◌, refl, Bool, true, false, ◌&&◌, ◌||◌, not, Option, none, some, List, [], ◌∷◌, arith, ltb,
  every_of, if◌then◌else◌, ◌==◌, option_eq, nat_eq, is_some, Option-cases, Bool-cases, inl, inr,
}
use gib_sync.Prelude.Text.{Text, text_eq, text_leb, text_beq_iff}
use gib_sync.Prelude.Sorting.{text_leb-IsOrder}
use gib_sync.Server.Paths.{is_empty}
use gib_sync.Server.Compatibility.{
  Version, Sign, less, same, more, is_digit, number_from, sign, compare_labels, compare_all,
  compare_prereleases, or_else, compare_parsed, compare_versions, parse_version, CompatibilityInput,
  CompatibilityResult, IncompatibilityReason, version_invalid, version_too_old, is_less,
  parsed_client, compared, protocol_reason, reason_of, update_of, client_compatibility,
}

abbrev pub is_before : Sign → Bool
is_before less = true
is_before s = false

abbrev pub is_number : Text → Bool
is_number x = every_of is_digit x && not (is_empty x)

-- Numbers by their value, and before all other labels; these by their code units.
abbrev pub label_precedes : Text → Text → Bool
label_precedes x y =
    if is_number x
    then (if is_number y then ltb (number_from 0 x) (number_from 0 y) else true)
    else not (is_number y) && not (text_leb y x)

-- The first labels that differ decide; where there are none, the shorter list comes first.
unfoldable pub labels_precede : List Text → List Text → Bool
labels_precede [] [] = false
labels_precede [] (y ∷ ys) = true
labels_precede (x ∷ xs) [] = false
labels_precede (x ∷ xs) (y ∷ ys) =
    let later = labels_precede xs ys in if x == y then later else label_precedes x y

-- A version with labels comes before the release itself.
abbrev pub prerelease_precedes : List Text → List Text → Bool
prerelease_precedes [] ys = false
prerelease_precedes (x ∷ xs) [] = true
prerelease_precedes (x ∷ xs) (y ∷ ys) = labels_precede (x ∷ xs) (y ∷ ys)

-- The precedence of versions, lexicographic.
unfoldable pub precedes : Version → Version → Bool
unfolding labels_precede
precedes a b =
    ltb a.major b.major
    || (a.major == b.major
        && (ltb a.minor b.minor
            || (a.minor == b.minor
                && (ltb a.patch b.patch
                    || (a.patch == b.patch && prerelease_precedes a.prerelease b.prerelease)))))

compare_labels-precedes :
    (x y : Text) → (x == y) ≡ false → is_before (compare_labels x y) ≡ label_precedes x y
compare_labels-precedes x y h =
    ground (arith, text_leb-IsOrder.total x y, text_leb-IsOrder.antisym x y, text_beq_iff x y)

compare_all-precedes : (xs ys : List Text) → is_before (compare_all xs ys) ≡ labels_precede xs ys
unfolding compare_all labels_precede
compare_all-precedes [] [] = refl
compare_all-precedes [] (y ∷ ys) = refl
compare_all-precedes (x ∷ xs) [] = refl
compare_all-precedes (x ∷ xs) (y ∷ ys) = elim (Bool-cases (x == y)) [
  | inl e ↦ rw e (compare_all-precedes xs ys)
  | inr d ↦ rw d (compare_labels-precedes x y d)
]

compare_prereleases-precedes :
    (xs ys : List Text) → is_before (compare_prereleases xs ys) ≡ prerelease_precedes xs ys
compare_prereleases-precedes [] [] = refl
compare_prereleases-precedes [] (y ∷ ys) = refl
compare_prereleases-precedes (x ∷ xs) [] = refl
compare_prereleases-precedes (x ∷ xs) (y ∷ ys) = compare_all-precedes (x ∷ xs) (y ∷ ys)

-- The comparison of the numbers, each of which may leave the decision to the next.
is_before-or_else :
    (m n : ℕ) (rest : Sign)
    → is_before (or_else (sign m n) rest) ≡ (ltb m n || (m == n && is_before rest))
is_before-or_else m n rest = ground arith

pub compare_parsed-precedes : (a b : Version) → is_before (compare_parsed a b) ≡ precedes a b
unfolding compare_parsed precedes
compare_parsed-precedes a b =
    rw
      (
        is_before-or_else a.major b.major,
        is_before-or_else a.minor b.minor,
        is_before-or_else a.patch b.patch,
        compare_prereleases-precedes a.prerelease b.prerelease,
      )
      refl

-- What a client says of itself: an empty text says nothing.
abbrev pub stated : (Text → Text) → Option Text → Option Version
stated trim none = none
stated trim (some []) = none
stated trim (some (c ∷ s)) = parse_version trim (c ∷ s)

abbrev pub meets : Version → Option Version → Bool
meets low none = false
meets low (some v) = not (precedes v low)

abbrev pub is_behind : Version → Option Version → Bool
is_behind top none = false
is_behind top (some v) = precedes v top

-- The result is the one that the protocol and the stated version call for.
abbrev pub Gate :
    (trim : Text → Text) → CompatibilityInput → (low top : Version) → CompatibilityResult → Type 0
Gate trim input low top r =
    (r.compatible ≡ (
      input.client_protocol == some input.server_protocol
      && meets low (stated trim input.client_version)))
    × (r.update_available ≡ is_behind top (stated trim input.client_version))
    × (is_some r.reason ≡ not r.compatible)

is_less-is_before : (s : Sign) → is_less (some s) ≡ is_before s
is_less-is_before less = refl
is_less-is_before same = refl
is_less-is_before more = refl

parsed_client-stated : (trim : Text → Text) (o : Option Text) → parsed_client trim o ≡ stated trim o
parsed_client-stated trim none = refl
parsed_client-stated trim (some []) = refl
parsed_client-stated trim (some (c ∷ s)) = refl

compared-parsed :
    (trim : Text → Text) (o : Option Text) (bound : Text) (v w : Version)
    → stated trim o ≡ some v
    → parse_version trim bound ≡ some w
    → compared trim o bound ≡ some (compare_parsed v w)
unfolding compare_versions
compared-parsed trim none bound v w e f = cc
compared-parsed trim (some []) bound v w e f = cc
compared-parsed trim (some (c ∷ s)) bound v w e f = rw (e, f) refl

update_of-is_behind :
    (trim : Text → Text) (input : CompatibilityInput) (top : Version)
    → parse_version trim input.recommended_version ≡ some top
    → update_of trim input ≡ some (is_behind top (stated trim input.client_version))
update_of-is_behind trim input top t = elim (Option-cases (stated trim input.client_version)) [
  | inl e ↦ rw (parsed_client-stated trim input.client_version, e) refl
  | inr (v, e) ↦
      rw
        (
          parsed_client-stated trim input.client_version,
          e,
          compared-parsed trim input.client_version input.recommended_version v top e t,
          is_less-is_before (compare_parsed v top),
          compare_parsed-precedes v top,
        )
        refl
]

-- The reason that is given, and what it says of the client.
abbrev Reasoned : (trim : Text → Text) → CompatibilityInput → Version → Type 0
Reasoned trim input low =
    (reason : Option IncompatibilityReason) × (reason_of trim input ≡ some reason)
    × (not (is_some reason) ≡ (
        input.client_protocol == some input.server_protocol
        && meets low (stated trim input.client_version)))

too_old-Reasoned :
    (trim : Text → Text) (input : CompatibilityInput) (low v : Version) (b : Bool)
    → (input.client_protocol == some input.server_protocol) ≡ true
    → stated trim input.client_version ≡ some v
    → parse_version trim input.minimum_version ≡ some low
    → precedes v low ≡ b
    → Reasoned trim input low
too_old-Reasoned trim input low v b p e l f = (
  if b then some version_too_old else none,
  rw
      (
        p,
        parsed_client-stated trim input.client_version,
        e,
        compared-parsed trim input.client_version input.minimum_version v low e l,
        is_less-is_before (compare_parsed v low),
        compare_parsed-precedes v low,
        f,
      )
      refl,
  rw (p, e, f) (turned b),
)
  where
    turned : (b : Bool) → not (is_some (if b then some version_too_old else none)) ≡ not b
    turned true = refl
    turned false = refl

reason_of-Reasoned :
    (trim : Text → Text) (input : CompatibilityInput) (low : Version)
    → parse_version trim input.minimum_version ≡ some low
    → Reasoned trim input low
reason_of-Reasoned trim input low l =
    elim (Bool-cases (input.client_protocol == some input.server_protocol)) [
      | inl p ↦ elim (Option-cases (stated trim input.client_version)) [
        | inl e ↦ (
          some version_invalid,
          rw (p, parsed_client-stated trim input.client_version, e) refl,
          rw (p, e) refl,
        )
        | inr (v, e) ↦ too_old-Reasoned trim input low v (precedes v low) p e l refl
      ]
      | inr p ↦ (some (protocol_reason input.client_protocol), rw p refl, rw p refl)
    ]

-- Where the minimum and the recommended version can be read, the gate answers. A client is compatible
-- exactly if it speaks the server's protocol and states a version that can be read and does not
-- precede the minimum; an update is offered exactly where the stated version precedes the
-- recommended one; a reason is given exactly to the clients that are not compatible.
pub client_compatibility-Gate :
    (trim : Text → Text) (input : CompatibilityInput) (low top : Version)
    → parse_version trim input.minimum_version ≡ some low
    → parse_version trim input.recommended_version ≡ some top
    → (r : CompatibilityResult) × (client_compatibility trim input ≡ some r)
      × Gate trim input low top r
unfolding client_compatibility
client_compatibility-Gate trim input low top l t =
    let (reason, given, told) = reason_of-Reasoned trim input low l in
    (
      record {
        compatible = not (is_some reason);
        update_available = is_behind top (stated trim input.client_version);
        reason = reason;
      },
      rw (given, update_of-is_behind trim input top t) refl,
      (told, refl, twice (is_some reason)),
    )
  where
    twice : (b : Bool) → b ≡ not (not b)
    twice true = refl
    twice false = refl
