-- ===== src/Server/Compatibility.antt =====
-- apps/server/src/compatibility.ts: semantic versions and the gate for clients. A number of a
-- version is exact here, where the source rounds one of more than 53 bits.
pub mod Laws
pub mod Gate
pub mod Tests
use gib_sync.Prelude.{
  ℕ, ◌+◌, ◌-◌, ◌*◌, Bool, true, false, ◌&&◌, ◌||◌, not, Option, none, some, List, [], ◌∷◌, leb, ltb,
  every_of, is_some, if◌then◌else◌, ◌==◌, nat_eq, option_eq,
}
use gib_sync.Prelude.Text.{Text, text_eq, text_leb}
use gib_sync.Server.Paths.{is_empty}

pub record Version : Type 0 where
  pub major : ℕ
  pub minor : ℕ
  pub patch : ℕ
  pub prerelease : List Text

abbrev pub is_digit : ℕ → Bool
is_digit c = leb b'0' c && leb c b'9'

-- [0-9A-Za-z.-]
abbrev pub is_label : ℕ → Bool
is_label c =
    is_digit c || (leb b'A' c && leb c b'Z') || (leb b'a' c && leb c b'z') || c == b'.' || c == b'-'

-- The digits at the beginning, and the rest.
unfoldable pub span_digits : Text → Text × Text
span_digits [] = ([], [])
span_digits (c ∷ s) =
    let (a, rest) = span_digits s in if is_digit c then (c ∷ a, rest) else ([], c ∷ s)

unfoldable pub number_from : ℕ → Text → ℕ
number_from n [] = n
number_from n (c ∷ s) = number_from (n * 10 + (c - b'0')) s

abbrev pub add_unit : ℕ → List Text → List Text
add_unit c [] = (c ∷ []) ∷ []
add_unit c (f ∷ fs) = (c ∷ f) ∷ fs

-- value.split(".")
unfoldable pub fields : Text → List Text
fields [] = [] ∷ []
fields (c ∷ s) = let rest = fields s in if c == b'.' then [] ∷ rest else add_unit c rest

abbrev pub without_v : Text → Text
without_v [] = []
without_v (c ∷ s) = if c == b'v' then s else c ∷ s

abbrev pub after_dot : Text → Option Text
after_dot [] = none
after_dot (c ∷ s) = if c == b'.' then some s else none

-- `none` where the expression wants a digit and finds none.
abbrev pub digits_of : Text × Text → Option (ℕ × Text)
digits_of ([], rest) = none
digits_of (d ∷ ds, rest) = some (number_from 0 (d ∷ ds), rest)

abbrev pub labels : Text → Option (List Text)
labels [] = some []
labels (c ∷ s) =
    if c == b'-' && not (is_empty s) && every_of is_label s then some (fields s) else none

abbrev pub and_then {ℓ κ} : {A : Type ℓ} {B : Type κ} → Option A → (A → Option B) → Option B
and_then none f = none
and_then (some a) f = f a

unfoldable pub parse_version : (Text → Text) → Text → Option Version
unfolding span_digits number_from fields
parse_version trim value = and_then (digits_of (span_digits (without_v (trim value)))) (λ a.
    and_then (after_dot a.1) (λ s. and_then (digits_of (span_digits s)) (λ b.
      and_then (after_dot b.1) (λ t. and_then (digits_of (span_digits t)) (λ c.
        and_then (labels c.1)
          (λ pre. some (record { major = a.0; minor = b.0; patch = c.0; prerelease = pre })))))))

pub data Sign : Type 0 where
  less same more : Sign

abbrev pub sign : ℕ → ℕ → Sign
sign a b = if ltb a b then less else if ltb b a then more else same

-- Two labels that differ.
abbrev pub compare_labels : Text → Text → Sign
compare_labels x y =
    let xn = every_of is_digit x && not (is_empty x) in
    let yn = every_of is_digit y && not (is_empty y) in
    if xn && yn
    then sign (number_from 0 x) (number_from 0 y)
    else if xn
    then less
    else if yn
    then more
    else if text_leb x y
    then less
    else more

-- The loop over the labels; two labels that are the same number end it.
unfoldable pub compare_all : List Text → List Text → Sign
compare_all [] [] = same
compare_all [] (y ∷ ys) = less
compare_all (x ∷ xs) [] = more
compare_all (x ∷ xs) (y ∷ ys) =
    let rest = compare_all xs ys in if x == y then rest else compare_labels x y

abbrev pub compare_prereleases : List Text → List Text → Sign
compare_prereleases [] [] = same
compare_prereleases [] (y ∷ ys) = more
compare_prereleases (x ∷ xs) [] = less
compare_prereleases (x ∷ xs) (y ∷ ys) = compare_all (x ∷ xs) (y ∷ ys)

abbrev pub or_else : Sign → Sign → Sign
or_else same next = next
or_else s next = s

unfoldable pub compare_parsed : Version → Version → Sign
unfolding compare_all
compare_parsed a b = or_else (sign a.major b.major) (
    or_else (sign a.minor b.minor)
      (or_else (sign a.patch b.patch) (compare_prereleases a.prerelease b.prerelease)))

-- `none` is the error "Invalid semantic version".
unfoldable pub compare_versions : (Text → Text) → Text → Text → Option Sign
unfolding parse_version compare_parsed
compare_versions trim left right =
    and_then (parse_version trim left)
      (λ a. and_then (parse_version trim right) (λ b. some (compare_parsed a b)))

pub record CompatibilityInput : Type 0 where
  pub client_version : Option Text
  pub client_protocol : Option ℕ
  pub minimum_version : Text
  pub recommended_version : Text
  pub server_protocol : ℕ

pub data IncompatibilityReason : Type 0 where
  protocol_unreported protocol_differs version_invalid version_too_old : IncompatibilityReason

-- The rest of the result is the input.
pub record CompatibilityResult : Type 0 where
  pub compatible : Bool
  pub update_available : Bool
  pub reason : Option IncompatibilityReason

abbrev pub is_less : Option Sign → Bool
is_less (some less) = true
is_less s = false

-- `!clientVersion || !parseVersion(clientVersion)`
abbrev pub parsed_client : (Text → Text) → Option Text → Option Version
parsed_client trim none = none
parsed_client trim (some v) = if is_empty v then none else parse_version trim v

abbrev pub compared : (Text → Text) → Option Text → Text → Option Sign
compared trim none bound = none
compared trim (some v) bound = compare_versions trim v bound

abbrev pub protocol_reason : Option ℕ → IncompatibilityReason
protocol_reason none = protocol_unreported
protocol_reason (some p) = protocol_differs

-- `none` where the comparison with the minimum throws.
abbrev pub reason_of : (Text → Text) → CompatibilityInput → Option (Option IncompatibilityReason)
reason_of trim input =
    if not (input.client_protocol == some input.server_protocol)
    then some (some (protocol_reason input.client_protocol))
    else if not (is_some (parsed_client trim input.client_version))
    then some (some version_invalid)
    else and_then (compared trim input.client_version input.minimum_version)
        (λ s. some (if is_less (some s) then some version_too_old else none))

abbrev pub update_of : (Text → Text) → CompatibilityInput → Option Bool
update_of trim input =
    if not (is_some (parsed_client trim input.client_version))
    then some false
    else and_then (compared trim input.client_version input.recommended_version)
        (λ s. some (is_less (some s)))

unfoldable pub client_compatibility :
    (Text → Text) → CompatibilityInput → Option CompatibilityResult
client_compatibility trim input = and_then (reason_of trim input) (λ reason.
    and_then (update_of trim input) (λ update.
      some
        (record { compatible = not (is_some reason); update_available = update; reason = reason })))
