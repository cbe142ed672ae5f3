-- ===== src/Plugin/Compatibility.antt =====
-- plugin/src/server-compatibility.ts: the gate for servers. Its expression for a version is that
-- of apps/server/src/compatibility.ts without the capture of the labels, so a version is read by
-- `parse_version` of that module.
pub mod Laws
pub mod Tests
use gib_sync.Prelude.{
  ℕ, String, Bool, true, false, ◌&&◌, ◌||◌, not, Option, none, some, List, [], ◌∷◌, keep, contains,
  ltb, is_some, if◌then◌else◌, ◌==◌, nat_eq, string_eq, option_eq,
}
use gib_sync.Prelude.Text.{Text, text}
use gib_sync.Server.Paths.{is_empty}
use gib_sync.Server.Compatibility.{Version, parse_version}

abbrev pub protocol_version : ℕ
protocol_version = 7

abbrev pub minimum_safe_server_version : Text
minimum_safe_server_version = text "0.8.55"

abbrev pub required_server_capabilities : List String
required_server_capabilities =
    "readable-generation-v1" ∷ "external-delete-proof-v1" ∷ "folder-manifest-v1"
    ∷ "folder-manifest-migration-v2" ∷ "folder-provenance-repair-v1"
    ∷ "folder-retirement-directive-v1" ∷ "snapshot-integrity-v1" ∷ "atomic-head-commit-v1"
    ∷ "server-containment-v1" ∷ []

pub record ServerMetadata : Type 0 where
  pub protocol : Option ℕ
  pub server_version : Option Text
  pub server_capabilities : Option (List String)

-- The plugin only asks whether there are labels: `value.includes("-")`.
pub record ServerVersion : Type 0 where
  pub major : ℕ
  pub minor : ℕ
  pub patch : ℕ
  pub prerelease : Bool

abbrev pub with_flag : Bool → Option Version → Option ServerVersion
with_flag flag none = none
with_flag flag (some v) =
    some (record { major = v.major; minor = v.minor; patch = v.patch; prerelease = flag })

unfoldable pub parse_server_version : (Text → Text) → Text → Option ServerVersion
unfolding parse_version
parse_server_version trim value = with_flag (contains value b'-') (parse_version trim value)

unfoldable pub older_parsed : ServerVersion → ServerVersion → Bool
older_parsed a b =
    if not (a.major == b.major)
    then ltb a.major b.major
    else if not (a.minor == b.minor)
    then ltb a.minor b.minor
    else if not (a.patch == b.patch)
    then ltb a.patch b.patch
    else a.prerelease && not b.prerelease

-- A version that cannot be read counts as older.
abbrev pub older_or_unread : Option ServerVersion → Option ServerVersion → Bool
older_or_unread none b = true
older_or_unread (some a) none = true
older_or_unread (some a) (some b) = older_parsed a b

unfoldable pub older_than : (Text → Text) → Text → Text → Bool
unfolding parse_server_version older_parsed
older_than trim left right =
    older_or_unread (parse_server_version trim left) (parse_server_version trim right)

pub data StaleReason : Type 0 where
  protocol_mismatch server_too_old : StaleReason
  capabilities_missing : List String → StaleReason

-- `!metadata.serverVersion || olderThan(...)`
abbrev pub unsafe_version : (Text → Text) → Option Text → Bool
unsafe_version trim none = true
unsafe_version trim (some v) = is_empty v || older_than trim v minimum_safe_server_version

abbrev listed : Option (List String) → List String
listed none = []
listed (some cs) = cs

abbrev pub missing_capabilities : Option (List String) → List String
missing_capabilities reported =
    keep (λ c. not (contains (listed reported) c)) required_server_capabilities

abbrev pub missing_reason : List String → Option StaleReason
missing_reason [] = none
missing_reason (c ∷ cs) = some (capabilities_missing (c ∷ cs))

unfoldable pub stale_server_reason : (Text → Text) → ServerMetadata → Option StaleReason
unfolding older_than
stale_server_reason trim metadata =
    if not (metadata.protocol == some protocol_version)
    then some protocol_mismatch
    else if unsafe_version trim metadata.server_version
    then some server_too_old
    else missing_reason (missing_capabilities metadata.server_capabilities)
