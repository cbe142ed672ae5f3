-- ===== src/Plugin/Compatibility/Tests.antt =====
-- Runs of plugin/src/server-compatibility.ts, and the theorem about it at one of them.
use gib_sync.Prelude.{◌≡◌, refl, not, ◌&&◌, none, some, List, [], ◌∷◌, String}
use gib_sync.Prelude.Text.{Text, text, trim}
use gib_sync.Server.Compatibility.{Version, Sign, compare_versions, parse_version}
use gib_sync.Server.Compatibility.Gate.{is_before}
use gib_sync.Plugin.Compatibility.{
  ServerMetadata, required_server_capabilities, older_than, stale_server_reason,
  capabilities_missing, server_too_old,
}
use gib_sync.Plugin.Compatibility.Laws.{same_release, has_labels, older_than-compare_versions}

abbrev server : Text → List String → ServerMetadata
server version capabilities = record {
  protocol = some 7;
  server_version = some version;
  server_capabilities = some capabilities;
}

current : stale_server_reason trim (server (text "0.9.0") required_server_capabilities) ≡ none
unfolding stale_server_reason gib_sync.Prelude.Text.trim_end gib_sync.Prelude.Text.trim_start
current = refl

outdated :
    stale_server_reason trim (server (text "0.8.55-rc.1") required_server_capabilities)
    ≡ some server_too_old
unfolding stale_server_reason gib_sync.Prelude.Text.trim_end gib_sync.Prelude.Text.trim_start
outdated = refl

incapable :
    stale_server_reason trim (server (text "0.9.0") [])
    ≡ some (capabilities_missing required_server_capabilities)
unfolding stale_server_reason gib_sync.Prelude.Text.trim_end gib_sync.Prelude.Text.trim_start
incapable = refl

abbrev candidate : Version
candidate = record { major = 0; minor = 8; patch = 55; prerelease = text "rc" ∷ text "1" ∷ [] }

abbrev final_version : Version
final_version = record { major = 0; minor = 8; patch = 55; prerelease = [] }

older_than-compare_versions_example :
    (s : Sign) × (compare_versions trim (text "v0.8.55-rc.1") (text " 0.8.55") ≡ some s)
    × (older_than trim (text "v0.8.55-rc.1") (text " 0.8.55") ≡ (
        is_before s
        && not (
            same_release candidate final_version
            && has_labels candidate.prerelease
            && has_labels final_version.prerelease)))
unfolding parse_version gib_sync.Prelude.Text.trim_end gib_sync.Prelude.Text.trim_start
older_than-compare_versions_example =
    older_than-compare_versions (text "v0.8.55-rc.1") (text " 0.8.55") {a = candidate}
      {b = final_version} refl refl
