-- ===== src/Server/Compatibility/Tests.antt =====
-- Runs of apps/server/src/compatibility.ts, and the theorems about it at some of them.
use gib_sync.Prelude.{
  ℕ, ◌≡◌, refl, Bool, true, false, not, is_some, Option, none, some, List, [], ◌∷◌,
}
use gib_sync.Prelude.Text.{Text, text, trim}
use gib_sync.Server.Compatibility.{
  Version, less, same, more, compare_versions, parse_version, CompatibilityInput,
  CompatibilityResult, version_too_old, client_compatibility,
}
use gib_sync.Server.Compatibility.Gate.{Gate, client_compatibility-Gate}

abbrev older : Text
older = text "v0.8.54-rc.2"

abbrev newer : Text
newer = text "0.8.54-rc.10"

numeric_labels : compare_versions trim older newer ≡ some less
unfolding compare_versions gib_sync.Prelude.Text.text_beq gib_sync.Prelude.Text.trim_end
    gib_sync.Prelude.Text.trim_start
numeric_labels = refl

release_is_later : compare_versions trim (text "1.0.0") (text "1.0.0-beta") ≡ some more
unfolding compare_versions gib_sync.Prelude.Text.trim_end gib_sync.Prelude.Text.trim_start
release_is_later = refl

-- Labels that are the same number end the comparison, whatever follows them.
rest_unread : compare_versions trim (text "1.0.0-1.a") (text "1.0.0-01.b") ≡ some same
unfolding compare_versions gib_sync.Prelude.Text.text_beq gib_sync.Prelude.Text.trim_end
    gib_sync.Prelude.Text.trim_start
rest_unread = refl

abbrev client : CompatibilityInput
client = record {
  client_version = some older;
  client_protocol = some 7;
  minimum_version = text "0.8.54";
  recommended_version = text "0.9.0";
  server_protocol = 7;
}

abbrev answer : CompatibilityResult
answer = record { compatible = false; update_available = true; reason = some version_too_old }

turned_away : client_compatibility trim client ≡ some answer
unfolding client_compatibility parse_version compare_versions gib_sync.Prelude.Text.trim_end
    gib_sync.Prelude.Text.trim_start
turned_away = refl

abbrev minimum : Version
minimum = record { major = 0; minor = 8; patch = 54; prerelease = [] }

abbrev recommended : Version
recommended = record { major = 0; minor = 9; patch = 0; prerelease = [] }

client_compatibility-Gate_example :
    (r : CompatibilityResult) × (client_compatibility trim client ≡ some r)
    × Gate trim client minimum recommended r
unfolding parse_version gib_sync.Prelude.Text.trim_end gib_sync.Prelude.Text.trim_start
client_compatibility-Gate_example =
    client_compatibility-Gate trim client minimum recommended refl refl
