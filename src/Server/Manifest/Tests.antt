-- ===== src/Server/Manifest/Tests.antt =====
-- Runs of apps/server/src/manifest.ts, and the theorem about it at one of them.
use gib_sync.Prelude.{◌≡◌, refl, Option, none, some, List, [], ◌∷◌, String}
use gib_sync.Prelude.Text.{Text, text}
use gib_sync.Prelude.Result.{Result, ok, err}
use gib_sync.Protocol.Host.{ascii}
use gib_sync.Protocol.Model.{ManifestEntry}
use gib_sync.Server.Manifest.{CanonicalManifest, file_alias, file_as_folder, canonical_manifest}
use gib_sync.Server.Manifest.Laws.{IsCanonical, canonical_manifest-IsCanonical}

abbrev note : String → ManifestEntry
note path = record {
  path = text path;
  hash = "h";
  size = 1;
  mtime = 0;
  file_id = none;
  revision = none;
}

alias :
    canonical_manifest ascii (note "A.md" ∷ note "a.md" ∷ []) none
    ≡ err (file_alias (text "A.md") (text "a.md"))
unfolding canonical_manifest gib_sync.Server.Paths.safe_relative_path
    gib_sync.Prelude.Text.starts_with gib_sync.Prelude.Text.split gib_sync.Prelude.Text.text_beq
    gib_sync.Prelude.Result.each gib_sync.Prelude.Sorting.sort gib_sync.Prelude.Text.text_leb
    gib_sync.Prelude.Text.join gib_sync.Prelude.Dict.lookup gib_sync.Prelude.Dict.insert
alias = refl

below_a_file :
    canonical_manifest ascii (note "a" ∷ note "a/b" ∷ []) none
    ≡ err (file_as_folder (text "a") (text "a"))
unfolding canonical_manifest gib_sync.Server.Paths.safe_relative_path
    gib_sync.Prelude.Text.starts_with gib_sync.Prelude.Text.split gib_sync.Prelude.Text.text_beq
    gib_sync.Prelude.Result.each gib_sync.Prelude.Sorting.sort gib_sync.Prelude.Text.text_leb
    gib_sync.Prelude.Text.join gib_sync.Prelude.Dict.lookup gib_sync.Prelude.Dict.insert
    gib_sync.Server.Paths.ancestors
below_a_file = refl

abbrev notes : List ManifestEntry
notes = note "b/c.md" ∷ note "a.md" ∷ []

abbrev manifest : CanonicalManifest
manifest = record { entries = note "a.md" ∷ note "b/c.md" ∷ []; folders = some (text "empty" ∷ []) }

canonical : canonical_manifest ascii notes (some (text "empty" ∷ text "b" ∷ [])) ≡ ok manifest
unfolding canonical_manifest gib_sync.Server.Paths.safe_relative_path
    gib_sync.Prelude.Text.starts_with gib_sync.Prelude.Text.split gib_sync.Prelude.Text.text_beq
    gib_sync.Prelude.Result.each gib_sync.Prelude.Sorting.sort gib_sync.Prelude.Text.text_leb
    gib_sync.Prelude.Text.join gib_sync.Prelude.Dict.lookup gib_sync.Prelude.Dict.insert
    gib_sync.Server.Paths.ancestors
canonical = refl

canonical_manifest-IsCanonical_example : IsCanonical ascii notes manifest
canonical_manifest-IsCanonical_example =
    canonical_manifest-IsCanonical ascii notes (some (text "empty" ∷ text "b" ∷ [])) canonical
