-- ===== src/Server/Generation/Tests.antt =====
-- Runs of the functions on a marker, sealed as its name and opened from a table of one.
use gib_sync.Prelude.{
  ◌≡◌, refl, ℕ, String, Bool, true, false, Option, none, some, List, [], ◌∷◌, length,
}
use gib_sync.Prelude.Text.{Text, text}
use gib_sync.Prelude.Result.{ok}
use gib_sync.Protocol.Host.{ascii}
use gib_sync.Protocol.Model.{ManifestEntry}
use gib_sync.Server.FolderMigration.{Snapshot, StableFile}
use gib_sync.Server.Generation.{folders_for, generation_for, valid_generation, write_generation}

abbrev file : String → ManifestEntry
file path = record {
  path = text path;
  hash = "h";
  size = 1;
  mtime = 0;
  file_id = none;
  revision = none;
}

abbrev snapshot : List ManifestEntry → Snapshot
snapshot entries = record {
  id = "s";
  vault_id = "v";
  parent_id = none;
  device_id = "phone";
  device_name = "Phone";
  created_at = [];
  entries = entries;
  folders = some (text "/z//y/" ∷ []);
  folder_repair = none;
}

abbrev notes : Snapshot
notes = snapshot (file "b/c.md" ∷ file "a/x/y.md" ∷ [])

abbrev digest : List StableFile → List Text → String
digest (one ∷ two ∷ []) folders = "two"
digest files folders = "other"

folders_found : folders_for notes ≡ text "a" ∷ text "a/x" ∷ text "b" ∷ text "z" ∷ text "z/y" ∷ []
unfolding folders_for gib_sync.Prelude.Text.text_beq gib_sync.Prelude.Text.text_leb
folders_found = refl

other_snapshot :
    valid_generation ascii digest
      (some (generation_for ascii digest [] notes))
      (some (snapshot (file "a.md" ∷ [])))
    ≡ false
unfolding valid_generation generation_for
other_snapshot = refl

written :
    (write_generation ascii digest
      (λ g. text "sealed")
      (λ t. some (generation_for ascii digest [] notes))
      []
      notes
      []).0
    ≡ ok (generation_for ascii digest [] notes)
unfolding write_generation gib_sync.Prelude.Text.text_beq gib_sync.Prelude.Text.text_leb
written = refl
