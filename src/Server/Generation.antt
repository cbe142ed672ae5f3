-- ===== src/Server/Generation.antt =====
-- apps/server/src/mirror-generation.ts: the marker that a readable mirror is complete. The hash of
-- the JSON text, the sealing and the clock are parameters; the storage is a map of texts.
pub mod Laws
pub mod Tests
use gib_sync.Prelude.{
  ℕ, String, Bool, true, false, ◌&&◌, not, Option, none, some, List, [], ◌∷◌, ◌++◌, map, keep,
  length, take, ◌-◌, if◌then◌else◌, ◌==◌, nat_eq, string_eq,
}
use gib_sync.Prelude.Text.{Text, text, text_eq, split, text_leb}
use gib_sync.Prelude.Dict.{Dict, lookup, insert}
use gib_sync.Prelude.Result.{Result, ok, err}
use gib_sync.Prelude.Sorting.{sort}
use gib_sync.Protocol.Host.{Host}
use gib_sync.Protocol.Model.{ManifestEntry}
use gib_sync.Server.FolderMigration.{Snapshot, StableFile}
use gib_sync.Server.Paths.{add_once, add_all, is_empty}

abbrev pub generation_path : Text
generation_path = text "readable-generation.gib"

pub record ReadableGeneration : Type 0 where
  pub version : ℕ
  pub vault_id : String
  pub snapshot_id : String
  pub entry_count : ℕ
  pub folder_count : ℕ
  pub manifest_hash : String
  pub completed_at : Text

pub data GenerationError : Type 0 where
  not_verified : GenerationError

-- `add`: the path of each part, from the outermost.
abbrev pub add_parts : List Text → Text → List Text → List Text
add_parts set current [] = set
add_parts set current (part ∷ parts) =
    let path = if is_empty current then part else current ++ text "/" ++ part in
    add_parts (add_once set path) path parts

unfoldable pub add_folders : List Text → List Text → List Text
unfolding split
add_folders set [] = set
add_folders set (folder ∷ folders) =
    add_folders (add_parts set [] (keep (λ p. not (is_empty p)) (split folder))) folders

unfoldable pub add_entries : List Text → List ManifestEntry → List Text
unfolding split
add_entries set [] = set
add_entries set (e ∷ es) =
    let parts = split e.path in add_entries (add_parts set [] (take (length parts - 1) parts)) es

abbrev pub declared : Option (List Text) → List Text
declared none = []
declared (some folders) = folders

unfoldable pub folders_for : Snapshot → List Text
unfolding add_folders add_entries sort
folders_for s = sort text_leb (add_entries (add_folders [] (declared s.folders)) s.entries)

abbrev pub stable : ManifestEntry → StableFile
stable e = record { path = e.path; hash = e.hash; size = e.size }

module _ (H : Host) (digest : List StableFile → List Text → String) where
  unfoldable pub manifest_hash_of : List ManifestEntry → List Text → String
  unfolding sort
  manifest_hash_of entries folders =
      digest (map stable (sort (λ (a b : ManifestEntry). H.collate a.path b.path) entries))
        (sort text_leb (add_all [] folders))

  unfoldable pub generation_for : (now : Text) → Snapshot → ReadableGeneration
  unfolding folders_for manifest_hash_of
  generation_for now s =
      let folders = folders_for s in
      record {
        version = 2;
        vault_id = s.vault_id;
        snapshot_id = s.id;
        entry_count = length s.entries;
        folder_count = length folders;
        manifest_hash = manifest_hash_of s.entries folders;
        completed_at = now;
      }

  abbrev pub describes : ReadableGeneration → Snapshot → Bool
  describes g s =
      let folders = folders_for s in
      g.vault_id == s.vault_id
      && g.snapshot_id == s.id
      && g.entry_count == length s.entries
      && g.folder_count == length folders
      && g.manifest_hash == manifest_hash_of s.entries folders

  unfoldable pub valid_generation : Option ReadableGeneration → Option Snapshot → Bool
  unfolding folders_for manifest_hash_of
  valid_generation none s = false
  valid_generation (some g) none = false
  valid_generation (some g) (some s) = g.version == 2 && describes g s

  module _ (seal : ReadableGeneration → Text) (unseal : Text → Option ReadableGeneration) where
    abbrev pub unseal_found : Option Text → Option ReadableGeneration
    unseal_found none = none
    unseal_found (some sealed) = unseal sealed

    -- A failure of the storage or of `openJson` is no generation.
    unfoldable pub read_generation : Dict Text Text → Option ReadableGeneration
    unfolding lookup
    read_generation files = unseal_found (lookup generation_path files)

    abbrev pub verified :
        Option ReadableGeneration → Snapshot → Result GenerationError ReadableGeneration
    verified none s = err not_verified
    verified (some g) s = if valid_generation (some g) (some s) then ok g else err not_verified

    -- The marker is read back before it counts. The files are what the storage has afterwards.
    unfoldable pub write_generation :
        (now : Text)
        → Snapshot
        → Dict Text Text
        → Result GenerationError ReadableGeneration × Dict Text Text
    unfolding generation_for read_generation insert valid_generation
    write_generation now s files =
        let written = insert generation_path (seal (generation_for now s)) files in
        (verified (read_generation written) s, written)
