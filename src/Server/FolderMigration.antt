-- ===== src/Server/FolderMigration.antt =====
-- apps/server/src/folder-migration.ts: the snapshots that it reads and the signature of an unsafe
-- folder baseline. Timestamps are texts in ISO format, which sort by their units.
pub mod Chain
pub mod Plans
pub mod Repair
pub mod Laws
pub mod Lineage
pub mod Tests
use gib_sync.Prelude.{
  ℕ, String, Bool, true, false, ◌&&◌, not, Option, none, some, List, [], ◌∷◌, ◌++◌, map, ◌==◌,
  nat_eq, string_eq, option_eq, is_some,
}
use gib_sync.Prelude.Text.{Text, text, text_eq, starts_with, text_leb}
use gib_sync.Prelude.Sorting.{sort}
use gib_sync.Protocol.Host.{Host}
use gib_sync.Protocol.Model.{ManifestEntry}

pub record FolderRepairDirective : Type 0 where
  pub retired_folders : List Text
  pub observed_at : Text
  pub issued_at : Option Text
  pub origin_snapshot_ids : List String

-- A snapshot, as far as the migration reads it.
pub record Snapshot : Type 0 where
  pub id : String
  pub vault_id : String
  pub parent_id : Option String
  pub device_id : String
  pub device_name : String
  pub created_at : Text
  pub entries : List ManifestEntry
  pub folders : Option (List Text)
  pub folder_repair : Option FolderRepairDirective

pub record StableFile : Type 0 where
  pub path : Text
  pub hash : String
  pub size : ℕ

abbrev pub stable_file : ManifestEntry → StableFile
stable_file e = record { path = e.path; hash = e.hash; size = e.size }

abbrev pub list_beq {ℓ} : {A : Type ℓ} → (A → A → Bool) → List A → List A → Bool
list_beq same [] [] = true
list_beq same [] (b ∷ bs) = false
list_beq same (a ∷ left) [] = false
list_beq same (a ∷ left) (b ∷ bs) = same a b && list_beq same left bs

abbrev pub same_file : StableFile → StableFile → Bool
same_file a b = a.path == b.path && a.hash == b.hash && a.size == b.size

module _ (H : Host) where
  abbrev pub stable_files : Snapshot → List StableFile
  stable_files s = sort (λ a b. H.collate a.path b.path) (map stable_file s.entries)

  -- Equality of the two JSON texts, which is that of the values.
  abbrev pub same_files : Snapshot → Snapshot → Bool
  same_files left right = list_beq same_file (stable_files left) (stable_files right)

abbrev pub external_device : Snapshot → Bool
external_device s =
    text s.device_id == text "seafile:" ++ text s.vault_id && s.device_name == "Seafile"

abbrev pub trusted_device : Snapshot → Bool
trusted_device s = not (external_device s) && not (starts_with (text s.device_id) (text "server:"))

-- `Array.isArray(folders) && folders.length`
abbrev pub has_folders : Option (List Text) → Bool
has_folders none = false
has_folders (some []) = false
has_folders (some (f ∷ fs)) = true

abbrev pub folders_of : Snapshot → List Text
folders_of s = elim s.folders [ none ↦ [] | some fs ↦ fs ]

-- An external scan that adds folders to a parent that has none declared, and changes no file.
unfoldable pub unsafe_legacy_folder_seed : Host → Snapshot → Option Snapshot → Bool
unsafe_legacy_folder_seed H s none = false
unsafe_legacy_folder_seed H s (some p) =
    s.parent_id == some p.id
    && external_device s
    && has_folders s.folders
    && not (is_some p.folders)
    && same_files H s p

pub record LegacyFolderRepairPlan : Type 0 where
  pub vault_id : String
  pub head_id : String
  pub origin_ids : List String
  pub contaminated_folders : List Text
  pub desired_folders : List Text
  pub current_folders : List Text
  pub observed_at : Option Text
  pub issued_at : Option Text

-- `[...paths].sort()`
abbrev pub sorted : List Text → List Text
sorted paths = sort text_leb paths

-- `ids.sort()`
abbrev pub sorted_ids : List String → List String
sorted_ids ids = sort (λ a b. text_leb (text a) (text b)) ids

abbrev pub last {ℓ} : {A : Type ℓ} → List A → Option A
last [] = none
last (x ∷ []) = some x
last (x ∷ y ∷ ys) = last (y ∷ ys)
