-- ===== src/Protocol/Operations.antt =====
-- packages/protocol/src/operations.ts: the operations of a batch and the tree that they act on.
use gib_sync.Prelude.{ℕ, String, Option, List}
use gib_sync.Prelude.Text.{Text}
use gib_sync.Protocol.Model.{FileRevision, ManifestEntry, FolderEntry}

pub record OperationContent : Type 0 where
  pub hash : String
  pub size : ℕ
  pub mtime : ℕ

-- An entity and the revision of it that the author of a folder move has seen.
pub record Descendant : Type 0 where
  pub target_id : String
  pub base_revision_id : String

-- The part of an operation that its `kind` decides. An absent property is `none`.
pub data Action : Type 0 where
  create : (path : Text) (content : OperationContent) → Action
  edit : (content : OperationContent) → Action
  move : (new_path : Text) → Action
  delete : Action
  recreate :
      (new_target_id : String) (path : Text) (content : OperationContent)
      (deleted_by : Option String)
      → Action
  mkdir : (path : Text) (new_target_id deleted_by : Option String) → Action
  rmdir : Action
  move_folder : (new_path : Text) (descendants : List Descendant) → Action

pub record SyncOperation : Type 0 where
  pub operation_id : String
  pub target_id : String
  pub base_revision_id : Option String
  pub action : Action

pub record OperationBatch : Type 0 where
  pub batch_id : String
  pub base_snapshot_id : Option String
  pub operations : List SyncOperation

pub data EntityKind : Type 0 where
  file folder : EntityKind

pub record SyncTombstone : Type 0 where
  pub target_id : String
  pub entity_kind : EntityKind
  pub path : Text
  pub revision : FileRevision
  pub deleted_sequence : ℕ
  pub deleted_ordinal : ℕ
  pub content : Option OperationContent

pub record SyncTree : Type 0 where
  pub snapshot_id : Option String
  pub sequence : ℕ
  pub files : List ManifestEntry
  pub folders : List FolderEntry
  pub tombstones : List SyncTombstone
