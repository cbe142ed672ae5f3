-- ===== src/Server/Operations/Apply.antt =====
-- apps/server/src/operation-state.ts: `applyOperations`, one function for each kind of operation.
-- The hash behind `stableUuid` is a parameter, and so is the parsed time of the author.
use Prim.Native.String.{◌++◌ as ◌<>◌}
use gib_sync.Prelude.{
  ℕ, ◌+◌, ◌*◌, String, Bool, true, false, ◌&&◌, ◌||◌, not, Option, none, some, min, is_some,
  if◌then◌else◌, ◌==◌, nat_eq, string_eq, option_eq,
}
use gib_sync.Prelude.Text.{Text, text_eq}
use gib_sync.Prelude.Dict.{Dict, lookup}
use gib_sync.Prelude.Result.{Result, ok, err, ◌>>=◌, ◌>>◌, refuse}
use gib_sync.Protocol.Host.{Host, portable}
use gib_sync.Protocol.Model.{FileRevision}
use gib_sync.Protocol.Operations.{
  OperationContent, Action, create, edit, delete, recreate, mkdir, rmdir, SyncOperation, EntityKind,
  file, folder,
}
use gib_sync.Server.Manifest.{ManifestError}
use gib_sync.Server.Operations.Ledger.{SyncEntity, OperationResult, Ledger, set_entity, occupied}

pub data Conflict : Type 0 where
  duplicate_operation revision_changed folder_recreation creation_exists : Conflict
  uncaused_recreation recreation_unproven no_move destination_exists inside_itself : Conflict
  contents_changed move_collides children_left undeclared_parent unknown_descendant : Conflict
  manifest : ManifestError → Conflict

pub record Context : Type 0 where
  pub host : Host
  pub stable_uuid : String → String
  pub batch_id : String
  pub device_id : String
  pub device_name : String
  pub at : ℕ
  pub sequence : ℕ
  pub internal_chain : Bool
  pub original : Dict String SyncEntity

abbrev pub kind_is : EntityKind → EntityKind → Bool
kind_is file file = true
kind_is folder folder = true
kind_is _ _ = false

-- `value || other` on a string that may be missing or empty
abbrev pub or_string : Option String → String → String
or_string none other = other
or_string (some s) other = if s == "" then other else s

abbrev pub revision_id : Option SyncEntity → Option String
revision_id none = none
revision_id (some e) = some e.revision.id

module _ (C : Context) where
  abbrev previous_revision : SyncOperation → Ledger → SyncOperation
  previous_revision o L = record o {
    base_revision_id = revision_id (lookup o.target_id L.entities);
  }

  -- An internal chain may name the revision that the batch itself has made.
  unfoldable pub resolve : SyncOperation → Ledger → SyncOperation
  resolve o L =
      if o.base_revision_id == some "$previous" && C.internal_chain
      then previous_revision o L
      else o

  abbrev executing_target : SyncOperation → String
  executing_target o = elim o.action [
    | recreate new_id _ _ _ ↦ or_string (some new_id) o.target_id
    | mkdir _ new_id _ ↦ or_string new_id o.target_id
    | _ ↦ o.target_id
  ]

  abbrev clamped : OperationContent → ℕ
  clamped c = min c.mtime (C.at + 5 * 60000)

  -- A change of content carries its own time, which may run five minutes ahead.
  abbrev executing_modified_at : SyncOperation → ℕ
  executing_modified_at o = elim o.action [
    | create _ c ↦ clamped c
    | edit c ↦ clamped c
    | recreate _ _ c _ ↦ clamped c
    | _ ↦ C.at
  ]

  abbrev revision_uuid : SyncOperation → String → String
  revision_uuid o id =
      C.stable_uuid (C.batch_id <> ":" <> o.operation_id <> ":" <> id <> ":revision")

  -- `nextRevision()`
  unfoldable pub first_revision : SyncOperation → FileRevision
  first_revision o = record {
    id = revision_uuid o (executing_target o);
    parent_id = none;
    device_id = C.device_id;
    device_name = C.device_name;
    modified_at = executing_modified_at o;
  }

  -- `nextRevision(entity, preserveContent)`
  unfoldable pub next_revision : SyncOperation → SyncEntity → Bool → FileRevision
  next_revision o e preserve = record {
    id = revision_uuid o e.id;
    parent_id = some e.revision.id;
    device_id = if preserve then e.revision.device_id else C.device_id;
    device_name = if preserve then e.revision.device_name else C.device_name;
    modified_at = if preserve then e.revision.modified_at else executing_modified_at o;
  }

  -- The base of the operation is the present revision or that before the batch.
  unfoldable pub matches_base : SyncOperation → SyncEntity → Bool
  matches_base o e =
      o.base_revision_id == some e.revision.id
      || (is_some o.base_revision_id
          && revision_id (lookup o.target_id C.original) == o.base_revision_id)

  -- `expectLive(kind)`
  unfoldable pub expect_live : EntityKind → SyncOperation → Ledger → Result Conflict SyncEntity
  unfolding matches_base
  expect_live kind o L = elim (lookup o.target_id L.entities) [
    | none ↦ err revision_changed
    | some e ↦
        if e.deleted || not (kind_is e.kind kind) || not (matches_base o e)
        then err revision_changed
        else ok e
  ]

  abbrev is_deletion : Action → Bool
  is_deletion delete = true
  is_deletion rmdir = true
  is_deletion _ = false

  abbrev proves : SyncOperation → SyncEntity → Option OperationResult → Bool
  proves o e none = false
  proves o e (some d) =
      d.operation.target_id == o.target_id
      && is_deletion d.operation.action
      && d.operation.base_revision_id == o.base_revision_id
      && d.revision.id == e.revision.id

  abbrev was_deleted : Option SyncEntity → Bool
  was_deleted none = false
  was_deleted (some e) = e.deleted

  -- Without a named deletion the entity must have been deleted before the batch.
  unfoldable pub deletion_proof : SyncOperation → Option String → SyncEntity → Ledger → Bool
  deletion_proof o deleted_by e L =
      let proof = or_string deleted_by "" in
      if proof == ""
      then was_deleted (lookup o.target_id C.original)
      else proves o e (lookup proof L.result_by_id)

  abbrev has_id : String → Option SyncEntity → Bool
  has_id id none = false
  has_id id (some e) = e.id == id

  unfoldable pub latest_deletion : SyncEntity → Ledger → Bool
  latest_deletion e L = has_id e.id (lookup (portable C.host e.path) L.latest_tombstones)

  -- Whether the deleted entity may come back at the path under the new identity.
  unfoldable pub may_return :
      SyncOperation → Option String → String → Text → Bool → SyncEntity → Ledger → Bool
  unfolding matches_base deletion_proof latest_deletion occupied
  may_return o deleted_by new_id path same_path e L =
      e.deleted
      && matches_base o e
      && deletion_proof o deleted_by e L
      && latest_deletion e L
      && not (is_some (lookup new_id L.entities))
      && not (is_some (occupied C.host path none L))
      && same_path

  abbrev new_entity :
      String → EntityKind → Text → Option OperationContent → FileRevision → SyncEntity
  new_entity id kind path none r = record {
    id = id;
    kind = kind;
    path = path;
    hash = none;
    size = 0;
    mtime = 0;
    revision = r;
    deleted = false;
    sequence = C.sequence;
    ordinal = none;
  }
  new_entity id kind path (some c) r = record {
    id = id;
    kind = kind;
    path = path;
    hash = some c.hash;
    size = c.size;
    mtime = c.mtime;
    revision = r;
    deleted = false;
    sequence = C.sequence;
    ordinal = none;
  }

  -- What each branch leaves: the entity that the operation is about, and the ledger.
  abbrev pub Effect : Type 0
  Effect = Result Conflict (SyncEntity × Ledger)

  abbrev pub put : SyncEntity → Ledger → Effect
  put e L = ok (e, set_entity C.host e L)

  unfoldable pub return_folder : SyncOperation → String → Option String → Text → Ledger → Effect
  unfolding may_return
  return_folder o new_id deleted_by path L = elim (lookup o.target_id L.entities) [
    | none ↦ err folder_recreation
    | some e ↦
        if may_return o deleted_by new_id path (e.path == path) e L
        then put (new_entity new_id folder path none (next_revision o e false)) L
        else err folder_recreation
  ]

  unfoldable pub return_file :
      SyncOperation → String → Text → OperationContent → Option String → Ledger → Effect
  unfolding may_return
  return_file o new_id path content deleted_by L = elim (lookup o.target_id L.entities) [
    | none ↦ err recreation_unproven
    | some e ↦
        if may_return o deleted_by new_id path (portable C.host e.path == portable C.host path) e L
        then put (new_entity new_id file path (some content) (next_revision o e false)) L
        else err recreation_unproven
  ]

  unfoldable pub create_entity :
      SyncOperation → EntityKind → Text → Option OperationContent → Ledger → Effect
  unfolding occupied
  create_entity o kind path content L = do
    refuse
        (is_some (lookup o.target_id L.entities)
          || is_some o.base_revision_id
          || is_some (occupied C.host path none L))
        creation_exists
    refuse (is_some (lookup (portable C.host path) L.latest_tombstones)) uncaused_recreation
    put (new_entity o.target_id kind path content (first_revision o)) L

  unfoldable pub edit_file : SyncOperation → OperationContent → Ledger → Effect
  unfolding expect_live next_revision
  edit_file o content L = do
    e ← expect_live file o L
    put
        (record e {
          hash = some content.hash;
          size = content.size;
          mtime = content.mtime;
          revision = next_revision o e false;
          sequence = C.sequence;
        })
        L
