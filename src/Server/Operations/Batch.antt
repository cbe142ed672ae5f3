-- ===== src/Server/Operations/Batch.antt =====
-- apps/server/src/operation-state.ts: the moves and deletions of `applyOperations`, its loop over
-- a batch, and the checks on the tree that results.
use gib_sync.Prelude.{
  ◌+◌, String, Bool, true, false, ◌&&◌, ◌||◌, not, Option, none, some, List, [], ◌∷◌, ◌++◌, map,
  contains, is_some, some_of, length, keep, if◌then◌else◌, ◌==◌, nat_eq, string_eq, option_eq,
}
use gib_sync.Prelude.Text.{Text, text_eq, starts_with, slice_from, slash}
use gib_sync.Prelude.Dict.{Dict, lookup, insert, values}
use gib_sync.Prelude.Result.{Result, ok, err, ◌>>=◌, ◌>>◌, refuse, each}
use gib_sync.Protocol.Model.{ManifestEntry}
use gib_sync.Protocol.Operations.{
  Descendant, Action, create, edit, move, delete, recreate, mkdir, rmdir, move_folder,
  SyncOperation, OperationBatch, EntityKind, file, folder,
}
use gib_sync.Server.Manifest.{ManifestError, CanonicalManifest, canonical_manifest}
use gib_sync.Server.Paths.{folder_paths}
use gib_sync.Server.Operations.Ledger.{
  SyncEntity, OperationResult, Ledger, children_of, set_entity, remember_deletion, occupied,
  open_ledger, by_id,
}
use gib_sync.Server.Operations.Apply.{
  Conflict, duplicate_operation, no_move, destination_exists, inside_itself, contents_changed,
  move_collides, children_left, undeclared_parent, unknown_descendant, manifest, Context, kind_is,
  or_string, revision_id, resolve, next_revision, expect_live, Effect, put, return_folder,
  return_file, create_entity, edit_file,
}

-- The live entities below a folder. An index that names an entity that is not there would
-- make the program fail on `undefined`.
unfoldable pub entities_at :
    List String → Dict String SyncEntity → Result Conflict (List SyncEntity)
entities_at [] entities = ok []
entities_at (id ∷ ids) entities = elim (lookup id entities) [
  | none ↦ err unknown_descendant
  | some e ↦ do rest ← entities_at ids entities; ok (e ∷ rest)
]

unfoldable pub expected_revisions : List Descendant → Dict String String → Dict String String
expected_revisions [] d = d
expected_revisions (x ∷ xs) d = expected_revisions xs (insert x.target_id x.base_revision_id d)

unfoldable pub live : Dict String SyncEntity → List SyncEntity
live entities = keep (λ e. not e.deleted) (values entities)

abbrev hash_of : SyncEntity → String
hash_of e = elim e.hash [ none ↦ "" | some h ↦ h ]

abbrev pub manifest_entry : SyncEntity → ManifestEntry
manifest_entry e = record {
  path = e.path;
  hash = hash_of e;
  size = e.size;
  mtime = e.mtime;
  file_id = none;
  revision = none;
}

abbrev pub from_manifest :
    Result ManifestError CanonicalManifest → Result Conflict CanonicalManifest
from_manifest (ok m) = ok m
from_manifest (err e) = err (manifest e)

pub record PlannedOperations : Type 0 where
  pub entities : List SyncEntity
  pub results : List OperationResult

module _ (C : Context) where
  abbrev pub check_move : SyncEntity → Text → Ledger → Result Conflict (Unit {0})
  check_move e path L = do
    refuse (path == e.path) no_move
    refuse (is_some (occupied C.host path (some e.id) L)) destination_exists

  abbrev pub moved : SyncOperation → SyncEntity → Text → SyncEntity
  moved o e path = record e {
    path = path;
    revision = next_revision C o e (kind_is e.kind file);
    sequence = C.sequence;
  }

  unfoldable pub move_file : SyncOperation → Text → Ledger → Effect C
  unfolding expect_live occupied next_revision
  move_file o path L = do e ← expect_live C file o L; check_move e path L; put C (moved o e path) L

  -- Neither the present revision nor that before the batch is the expected one.
  abbrev unexpected : Dict String String → SyncEntity → Bool
  unexpected expected e =
      let want = lookup e.id expected in
      not (want == some e.revision.id) && not (want == revision_id (lookup e.id C.original))

  unfoldable pub contents_differ : List Descendant → List SyncEntity → Bool
  unfolding expected_revisions
  contents_differ listed descendants =
      let expected = expected_revisions listed [] in
      not (length expected == length listed)
      || not (length expected == length descendants)
      || some_of (unexpected expected) descendants

  abbrev collides : List String → Option SyncEntity → Bool
  collides moving none = false
  collides moving (some e) = not (contains moving e.id)

  -- One child of a folder that moves.
  unfoldable pub move_child :
      SyncOperation → Text → Text → List String → SyncEntity → Ledger → Result Conflict Ledger
  unfolding occupied next_revision
  move_child o old_path new_path moving child L =
      let path = new_path ++ slice_from (length old_path) child.path in
      do
        refuse (collides moving (occupied C.host path none L)) move_collides
        ok (set_entity C.host (moved o child path) L)

  -- The children follow, if they are the ones that the operation names.
  unfoldable pub move_children :
      SyncOperation → SyncEntity → Text → List Descendant → Ledger → Result Conflict Ledger
  unfolding entities_at contents_differ move_child each
  move_children o e path listed L = do
    descendants ← entities_at (children_of e.path L.index) L.entities
    refuse (contents_differ listed descendants) contents_changed
    each (move_child o e.path path (e.id ∷ map (λ d. d.id) descendants)) descendants L

  unfoldable pub move_folder_to : SyncOperation → Text → List Descendant → Ledger → Effect C
  unfolding expect_live next_revision move_children
  move_folder_to o path listed L = do
    e ← expect_live C folder o L
    check_move e path L
    refuse (starts_with path (e.path ++ (slash ∷ []))) inside_itself
    L' ← move_children o e path listed L
    put C (moved o e path) L'

  abbrev has_children : SyncEntity → Ledger → Bool
  has_children e L = kind_is e.kind folder && not (length (children_of e.path L.index) == 0)

  unfoldable pub remove : SyncOperation → EntityKind → Ledger → Effect C
  unfolding expect_live next_revision
  remove o kind L = do
    e ← expect_live C kind o L
    refuse (has_children e L) children_left
    put C (record e { deleted = true; revision = next_revision C o e false; sequence = C.sequence })
        L

  unfoldable pub dispatch : SyncOperation → Ledger → Action → Effect C
  dispatch o L (create path content) = create_entity C o file path (some content) L
  dispatch o L (edit content) = edit_file C o content L
  dispatch o L (move path) = move_file o path L
  dispatch o L delete = remove o file L
  dispatch o L (recreate new_id path content deleted_by) =
      return_file C o new_id path content deleted_by L
  dispatch o L (mkdir path new_id deleted_by) =
      if or_string new_id "" == ""
      then create_entity C o folder path none L
      else return_folder C o (or_string new_id "") deleted_by path L
  dispatch o L rmdir = remove o folder L
  dispatch o L (move_folder path listed) = move_folder_to o path listed L

  -- The end of a round: the result is recorded and numbers the entity, and a deletion is
  -- remembered.
  unfoldable pub conclude : SyncOperation → SyncEntity → Ledger → Ledger
  unfolding remember_deletion
  conclude o e L =
      let result : OperationResult = record { operation = o; revision = e.revision } in
      let e' : SyncEntity = record e { ordinal = some (length L.results + 1) } in
      record L {
        entities = insert e.id e' L.entities;
        results = L.results ++ (result ∷ []);
        result_by_id = insert o.operation_id result L.result_by_id;
        latest_tombstones =
            if e'.deleted
            then remember_deletion C.host e' L.latest_tombstones
            else L.latest_tombstones;
      }

  unfoldable pub apply_one : SyncOperation → Ledger → Result Conflict Ledger
  unfolding resolve dispatch conclude
  apply_one raw L =
      let o = resolve C raw L in
      do
        refuse (contains L.ids o.operation_id) duplicate_operation
        effect ← dispatch o (record L { ids = o.operation_id ∷ L.ids }) o.action
        ok (conclude o effect.0 effect.1)

  -- The tree must be a manifest in which each parent is a folder of its own.
  unfoldable pub check_tree : Dict String SyncEntity → Result Conflict (Unit {0})
  unfolding live
  check_tree entities =
      let active = live entities in
      let files = map manifest_entry (keep (λ e. kind_is e.kind file) active) in
      let folders = map (λ e. e.path) (keep (λ e. kind_is e.kind folder) active) in
      do
        checked ← from_manifest (canonical_manifest C.host files (some folders))
        refuse
            (some_of (λ p. not (contains folders p))
              (folder_paths (map (λ f. f.path) files) folders))
            undeclared_parent

  unfoldable pub run_batch : List SyncOperation → Ledger → Result Conflict PlannedOperations
  unfolding each apply_one check_tree
  run_batch operations L = do
    L' ← each apply_one operations L
    check_tree L'.entities
    ok (record { entities = values L'.entities; results = L'.results })

-- The batch is applied to the entities that were accepted before it, which are also `original`.
unfoldable pub apply_operations :
    Context → List SyncEntity → OperationBatch → Result Conflict PlannedOperations
unfolding run_batch open_ledger by_id
apply_operations C previous batch =
    let C' : Context = record C { batch_id = batch.batch_id; original = by_id previous [] } in
    run_batch C' batch.operations (open_ledger C.host previous)
