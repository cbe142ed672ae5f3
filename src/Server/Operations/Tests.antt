-- ===== src/Server/Operations/Tests.antt =====
-- Runs of `applyOperations` (apps/server/src/operation-state.ts), and the theorems about it at
-- some of them.
use gib_sync.Prelude.{
  ◌≡◌, refl, ℕ, String, Bool, true, false, Option, none, some, List, [], ◌∷◌, string_eq,
}
use Prim.Native.String.{◌++◌ as ◌<>◌}
use gib_sync.Prelude.Text.{text}
use gib_sync.Prelude.Dict.{lookup}
use gib_sync.Prelude.Result.{Result, ok, err}
use gib_sync.Protocol.Host.{ascii}
use gib_sync.Protocol.Model.{FileRevision}
use gib_sync.Protocol.Operations.{
  Action, edit, delete, create, move_folder, SyncOperation, OperationBatch, EntityKind, file,
  folder,
}
use gib_sync.Server.Operations.Ledger.{SyncEntity, Ledger, open_ledger, by_id}
use gib_sync.Server.Operations.Apply.{Conflict, Context, revision_changed, children_left}
use gib_sync.Server.Operations.Batch.{PlannedOperations, apply_operations, apply_one}
use gib_sync.Server.Operations.Identity.Batch.{Survives, apply_operations-Survives}
use gib_sync.Server.Operations.Results.{all_new, requested_ids, reported, apply_operations-reported}
use gib_sync.Server.Operations.Tree.{IsTree, apply_operations-IsTree}
use gib_sync.Server.Operations.Fence.{Round, apply_one-Round, target_kind}
use gib_sync.Server.Operations.Apply.{resolve}

abbrev revision : String → FileRevision
revision id = record {
  id = id;
  parent_id = none;
  device_id = "phone";
  device_name = "Phone";
  modified_at = 1;
}

abbrev entity : String → EntityKind → String → Bool → SyncEntity
entity id kind path deleted = record {
  id = id;
  kind = kind;
  path = text path;
  hash = some "h";
  size = 3;
  mtime = 1;
  revision = revision (id <> "-1");
  deleted = deleted;
  sequence = 1;
  ordinal = some 1;
}

abbrev vault : List SyncEntity
vault =
    entity "d" folder "notes" false
    ∷ entity "a" file "notes/a.md" false
    ∷ entity "b" file "old.md" true
    ∷ []

abbrev author : Context
author = record {
  host = ascii;
  stable_uuid = λ s. s;
  batch_id = "";
  device_id = "laptop";
  device_name = "Laptop";
  at = 1000;
  sequence = 2;
  internal_chain = false;
  original = [];
}

abbrev on_entity : String → String → String → Action → SyncOperation
on_entity id target base action = record {
  operation_id = id;
  target_id = target;
  base_revision_id = some base;
  action = action;
}

-- The folder moves with its note, and the note is edited in its new place.
abbrev reorganize : OperationBatch
reorganize = record {
  batch_id = "batch";
  base_snapshot_id = none;
  operations =
      on_entity "o1" "d" "d-1"
        (move_folder (text "archive") (record { target_id = "a"; base_revision_id = "a-1" } ∷ []))
      ∷ on_entity "o2" "a" "a-1" (edit (record { hash = "h2"; size = 5; mtime = 900 }))
      ∷ [];
}

abbrev outcome : PlannedOperations
outcome = elim (apply_operations author vault reorganize) [
  | ok planned ↦ planned
  | err e ↦ record { entities = []; results = [] }
]

accepted : apply_operations author vault reorganize ≡ ok outcome
unfolding apply_operations gib_sync.Prelude.Dict.insert
    gib_sync.Server.Operations.Batch.move_folder_to lookup gib_sync.Prelude.Text.text_beq
    gib_sync.Prelude.Text.starts_with gib_sync.Server.Paths.ancestors gib_sync.Prelude.Text.split
    gib_sync.Prelude.Text.join gib_sync.Server.Operations.Ledger.set_entity
    gib_sync.Server.Operations.Apply.edit_file gib_sync.Server.Manifest.canonical_manifest
    gib_sync.Server.Paths.safe_relative_path gib_sync.Prelude.Sorting.sort
    gib_sync.Server.Paths.folder_paths
accepted = refl

abbrev stale_edit : OperationBatch
stale_edit = record {
  batch_id = "batch";
  base_snapshot_id = none;
  operations = on_entity "o1" "a" "a-0" (edit (record { hash = "h2"; size = 5; mtime = 900 })) ∷ [];
}

refused : apply_operations author vault stale_edit ≡ err revision_changed
unfolding apply_operations gib_sync.Prelude.Dict.insert gib_sync.Server.Operations.Apply.edit_file
    lookup
refused = refl

stored : lookup "b" (by_id vault []) ≡ some (entity "b" file "old.md" true)
unfolding by_id lookup gib_sync.Prelude.Dict.insert
stored = refl

apply_operations-Survives_example : Survives (entity "b" file "old.md" true) outcome.entities
apply_operations-Survives_example =
    apply_operations-Survives author vault reorganize outcome "b" (entity "b" file "old.md" true)
      accepted stored

apply_operations-reported_example :
    (all_new [] (requested_ids reorganize.operations) ≡ true)
    × (reported outcome.results ≡ requested_ids reorganize.operations)
apply_operations-reported_example =
    apply_operations-reported author vault reorganize outcome accepted

abbrev opened : Ledger
opened = open_ledger ascii vault

abbrev removal : SyncOperation
removal = on_entity "o1" "a" "a-1" delete

abbrev after_removal : Ledger
after_removal = elim (apply_one author removal opened) [ ok L ↦ L | err e ↦ opened ]

removed : apply_one author removal opened ≡ ok after_removal
unfolding apply_one open_ledger gib_sync.Prelude.Dict.insert gib_sync.Server.Operations.Batch.remove
    lookup
removed = refl

apply_one-Round_example : Round author (resolve author removal opened) file opened after_removal
unfolding gib_sync.Server.Operations.Fence.alters target_kind
apply_one-Round_example = apply_one-Round author removal opened after_removal refl removed

-- The folder holds a note that the batch has just made and the move does not list; an identifier that
-- is no child stands in for it, and the move is accepted.
abbrev miscounted : OperationBatch
miscounted = record {
  batch_id = "batch";
  base_snapshot_id = none;
  operations =
      record {
        operation_id = "o1";
        target_id = "n";
        base_revision_id = none;
        action = create (text "notes/n.md") (record { hash = "h3"; size = 1; mtime = 900 });
      }
      ∷ on_entity "o2" "d" "d-1" (
          move_folder (text "archive") (
            record { target_id = "a"; base_revision_id = "a-1" }
            ∷ record { target_id = "nobody"; base_revision_id = "none" }
            ∷ []))
      ∷ [];
}

abbrev is_accepted : Result Conflict PlannedOperations → Bool
is_accepted (ok planned) = true
is_accepted (err e) = false

unlisted_child : is_accepted (apply_operations author vault miscounted) ≡ true
unfolding apply_operations gib_sync.Prelude.Dict.insert
    gib_sync.Server.Operations.Apply.create_entity lookup gib_sync.Prelude.Text.text_beq
    gib_sync.Server.Operations.Ledger.set_entity gib_sync.Server.Operations.Batch.move_folder_to
    gib_sync.Prelude.Text.starts_with gib_sync.Server.Paths.ancestors gib_sync.Prelude.Text.split
    gib_sync.Prelude.Text.join gib_sync.Prelude.Dict.erase
    gib_sync.Server.Manifest.canonical_manifest gib_sync.Server.Paths.safe_relative_path
    gib_sync.Prelude.Sorting.sort gib_sync.Prelude.Text.text_leb gib_sync.Server.Paths.folder_paths
unlisted_child = refl

apply_operations-IsTree_example : IsTree ascii outcome.entities
apply_operations-IsTree_example = apply_operations-IsTree author vault reorganize accepted
