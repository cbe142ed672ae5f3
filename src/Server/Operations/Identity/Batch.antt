-- ===== src/Server/Operations/Identity/Batch.antt =====
-- A whole batch keeps the identities (apps/server/src/operation-state.ts, `applyOperations`).
use gib_sync.Prelude.{
  ◌+◌, ◌≡◌, refl, sym, subst, ap, ◌∙◌, String, Bool, true, none, some, List, [], ◌∷◌, arith, eq_iff,
  not, Option-cases, Bool-cases, inl, inr, some_of, length, ◌==◌, string_eq, ◌&&◌, ◌||◌, contains,
}
use gib_sync.Prelude.Dict.{lookup, insert, values}
use gib_sync.Prelude.Result.{ok, >>=-eq-ok, ok-injective, each, each-keeps_any, refuse}
use gib_sync.Protocol.Host.{Host}
use gib_sync.Protocol.Operations.{
  Action, create, edit, move, delete, recreate, mkdir, rmdir, move_folder, SyncOperation,
  OperationBatch, file, folder,
}
use gib_sync.Server.Operations.Ledger.{SyncEntity, Ledger, start_with, open_ledger, by_id}
use gib_sync.Server.Operations.Apply.{Context, duplicate_operation, resolve, or_string}
use gib_sync.Server.Operations.Batch.{
  dispatch, conclude, apply_one, run_batch, check_tree, apply_operations, PlannedOperations,
}
use gib_sync.Server.Operations.Identity.{
  Entities, dead, Keyed, Step, Extends, Extends-refl, Extends-trans, insert-Extends, insert-Keyed,
  Placed-Step, create_entity-Placed, return_folder-Placed, return_file-Placed, edit_file-Placed,
  move_file-Placed, remove-Placed,
}
use gib_sync.Server.Operations.Identity.Folder.{move_folder_to-Step}

[]-Keyed : Keyed []
unfolding lookup
[]-Keyed id e h = cc

by_id-Keyed : (es : List SyncEntity) (d : Entities) → Keyed d → Keyed (by_id es d)
unfolding by_id
by_id-Keyed [] d keyed = keyed
by_id-Keyed (e ∷ es) d keyed = by_id-Keyed es (insert e.id e d) (insert-Keyed d e keyed)

start_with-entities :
    (H : Host) (es : List SyncEntity) (L : Ledger) → (start_with H es L).entities ≡ L.entities
unfolding start_with
start_with-entities H [] L = refl
start_with-entities H (e ∷ es) L = start_with-entities H es _

open_ledger-entities : (H : Host) (es : List SyncEntity) → (open_ledger H es).entities ≡ by_id es []
unfolding open_ledger
open_ledger-entities H es = start_with-entities H (values (by_id es [])) _

values-some_of :
    (p : SyncEntity → Bool) (id : String) (d : Entities) {e : SyncEntity}
    → lookup id d ≡ some e
    → p e ≡ true
    → some_of p (values d) ≡ true
unfolding lookup
values-some_of p id [] h q = cc
values-some_of p id (x ∷ d) {e = e} h q = ground (arith, values-some_of p id d {e = e})

module _ (C : Context) (o : SyncOperation) (L : Ledger) where
  dispatch-Step :
      (a : Action) (r : SyncEntity × Ledger)
      → Keyed L.entities
      → dispatch C o L a ≡ ok r
      → Step L.entities r.1.entities r.0
  unfolding dispatch
  dispatch-Step (create path content) r keyed h =
      Placed-Step C o L r keyed (create_entity-Placed C o L file path (some content) h)
  dispatch-Step (edit content) r keyed h =
      Placed-Step C o L r keyed (edit_file-Placed C o L content keyed h)
  dispatch-Step (move path) r keyed h =
      Placed-Step C o L r keyed (move_file-Placed C o L path keyed h)
  dispatch-Step delete r keyed h = Placed-Step C o L r keyed (remove-Placed C o L file keyed h)
  dispatch-Step (recreate new_id path content deleted_by) r keyed h =
      Placed-Step C o L r keyed (return_file-Placed C o L new_id path content deleted_by h)
  dispatch-Step (mkdir path new_id deleted_by) r keyed h =
      Placed-Step C o L r keyed (elim (Bool-cases (or_string new_id "" == "")) [
        | inl new ↦ create_entity-Placed C o L folder path none (rw new at h)
        | inr old ↦ return_folder-Placed C o L (or_string new_id "") deleted_by path (rw old at h)
      ])
  dispatch-Step rmdir r keyed h = Placed-Step C o L r keyed (remove-Placed C o L folder keyed h)
  dispatch-Step (move_folder path listed) r keyed h =
      move_folder_to-Step C o L path listed r keyed h

  -- The end of a round numbers an entity that is there already.
  conclude-Extends :
      (e : SyncEntity) (before : Entities)
      → Step before L.entities e
      → Extends before (conclude C o e L).entities × Keyed (conclude C o e L).entities
  unfolding conclude
  conclude-Extends e before step =
      let e' : SyncEntity = record e { ordinal = some (length L.results + 1) } in
      (
        Extends-trans step.extends
            (insert-Extends L.entities e' (λ h. ap dead (sym step.placed) ∙ h)),
        insert-Keyed L.entities e' step.keyed,
      )

Reached : Entities → Ledger → Type 0
Reached before L = Extends before L.entities × Keyed L.entities

apply_one-Reached :
    (C : Context) (before : Entities) (raw : SyncOperation) (L L' : Ledger)
    → Reached before L
    → apply_one C raw L ≡ ok L'
    → Reached before L'
unfolding Reached apply_one
apply_one-Reached C before raw L L' reached h =
    let o = resolve C raw L in
    let opened : Ledger = record L { ids = o.operation_id ∷ L.ids } in
    let (u, new, rest) =
      >>=-eq-ok (refuse (contains L.ids o.operation_id) duplicate_operation) _ h in
    let (r, effect, last) = >>=-eq-ok (dispatch C o opened o.action) _ rest in
    let (extends, keyed) =
      conclude-Extends C o r.1 r.0 L.entities
        (dispatch-Step C o opened o.action r reached.1 effect) in
    subst (Reached before) (ok-injective last) (Extends-trans reached.0 extends, keyed)

-- The entity of the same identity is still there, and deleted if it was.
abbrev survives : SyncEntity → List SyncEntity → Bool
survives e = some_of (λ x. x.id == e.id && (not e.deleted || x.deleted))

unfoldable pub Survives : SyncEntity → List SyncEntity → Type 0
Survives e planned = survives e planned ≡ true

Reached-Survives :
    (before : Entities) (L : Ledger) (id : String) (e : SyncEntity)
    → Reached before L
    → lookup id before ≡ some e
    → e.id ≡ id
    → Survives e (values L.entities)
unfolding Survives Reached
Reached-Survives before L id e reached found same = elim (Option-cases (lookup id L.entities)) [
  | inl gone ↦ ground (arith, reached.0.kept id)
  | inr (x, now) ↦
      values-some_of (λ x. x.id == e.id && (not e.deleted || x.deleted)) id L.entities now
        (ground (arith, reached.0.settled id, reached.1 id x now, eq_iff x.id e.id))
]

run_batch-Reached :
    (C : Context) (operations : List SyncOperation) (L : Ledger) (before : Entities)
    (planned : PlannedOperations)
    → Reached before L
    → run_batch C operations L ≡ ok planned
    → (L' : Ledger) × Reached before L' × (planned.entities ≡ values L'.entities)
unfolding run_batch
run_batch-Reached C operations L before planned reached h =
    let (L', loop, rest) = >>=-eq-ok (each (apply_one C) operations L) _ h in
    let (u, checked, last) = >>=-eq-ok (check_tree C L'.entities) _ rest in
    (
      L',
      each-keeps_any (Reached before) (apply_one C) (apply_one-Reached C before) operations L L'
          reached loop,
      ap (λ p. p.entities) (sym (ok-injective last)),
    )

-- An accepted batch loses no entity: for each that the vault had, one of the same identity is
-- planned, and it is deleted if the vault's was.
pub apply_operations-Survives :
    (C : Context) (previous : List SyncEntity) (batch : OperationBatch)
    (planned : PlannedOperations) (id : String) (e : SyncEntity)
    → apply_operations C previous batch ≡ ok planned
    → lookup id (by_id previous []) ≡ some e
    → Survives e planned.entities
unfolding apply_operations Reached
apply_operations-Survives C previous batch planned id e h found =
    let before = by_id previous [] in
    let keyed = by_id-Keyed previous [] []-Keyed in
    let start : Reached before (open_ledger C.host previous) =
      subst (λ d. Extends before d × Keyed d) (sym (open_ledger-entities C.host previous))
        (Extends-refl before, keyed) in
    let (L', reached, same) =
      run_batch-Reached (record C { batch_id = batch.batch_id; original = before }) batch.operations
        (open_ledger C.host previous) before planned start h in
    subst (Survives e) (sym same) (Reached-Survives before L' id e reached found (keyed id e found))
