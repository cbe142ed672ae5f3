-- ===== src/Server/Operations/Results.antt =====
-- apps/server/src/operation-state.ts: the results of `applyOperations`, one for each operation.
use gib_sync.Prelude.{
  ◌≡◌, refl, sym, subst, ap, ◌∙◌, String, Bool, true, false, not, Option, none, some, List, [], ◌∷◌,
  ◌++◌, map, arith, Bool-cases, inl, inr, ◌==◌, string_eq, contains, ◌&&◌,
}
use mathlib.Core.List.{append_assoc, append-nil, map-append}
use gib_sync.Prelude.Text.{Text}
use gib_sync.Prelude.Dict.{values}
use gib_sync.Prelude.Result.{ok, ◌>>=◌, >>=-eq-ok, ok-injective, each, each-keeps_any, refuse}
use gib_sync.Protocol.Host.{Host}
use gib_sync.Protocol.Operations.{
  Action, create, edit, move, delete, recreate, mkdir, rmdir, move_folder, SyncOperation,
  OperationBatch, EntityKind, file, folder, OperationContent, Descendant,
}
use gib_sync.Server.Operations.Ledger.{
  SyncEntity, Ledger, OperationResult, set_entity, start_with, open_ledger, by_id, children_of,
}
use gib_sync.Server.Operations.Apply.{
  Conflict, Context, duplicate_operation, contents_changed, resolve, expect_live, Effect, edit_file,
  put, or_string, create_entity, return_file, return_folder,
}
use gib_sync.Server.Operations.Batch.{
  dispatch, conclude, apply_one, move_file, remove, move_folder_to, move_child, move_children,
  moved, entities_at, contents_differ, run_batch, apply_operations, check_tree, PlannedOperations,
}
use gib_sync.Server.Operations.Identity.Folder.{passed}

-- The branches write the entities and their index only.
record Framed (L L' : Ledger) : Type 0 where
  results : L'.results ≡ L.results
  ids : L'.ids ≡ L.ids

Framed-refl : (L : Ledger) → Framed L L
Framed-refl L = record { results = refl; ids = refl }

move_child-Framed :
    (C : Context) (o : SyncOperation) (old new : Text) (moving : List String) (first : Ledger)
    (e : SyncEntity) (L L' : Ledger)
    → Framed first L
    → move_child C o old new moving e L ≡ ok L'
    → Framed first L'
unfolding move_child set_entity
move_child-Framed C o old new moving first e L L' f h = record {
  results = ground (arith, f.results);
  ids = ground (arith, f.ids);
}

module _ (C : Context) (o : SyncOperation) (L : Ledger) where
  move_children-Framed :
      (e : SyncEntity) (path : Text) (listed : List Descendant) (L' : Ledger)
      → move_children C o e path listed L ≡ ok L'
      → Framed L L'
  unfolding move_children
  move_children-Framed e path listed L' h =
      let (ds, found, rest) = >>=-eq-ok (entities_at (children_of e.path L.index) L.entities) _ h in
      let (u, same, loop) =
        >>=-eq-ok (refuse (contents_differ C listed ds) contents_changed) _ rest in
      each-keeps_any (Framed L) (move_child C o e.path path (e.id ∷ map (λ d. d.id) ds))
        (move_child-Framed C o e.path path (e.id ∷ map (λ d. d.id) ds) L) ds L L' (Framed-refl L)
        loop

  moved-Framed :
      (e : SyncEntity) (path : Text) (listed : List Descendant) (r : SyncEntity × Ledger)
      → (move_children C o e path listed L >>= λ L'. put C (moved C o e path) L') ≡ ok r
      → Framed L r.1
  unfolding set_entity
  moved-Framed e path listed r h =
      let (L', loop, last) = >>=-eq-ok (move_children C o e path listed L) _ h in
      let f = move_children-Framed e path listed L' loop in
      subst (λ x. Framed L x.1) (ok-injective last) (record { results = f.results; ids = f.ids })

  branch-Framed :
      (k : EntityKind) (f : SyncEntity → Effect C) (r : SyncEntity × Ledger)
      → ((e : SyncEntity) → f e ≡ ok r → Framed L r.1)
      → (expect_live C k o L >>= f) ≡ ok r
      → Framed L r.1
  branch-Framed k f r branch h =
      let (e, live, rest) = >>=-eq-ok (expect_live C k o L) f h in branch e rest

  create_entity-Framed :
      (k : EntityKind) (p : Text) (c : Option OperationContent) (r : SyncEntity × Ledger)
      → create_entity C o k p c L ≡ ok r
      → Framed L r.1
  unfolding create_entity set_entity
  create_entity-Framed k p c r h = record { results = ground arith; ids = ground arith }

  return_folder-Framed :
      (new_id : String) (by : Option String) (p : Text) (r : SyncEntity × Ledger)
      → return_folder C o new_id by p L ≡ ok r
      → Framed L r.1
  unfolding return_folder set_entity
  return_folder-Framed new_id by p r h = record { results = ground arith; ids = ground arith }

  dispatch-Framed : (a : Action) (r : SyncEntity × Ledger) → dispatch C o L a ≡ ok r → Framed L r.1
  unfolding dispatch edit_file move_file remove move_folder_to set_entity return_file
  dispatch-Framed (edit content) r g =
      branch-Framed file _ r (λ e x. record { results = ground arith; ids = ground arith }) g
  dispatch-Framed (move path) r g =
      branch-Framed file _ r (λ e x. record { results = ground arith; ids = ground arith }) g
  dispatch-Framed delete r g =
      branch-Framed file _ r (λ e x. record { results = ground arith; ids = ground arith }) g
  dispatch-Framed rmdir r g =
      branch-Framed folder _ r (λ e x. record { results = ground arith; ids = ground arith }) g
  dispatch-Framed (move_folder path listed) r g =
      branch-Framed folder _ r (λ e x. moved-Framed e path listed r (passed C o L e path _ r x)) g
  dispatch-Framed (create path content) r g = create_entity-Framed file path (some content) r g
  dispatch-Framed (recreate new_id path content deleted_by) r g = record {
    results = ground arith;
    ids = ground arith;
  }
  dispatch-Framed (mkdir path new_id deleted_by) r g =
      elim (Bool-cases (or_string new_id "" == "")) [
        | inl new ↦ create_entity-Framed folder path none r (rw new at g)
        | inr old ↦ return_folder-Framed (or_string new_id "") deleted_by path r (rw old at g)
      ]

resolve-operation_id :
    (C : Context) (raw : SyncOperation) (L : Ledger)
    → (resolve C raw L).operation_id ≡ raw.operation_id
unfolding resolve
resolve-operation_id C raw L = ground arith

-- The operations that are reported, by their identifiers.
abbrev pub reported : List OperationResult → List String
reported = map (λ r. r.operation.operation_id)

abbrev pub requested_ids : List SyncOperation → List String
requested_ids = map (λ o. o.operation_id)

-- No identifier of the list comes twice or is among those seen before.
unfoldable pub all_new : List String → List String → Bool
all_new seen [] = true
all_new seen (id ∷ ids) = let rest = all_new (id ∷ seen) ids in not (contains seen id) && rest

-- What a round adds.
record Added (id : String) (L L' : Ledger) : Type 0 where
  new : contains L.ids id ≡ false
  ids : L'.ids ≡ id ∷ L.ids
  results : reported L'.results ≡ reported L.results ++ (id ∷ [])

conclude-Added :
    (C : Context) (o : SyncOperation) (e : SyncEntity) (L M : Ledger)
    → contains L.ids o.operation_id ≡ false
    → Framed (record L { ids = o.operation_id ∷ L.ids }) M
    → Added o.operation_id L (conclude C o e M)
unfolding conclude
conclude-Added C o e L M new f = record {
  new = new;
  ids = f.ids;
  results =
      map-append (λ r. r.operation.operation_id) M.results
        (record { operation = o; revision = e.revision } ∷ [])
      ∙ ap (λ rs. reported rs ++ (o.operation_id ∷ [])) f.results;
}

refuse-passed : (b : Bool) (e : Conflict) (u : Unit {0}) → refuse b e ≡ ok u → b ≡ false
refuse-passed b e u h = ground arith

apply_one-Added :
    (C : Context) (raw : SyncOperation) (L L' : Ledger)
    → apply_one C raw L ≡ ok L'
    → Added raw.operation_id L L'
unfolding apply_one
apply_one-Added C raw L L' g =
    let o = resolve C raw L in
    let opened : Ledger = record L { ids = o.operation_id ∷ L.ids } in
    let (u, new, rest) =
      >>=-eq-ok (refuse (contains L.ids o.operation_id) duplicate_operation) _ g in
    let (r, effect, last) = >>=-eq-ok (dispatch C o opened o.action) _ rest in
    subst (λ id. Added id L L') (resolve-operation_id C raw L)
      (subst (Added o.operation_id L) (ok-injective last) (
        conclude-Added C o r.0 L r.1 (refuse-passed _ duplicate_operation u new)
          (dispatch-Framed C o opened o.action r effect)))

each-Added :
    (C : Context) (operations : List SyncOperation) (L L' : Ledger)
    → each (apply_one C) operations L ≡ ok L'
    → (all_new L.ids (requested_ids operations) ≡ true)
      × (reported L'.results ≡ reported L.results ++ requested_ids operations)
unfolding each all_new
each-Added C [] L L' h = (
  refl,
  ap (λ M. reported M.results) (sym (ok-injective h)) ∙ sym (append-nil (reported L.results)),
)
each-Added C (o ∷ os) L L' h =
    let (M, first, rest) = >>=-eq-ok (apply_one C o L) (each (apply_one C) os) h in
    let added = apply_one-Added C o L M first in
    let (new, whole) = each-Added C os M L' rest in
    (
      ground (arith, added.new, added.ids, new),
      whole
          ∙ ap (λ rs. rs ++ requested_ids os) added.results
          ∙ append_assoc (reported L.results) (o.operation_id ∷ []) (requested_ids os),
    )

record Fresh (L : Ledger) : Type 0 where
  results : L.results ≡ []
  ids : L.ids ≡ []

start_with-Fresh :
    (H : Host) (es : List SyncEntity) (L : Ledger) → Fresh L → Fresh (start_with H es L)
unfolding start_with
start_with-Fresh H [] L fresh = fresh
start_with-Fresh H (e ∷ es) L fresh =
    start_with-Fresh H es _ (record { results = fresh.results; ids = fresh.ids })

open_ledger-Fresh : (H : Host) (previous : List SyncEntity) → Fresh (open_ledger H previous)
unfolding open_ledger
open_ledger-Fresh H previous =
    start_with-Fresh H (values (by_id previous [])) _ (record { results = refl; ids = refl })

run_batch-reported :
    (C : Context) (operations : List SyncOperation) (L : Ledger) (planned : PlannedOperations)
    → Fresh L
    → run_batch C operations L ≡ ok planned
    → (all_new [] (requested_ids operations) ≡ true)
      × (reported planned.results ≡ requested_ids operations)
unfolding run_batch
run_batch-reported C operations L planned fresh h =
    let (L', loop, rest) = >>=-eq-ok (each (apply_one C) operations L) _ h in
    let (u, checked, last) = >>=-eq-ok (check_tree C L'.entities) _ rest in
    let (new, whole) = each-Added C operations L L' loop in
    (
      subst (λ ids. all_new ids (requested_ids operations) ≡ true) fresh.ids new,
      ap (λ p. reported p.results) (sym (ok-injective last))
          ∙ whole
          ∙ ap (λ rs. reported rs ++ requested_ids operations) fresh.results,
    )

-- An accepted batch has no operation identifier twice, and its results are one for each
-- operation, in the batch's order.
pub apply_operations-reported :
    (C : Context) (previous : List SyncEntity) (batch : OperationBatch)
    (planned : PlannedOperations)
    → apply_operations C previous batch ≡ ok planned
    → (all_new [] (requested_ids batch.operations) ≡ true)
      × (reported planned.results ≡ requested_ids batch.operations)
unfolding apply_operations
apply_operations-reported C previous batch planned h =
    run_batch-reported (record C { batch_id = batch.batch_id; original = by_id previous [] })
      batch.operations (open_ledger C.host previous) planned (open_ledger-Fresh C.host previous) h
