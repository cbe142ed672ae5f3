-- ===== src/Server/Operations/Fence.antt =====
-- apps/server/src/operation-state.ts: the fence of `applyOperations`, by which an operation is
-- accepted only on the revision that its author has seen.
use gib_sync.Prelude.{
  ◌≡◌, sym, subst, ap, Bool, true, false, some, List, ◌∷◌, arith, eq_iff, length, string_eq,
  contains, ◌+◌,
}
use gib_sync.Prelude.Text.{Text}
use gib_sync.Prelude.Dict.{lookup, lookup-insert}
use gib_sync.Prelude.Result.{ok, ◌>>=◌, >>=-eq-ok, ok-injective, refuse}
use gib_sync.Protocol.Operations.{
  Action, create, edit, move, delete, recreate, mkdir, rmdir, move_folder, SyncOperation,
  EntityKind, file, folder, Descendant,
}
use gib_sync.Server.Operations.Ledger.{SyncEntity, Ledger, OperationResult}
use gib_sync.Server.Operations.Apply.{
  Context, duplicate_operation, resolve, kind_is, expect_live, Effect, matches_base, revision_id,
  edit_file, put, next_revision,
}
use gib_sync.Server.Operations.Batch.{
  dispatch, conclude, apply_one, move_file, remove, move_folder_to, move_children, moved,
}
use gib_sync.Server.Operations.Identity.{Entities}
use gib_sync.Server.Operations.Identity.Folder.{passed}

-- The operations on an entity that is there, and the kind that they expect.
unfoldable pub alters : Action → Bool
alters (create path content) = false
alters (recreate new_id path content deleted_by) = false
alters (mkdir path new_id deleted_by) = false
alters _ = true

unfoldable pub target_kind : Action → EntityKind
target_kind (mkdir path new_id deleted_by) = folder
target_kind rmdir = folder
target_kind (move_folder path listed) = folder
target_kind _ = file

-- What holds where an operation on an entity is accepted: the entity lives, is of the kind, and has
-- the revision that was seen; what takes its place has that revision as its parent.
pub record Fenced (C : Context) (o : SyncOperation) (kind : EntityKind) (before : Entities)
    (placed : SyncEntity) : Type 0 where
  pub target : SyncEntity
  pub found : lookup o.target_id before ≡ some target
  pub alive : target.deleted ≡ false
  pub of_kind : kind_is target.kind kind ≡ true
  pub seen : matches_base C o target ≡ true
  pub same_id : placed.id ≡ target.id
  pub follows : placed.revision.parent_id ≡ some target.revision.id

module _ (C : Context) (o : SyncOperation) (L : Ledger) where
  expect_live-Fenced :
      (k : EntityKind) (e m : SyncEntity)
      → expect_live C k o L ≡ ok e
      → m.id ≡ e.id
      → m.revision.parent_id ≡ some e.revision.id
      → Fenced C o k L.entities m
  unfolding expect_live
  expect_live-Fenced k e m h same parent = record {
    target = e;
    found = ground arith;
    alive = ground arith;
    of_kind = ground arith;
    seen = ground arith;
    same_id = same;
    follows = parent;
  }

  -- Each of the branches puts one entity in the place of the one it has found.
  record Follows (e m : SyncEntity) : Type 0 where
    id : m.id ≡ e.id
    parent : m.revision.parent_id ≡ some e.revision.id

  branch-Fenced :
      (k : EntityKind) (f : SyncEntity → Effect C) (r : SyncEntity × Ledger)
      → ((e : SyncEntity) → f e ≡ ok r → Follows e r.0)
      → (expect_live C k o L >>= f) ≡ ok r
      → Fenced C o k L.entities r.0
  branch-Fenced k f r branch h =
      let (e, live, rest) = >>=-eq-ok (expect_live C k o L) f h in
      let follows = branch e rest in expect_live-Fenced k e r.0 live follows.id follows.parent

  moved-Follows :
      (e : SyncEntity) (path : Text) (listed : List Descendant) (r : SyncEntity × Ledger)
      → (move_children C o e path listed L >>= λ L'. put C (moved C o e path) L') ≡ ok r
      → Follows e r.0
  unfolding next_revision
  moved-Follows e path listed r h =
      let (L', loop, last) = >>=-eq-ok (move_children C o e path listed L) _ h in
      record {
        id = ap (λ x. x.0.id) (sym (ok-injective last));
        parent = ap (λ x. x.0.revision.parent_id) (sym (ok-injective last));
      }

  dispatch-Fenced :
      (a : Action) (r : SyncEntity × Ledger)
      → alters a ≡ true
      → dispatch C o L a ≡ ok r
      → Fenced C o (target_kind a) L.entities r.0
  unfolding alters target_kind dispatch edit_file move_file remove move_folder_to next_revision
  dispatch-Fenced (edit content) r h g =
      branch-Fenced file _ r (λ e x. record { id = ground arith; parent = ground arith }) g
  dispatch-Fenced (move path) r h g =
      branch-Fenced file _ r (λ e x. record { id = ground arith; parent = ground arith }) g
  dispatch-Fenced delete r h g =
      branch-Fenced file _ r (λ e x. record { id = ground arith; parent = ground arith }) g
  dispatch-Fenced rmdir r h g =
      branch-Fenced folder _ r (λ e x. record { id = ground arith; parent = ground arith }) g
  dispatch-Fenced (move_folder path listed) r h g =
      branch-Fenced folder _ r (λ e x. moved-Follows e path listed r (passed C o L e path _ r x)) g
  dispatch-Fenced (create path content) r h g = cc
  dispatch-Fenced (recreate new_id path content deleted_by) r h g = cc
  dispatch-Fenced (mkdir path new_id deleted_by) r h g = cc

resolve-action :
    (C : Context) (raw : SyncOperation) (L : Ledger) → (resolve C raw L).action ≡ raw.action
unfolding resolve
resolve-action C raw L = ground arith

conclude-placed :
    (C : Context) (o : SyncOperation) (e : SyncEntity) (L : Ledger)
    → lookup e.id (conclude C o e L).entities
      ≡ some (record e { ordinal = some (length L.results + 1) })
unfolding conclude
conclude-placed C o e L = ground (
  arith,
  lookup-insert e.id e.id (record e { ordinal = some (length L.results + 1) }) L.entities,
  eq_iff e.id e.id,
)

abbrev result_of : SyncOperation → SyncEntity → OperationResult
result_of o e = record { operation = o; revision = e.revision }

conclude-reported :
    (C : Context) (o : SyncOperation) (e : SyncEntity) (L : Ledger)
    → lookup o.operation_id (conclude C o e L).result_by_id ≡ some (result_of o e)
unfolding conclude
conclude-reported C o e L = ground (
  arith,
  lookup-insert o.operation_id o.operation_id (result_of o e) L.result_by_id,
  eq_iff o.operation_id o.operation_id,
)

-- An accepted round on an entity: what the fence demanded held of the entity before the round,
-- and after it the new state of that entity is stored and its revision is reported.
pub record Round (C : Context) (o : SyncOperation) (kind : EntityKind) (before after : Ledger)
    : Type 0 where
  left : SyncEntity
  fenced : Fenced C o kind before.entities left
  stored : revision_id (lookup left.id after.entities) ≡ some left.revision.id
  reported : lookup o.operation_id after.result_by_id ≡ some (result_of o left)

-- An edit, move, deletion, folder removal or folder move that is accepted was made on a live
-- entity of the expected kind and named the revision that the entity had then or had before the
-- batch. The revision left in the entity's place has the replaced revision as its parent, and
-- it is the one that the operation's result reports.
pub apply_one-Round :
    (C : Context) (raw : SyncOperation) (L L' : Ledger)
    → alters raw.action ≡ true
    → apply_one C raw L ≡ ok L'
    → Round C (resolve C raw L) (target_kind raw.action) L L'
unfolding apply_one
apply_one-Round C raw L L' h g =
    let o = resolve C raw L in
    let same = resolve-action C raw L in
    let opened : Ledger = record L { ids = o.operation_id ∷ L.ids } in
    let (u, new, rest) =
      >>=-eq-ok (refuse (contains L.ids o.operation_id) duplicate_operation) _ g in
    let (r, effect, last) = >>=-eq-ok (dispatch C o opened o.action) _ rest in
    let fenced : Fenced C o (target_kind raw.action) L.entities r.0 =
      dispatch-Fenced C o opened raw.action r h
        (subst (λ a. dispatch C o opened a ≡ ok r) same effect) in
    subst (Round C o (target_kind raw.action) L) (ok-injective last) (record {
      left = r.0;
      fenced = fenced;
      stored = ap revision_id (conclude-placed C o r.0 r.1);
      reported = conclude-reported C o r.0 r.1;
    })
