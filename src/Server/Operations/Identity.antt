-- ===== src/Server/Operations/Identity.antt =====
-- Identities under `applyOperations` (apps/server/src/operation-state.ts).
pub mod Folder
pub mod Batch
use gib_sync.Prelude.{
  ◌≡◌, refl, sym, subst, ◌∙◌, String, Bool, true, false, Option, none, some, List, [], ◌∷◌, ◌++◌,
  map, arith, All, eq_iff, is_some, Option-cases, inl, inr, some_of, length, if◌then◌else◌, ◌==◌,
  string_eq, ◌&&◌,
}
use gib_sync.Prelude.Text.{Text, slice_from}
use gib_sync.Prelude.Dict.{Dict, lookup, insert, values, lookup-insert}
use gib_sync.Prelude.Result.{Result, ok, err, ◌>>=◌, >>=-eq-ok, each, each-keeps}
use gib_sync.Protocol.Operations.{
  Action, create, edit, move, delete, recreate, mkdir, rmdir, move_folder, SyncOperation,
  EntityKind, file, folder, OperationContent, Descendant,
}
use gib_sync.Server.Operations.Ledger.{SyncEntity, Ledger, set_entity}
use gib_sync.Server.Operations.Apply.{
  Conflict, Context, Effect, next_revision, kind_is, expect_live, create_entity, return_file,
  return_folder, edit_file,
}
use gib_sync.Server.Operations.Batch.{
  move_file, move_child, move_folder_to, remove, dispatch, conclude, apply_one, entities_at,
}

abbrev pub Entities : Type 0
Entities = Dict String SyncEntity

abbrev pub dead : Option SyncEntity → Bool
dead none = false
dead (some e) = e.deleted

-- Every entity stands under its own identity.
abbrev pub Keyed : Entities → Type 0
Keyed d = (id : String) (e : SyncEntity) → lookup id d ≡ some e → e.id ≡ id

-- No identity is lost, and none that was deleted lives again.
pub record Extends (before after : Entities) : Type 0 where
  pub kept : (id : String) → is_some (lookup id before) ≡ true → is_some (lookup id after) ≡ true
  pub settled : (id : String) → dead (lookup id before) ≡ true → dead (lookup id after) ≡ true

pub Extends-refl : (d : Entities) → Extends d d
Extends-refl d = record { kept = λ id h. h; settled = λ id h. h }

pub Extends-trans : {a b c : Entities} → Extends a b → Extends b c → Extends a c
Extends-trans x y = record {
  kept = λ id h. y.kept id (x.kept id h);
  settled = λ id h. y.settled id (x.settled id h);
}

-- A write is an extension if it does not bring a deleted entity back.
pub insert-Extends :
    (d : Entities) (e : SyncEntity)
    → (dead (lookup e.id d) ≡ true → e.deleted ≡ true)
    → Extends d (insert e.id e d)
insert-Extends d e h = record {
  kept = λ id k. ground (arith, lookup-insert id e.id e d, eq_iff e.id id);
  settled = λ id k. ground (arith, lookup-insert id e.id e d, eq_iff e.id id);
}

pub insert-Keyed : (d : Entities) (e : SyncEntity) → Keyed d → Keyed (insert e.id e d)
insert-Keyed d e keyed id x h =
    ground (arith, lookup-insert id e.id e d, eq_iff e.id id, keyed id x)

-- What one operation does to the entities: `about` is the one that it leaves in its place.
pub record Step (before after : Entities) (about : SyncEntity) : Type 0 where
  pub extends : Extends before after
  pub keyed : Keyed after
  pub placed : lookup about.id after ≡ some about

pub set_entity-Step :
    (C : Context) (e : SyncEntity) (L : Ledger)
    → Keyed L.entities
    → (dead (lookup e.id L.entities) ≡ true → e.deleted ≡ true)
    → Step L.entities (set_entity C.host e L).entities e
unfolding set_entity
set_entity-Step C e L keyed h = record {
  extends = insert-Extends L.entities e h;
  keyed = insert-Keyed L.entities e keyed;
  placed = ground (arith, lookup-insert e.id e.id e L.entities, eq_iff e.id e.id);
}

-- A branch that succeeds has put one entity, and has not brought a deleted one back.
pub record Placed (C : Context) (L : Ledger) (r : SyncEntity × Ledger) : Type 0 where
  put : r.1 ≡ set_entity C.host r.0 L
  fits : dead (lookup r.0.id L.entities) ≡ true → r.0.deleted ≡ true

module _ (C : Context) (o : SyncOperation) (L : Ledger) where
  pub expect_live-found :
      (k : EntityKind) {e : SyncEntity}
      → expect_live C k o L ≡ ok e
      → (lookup o.target_id L.entities ≡ some e) × (e.deleted ≡ false)
  unfolding expect_live
  expect_live-found k h = ground arith

  pub create_entity-Placed :
      (k : EntityKind) (p : Text) (c : Option OperationContent) {r : SyncEntity × Ledger}
      → create_entity C o k p c L ≡ ok r
      → Placed C L r
  unfolding create_entity
  create_entity-Placed k p none h = ground arith
  create_entity-Placed k p (some c) h = ground arith

  pub return_folder-Placed :
      (new_id : String) (by : Option String) (p : Text) {r : SyncEntity × Ledger}
      → return_folder C o new_id by p L ≡ ok r
      → Placed C L r
  unfolding return_folder
  return_folder-Placed new_id by p h = ground arith

  pub return_file-Placed :
      (new_id : String) (p : Text) (c : OperationContent) (by : Option String)
      {r : SyncEntity × Ledger}
      → return_file C o new_id p c by L ≡ ok r
      → Placed C L r
  unfolding return_file
  return_file-Placed new_id p c by h = ground arith

  pub edit_file-Placed :
      (c : OperationContent) {r : SyncEntity × Ledger}
      → Keyed L.entities
      → edit_file C o c L ≡ ok r
      → Placed C L r
  unfolding edit_file
  edit_file-Placed c keyed h =
      let (e, live, rest) = >>=-eq-ok (expect_live C file o L) _ h in
      ground (arith, expect_live-found file live, keyed o.target_id e)

  pub move_file-Placed :
      (p : Text) {r : SyncEntity × Ledger}
      → Keyed L.entities
      → move_file C o p L ≡ ok r
      → Placed C L r
  unfolding move_file
  move_file-Placed p keyed h =
      let (e, live, rest) = >>=-eq-ok (expect_live C file o L) _ h in
      ground (arith, expect_live-found file live, keyed o.target_id e)

  pub remove-Placed :
      (k : EntityKind) {r : SyncEntity × Ledger}
      → Keyed L.entities
      → remove C o k L ≡ ok r
      → Placed C L r
  unfolding remove
  remove-Placed k keyed h =
      let (e, live, rest) = >>=-eq-ok (expect_live C k o L) _ h in
      ground (arith, expect_live-found k live, keyed o.target_id e)

  pub Placed-Step :
      (r : SyncEntity × Ledger) → Keyed L.entities → Placed C L r → Step L.entities r.1.entities r.0
  Placed-Step r keyed p =
      subst (λ L'. Step L.entities L'.entities r.0) (sym p.put)
        (set_entity-Step C r.0 L keyed p.fits)
