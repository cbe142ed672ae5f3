-- ===== src/Server/Operations/Ledger.antt =====
-- apps/server/src/operation-state.ts: the entities of a vault, and the maps by which
-- `applyOperations` finds them by path.
use gib_sync.Prelude.{
  option_eq, bool_eq, ℕ, String, Bool, ◌&&◌, ◌||◌, not, Option, none, some, List, [], ◌∷◌, ◌++◌,
  contains, keep, ltb, if◌then◌else◌, ◌==◌, nat_eq, string_eq,
}
use gib_sync.Prelude.Text.{Text, text_eq}
use gib_sync.Prelude.Dict.{Dict, lookup, insert, erase, values}
use gib_sync.Protocol.Host.{Host, portable}
use gib_sync.Protocol.Model.{FileRevision}
use gib_sync.Protocol.Operations.{EntityKind, SyncOperation}
use gib_sync.Server.Paths.{ancestors}

pub record SyncEntity : Type 0 where
  pub id : String
  pub kind : EntityKind
  pub path : Text
  pub hash : Option String
  pub size : ℕ
  pub mtime : ℕ
  pub revision : FileRevision
  pub deleted : Bool
  pub sequence : ℕ
  pub ordinal : Option ℕ

abbrev pub ordinal_of : SyncEntity → ℕ
ordinal_of e = elim e.ordinal [ none ↦ 0 | some n ↦ n ]

pub record OperationResult : Type 0 where
  pub operation : SyncOperation
  pub revision : FileRevision

-- The live entity at a portable path, and the live entities below an exact path.
pub record PathIndex : Type 0 where
  pub paths : Dict Text String
  pub descendant_ids : Dict Text (List String)

pub record Ledger : Type 0 where
  pub entities : Dict String SyncEntity
  pub index : PathIndex
  pub latest_tombstones : Dict Text SyncEntity
  pub results : List OperationResult
  pub result_by_id : Dict String OperationResult
  pub ids : List String

abbrev ids_or_empty : Option (List String) → List String
ids_or_empty none = []
ids_or_empty (some s) = s

abbrev pub children_of : Text → PathIndex → List String
children_of path ix = ids_or_empty (lookup path ix.descendant_ids)

add_child : String → List Text → Dict Text (List String) → Dict Text (List String)
add_child id [] d = d
add_child id (parent ∷ parents) d =
    let children = ids_or_empty (lookup parent d) in
    add_child id parents
      (insert parent (if contains children id then children else children ++ (id ∷ [])) d)

-- A set that becomes empty is taken out.
abbrev without_child :
    String → Text → List String → Dict Text (List String) → Dict Text (List String)
without_child id parent [] d = erase parent d
without_child id parent (c ∷ cs) d = insert parent (c ∷ cs) d

remove_child : String → List Text → Dict Text (List String) → Dict Text (List String)
remove_child id [] d = d
remove_child id (parent ∷ parents) d =
    let children = keep (λ c. not (c == id)) (ids_or_empty (lookup parent d)) in
    remove_child id parents (without_child id parent children d)

unfoldable pub by_id : List SyncEntity → Dict String SyncEntity → Dict String SyncEntity
by_id [] d = d
by_id (e ∷ es) d = by_id es (insert e.id e d)

module _ (H : Host) where
  unfoldable pub index_add : SyncEntity → PathIndex → PathIndex
  unfolding add_child
  index_add e ix = if e.deleted then ix else record {
    paths = insert (portable H e.path) e.id ix.paths;
    descendant_ids = add_child e.id (ancestors e.path) ix.descendant_ids;
  }

  -- The key stays if another entity has taken it.
  unfoldable pub index_remove : SyncEntity → PathIndex → PathIndex
  unfolding remove_child
  index_remove e ix =
      let key = portable H e.path in
      if e.deleted then ix else record {
        paths = if lookup key ix.paths == some e.id then erase key ix.paths else ix.paths;
        descendant_ids = remove_child e.id (ancestors e.path) ix.descendant_ids;
      }

  abbrev is_later : SyncEntity → SyncEntity → Bool
  is_later e prior =
      ltb prior.sequence e.sequence
      || (e.sequence == prior.sequence && ltb (ordinal_of prior) (ordinal_of e))

  unfoldable pub remember_deletion : SyncEntity → Dict Text SyncEntity → Dict Text SyncEntity
  remember_deletion e tombstones =
      let key = portable H e.path in
      elim (lookup key tombstones) [
        | none ↦ insert key e tombstones
        | some prior ↦ if is_later e prior then insert key e tombstones else tombstones
      ]

  -- A new entity, or one that changes its place or its life, is indexed anew.
  reindex : Option SyncEntity → SyncEntity → PathIndex → PathIndex
  reindex none e ix = index_add e ix
  reindex (some old) e ix =
      if not (old.deleted == e.deleted) || not (old.path == e.path)
      then index_add e (index_remove old ix)
      else ix

  unfoldable pub set_entity : SyncEntity → Ledger → Ledger
  unfolding reindex index_add index_remove
  set_entity e L = record L {
    entities = insert e.id e L.entities;
    index = reindex (lookup e.id L.entities) e L.index;
  }

  abbrev found_unless : Option String → Dict String SyncEntity → Option String → Option SyncEntity
  found_unless except entities none = none
  found_unless except entities (some id) =
      if id == "" || some id == except then none else lookup id entities

  -- The live entity at a path, unless it is the one that may be there.
  unfoldable pub occupied : Text → Option String → Ledger → Option SyncEntity
  occupied path except L = found_unless except L.entities (lookup (portable H path) L.index.paths)

  unfoldable pub start_with : List SyncEntity → Ledger → Ledger
  start_with [] L = L
  start_with (e ∷ es) L = start_with es (record L {
    index = index_add e L.index;
    latest_tombstones =
        if e.deleted then remember_deletion e L.latest_tombstones else L.latest_tombstones;
  })

  -- The maps at the start of `applyOperations`.
  unfoldable pub open_ledger : List SyncEntity → Ledger
  unfolding start_with index_add remember_deletion by_id
  open_ledger previous =
      let entities = by_id previous [] in
      start_with (values entities) (record {
        entities = entities;
        index = record { paths = []; descendant_ids = [] };
        latest_tombstones = [];
        results = [];
        result_by_id = [];
        ids = [];
      })
