-- ===== src/Server/Operations/Identity/Folder.antt =====
-- What a folder move does to the identities (apps/server/src/operation-state.ts, the branch
-- `move-folder` of `applyOperations`).
use gib_sync.Prelude.{
  ap, ◌≡◌, refl, sym, subst, ◌∙◌, String, false, some, List, [], ◌∷◌, ◌++◌, map, arith, All, eq_iff,
  is_some, Option-cases, inl, inr, length, string_eq,
}
use gib_sync.Prelude.Text.{Text, slice_from}
use gib_sync.Prelude.Dict.{lookup, insert, lookup-insert}
use gib_sync.Prelude.Result.{ok, ◌>>=◌, >>=-eq-ok, each-keeps}
use gib_sync.Protocol.Operations.{SyncOperation, file, folder, Descendant}
use gib_sync.Server.Operations.Ledger.{SyncEntity, Ledger, set_entity}
use gib_sync.Server.Operations.Apply.{Context, Effect, next_revision, kind_is, expect_live}
use gib_sync.Server.Operations.Batch.{move_child, move_folder_to, entities_at}
use gib_sync.Server.Operations.Identity.{
  Entities, dead, Keyed, Step, Extends, insert-Keyed, set_entity-Step, Extends-trans,
  expect_live-found,
}
use gib_sync.Prelude.Result.{◌>>◌, refuse, ok-injective}
use gib_sync.Prelude.Text.{starts_with, slash}
use gib_sync.Server.Operations.Apply.{inside_itself, contents_changed, put}
use gib_sync.Server.Operations.Ledger.{children_of}
use gib_sync.Server.Operations.Batch.{contents_differ, check_move, move_children, moved}

-- The children that a folder move finds, each under its own identity.
abbrev Stored : Entities → SyncEntity → Type 0
Stored d e = lookup e.id d ≡ some e

entities_at-Stored :
    (ids : List String) (d : Entities) {es : List SyncEntity}
    → Keyed d
    → entities_at ids d ≡ ok es
    → All (Stored d) es
unfolding entities_at
entities_at-Stored [] d keyed h = subst (All (Stored d)) (ok-injective h) tt
entities_at-Stored (id ∷ ids) d keyed h = elim (Option-cases (lookup id d)) [
  | inl e ↦ cc (rw (e, entities_at) at h)
  | inr (e, found) ↦
      let (es, rest, whole) = >>=-eq-ok (entities_at ids d) _ (rw (found, entities_at) at h) in
      subst (All (Stored d)) (ok-injective whole) (
        subst (λ k. lookup k d ≡ some e) (sym (keyed id e found)) found,
        entities_at-Stored ids d keyed rest,
      )
]

-- The loop over the children changes their places and revisions, and no life or identity.
record Frozen (before after : Entities) : Type 0 where
  kept : (id : String) → is_some (lookup id after) ≡ is_some (lookup id before)
  same_dead : (id : String) → dead (lookup id after) ≡ dead (lookup id before)
  keyed : Keyed after

insert-Frozen :
    (before now : Entities) (e m : SyncEntity)
    → Stored before e
    → Frozen before now
    → m.id ≡ e.id
    → m.deleted ≡ e.deleted
    → Frozen before (insert m.id m now)
insert-Frozen before now e m stored f same_id same_life = record {
  kept = λ id. ground (arith, lookup-insert id m.id m now, eq_iff m.id id, f.kept id);
  same_dead = λ id. ground (arith, lookup-insert id m.id m now, eq_iff m.id id, f.same_dead id);
  keyed = insert-Keyed now m f.keyed;
}

move_child-put :
    (C : Context) (o : SyncOperation) (old new : Text) (moving : List String) (e : SyncEntity)
    (L : Ledger) {L' : Ledger}
    → move_child C o old new moving e L ≡ ok L'
    → (m : SyncEntity) × (L' ≡ set_entity C.host m L) × (m.id ≡ e.id) × (m.deleted ≡ e.deleted)
unfolding move_child
move_child-put C o old new moving e L h = (
  record e {
    path = new ++ slice_from (length old) e.path;
    revision = next_revision C o e (kind_is e.kind file);
    sequence = C.sequence;
  },
  ground arith,
  refl,
  refl,
)

move_child-Frozen :
    (C : Context) (o : SyncOperation) (old new : Text) (moving : List String) (before : Entities)
    (e : SyncEntity) (L L' : Ledger)
    → Stored before e
    → Frozen before L.entities
    → move_child C o old new moving e L ≡ ok L'
    → Frozen before L'.entities
unfolding set_entity
move_child-Frozen C o old new moving before e L L' stored f h =
    let (m, put, same_id, same_life) = move_child-put C o old new moving e L h in
    subst (λ K. Frozen before K.entities) (sym put)
      (insert-Frozen before L.entities e m stored f same_id same_life)

Frozen-refl : (d : Entities) → Keyed d → Frozen d d
Frozen-refl d keyed = record { kept = λ id. refl; same_dead = λ id. refl; keyed = keyed }

Frozen-Extends : {before after : Entities} → Frozen before after → Extends before after
Frozen-Extends f = record { kept = λ id h. f.kept id ∙ h; settled = λ id h. f.same_dead id ∙ h }

module _ (C : Context) (o : SyncOperation) (L : Ledger) where
  move_children-Frozen :
      (e : SyncEntity) (path : Text) (listed : List Descendant) (L' : Ledger)
      → Keyed L.entities
      → move_children C o e path listed L ≡ ok L'
      → Frozen L.entities L'.entities
  unfolding move_children
  move_children-Frozen e path listed L' keyed h =
      let (ds, found, rest) = >>=-eq-ok (entities_at (children_of e.path L.index) L.entities) _ h in
      let (u, same, loop) =
        >>=-eq-ok (refuse (contents_differ C listed ds) contents_changed) _ rest in
      each-keeps (Stored L.entities) (λ K. Frozen L.entities K.entities)
        (move_child C o e.path path (e.id ∷ map (λ d. d.id) ds))
        (move_child-Frozen C o e.path path (e.id ∷ map (λ d. d.id) ds) L.entities) ds L L'
        (entities_at-Stored (children_of e.path L.index) L.entities keyed found)
        (Frozen-refl L.entities keyed) loop

  -- After the children, the folder itself.
  put_moved-Step :
      (e m : SyncEntity) (L' : Ledger)
      → lookup e.id L.entities ≡ some e
      → e.deleted ≡ false
      → m.id ≡ e.id
      → Frozen L.entities L'.entities
      → Step L.entities (set_entity C.host m L').entities m
  put_moved-Step e m L' found alive same f =
      let alive_now : dead (lookup m.id L'.entities) ≡ false =
        ap (λ k. dead (lookup k L'.entities)) same ∙ f.same_dead e.id ∙ ap dead found ∙ alive in
      let step = set_entity-Step C m L' f.keyed (λ h. cc) in
      record {
        extends = Extends-trans (Frozen-Extends f) step.extends;
        keyed = step.keyed;
        placed = step.placed;
      }

  placed_last :
      (e : SyncEntity) (path : Text) (listed : List Descendant) (r : SyncEntity × Ledger)
      → Keyed L.entities
      → lookup e.id L.entities ≡ some e
      → e.deleted ≡ false
      → (move_children C o e path listed L >>= λ L'. put C (moved C o e path) L') ≡ ok r
      → Step L.entities r.1.entities r.0
  placed_last e path listed r keyed found alive h =
      let (L', loop, last) = >>=-eq-ok (move_children C o e path listed L) _ h in
      subst (λ x. Step L.entities x.1.entities x.0) (ok-injective last)
        (put_moved-Step e (moved C o e path) L' found alive refl
          (move_children-Frozen e path listed L' keyed loop))

  pub passed :
      (e : SyncEntity) (path : Text) (m : Effect C) (r : SyncEntity × Ledger)
      → (check_move C e path L
          >> (refuse (starts_with path (e.path ++ (slash ∷ []))) inside_itself >> m))
        ≡ ok r
      → m ≡ ok r
  passed e path m r h =
      let (u, free, rest) = >>=-eq-ok (check_move C e path L) _ h in
      let (v, outside, last) =
        >>=-eq-ok (refuse (starts_with path (e.path ++ (slash ∷ []))) inside_itself) _ rest in
      last

  pub move_folder_to-Step :
      (path : Text) (listed : List Descendant) (r : SyncEntity × Ledger)
      → Keyed L.entities
      → move_folder_to C o path listed L ≡ ok r
      → Step L.entities r.1.entities r.0
  unfolding move_folder_to
  move_folder_to-Step path listed r keyed h =
      let (e, alive, rest) = >>=-eq-ok (expect_live C folder o L) _ h in
      let found = expect_live-found C o L folder alive in
      placed_last e path listed r keyed
        (ap (λ k. lookup k L.entities) (keyed o.target_id e found.0) ∙ found.0) found.1
        (passed e path _ r rest)
