-- ===== src/Server/Reserved/Laws.antt =====
-- apps/server/src/reserved-paths.ts: what `assertReservedState` lets through.
use gib_sync.Prelude.{
  ◌≡◌, refl, sym, ◌∙◌, ap, Bool, true, false, ◌&&◌, ◌||◌, not, Option, some, List, [], ◌∷◌, map,
  some_of, All, if◌then◌else◌, ◌==◌, arith,
}
use gib_sync.Prelude.Text.{Text, text_eq}
use gib_sync.Prelude.Dict.{Dict, lookup, insert, lookup-insert}
use gib_sync.Prelude.Result.{ok, guards-All}
use gib_sync.Protocol.Host.{Host}
use gib_sync.Server.Operations.Ledger.{SyncEntity}
use gib_sync.Server.Reserved.{
  is_reserved_sync_path, live_by_path, unchanged, holds, ReservedError, not_a_sync_target, intrudes,
  assert_reserved_state,
}

module _ (test : SyncEntity → Bool) (path : Text) where
  -- A live entity at the path, which passes the test.
  abbrev pub is_live_at : SyncEntity → Bool
  is_live_at old = not old.deleted && old.path == path && test old

  holds-if :
      (b : Bool) (e : SyncEntity) (o : Option SyncEntity)
      → holds test (if b then some e else o) ≡ (if b then test e else holds test o)
  holds-if true e o = refl
  holds-if false e o = refl

  holds-added :
      (gone : Bool) (e : SyncEntity) (baseline : Dict Text SyncEntity)
      → holds test (lookup path (if gone then baseline else insert e.path e baseline))
        ≡ (if not gone && e.path == path then test e else holds test (lookup path baseline))
  holds-added true e baseline = refl
  holds-added false e baseline =
      ap (holds test) (lookup-insert path e.path e baseline)
      ∙ holds-if (e.path == path) e (lookup path baseline)

  added_or_later :
      (gone same passes later known : Bool)
      → (later || (if not gone && same then passes else known)) ≡ true
      → ((if not gone && same && passes then true else later) || known) ≡ true
  added_or_later true same passes later known h = h
  added_or_later false true true later known h = refl
  added_or_later false true false later known h = ground arith
  added_or_later false false passes later known h = h

  -- What the map of the live entities has at a path comes from their list.
  holds-live_by_path :
      (es : List SyncEntity) (baseline : Dict Text SyncEntity)
      → holds test (lookup path (live_by_path es baseline)) ≡ true
      → (some_of is_live_at es || holds test (lookup path baseline)) ≡ true
  unfolding live_by_path
  holds-live_by_path [] baseline h = h
  holds-live_by_path (e ∷ es) baseline h =
      added_or_later e.deleted (e.path == path) (test e) (some_of is_live_at es) _ (
        ap (λ (b : Bool). some_of is_live_at es || b) (sym (holds-added e.deleted e baseline))
        ∙ holds-live_by_path es (if e.deleted then baseline else insert e.path e baseline) h)

let_through :
    (gone reserved kept found : Bool)
    → (kept ≡ true → (found || false) ≡ true)
    → (not gone && reserved && not kept) ≡ false
    → (gone || not reserved || found) ≡ true
let_through true reserved kept found known h = refl
let_through false false kept found known h = refl
let_through false true true found known h = ground (arith, known refl)
let_through false true false found known h = cc

module _ (H : Host) (aliases : List Text) (previous : List SyncEntity) where
  -- Deleted, not reserved, or as it was in the earlier state.
  abbrev pub stays_out : SyncEntity → Bool
  stays_out e =
      e.deleted
      || not (is_reserved_sync_path H e.path aliases)
      || some_of (is_live_at (unchanged e) e.path) previous

  admitted :
      (e : SyncEntity)
      → intrudes H aliases (live_by_path previous []) e ≡ false
      → stays_out e ≡ true
  unfolding lookup
  admitted e h =
      let_through e.deleted (is_reserved_sync_path H e.path aliases)
        (holds (unchanged e) (lookup e.path (live_by_path previous [])))
        (some_of (is_live_at (unchanged e) e.path) previous)
        (holds-live_by_path (unchanged e) e.path previous []) h

  map-All :
      (next : List SyncEntity)
      → All
          (λ (t : Bool × ReservedError). t.0 ≡ false)
          (map
            (λ (e : SyncEntity).
              (intrudes H aliases (live_by_path previous []) e, not_a_sync_target))
            next)
      → All (λ (e : SyncEntity). stays_out e ≡ true) next
  map-All [] h = tt
  map-All (e ∷ next) (h, hs) = (admitted e h, map-All next hs)

  -- In a state that the test accepts, each live entity at a reserved path was there before: the
  -- earlier state has a live entity of the same path, identity, kind, hash and size.
  pub assert_reserved_state-stays_out :
      (next : List SyncEntity)
      → assert_reserved_state H previous next aliases ≡ ok tt
      → All (λ (e : SyncEntity). stays_out e ≡ true) next
  unfolding assert_reserved_state
  assert_reserved_state-stays_out next h = map-All next (guards-All _ h)
