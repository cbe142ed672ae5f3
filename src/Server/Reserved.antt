-- ===== src/Server/Reserved.antt =====
-- apps/server/src/reserved-paths.ts: the paths that belong to Gib Sync itself, and the test that no
-- mutation brings anything there.
pub mod Laws
pub mod Tests
use gib_sync.Prelude.{
  ℕ, String, Bool, true, false, ◌&&◌, ◌||◌, not, Option, none, some, List, [], ◌∷◌, ◌++◌, map, keep,
  some_of, if◌then◌else◌, ◌==◌, nat_eq, string_eq, option_eq,
}
use gib_sync.Prelude.Text.{Text, text, text_eq, starts_with}
use gib_sync.Prelude.Dict.{Dict, lookup, insert}
use gib_sync.Prelude.Result.{Result, guards}
use gib_sync.Protocol.Host.{Host, portable}
use gib_sync.Protocol.Model.{ManifestEntry}
use gib_sync.Protocol.Operations.{EntityKind, file, folder}
use gib_sync.Server.Operations.Ledger.{SyncEntity}

-- The path itself, or one below it.
abbrev pub is_within : Text → Text → Bool
is_within own value = value == own || starts_with value (own ++ text "/")

abbrev pub own_plugin : Host → Text → Text
own_plugin H root = portable H root ++ text "/plugins/gib-sync"

unfoldable pub is_reserved_sync_path : Host → Text → List Text → Bool
unfolding starts_with
is_reserved_sync_path H path aliases =
    let value = portable H path in
    is_within (text ".gib-sync") value
    || some_of (λ (root : Text). is_within (own_plugin H root) value) (text ".obsidian" ∷ aliases)

-- The live entities by their paths.
unfoldable pub live_by_path : List SyncEntity → Dict Text SyncEntity → Dict Text SyncEntity
unfolding insert
live_by_path [] baseline = baseline
live_by_path (e ∷ es) baseline =
    live_by_path es (if e.deleted then baseline else insert e.path e baseline)

abbrev pub same_kind : EntityKind → EntityKind → Bool
same_kind file file = true
same_kind file folder = false
same_kind folder file = false
same_kind folder folder = true

abbrev pub unchanged : SyncEntity → SyncEntity → Bool
unchanged e old =
    old.id == e.id && same_kind old.kind e.kind && old.hash == e.hash && old.size == e.size

abbrev pub holds {ℓ} : {A : Type ℓ} → (A → Bool) → Option A → Bool
holds test none = false
holds test (some x) = test x

-- "Gib Sync's private state and own plugin files are not a sync target"
pub data ReservedError : Type 0 where
  not_a_sync_target : ReservedError

abbrev pub intrudes : Host → List Text → Dict Text SyncEntity → SyncEntity → Bool
intrudes H aliases baseline e =
    not e.deleted
    && is_reserved_sync_path H e.path aliases
    && not (holds (unchanged e) (lookup e.path baseline))

unfoldable pub assert_reserved_state :
    Host → (previous next : List SyncEntity) → List Text → Result ReservedError (Unit {0})
unfolding live_by_path is_reserved_sync_path lookup guards
assert_reserved_state H previous next aliases = guards (
    map (λ (e : SyncEntity). (intrudes H aliases (live_by_path previous []) e, not_a_sync_target))
      next)

unfoldable pub exclude_reserved_files : Host → List ManifestEntry → List Text → List ManifestEntry
unfolding is_reserved_sync_path
exclude_reserved_files H entries aliases =
    keep (λ (e : ManifestEntry). not (is_reserved_sync_path H e.path aliases)) entries
