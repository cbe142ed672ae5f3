-- ===== src/Server/Operations/Tree.antt =====
-- The tree that `applyOperations` (apps/server/src/operation-state.ts) accepts.
use gib_sync.Prelude.{
  ◌≡◌, ap, subst, true, not, some, List, [], ◌∷◌, map, keep, some_of, contains, All, Bool-cases,
  inl, inr,
}
use gib_sync.Prelude.Text.{Text, text_eq}
use gib_sync.Prelude.Dict.{values}
use gib_sync.Prelude.Result.{Result, ok, err, >>=-eq-ok, ok-injective, each, refuse}
use gib_sync.Protocol.Host.{Host}
use gib_sync.Protocol.Model.{ManifestEntry}
use gib_sync.Protocol.Operations.{OperationBatch, SyncOperation, file, folder}
use gib_sync.Server.Paths.{folder_paths}
use gib_sync.Server.Manifest.{ManifestError, CanonicalManifest, canonical_manifest}
use gib_sync.Server.Manifest.Laws.{IsCanonical, canonical_manifest-IsCanonical}
use gib_sync.Server.Operations.Ledger.{SyncEntity, Ledger, open_ledger, by_id}
use gib_sync.Server.Operations.Apply.{Context, kind_is, undeclared_parent}
use gib_sync.Server.Operations.Batch.{
  manifest_entry, from_manifest, live, check_tree, apply_one, run_batch, PlannedOperations,
  apply_operations,
}

abbrev active : List SyncEntity → List SyncEntity
active = keep (λ e. not e.deleted)

abbrev pub live_files : List SyncEntity → List ManifestEntry
live_files es = map manifest_entry (keep (λ e. kind_is e.kind file) (active es))

abbrev pub live_folders : List SyncEntity → List Text
live_folders es = map (λ e. e.path) (keep (λ e. kind_is e.kind folder) (active es))

-- The live files are a canonical manifest, and the folders that they need are live folders.
pub record IsTree (H : Host) (es : List SyncEntity) : Type 0 where
  pub accepted : CanonicalManifest
  pub canonical : IsCanonical H (live_files es) accepted
  pub declared :
      All
        (λ p. contains (live_folders es) p ≡ true)
        (folder_paths (map (λ f. f.path) (live_files es)) (live_folders es))

from_manifest-ok :
    (r : Result ManifestError CanonicalManifest) {m : CanonicalManifest}
    → from_manifest r ≡ ok m
    → r ≡ ok m
from_manifest-ok (ok x) h = ap ok (ok-injective h)
from_manifest-ok (err e) h = cc

none_missing :
    (folders ps : List Text) {u : Unit {0}}
    → refuse (some_of (λ p. not (contains folders p)) ps) undeclared_parent ≡ ok u
    → All (λ p. contains folders p ≡ true) ps
none_missing folders [] h = tt
none_missing folders (p ∷ ps) h = elim (Bool-cases (contains folders p)) [
  | inl there ↦ (there, none_missing folders ps (rw there at h))
  | inr missing ↦ cc (rw missing at h)
]

check_tree-IsTree :
    (C : Context) (L : Ledger) {u : Unit {0}}
    → check_tree C L.entities ≡ ok u
    → IsTree C.host (values L.entities)
unfolding check_tree live
check_tree-IsTree C L h =
    let es = values L.entities in
    let (m, accepted, rest) =
      >>=-eq-ok (from_manifest (canonical_manifest C.host (live_files es) (some (live_folders es))))
        _ h in
    record {
      accepted = m;
      canonical = canonical_manifest-IsCanonical C.host (live_files es) (some (live_folders es)) (
          from_manifest-ok (canonical_manifest C.host (live_files es) (some (live_folders es)))
            accepted);
      declared = none_missing (live_folders es) _ rest;
    }

run_batch-IsTree :
    (C : Context) (operations : List SyncOperation) (L : Ledger) {planned : PlannedOperations}
    → run_batch C operations L ≡ ok planned
    → IsTree C.host planned.entities
unfolding run_batch
run_batch-IsTree C operations L h =
    let (L', loop, rest) = >>=-eq-ok (each (apply_one C) operations L) _ h in
    let (u, checked, last) = >>=-eq-ok (check_tree C L'.entities) _ rest in
    subst (λ p. IsTree C.host p.entities) (ok-injective last) (check_tree-IsTree C L' checked)

-- What an accepted batch leaves is a tree: each live file has a safe relative path, no two live
-- files differ only by case or Unicode normalization, and every path that `folderPaths` lists for
-- the live files and folders is that of a live folder.
pub apply_operations-IsTree :
    (C : Context) (previous : List SyncEntity) (batch : OperationBatch)
    {planned : PlannedOperations}
    → apply_operations C previous batch ≡ ok planned
    → IsTree C.host planned.entities
unfolding apply_operations
apply_operations-IsTree C previous batch h =
    run_batch-IsTree (record C { batch_id = batch.batch_id; original = by_id previous [] })
      batch.operations (open_ledger C.host previous) h
