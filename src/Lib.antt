-- ===== src/Lib.antt =====
-- Gib-Sync keeps Obsidian vaults in step across devices. A plugin (plugin/src) plans and sends
-- operations, a server (apps/server/src) accepts them into an ordered history of identified files
-- and folders, and both share one policy (packages/protocol/src). This library models the parts
-- that decide what is accepted and what is kept.
--
-- Prelude: shared helpers. Lists, maps (`Dict`: the first entry of a key counts, as in a JavaScript
--   `Map` that is only read by key), texts as lists of UTF-16 units (`Text`), insertion sort as the
--   meaning of `Array.prototype.sort`, and code that throws (`Result`, with the loop `each`).
-- Protocol.Model, Protocol.Operations: the data of packages/protocol/src/index.ts and operations.ts.
-- Protocol.Host: what the runtime knows of Unicode (`toLowerCase`, `normalize`, `localeCompare`) is
--   a parameter.
-- Protocol.Reconcile: `decideReconciliation` as `decide_kind`, `planReconciliation` and
--   `planReconciliationCooperative` (packages/protocol/src/operations.ts). The handwritten bottom-up
--   merge sort of the latter is Protocol.Cooperative; its widths double, so as many rounds as there
--   are paths are enough. Waiting (`cooperate`) changes no state and is left out.
-- Protocol.TextMerge: `mergeText` (packages/protocol/src/text-merge.ts). Its module has the tokens and
--   `hunks`, Groups `components`, `scale` and `affectedLines`, Merge the selection and `mergeText`
--   itself. `diffArrays` of the package diff is a parameter, which may also give up; that it compares
--   rightly is the hypothesis `Compares`. Tokens, Hunks and Outcome hold the proofs.
-- Protocol.JsonMerge: `mergeJsonValues` (packages/protocol/src/json-merge.ts) on a data type of JSON
--   values. The depth that is left is its fuel: the source allows 101 levels and throws below them, and
--   so does the model. What is read of a number is an argument.
-- Protocol.Moves: `detectMoves` and `movedPrefix` (packages/protocol/src/index.ts). Laws holds the proof.
-- Server.Uploads: the resumable uploads of `ContentUploads` (apps/server/src/content-upload.ts). Leases has
--   `row`, `assertLease` and `exclusive`, Staging the files and `recover`, Expiry `cleanupExpired`,
--   Intake `begin` and `chunk`, Finish `complete`, Polling `startOrPoll`, `cancel` and `close`. A handler
--   runs on an explicit state that keeps what was written before a throw (Prelude.State); the clock,
--   the ids of `randomUUID`, the free space, the hash, the cipher, the key and the storage are
--   arguments. The pieces of the read stream are cut on fuel, the length of the file, of which each
--   takes at least one byte. Requests do not interleave within one handler. Laws, Invariant, Working,
--   Receiving, Finishing, Beginning, Serving, Stored, Recovered, Sealed and Refusals hold the proofs. A
--   process that stops anywhere and is started again is a step of Serving, on any files.
-- Server.FolderMigration: apps/server/src/folder-migration.ts. Its module has the snapshots and the signature
--   `unsafeLegacyFolderSeed`, Chain `currentChain`, whose loop runs on one round more than there are
--   snapshots, Plans the three plans, Repair `repairUnsafeLegacyFolderHeads`; Lineage, which follows one
--   folder along the ancestry, and Laws hold the proofs.
-- Server.Operations: `applyOperations` (apps/server/src/operation-state.ts). Ledger holds its maps
--   and their upkeep (`setEntity`, `index`, `rememberDeletion`, `occupied`), Apply the fences and the
--   operations that make or edit an entity, Batch the moves, the deletions, the loop over a batch and
--   the checks on the tree. A thrown `OperationConflict` is an `err`; SHA-256 (`stableUuid`) is a
--   parameter. Identity, Fence, Results and Tree hold the proofs.
-- Server.Manifest, Server.Paths: `canonicalManifest` (apps/server/src/manifest.ts),
--   `safeRelativePath` (apps/server/src/seafile.ts) and `folderPaths`, which the checks on the tree
--   call.
-- Server.Jobs: `DurableMirrorJobs` (apps/server/src/jobs.ts), each SQL statement as a function on
--   the table. `Event` and `replay` are the interleaving of several workers, each at its own time.
-- Server.Admission: `BinaryAdmission` (apps/server/src/admission.ts); the closure that `acquire`
--   returns is a lease that remembers whether it was called.
-- Server.Safeguards: `policyFor` and the device-local paths (apps/server/src/safeguards.ts), whose
--   patterns are regular expressions of Prelude.Regex, matched by derivatives. Assess has
--   `assessChanges`, with each ratio compared multiplied out; Laws holds the proof.
--   Review has `SafeguardService` on its tables, Review.Request the search of `propose` for a row that asks
--   for the same, and Review.Propose the rest of it; what the code compares
--   or hashes as JSON text is the data itself, and parsing a policy, SHA-256 and `randomUUID` are
--   arguments. Review.Repeated holds the proof.
-- Server.Reserved: apps/server/src/reserved-paths.ts, on lists of entities and of roots; Laws holds the
--   proof.
-- Server.Rollout: apps/server/src/reconciliation-rollout.ts. Its module has `legacyDecisionKinds` and
--   `causalDecisionKinds`, Comparison the `matched` of `observe`, Control the class on the rows of one
--   vault, with the calls of the operator in Control.Reviews. Witness, Plans, Control.Rows,
--   Control.Held and Control.Reached hold the proofs.
-- Server.Generation: apps/server/src/mirror-generation.ts, the marker of a complete mirror; the hash,
--   the sealing and the clock are arguments. Laws has a lemma on a marker that was just written.
-- Server.Canary: `CanaryScope` (apps/server/src/canary-scope.ts); the URL parser is an argument that
--   may refuse a text.
-- Server.Budget: `takeRequestBudget` (apps/server/src/request-budget.ts).
-- Server.Retirement, Server.Containment: `VaultRetirementService` (apps/server/src/vault-retirement.ts)
--   and `ContainmentService` (apps/server/src/containment.ts) on their tables; an error of a call
--   is the rollback of its transaction. `trim` is an argument there and in the two modules of
--   versions; it stands for `trim` of Prelude.Text, the white space of ECMAScript.
-- Server.Compatibility: `parseVersion`, `compareVersions` and `clientCompatibility`
--   (apps/server/src/compatibility.ts). Numbers in versions are exact, where the source rounds those
--   of more than 53 bits. Gate has the precedence of versions on its own, and the proof.
-- Plugin.Compatibility: `olderThan` and `staleServerReason` (plugin/src/server-compatibility.ts);
--   Laws compares them with the server's versions, on `trim` itself.
-- Plugin.BodyCache: `BodyCache` (plugin/src/body-cache.ts), its entries in the order of the `Map`.
-- Plugin.Recovery: `recoverSync` (plugin/src/sync-recovery.ts), by recursion on the delays that are
--   left, so it needs no fuel.
-- Protocol.ServerStatus: `ServerStatus` and the interfaces that it holds (packages/protocol/src/index.ts).
-- Plugin.Live, Plugin.Status: `LiveSyncStatus` (plugin/src/settings.ts) and what the plugin shows of it,
--   `deriveIndicatorState` (plugin/src/status.ts), in Status.Overview the facts and in Status.Quick the
--   quick view of plugin/src/status-overview.ts. Reading and printing a date are arguments; texts are
--   those of the source, with numbers printed by Prelude.Decimal. Status.Laws holds the proof.
-- Plugin.Settings: the settings of a device (plugin/src/settings.ts) and their defaults; Paths the tests of
--   a path and its canonical form, Sync `shouldSyncChangedPath`. The lower case of a text is an
--   argument; the patterns, which ignore the case of ASCII letters, are read on ASCII lower case. Laws
--   holds the proofs.
--
-- Numbers are natural: sizes, times in milliseconds and counters are never negative in the modelled
-- code, and where it subtracts, the definition says what happens at 0. Not modelled: HTTP routes,
-- SQLite access beyond the statements named above, Seafile, cryptography, the user interface and
-- release scripts, which are input and output; the remaining merge and planning code of the plugin.
pub mod Plugin
pub mod Prelude
pub mod Protocol
pub mod Server
