-- ===== src/Server/Rollout.antt =====
-- apps/server/src/reconciliation-rollout.ts: the two witnesses that the shared policy is compared
-- with. Control has the state machine that holds or promotes a vault by these comparisons.
pub mod Witness
pub mod Plans
pub mod Comparison
pub mod Control
pub mod Tests
use gib_sync.Prelude.{
  Bool, true, false, ◌&&◌, ◌||◌, not, Option, none, some, List, [], ◌∷◌, ◌++◌, map, is_some,
  if◌then◌else◌, ◌==◌, nat_eq, string_eq,
}
use gib_sync.Prelude.Text.{Text, text_eq, text_leb}
use gib_sync.Prelude.Dict.{Dict, lookup, keys}
use gib_sync.Prelude.Sorting.{sort}
use gib_sync.Protocol.Model.{ManifestEntry}
use gib_sync.Protocol.Moves.{index_by_path}
use gib_sync.Protocol.Reconcile.{
  ReconcileKind, unchanged, equal, local_only, remote_only, concurrent_edit, edit_delete,
  independent_create, same, recreated, ReconciliationInput, distinct,
}

pub record PathKind : Type 0 where
  pub path : Text
  pub kind : ReconcileKind

-- The same hash and the same size, with two missing entries the same.
unfoldable pub same_bytes : Option ManifestEntry → Option ManifestEntry → Bool
same_bytes none none = true
same_bytes none (some b) = false
same_bytes (some a) none = false
same_bytes (some a) (some b) = a.hash == b.hash && a.size == b.size

unfoldable pub legacy_kind :
    Option ManifestEntry → Option ManifestEntry → Option ManifestEntry → ReconcileKind
legacy_kind base local remote =
    if same_bytes local remote
    then (if same_bytes base local then unchanged else equal)
    else if same_bytes base local
    then remote_only
    else if same_bytes base remote
    then local_only
    else if not (is_some base)
    then (if is_some local && is_some remote
        then independent_create
        else if is_some local
        then local_only
        else remote_only)
    else if not (is_some local) || not (is_some remote)
    then edit_delete
    else concurrent_edit

pub data SideState : Type 0 where
  absent_side unchanged_side replacement edited : SideState

-- `state`
unfoldable pub side_state : Option ManifestEntry → Option ManifestEntry → SideState
side_state base side =
    if not (is_some side)
    then absent_side
    else if same side base
    then unchanged_side
    else if recreated base side
    then replacement
    else edited

abbrev pub is_absent : SideState → Bool
is_absent absent_side = true
is_absent other = false

abbrev pub is_unchanged : SideState → Bool
is_unchanged unchanged_side = true
is_unchanged other = false

abbrev pub is_replacement : SideState → Bool
is_replacement replacement = true
is_replacement other = false

unfoldable pub causal_kind :
    Option ManifestEntry → Option ManifestEntry → Option ManifestEntry → ReconcileKind
unfolding side_state
causal_kind base local remote =
    let ls = side_state base local in
    let rs = side_state base remote in
    if same local remote
    then (if same base local then unchanged else equal)
    else if not (is_some base)
    then (if is_some local && is_some remote
        then independent_create
        else if is_some local
        then local_only
        else remote_only)
    else if is_unchanged ls
    then remote_only
    else if is_unchanged rs
    then local_only
    else if is_replacement ls || is_replacement rs
    then (if is_absent ls
        then remote_only
        else if is_absent rs
        then local_only
        else independent_create)
    else if is_absent ls || is_absent rs
    then edit_delete
    else concurrent_edit

-- One decision for each path of the three lists, in the order of the paths.
abbrev pub kinds_by :
    (Option ManifestEntry → Option ManifestEntry → Option ManifestEntry → ReconcileKind)
    → Dict Text ManifestEntry
    → Dict Text ManifestEntry
    → Dict Text ManifestEntry
    → List Text
    → List PathKind
kinds_by decide base local remote = map (λ path. record {
  path = path;
  kind = decide (lookup path base) (lookup path local) (lookup path remote);
})

abbrev pub decision_kinds :
    (Option ManifestEntry → Option ManifestEntry → Option ManifestEntry → ReconcileKind)
    → ReconciliationInput
    → List PathKind
decision_kinds decide input =
    let base = index_by_path input.base [] in
    let local = index_by_path input.local [] in
    let remote = index_by_path input.remote [] in
    kinds_by decide base local remote
      (sort text_leb (distinct (keys base ++ (keys local ++ keys remote))))

abbrev pub legacy_decision_kinds : ReconciliationInput → List PathKind
legacy_decision_kinds = decision_kinds legacy_kind

abbrev pub causal_decision_kinds : ReconciliationInput → List PathKind
causal_decision_kinds = decision_kinds causal_kind
