-- ===== src/Protocol/Reconcile.antt =====
-- packages/protocol/src/operations.ts: the decision that plugin and server share on each path,
-- from the common base and the two present versions.
pub mod Decision
pub mod Plan
pub mod Tests
use gib_sync.Prelude.{
  ℕ, Bool, true, false, ◌&&◌, ◌||◌, not, Option, none, some, List, [], ◌∷◌, ◌++◌, map, is_some,
  if◌then◌else◌, ◌==◌, nat_eq, string_eq, option_eq, contains,
}
use gib_sync.Prelude.Text.{Text, text, text_eq, starts_with, ends_with, replace_unit, text_leb}
use gib_sync.Prelude.Dict.{Dict, lookup, insert, keys}
use gib_sync.Prelude.Sorting.{sort}
use gib_sync.Protocol.Host.{Host}
use gib_sync.Protocol.Model.{ManifestEntry, given}
use gib_sync.Protocol.Cooperative.{sort_cooperative}

pub data ReconcileKind : Type 0 where
  unchanged equal local_only remote_only concurrent_edit edit_delete independent_create :
      ReconcileKind

pub data ReconcileStrategy : Type 0 where
  as_text json_settings whole_file : ReconcileStrategy

unfoldable pub reconciliation_strategy : Host → Text → ReconcileStrategy
reconciliation_strategy H path =
    let normalized = H.lower (replace_unit 0x5c b'/' path) in
    if starts_with normalized (text ".obsidian/")
    then (if ends_with normalized (text ".json") then json_settings else whole_file)
    else as_text

pub record ReconcileDecision : Type 0 where
  pub path : Text
  pub kind : ReconcileKind
  pub strategy : ReconcileStrategy
  pub base : Option ManifestEntry
  pub local : Option ManifestEntry
  pub remote : Option ManifestEntry

-- The same bytes, and no evidence of two identities. Two missing entries are the same.
abbrev pub same_entry : ManifestEntry → ManifestEntry → Bool
same_entry a b =
    a.hash == b.hash
    && a.size == b.size
    && (not (given a.file_id) || not (given b.file_id) || a.file_id == b.file_id)

unfoldable pub same : Option ManifestEntry → Option ManifestEntry → Bool
same none none = true
same none (some b) = false
same (some a) none = false
same (some a) (some b) = same_entry a b

-- Both entries carry an identity, and not the same one.
unfoldable pub recreated : Option ManifestEntry → Option ManifestEntry → Bool
recreated none side = false
recreated (some b) none = false
recreated (some b) (some s) = given b.file_id && given s.file_id && not (s.file_id == b.file_id)

unfoldable pub decide_kind :
    Option ManifestEntry → Option ManifestEntry → Option ManifestEntry → ReconcileKind
decide_kind base local remote =
    let local_recreated = recreated base local in
    let remote_recreated = recreated base remote in
    if local_recreated || remote_recreated
    then (if same local remote
        then equal
        else if local_recreated
            && not remote_recreated
            && (not (is_some remote) || same base remote)
        then local_only
        else if remote_recreated && not local_recreated && (not (is_some local) || same base local)
        then remote_only
        else independent_create)
    else if same local remote
    then (if same base local then unchanged else equal)
    else if same base local
    then remote_only
    else if same base remote
    then local_only
    else if not (is_some base)
    then (if is_some local && is_some remote
        then independent_create
        else if is_some local
        then local_only
        else remote_only)
    else if not (is_some local) || not (is_some remote)
    then edit_delete
    else if recreated base local || recreated base remote
    then independent_create
    else concurrent_edit

abbrev pub decide_reconciliation :
    Host
    → Text
    → Option ManifestEntry
    → Option ManifestEntry
    → Option ManifestEntry
    → ReconcileDecision
decide_reconciliation H path base local remote = record {
  path = path;
  kind = decide_kind base local remote;
  strategy = reconciliation_strategy H path;
  base = base;
  local = local;
  remote = remote;
}

pub record ReconciliationInput : Type 0 where
  pub base : List ManifestEntry
  pub local : List ManifestEntry
  pub remote : List ManifestEntry

-- `byPath` and a set of strings: `none` is the error "Duplicate reconciliation path".
abbrev has_path : Dict Text ManifestEntry → Text → Bool
has_path d path = is_some (lookup path d)

unfoldable pub by_path_onto :
    Dict Text ManifestEntry → List ManifestEntry → Option (Dict Text ManifestEntry)
by_path_onto result [] = some result
by_path_onto result (entry ∷ entries) =
    let rest = by_path_onto (insert entry.path entry result) entries in
    if has_path result entry.path then none else rest

abbrev pub by_path : List ManifestEntry → Option (Dict Text ManifestEntry)
by_path = by_path_onto []

-- `new Set(paths)`, in insertion order
unfoldable pub distinct_onto : List Text → List Text → List Text
distinct_onto seen [] = seen
distinct_onto seen (p ∷ ps) = distinct_onto (if contains seen p then seen else seen ++ (p ∷ [])) ps

abbrev pub distinct : List Text → List Text
distinct = distinct_onto []

abbrev pub decide_all :
    Host
    → Dict Text ManifestEntry
    → Dict Text ManifestEntry
    → Dict Text ManifestEntry
    → List Text
    → List ReconcileDecision
decide_all H base local remote = map (λ path.
    decide_reconciliation H path (lookup path base) (lookup path local) (lookup path remote))

infixl 5 ◌>>=◌
abbrev pub ◌>>=◌ {ℓ κ} : {A : Type ℓ} {B : Type κ} → Option A → (A → Option B) → Option B
none >>= f = none
some a >>= f = f a

unfoldable pub plan_reconciliation : Host → ReconciliationInput → Option (List ReconcileDecision)
plan_reconciliation H input = do
  base ← by_path input.base
  local ← by_path input.local
  remote ← by_path input.remote
  some (
      decide_all H base local remote
        (sort text_leb (distinct (keys base ++ (keys local ++ keys remote)))))

abbrev pub paths_of : List ManifestEntry → List Text
paths_of = map (λ entry. entry.path)

-- The set of paths is filled while the three maps are, and sorted by hand. `cooperate` only waits.
unfoldable pub plan_reconciliation_cooperative :
    Host → ReconciliationInput → Option (List ReconcileDecision)
plan_reconciliation_cooperative H input = do
  base ← by_path input.base
  local ← by_path input.local
  remote ← by_path input.remote
  some (
      decide_all H base local remote (
        sort_cooperative text_leb (
          distinct_onto (distinct_onto (distinct (paths_of input.base)) (paths_of input.local))
            (paths_of input.remote))))
