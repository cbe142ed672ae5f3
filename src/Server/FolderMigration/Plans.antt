-- ===== src/Server/FolderMigration/Plans.antt =====
-- apps/server/src/folder-migration.ts: the three plans that undo an unsafe folder baseline.
use gib_sync.Prelude.{
  String, Bool, true, false, ◌&&◌, ◌||◌, not, Option, none, some, List, [], ◌∷◌, ◌++◌, map, keep,
  contains, every_of, ◌==◌, nat_eq, string_eq, option_eq, is_some, if◌then◌else◌,
}
use gib_sync.Prelude.Text.{Text, text_eq}
use gib_sync.Prelude.Dict.{Dict, lookup}
use gib_sync.Prelude.Result.{Result, ok, ◌>>=◌}
use gib_sync.Protocol.Host.{Host}
use gib_sync.Server.Paths.{add_all}
use gib_sync.Server.FolderMigration.{
  Snapshot, FolderRepairDirective, LegacyFolderRepairPlan, unsafe_legacy_folder_seed,
  trusted_device, folders_of, sorted, sorted_ids, last, list_beq,
}
use gib_sync.Server.FolderMigration.Chain.{AncestryError, current_chain}

-- What the loop over the chain knows: the folders that an unsafe seed introduced, those of them
-- that a real device made anew, the seeds, and the snapshot before.
pub record Provenance : Type 0 where
  pub tainted : List Text
  pub trusted_recreations : List Text
  pub origins : List Snapshot
  pub previous : Option Snapshot

abbrev pub no_provenance : Provenance
no_provenance = record { tainted = []; trusted_recreations = []; origins = []; previous = none }

-- The folders of `after` that `before` did not have and that are tainted.
abbrev pub recreated_folders : Provenance → List Text → List Text → List Text
recreated_folders p before after =
    keep (λ path. not (contains before path) && contains p.tainted path) after

abbrev pub note_recreations : Provenance → Snapshot → Option Snapshot → Provenance
note_recreations p s none = p
note_recreations p s (some before) =
    if is_some before.folders && is_some s.folders && trusted_device s
    then record p {
      trusted_recreations =
          add_all p.trusted_recreations (recreated_folders p (folders_of before) (folders_of s));
    }
    else p

abbrev pub taint : Provenance → Snapshot → Provenance
taint p s = record p {
  tainted = add_all p.tainted (folders_of s);
  origins = p.origins ++ (s ∷ []);
  previous = some s;
}

-- Where nothing is tainted yet, no path of `recreated_folders` is, as in the source's guard.
unfoldable pub trace : Host → Provenance → List Snapshot → Provenance
unfolding unsafe_legacy_folder_seed
trace H p [] = p
trace H p (s ∷ rest) =
    let next : Provenance =
      if unsafe_legacy_folder_seed H s p.previous
      then taint p s
      else record (note_recreations p s p.previous) { previous = some s } in
    trace H next rest

abbrev pub ids : List Snapshot → List String
ids snapshots = map (λ (s : Snapshot). s.id) snapshots

-- `createdAt` of the last of them in time
abbrev pub latest : List Snapshot → Option Text
latest snapshots = last (sorted (map (λ (s : Snapshot). s.created_at) snapshots))

abbrev pub is_empty_list {ℓ} : {A : Type ℓ} → List A → Bool
is_empty_list [] = true
is_empty_list (x ∷ xs) = false

-- The tainted folders that the head still has, and that no device has made anew.
unfoldable pub contaminated : Provenance → List Text → List Text
contaminated p head =
    sorted
      (keep (λ path. contains head path && not (contains p.trusted_recreations path)) p.tainted)

abbrev pub cleanup :
    (vault head_id : String)
    → List Snapshot
    → Provenance
    → (head bad : List Text) → LegacyFolderRepairPlan
cleanup vault head_id chain p head bad = record {
  vault_id = vault;
  head_id = head_id;
  origin_ids = ids p.origins;
  contaminated_folders = bad;
  desired_folders = sorted (keep (λ path. not (contains bad path)) head);
  current_folders = sorted head;
  observed_at = latest (keep (λ s. contains (ids p.origins) s.id) chain);
  issued_at = none;
}

abbrev pub plan_cleanup :
    (vault head_id : String)
    → List Snapshot
    → Provenance
    → Option (List Text)
    → Option LegacyFolderRepairPlan
plan_cleanup vault head_id chain p none = none
plan_cleanup vault head_id chain p (some head) =
    let bad = contaminated p head in
    if is_empty_list p.origins || is_empty_list bad
    then none
    else some (cleanup vault head_id chain p head bad)

abbrev pub head_folders : List Snapshot → Option (List Text)
head_folders chain = elim (last chain) [ none ↦ none | some head ↦ head.folders ]

unfoldable pub plan_legacy_folder_descendant_repair :
    Host
    → Dict String Snapshot
    → (vault head : String) → Result AncestryError (Option LegacyFolderRepairPlan)
unfolding current_chain trace contaminated
plan_legacy_folder_descendant_repair H store vault head =
    current_chain store vault head >>= λ chain.
    ok (plan_cleanup vault head chain (trace H no_provenance chain) (head_folders chain))

abbrev pub found : Option String → Dict String Snapshot → Option Snapshot
found none store = none
found (some id) store = if id == "" then none else lookup id store

-- A snapshot outside the accepted ancestry whose parent is inside.
abbrev pub side_branch : List String → Snapshot → Bool
side_branch accepted s = not (contains accepted s.id) && elim s.parent_id [
  | none ↦ false
  | some parent ↦ not (parent == "") && contains accepted parent
]

unfoldable pub rewound_seeds :
    Host → Dict String Snapshot → String → List String → Dict String Snapshot → List Snapshot
unfolding unsafe_legacy_folder_seed lookup
rewound_seeds H store vault accepted [] = []
rewound_seeds H store vault accepted ((id, s) ∷ rows) =
    let rest = rewound_seeds H store vault accepted rows in
    if s.vault_id == vault
      && side_branch accepted s
      && unsafe_legacy_folder_seed H s (found s.parent_id store)
    then s ∷ rest
    else rest

unfoldable pub all_folders : List Snapshot → List Text → List Text
all_folders [] set = set
all_folders (s ∷ rest) set = all_folders rest (add_all set (folders_of s))

abbrev pub retired_plan : (vault head : String) → List Snapshot → Option LegacyFolderRepairPlan
retired_plan vault head origins =
    let bad = sorted (all_folders origins []) in
    if is_empty_list origins || is_empty_list bad
    then none
    else some (record {
      vault_id = vault;
      head_id = head;
      origin_ids = sorted_ids (ids origins);
      contaminated_folders = bad;
      desired_folders = [];
      current_folders = [];
      observed_at = latest origins;
      issued_at = none;
    })

abbrev pub plan_retired :
    Host
    → Dict String Snapshot
    → (vault head : String) → List Snapshot
    → Option Snapshot
    → Option LegacyFolderRepairPlan
plan_retired H store vault head chain none = none
plan_retired H store vault head chain (some h) =
    if is_some h.folders
    then none
    else retired_plan vault head (rewound_seeds H store vault (ids chain) store)

unfoldable pub plan_retired_legacy_folder_repair :
    Host
    → Dict String Snapshot
    → (vault head : String) → Result AncestryError (Option LegacyFolderRepairPlan)
unfolding current_chain rewound_seeds all_folders
plan_retired_legacy_folder_repair H store vault head = current_chain store vault head >>= λ chain.
    ok (plan_retired H store vault head chain (last chain))

abbrev pub same_directive : FolderRepairDirective → Snapshot → Bool
same_directive d s = elim s.folder_repair [
  | none ↦ false
  | some other ↦
      list_beq (λ (a b : Text). a == b) other.retired_folders d.retired_folders
      && list_beq (λ (a b : String). a == b) other.origin_snapshot_ids d.origin_snapshot_ids
]

-- `Array.prototype.find`
abbrev pub first_of : (Snapshot → Bool) → List Snapshot → Option Snapshot
first_of test [] = none
first_of test (s ∷ rest) = if test s then some s else first_of test rest

-- A directive without a time of issue takes that of the first snapshot which carries it.
abbrev pub issue :
    String → String → List Snapshot → Snapshot → FolderRepairDirective → LegacyFolderRepairPlan
issue vault head_id chain head d = record {
  vault_id = vault;
  head_id = head_id;
  origin_ids = d.origin_snapshot_ids;
  contaminated_folders = d.retired_folders;
  desired_folders = sorted (folders_of head);
  current_folders = sorted (folders_of head);
  observed_at = some d.observed_at;
  issued_at = elim (first_of (same_directive d) chain) [
    | none ↦ some head.created_at
    | some s ↦ some s.created_at
  ];
}

unfoldable pub seeds : Host → Option Snapshot → List Snapshot → List Snapshot
unfolding unsafe_legacy_folder_seed
seeds H previous [] = []
seeds H previous (s ∷ rest) =
    let later = seeds H (some s) rest in
    if unsafe_legacy_folder_seed H s previous then s ∷ later else later

abbrev pub covered : Snapshot → List Text
covered head = elim head.folder_repair [ none ↦ [] | some d ↦ d.retired_folders ]

abbrev pub missing_plan :
    (vault head_id : String) → List Snapshot → Snapshot → Option LegacyFolderRepairPlan
missing_plan vault head_id origins head =
    let desired = sorted (folders_of head) in
    let retired = keep (λ path. not (contains desired path)) (sorted (all_folders origins [])) in
    if is_empty_list origins
      || is_empty_list retired
      || every_of (λ path. contains (covered head) path) retired
    then none
    else some (record {
      vault_id = vault;
      head_id = head_id;
      origin_ids = sorted_ids (ids origins);
      contaminated_folders = retired;
      desired_folders = desired;
      current_folders = desired;
      observed_at = latest origins;
      issued_at = none;
    })

abbrev pub is_issued : Option Text → Bool
is_issued none = false
is_issued (some time) = not (is_empty_list time)

abbrev pub unissued : Snapshot → Option FolderRepairDirective
unissued head = elim head.folder_repair [
  | none ↦ none
  | some d ↦ if is_issued d.issued_at then none else some d
]

abbrev pub plan_missing :
    Host
    → (vault head_id : String) → List Snapshot
    → Option Snapshot
    → Option LegacyFolderRepairPlan
plan_missing H vault head_id chain none = none
plan_missing H vault head_id chain (some head) = elim (unissued head) [
  | some d ↦ some (issue vault head_id chain head d)
  | none ↦ missing_plan vault head_id (seeds H none chain) head
]

unfoldable pub plan_missing_legacy_folder_retirement_directive :
    Host
    → Dict String Snapshot
    → (vault head : String) → Result AncestryError (Option LegacyFolderRepairPlan)
unfolding current_chain seeds all_folders
plan_missing_legacy_folder_retirement_directive H store vault head =
    current_chain store vault head >>= λ chain. ok (plan_missing H vault head chain (last chain))
