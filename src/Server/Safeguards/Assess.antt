-- ===== src/Server/Safeguards/Assess.antt =====
-- apps/server/src/safeguards.ts: `assessChanges`. A ratio that the code compares is compared with
-- both sides multiplied out; a reason is the data of its text. Percentages are in tenths.
use gib_sync.Prelude.{
  ℕ, ◌+◌, ◌*◌, ◌-◌, ◌/◌, max, Bool, true, false, ◌&&◌, ◌||◌, not, Option, none, some, List, [], ◌∷◌,
  ◌++◌, map, keep, some_of, contains, length, sum_by, take, leb, ltb, if◌then◌else◌, ◌==◌, nat_eq,
  string_eq,
}
use gib_sync.Prelude.Text.{Text, text_eq, slash, split, starts_with}
use gib_sync.Prelude.Dict.{Dict, lookup, insert, values}
use gib_sync.Prelude.Sorting.{sort}
use gib_sync.Protocol.Host.{Host}
use gib_sync.Protocol.Model.{ManifestEntry}
use gib_sync.Protocol.Moves.{
  DetectedMove, index_by_path, missing_from, assessment, detect_moves, extension, after_last,
}
use gib_sync.Server.Paths.{add_all}
use gib_sync.Server.Safeguards.{SafeguardPolicy, normalize, drop_last_slashes, is_device_local}

pub record ClientSafetySignals : Type 0 where
  pub high_entropy_paths : List Text
  pub device_local_cleanup_paths : List Text
  pub stale_baseline : Bool

abbrev pub no_signals : ClientSafetySignals
no_signals = record {
  high_entropy_paths = [];
  device_local_cleanup_paths = [];
  stale_baseline = false;
}

pub data ChangeKind : Type 0 where
  created modified deleted moved : ChangeKind

-- A size that is missing counts as 0 wherever it is read.
pub record ChangeItem : Type 0 where
  pub path : Text
  pub kind : ChangeKind
  pub previous_path : Option Text
  pub previous_size : ℕ
  pub size : ℕ

pub data SafetyReason : Type 0 where
  many_deleted : ℕ → SafetyReason
  share_deleted : ℕ → SafetyReason
  many_destroyed : ℕ → SafetyReason
  share_destroyed : ℕ → SafetyReason
  left_folder : ℕ → Text → SafetyReason
  grew : ℕ → SafetyReason
  changed_extension : ℕ → SafetyReason
  high_entropy : ℕ → SafetyReason
  out_of_date_device : ℕ → SafetyReason
  protected_deleted : Text → SafetyReason
  completely_empty : SafetyReason

pub record ChangeAssessment : Type 0 where
  pub created_count : ℕ
  pub modified_count : ℕ
  pub deleted_count : ℕ
  pub moved_count : ℕ
  pub total_changed : ℕ
  pub affected_tenths : ℕ
  pub bytes_added : ℕ
  pub bytes_removed : ℕ
  pub reasons : List SafetyReason
  pub examples : List ChangeItem

-- The four kinds of change, before they are sorted into one list.
pub record Changes : Type 0 where
  pub deletions : List ChangeItem
  pub creations : List ChangeItem
  pub edits : List ChangeItem
  pub moves : List ChangeItem

abbrev pub size_at : Text → Dict Text ManifestEntry → ℕ
size_at path index = elim (lookup path index) [ none ↦ 0 | some e ↦ e.size ]

abbrev pub trusted_cleanup : ClientSafetySignals → Text → Bool
trusted_cleanup signals path =
    contains (map normalize signals.device_local_cleanup_paths) (normalize path)
    && is_device_local path

abbrev pub moved_from : List DetectedMove → Text → Bool
moved_from moves path = some_of (λ (m : DetectedMove). m.previous_path == path) moves

abbrev pub moved_to : List DetectedMove → Text → Bool
moved_to moves path = some_of (λ (m : DetectedMove). m.path == path) moves

abbrev pub deletion : ManifestEntry → ChangeItem
deletion e = record {
  path = e.path;
  kind = deleted;
  previous_path = none;
  previous_size = e.size;
  size = 0;
}

abbrev pub creation : ManifestEntry → ChangeItem
creation e = record {
  path = e.path;
  kind = created;
  previous_path = none;
  previous_size = 0;
  size = e.size;
}

abbrev pub hash_differs : Dict Text ManifestEntry → ManifestEntry → Bool
hash_differs before e = elim (lookup e.path before) [
  | none ↦ false
  | some b ↦ not (b.hash == e.hash)
]

module _ (H : Host) (signals : ClientSafetySignals) (previous next : List ManifestEntry) where
  abbrev pub before : Dict Text ManifestEntry
  before = index_by_path previous []

  abbrev pub after : Dict Text ManifestEntry
  after = index_by_path next []

  abbrev pub all_raw_deleted : List ManifestEntry
  all_raw_deleted = missing_from after before

  abbrev pub raw_deleted : List ManifestEntry
  raw_deleted = keep (λ (e : ManifestEntry). not (trusted_cleanup signals e.path)) all_raw_deleted

  abbrev pub raw_created : List ManifestEntry
  raw_created = missing_from before after

  abbrev pub detected : List DetectedMove
  detected = detect_moves H assessment raw_deleted raw_created

  abbrev pub move_item : DetectedMove → ChangeItem
  move_item m = record {
    path = m.path;
    kind = moved;
    previous_path = some m.previous_path;
    previous_size = size_at m.previous_path before;
    size = size_at m.path after;
  }

  abbrev pub edit : ManifestEntry → ChangeItem
  edit e = record {
    path = e.path;
    kind = modified;
    previous_path = none;
    previous_size = size_at e.path before;
    size = e.size;
  }

  unfoldable pub find_changes : Changes
  unfolding index_by_path detect_moves is_device_local drop_last_slashes lookup
  find_changes = record {
    deletions =
        map deletion (keep (λ (e : ManifestEntry). not (moved_from detected e.path)) raw_deleted);
    creations =
        map creation (keep (λ (e : ManifestEntry). not (moved_to detected e.path)) raw_created);
    edits = map edit (keep (hash_differs before) (values after));
    moves = map move_item detected;
  }

abbrev pub lost : ChangeItem → ℕ
lost c = c.previous_size - c.size

abbrev pub gained : ChangeItem → ℕ
gained c = c.size - c.previous_size

abbrev pub reason_if : Bool → SafetyReason → List SafetyReason
reason_if test reason = if test then reason ∷ [] else []

abbrev pub first_part : Text → Text
first_part path = elim (split path) [ [] ↦ [] | part ∷ parts ↦ part ]

unfoldable pub count_folders : List ChangeItem → Dict Text ℕ → Dict Text ℕ
unfolding lookup insert split
count_folders [] counts = counts
count_folders (c ∷ cs) counts =
    let folder = first_part c.path in
    let known : ℕ = elim (lookup folder counts) [ none ↦ 0 | some n ↦ n ] in
    count_folders cs (insert folder (known + 1) counts)

unfoldable pub folder_reasons : ℕ → Dict Text ℕ → List SafetyReason
folder_reasons limit [] = []
folder_reasons limit ((folder, n) ∷ counts) =
    reason_if (leb limit n) (left_folder n folder) ++ folder_reasons limit counts

abbrev pub mostly_emptied : ChangeItem → Bool
mostly_emptied c = leb 1024 c.previous_size && ltb (c.size * 4) c.previous_size

abbrev pub grew_unexpectedly : SafeguardPolicy → ChangeItem → Bool
grew_unexpectedly p c =
    leb (c.previous_size + p.file_growth_bytes) c.size
    || leb 1048576 c.previous_size && leb (p.file_growth_percent * c.previous_size) (c.size * 100)

abbrev pub changes_extension : Host → ChangeItem → Bool
changes_extension H c = elim c.previous_path [
  | none ↦ not (extension H c.path == extension H [])
  | some from ↦ not (extension H c.path == extension H from)
]

abbrev pub is_protected : Text → ManifestEntry → Bool
is_protected path e = e.path == path || starts_with e.path (path ++ (slash ∷ []))

unfoldable pub protected_reasons : List Text → List ManifestEntry → List SafetyReason
unfolding starts_with
protected_reasons [] gone = []
protected_reasons (path ∷ paths) gone =
    reason_if (some_of (is_protected path) gone) (protected_deleted path)
    ++ protected_reasons paths gone

-- `Math.round(part / whole * scale)`
abbrev pub rounded : (part whole scale : ℕ) → ℕ
rounded part whole scale = (part * scale * 2 + whole) / (whole * 2)

abbrev pub stale_deletes : SafeguardPolicy → (count baseline : ℕ) → Bool
stale_deletes p count baseline =
    leb 3 count
    && (leb (max 3 ((p.deletion_count + 1) / 2)) count
        || leb (max 20 p.small_vault_deletion_percent * baseline) (count * 200))

abbrev pub is_nil {ℓ} : {A : Type ℓ} → List A → Bool
is_nil [] = true
is_nil (x ∷ xs) = false

module _ (H : Host) (p : SafeguardPolicy) (signals : ClientSafetySignals)
    (previous next : List ManifestEntry) where
  abbrev pub relevant_previous : ℕ
  relevant_previous =
      length previous
      - (length (all_raw_deleted H signals previous next)
          - length (raw_deleted H signals previous next))

  -- The reasons in the order in which the code collects them.
  unfoldable pub collect_reasons : Changes → List SafetyReason
  unfolding count_folders folder_reasons protected_reasons index_by_path is_device_local
      drop_last_slashes after_last
  collect_reasons c =
      let baseline = max 1 relevant_previous in
      let count = length c.deletions in
      let destroyed = count + length (keep mostly_emptied c.edits) in
      let growth = keep (grew_unexpectedly p) (c.edits ++ c.moves) in
      let renamed = keep (changes_extension H) c.moves in
      reason_if (leb p.deletion_count count) (many_deleted count)
      ++ reason_if
          (leb p.small_vault_deletion_count count
            && leb (p.small_vault_deletion_percent * baseline) (count * 100))
          (share_deleted (rounded count baseline 100))
      ++ reason_if (leb p.changed_count destroyed) (many_destroyed destroyed)
      ++ reason_if (leb (p.changed_percent * baseline) (destroyed * 100) && leb 5 destroyed)
          (share_destroyed (rounded destroyed baseline 1000))
      ++ folder_reasons p.folder_impact_count (count_folders c.deletions [])
      ++ reason_if (not (is_nil growth)) (grew (length growth))
      ++ reason_if (leb 5 (length renamed)) (changed_extension (length renamed))
      ++ reason_if (not (is_nil signals.high_entropy_paths))
          (high_entropy (length signals.high_entropy_paths))
      ++ reason_if (signals.stale_baseline && stale_deletes p count baseline)
          (out_of_date_device count)
      ++ protected_reasons (add_all [] p.protected_paths) (all_raw_deleted H signals previous next)
      ++ reason_if (ltb 0 relevant_previous && is_nil next) completely_empty

  abbrev pub all_changes : Changes → List ChangeItem
  all_changes c =
      sort (λ (a b : ChangeItem). H.collate a.path b.path)
        (c.deletions ++ c.creations ++ c.edits ++ c.moves)

  unfoldable pub assess_changes : ChangeAssessment × List ChangeItem
  unfolding find_changes collect_reasons
  assess_changes =
      let c = find_changes H signals previous next in
      let changes = all_changes c in
      (
        record {
          created_count = length c.creations;
          modified_count = length c.edits;
          deleted_count = length c.deletions;
          moved_count = length c.moves;
          total_changed = length changes;
          affected_tenths = rounded (length changes) (max 1 relevant_previous) 1000;
          bytes_added =
              sum_by (λ (x : ChangeItem). x.size) c.creations + sum_by gained (c.edits ++ c.moves);
          bytes_removed =
              sum_by (λ (x : ChangeItem). x.previous_size) c.deletions
              + sum_by lost (c.edits ++ c.moves);
          reasons = collect_reasons c;
          examples = take 25 changes;
        },
        changes,
      )
