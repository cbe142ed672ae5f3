-- ===== src/Server/Safeguards/Review/Propose.antt =====
-- apps/server/src/safeguards.ts: `propose`.
use gib_sync.Prelude.{
  ℕ, ◌+◌, ◌*◌, String, Bool, true, false, ◌&&◌, ◌||◌, not, Option, none, some, List, [], ◌∷◌, ◌++◌,
  map, some_of, is_some, ltb, if◌then◌else◌, nat_eq, string_eq, option_eq,
}
use gib_sync.Prelude.Text.{Text, text, text_eq, starts_with}
use gib_sync.Prelude.Dict.{Dict, lookup}
use gib_sync.Protocol.Host.{Host, ascii}
use gib_sync.Protocol.Model.{ManifestEntry}
use gib_sync.Server.Safeguards.{SafeguardPolicy}
use gib_sync.Server.Safeguards.Assess.{
  ChangeAssessment, ChangeItem, ClientSafetySignals, no_signals, SafetyReason, many_deleted,
  share_deleted, many_destroyed, share_destroyed, left_folder, grew, changed_extension,
  high_entropy, out_of_date_device, protected_deleted, completely_empty, is_nil, assess_changes,
}
use gib_sync.Server.Safeguards.Review.{
  seafile, pending, QuarantineItem, saved, QuarantineRow, VaultSafetyRow, PendingFolders, Tables,
  is_trusted, policy,
}
use gib_sync.Server.Safeguards.Review.Request.{
  Proposal, same_source, ProposalKey, same_identity, folder_set, pending_for, has_hash, by_path,
  identity, is_same_request, proposal_hash,
}

pub data Authorization : Type 0 where
  by_policy trusted_window quarantine locked_out : Authorization

pub record Answer : Type 0 where
  pub allowed : Bool
  pub locked : Bool
  pub assessment : ChangeAssessment
  pub quarantine : Option QuarantineItem
  pub created : Bool
  pub authorization : Authorization

-- The text has the phrase in it.
unfoldable pub includes : Text → Text → Bool
unfolding starts_with
includes [] phrase = starts_with [] phrase
includes (c ∷ s) phrase = let later = includes s phrase in starts_with (c ∷ s) phrase || later

-- `/out-of-date device|completely empty|…/i.test(reason)`
abbrev pub has_hard_phrase : Text → Bool
has_hard_phrase t = some_of (includes (ascii.lower t)) (
    map text (
      "out-of-date device" ∷ "completely empty" ∷ "protected path" ∷ "grew unexpectedly"
      ∷ "mostly emptied" ∷ "high-entropy" ∷ []))

-- The pattern on the texts of the reasons: that of a folder has the folder's name in it.
unfoldable pub is_hard : SafetyReason → Bool
unfolding includes
is_hard (many_deleted n) = false
is_hard (share_deleted n) = false
is_hard (many_destroyed n) = true
is_hard (share_destroyed n) = true
is_hard (left_folder n folder) = has_hard_phrase folder
is_hard (grew n) = true
is_hard (changed_extension n) = false
is_hard (high_entropy n) = true
is_hard (out_of_date_device n) = true
is_hard (protected_deleted path) = true
is_hard completely_empty = true

-- An allowance, or one of the two refusals.
abbrev pub answer_of : Authorization → ChangeAssessment → Answer
answer_of authorization assessment = record {
  allowed = elim authorization [ by_policy ↦ true | trusted_window ↦ true | other ↦ false ];
  locked = elim authorization [ locked_out ↦ true | other ↦ false ];
  assessment = assessment;
  quarantine = none;
  created = false;
  authorization = authorization;
}

abbrev pub held_answer : ChangeAssessment → QuarantineItem → Bool → Answer
held_answer assessment item created = record {
  allowed = false;
  locked = false;
  assessment = assessment;
  quarantine = some item;
  created = created;
  authorization = quarantine;
}

-- Reasons for a review that a trusted window does not replace.
abbrev pub explicit_review : Proposal → ChangeAssessment → Bool
explicit_review p a =
    not (is_nil a.reasons)
    && (same_source p.source seafile || ltb 0 a.deleted_count || some_of is_hard a.reasons)

abbrev week : ℕ
week = 7 * 24 * 60 * 60 * 1000

unfoldable pub first_such : (QuarantineRow → Bool) → List QuarantineRow → Option QuarantineRow
first_such test [] = none
first_such test (r ∷ rs) = let rest = first_such test rs in if test r then some r else rest

abbrev pub or_first : Option QuarantineRow → Option QuarantineRow → Option QuarantineRow
or_first none other = other
or_first (some r) other = some r

module _ (H : Host) (hash : ProposalKey → String) (now : ℕ) (p : Proposal) where
  unfoldable pub existing : List PendingFolders → List QuarantineRow → Option QuarantineRow
  unfolding first_such same_identity identity pending_for
  existing ps rows =
      or_first (first_such (has_hash (proposal_hash H hash p) p now) rows)
        (first_such (is_same_request H ps p now) rows)

  module _ (assessed : ChangeAssessment × List ChangeItem) where
    abbrev pub item : (id : String) (created_at expires_at : ℕ) → QuarantineItem
    item id created_at expires_at = record {
      id = id;
      proposal_hash = proposal_hash H hash p;
      source = p.source;
      device_id = p.device_id;
      device_name = p.device_name;
      parent_id = p.parent_id;
      created_at = created_at;
      expires_at = expires_at;
      status = pending;
      message = p.message;
      assessment = assessed.0;
      changes = assessed.1;
    }

    abbrev pub new_row : String → QuarantineRow
    new_row id = record {
      vault_id = p.vault_id;
      item = item id now (now + week);
      manifest = saved (by_path H p.entries) (folder_set p.folders) p.folder_entries;
    }

    -- The row that was found, or a new one.
    abbrev pub hold :
        String → List QuarantineRow → Option QuarantineRow → Answer × List QuarantineRow
    hold id rows none =
        (held_answer assessed.0 (item id now (now + week)) true, rows ++ (new_row id ∷ []))
    hold id rows (some r) =
        (held_answer assessed.0 (item r.item.id r.item.created_at r.item.expires_at) false, rows)

    unfoldable pub decide :
        (id : String) (row : VaultSafetyRow) (previous : List ManifestEntry)
        → List PendingFolders
        → List QuarantineRow
        → Answer × List QuarantineRow
    unfolding existing is_hard
    decide id row previous ps rows =
        let trusted = is_trusted row p.device_id now in
        if is_some row.write_locked_at
        then (answer_of locked_out assessed.0, rows)
        else if is_nil assessed.0.reasons
            || is_nil previous
            || (trusted && not (explicit_review p assessed.0))
        then (answer_of (if trusted then trusted_window else by_policy) assessed.0, rows)
        else hold id rows (existing ps rows)

-- `vault.head_id ? getSnapshot(vault.head_id)?.entries ?? [] : []`
abbrev pub entries_of : Option String → Dict String (List ManifestEntry) → List ManifestEntry
entries_of none snapshots = []
entries_of (some head) snapshots = elim (lookup head snapshots) [
  | none ↦ []
  | some entries ↦ entries
]

abbrev pub signals_of : Option ClientSafetySignals → ClientSafetySignals
signals_of none = no_signals
signals_of (some signals) = signals

-- `id` is that of `randomUUID`.
unfoldable pub answer_for :
    Host
    → (Text → Option SafeguardPolicy)
    → (ProposalKey → String)
    → (id : String) → (now : ℕ) → Proposal
    → VaultSafetyRow
    → Tables
    → Answer × Tables
unfolding decide policy assess_changes
answer_for H parse_policy hash id now p row T =
    let previous = entries_of row.head_id T.snapshots in
    let assessed =
      assess_changes H (policy parse_policy p.vault_id T) (signals_of p.signals) previous
        p.entries in
    let decided = decide H hash now p assessed id row previous T.pending_folders T.quarantines in
    (decided.0, record T { quarantines = decided.1 })

-- `none` where the vault is not there, which the code takes for granted.
unfoldable pub propose :
    Host
    → (Text → Option SafeguardPolicy)
    → (ProposalKey → String)
    → (id : String) → (now : ℕ) → Proposal
    → Tables
    → Option (Answer × Tables)
unfolding answer_for lookup
propose H parse_policy hash id now p T = elim (lookup p.vault_id T.vaults) [
  | none ↦ none
  | some row ↦ some (answer_for H parse_policy hash id now p row T)
]
