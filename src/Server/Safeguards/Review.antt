-- ===== src/Server/Safeguards/Review.antt =====
-- apps/server/src/safeguards.ts: `SafeguardService`, which lets a proposal through or keeps it for a
-- review, on its tables. A date is its time, a JSON column is the value that it parses to.
-- Request has what is proposed, Propose `propose`; Repeated holds its proof.
pub mod Request
pub mod Propose
pub mod Repeated
pub mod Tests
use gib_sync.Prelude.{
  ℕ, String, Bool, true, false, ◌&&◌, ◌||◌, not, Option, none, some, List, [], ◌∷◌, ◌++◌, map, keep,
  length, is_some, leb, ltb, if◌then◌else◌, ◌==◌, nat_eq, string_eq, option_eq,
}
use gib_sync.Prelude.Text.{Text}
use gib_sync.Prelude.Dict.{Dict, lookup}
use gib_sync.Prelude.Sorting.{sort}
use gib_sync.Protocol.Model.{ManifestEntry, FolderEntry}
use gib_sync.Protocol.ServerStatus.{AlertLevel}
use gib_sync.Server.Safeguards.{SafeguardPolicy, balanced_policy, policy_for, is_blank}
use gib_sync.Server.Safeguards.Assess.{ChangeAssessment, ChangeItem, is_nil}

pub data ProposalSource : Type 0 where
  device seafile : ProposalSource

pub data QuarantineStatus : Type 0 where
  pending approved rejected stale : QuarantineStatus

pub record QuarantineItem : Type 0 where
  pub id : String
  pub proposal_hash : String
  pub source : ProposalSource
  pub device_id : String
  pub device_name : Text
  pub parent_id : Option String
  pub created_at : ℕ
  pub expires_at : ℕ
  pub status : QuarantineStatus
  pub message : Text
  pub assessment : ChangeAssessment
  pub changes : List ChangeItem

-- `manifest_json`: the entries alone in old rows, or the whole of a proposal.
pub data StoredManifest : Type 0 where
  unreadable : StoredManifest
  listed : List ManifestEntry → StoredManifest
  saved :
      (entries : List ManifestEntry) (folders : List Text)
      (folder_entries : Option (List FolderEntry))
      → StoredManifest

pub record QuarantineRow : Type 0 where
  pub vault_id : String
  pub item : QuarantineItem
  pub manifest : StoredManifest

-- The columns of `vaults` that are read here.
pub record VaultSafetyRow : Type 0 where
  pub head_id : Option String
  pub safeguard_policy : Option Text
  pub write_locked_at : Option ℕ
  pub write_locked_by : Option Text
  pub trusted_until : Option ℕ
  pub trusted_device_id : Option String

-- `folder_entries_json`, where it can be parsed
pub record PendingFolders : Type 0 where
  pub quarantine_id : String
  pub vault_id : String
  pub folder_entries : Option (List FolderEntry)

pub record HealthRow : Type 0 where
  pub id : String
  pub vault_id : String
  pub code : String
  pub level : AlertLevel
  pub message : Text
  pub created_at : ℕ
  pub cleared_at : Option ℕ

pub record Tables : Type 0 where
  pub vaults : Dict String VaultSafetyRow
  pub snapshots : Dict String (List ManifestEntry)
  pub quarantines : List QuarantineRow
  pub pending_folders : List PendingFolders
  pub health : List HealthRow

pub record SafetyState : Type 0 where
  pub policy : SafeguardPolicy
  pub write_locked : Bool
  pub write_locked_at : Option ℕ
  pub write_locked_by : Option Text
  pub trusted_until : Option ℕ
  pub pending_quarantines : ℕ

abbrev pub is_pending : QuarantineStatus → Bool
is_pending pending = true
is_pending status = false

abbrev pub is_pending_of : String → QuarantineRow → Bool
is_pending_of vault_id r = r.vault_id == vault_id && is_pending r.item.status

abbrev pub is_trusted : VaultSafetyRow → String → (now : ℕ) → Bool
is_trusted row device_id now =
    row.trusted_device_id == some device_id
    && elim row.trusted_until [ none ↦ false | some until ↦ ltb now until ]

module _ (parse_policy : Text → Option SafeguardPolicy) where
  abbrev parsed_policy : Option SafeguardPolicy → SafeguardPolicy
  parsed_policy none = balanced_policy
  parsed_policy (some p) = policy_for p.mode (some p)

  abbrev stored_policy : Option Text → SafeguardPolicy
  stored_policy none = balanced_policy
  stored_policy (some value) =
      if is_blank value then balanced_policy else parsed_policy (parse_policy value)

  unfoldable pub policy : String → Tables → SafeguardPolicy
  unfolding policy_for lookup
  policy vault_id T = elim (lookup vault_id T.vaults) [
    | none ↦ balanced_policy
    | some row ↦ stored_policy row.safeguard_policy
  ]

  -- `none` where the vault is not there, which the code takes for granted.
  unfoldable pub state : (vault_id device_id : String) → (now : ℕ) → Tables → Option SafetyState
  unfolding lookup policy
  state vault_id device_id now T = elim (lookup vault_id T.vaults) [
    | none ↦ none
    | some row ↦ some record {
      policy = policy vault_id T;
      write_locked = is_some row.write_locked_at;
      write_locked_at = row.write_locked_at;
      write_locked_by = row.write_locked_by;
      trusted_until = if is_trusted row device_id now then row.trusted_until else none;
      pending_quarantines = length (keep (is_pending_of vault_id) T.quarantines);
    }
  ]

-- UPDATE quarantines SET status='stale' WHERE vault_id=? AND status='pending' AND expires_at<?
abbrev pub expire : String → (now : ℕ) → QuarantineRow → QuarantineRow
expire vault_id now r =
    if is_pending_of vault_id r && ltb r.item.expires_at now
    then record r { item = record r.item { status = stale } }
    else r

abbrev pub is_open_alert : String → HealthRow → Bool
is_open_alert vault_id h =
    h.vault_id == vault_id
    && not (is_some h.cleared_at)
    && (h.code == "mass_change_quarantine" || h.code == "external_quarantine")

abbrev pub clear_alert : String → (now : ℕ) → HealthRow → HealthRow
clear_alert vault_id now h =
    if is_open_alert vault_id h then record h { cleared_at = some now } else h

unfoldable pub clear_resolved_quarantine_alerts : String → (now : ℕ) → Tables → Tables
clear_resolved_quarantine_alerts vault_id now T =
    if is_nil (keep (is_pending_of vault_id) T.quarantines)
    then record T { health = map (clear_alert vault_id now) T.health }
    else T

abbrev pub item_of : QuarantineRow → QuarantineItem
item_of r = r.item

abbrev pub newest_first : QuarantineItem → QuarantineItem → Bool
newest_first a b = leb b.created_at a.created_at

unfoldable pub list : String → (now : ℕ) → Tables → List QuarantineItem × Tables
unfolding clear_resolved_quarantine_alerts
list vault_id now T =
    let expired = record T { quarantines = map (expire vault_id now) T.quarantines } in
    (
      sort newest_first (map item_of (keep (is_pending_of vault_id) expired.quarantines)),
      clear_resolved_quarantine_alerts vault_id now expired,
    )

-- `id` is that of `randomUUID`.
abbrev pub event : (id vault_id code : String) → AlertLevel → Text → (now : ℕ) → Tables → Tables
event id vault_id code level message now T = record T {
  health =
      T.health
      ++ (record {
        id = id;
        vault_id = vault_id;
        code = code;
        level = level;
        message = message;
        created_at = now;
        cleared_at = none;
      }
          ∷ []);
}
