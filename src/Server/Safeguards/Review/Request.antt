-- ===== src/Server/Safeguards/Review/Request.antt =====
-- apps/server/src/safeguards.ts: a proposal of `propose`, and which earlier row asks for the same. What
-- is hashed, and what tells two proposals apart, is the data of which the code takes the JSON text.
use gib_sync.Prelude.{
  ℕ, String, Bool, true, false, ◌&&◌, Option, none, some, List, [], ◌∷◌, map, ltb, if◌then◌else◌,
  ◌==◌, nat_eq, string_eq, option_eq,
}
use gib_sync.Prelude.Text.{Text, text_eq, text_leb}
use gib_sync.Prelude.Sorting.{sort}
use gib_sync.Protocol.Host.{Host}
use gib_sync.Protocol.Model.{ManifestEntry, FolderEntry}
use gib_sync.Server.Paths.{add_all}
use gib_sync.Server.Safeguards.Assess.{ClientSafetySignals}
use gib_sync.Server.Safeguards.Review.{
  ProposalSource, device, seafile, unreadable, listed, saved, QuarantineRow, PendingFolders,
  is_pending,
}

pub record Proposal : Type 0 where
  pub vault_id : String
  pub device_id : String
  pub device_name : Text
  pub parent_id : Option String
  pub message : Text
  pub entries : List ManifestEntry
  pub folders : Option (List Text)
  pub folder_entries : Option (List FolderEntry)
  pub source : ProposalSource
  pub signals : Option ClientSafetySignals

abbrev pub same_source : ProposalSource → ProposalSource → Bool
same_source device device = true
same_source device seafile = false
same_source seafile device = false
same_source seafile seafile = true

pub record EntryIdentity : Type 0 where
  pub path : Text
  pub hash : String
  pub size : ℕ
  pub file_id : Option String

pub record FolderIdentity : Type 0 where
  pub path : Text
  pub folder_id : String

pub record Identity : Type 0 where
  pub entries : List EntryIdentity
  pub folders : List Text
  pub folder_identities : Option (List FolderIdentity)

pub record ProposalKey : Type 0 where
  pub parent_id : Option String
  pub device_id : String
  pub source : ProposalSource
  pub message : Text
  pub fingerprint : Identity

abbrev same_all {ℓ} : {A : Type ℓ} → (A → A → Bool) → List A → List A → Bool
same_all same [] [] = true
same_all same [] (y ∷ ys) = false
same_all same (x ∷ xs) [] = false
same_all same (x ∷ xs) (y ∷ ys) = same x y && same_all same xs ys

abbrev same_entry : EntryIdentity → EntryIdentity → Bool
same_entry a b = a.path == b.path && a.hash == b.hash && a.size == b.size && a.file_id == b.file_id

abbrev same_folder : FolderIdentity → FolderIdentity → Bool
same_folder a b = a.path == b.path && a.folder_id == b.folder_id

abbrev same_folders : Option (List FolderIdentity) → Option (List FolderIdentity) → Bool
same_folders none none = true
same_folders none (some ys) = false
same_folders (some xs) none = false
same_folders (some xs) (some ys) = same_all same_folder xs ys

-- The two JSON texts are the same.
unfoldable pub same_identity : Identity → Identity → Bool
same_identity a b =
    same_all same_entry a.entries b.entries
    && same_all (λ s t. s == t) a.folders b.folders
    && same_folders a.folder_identities b.folder_identities

abbrev entry_identity : ManifestEntry → EntryIdentity
entry_identity e = record { path = e.path; hash = e.hash; size = e.size; file_id = e.file_id }

abbrev folder_identity : FolderEntry → FolderIdentity
folder_identity f = record { path = f.path; folder_id = f.folder_id }

-- `[...new Set(folders ?? [])].sort()`
abbrev pub folder_set : Option (List Text) → List Text
folder_set none = []
folder_set (some folders) = sort text_leb (add_all [] folders)

-- SELECT folder_entries_json FROM sync_pending_folders WHERE quarantine_id=? AND vault_id=?
unfoldable pub pending_for : (id vault_id : String) → List PendingFolders → Option PendingFolders
pending_for id vault_id [] = none
pending_for id vault_id (p ∷ ps) =
    let rest = pending_for id vault_id ps in
    if p.quarantine_id == id && p.vault_id == vault_id then some p else rest

-- … AND status='pending' AND expires_at>?
abbrev pub is_waiting : Proposal → (now : ℕ) → QuarantineRow → Bool
is_waiting p now r =
    r.vault_id == p.vault_id && is_pending r.item.status && ltb now r.item.expires_at

abbrev pub has_hash : String → Proposal → (now : ℕ) → QuarantineRow → Bool
has_hash hash p now r = is_waiting p now r && r.item.proposal_hash == hash

module _ (H : Host) where
  abbrev pub by_path : List ManifestEntry → List ManifestEntry
  by_path entries = sort (λ (a b : ManifestEntry). H.collate a.path b.path) entries

  abbrev folder_identities : Option (List FolderEntry) → Option (List FolderIdentity)
  folder_identities none = none
  folder_identities (some identified) =
      some
        (sort (λ (a b : FolderIdentity). H.collate a.path b.path) (map folder_identity identified))

  unfoldable pub identity :
      List ManifestEntry → Option (List Text) → Option (List FolderEntry) → Identity
  identity entries folders identified = record {
    entries = map entry_identity (by_path entries);
    folders = folder_set folders;
    folder_identities = folder_identities identified;
  }

  abbrev pub fingerprint : Proposal → Identity
  fingerprint p = identity p.entries p.folders p.folder_entries

  -- What an earlier row asks for, where all of it can be read.
  abbrev pub prior_identity : List PendingFolders → String → QuarantineRow → Option Identity
  prior_identity ps vault_id r = elim r.manifest [
    | unreadable ↦ none
    | listed entries ↦ elim (pending_for r.item.id vault_id ps) [
      | none ↦ some (identity entries none none)
      | some p ↦ elim p.folder_entries [
        | none ↦ none
        | some identified ↦ some (identity entries none (some identified))
      ]
    ]
    | saved entries folders folder_entries ↦ elim folder_entries [
      | some identified ↦ some (identity entries (some folders) (some identified))
      | none ↦ elim (pending_for r.item.id vault_id ps) [
        | none ↦ some (identity entries (some folders) none)
        | some p ↦ elim p.folder_entries [
          | none ↦ none
          | some identified ↦ some (identity entries (some folders) (some identified))
        ]
      ]
    ]
  ]

  abbrev pub is_same_work : List PendingFolders → Proposal → QuarantineRow → Bool
  is_same_work ps p r = elim (prior_identity ps p.vault_id r) [
    | none ↦ false
    | some found ↦ same_identity found (fingerprint p)
  ]

  abbrev pub is_same_request : List PendingFolders → Proposal → (now : ℕ) → QuarantineRow → Bool
  is_same_request ps p now r =
      is_waiting p now r
      && r.item.device_id == p.device_id
      && same_source r.item.source p.source
      && r.item.parent_id == p.parent_id
      && r.item.message == p.message
      && is_same_work ps p r

abbrev pub proposal_hash : Host → (ProposalKey → String) → Proposal → String
proposal_hash H hash p = hash record {
  parent_id = p.parent_id;
  device_id = p.device_id;
  source = p.source;
  message = p.message;
  fingerprint = fingerprint H p;
}
