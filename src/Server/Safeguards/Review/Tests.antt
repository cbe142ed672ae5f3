-- ===== src/Server/Safeguards/Review/Tests.antt =====
-- Proposals that are let through, held for a review and made again, and the theorem on them.
use gib_sync.Prelude.{
  ◌≡◌, refl, ℕ, String, Bool, true, false, Option, none, some, List, [], ◌∷◌, map, length,
}
use gib_sync.Prelude.Text.{Text, text}
use gib_sync.Protocol.Host.{ascii}
use gib_sync.Protocol.Model.{ManifestEntry}
use gib_sync.Protocol.ServerStatus.{warning}
use gib_sync.Server.Safeguards.Review.{
  device, stale, listed, QuarantineRow, VaultSafetyRow, HealthRow, Tables, list, event,
}
use gib_sync.Server.Safeguards.Review.Request.{Proposal, ProposalKey}
use gib_sync.Server.Safeguards.Review.Propose.{
  Answer, Authorization, by_policy, quarantine, locked_out, propose, answer_for,
}
use gib_sync.Server.Safeguards.Review.Repeated.{propose-again}

abbrev file : String → String → ManifestEntry
file path hash = record {
  path = text path;
  hash = hash;
  size = 10;
  mtime = 0;
  file_id = none;
  revision = none;
}

abbrev row : VaultSafetyRow
row = record {
  head_id = some "head";
  safeguard_policy = none;
  write_locked_at = none;
  write_locked_by = none;
  trusted_until = some 50;
  trusted_device_id = some "phone";
}

abbrev tables : Tables
tables = record {
  vaults = ("v", row) ∷ [];
  snapshots = ("head", file "a.md" "1" ∷ file "b.md" "2" ∷ []) ∷ [];
  quarantines = [];
  pending_folders = [];
  health = [];
}

abbrev edit : Proposal
edit = record {
  vault_id = "v";
  device_id = "phone";
  device_name = text "Phone";
  parent_id = some "head";
  message = text "Sync";
  entries = file "a.md" "1" ∷ file "b.md" "3" ∷ [];
  folders = none;
  folder_entries = none;
  source = device;
  signals = none;
}

abbrev wipe : Proposal
wipe = record edit { entries = [] }

abbrev hash_of : ProposalKey → String
hash_of k = k.device_id

abbrev propose_at : Proposal → Tables → Option (Answer × Tables)
propose_at p T = propose ascii (λ t. none) hash_of "q1" 100 p T

abbrev authorization_of : Option (Answer × Tables) → Option Authorization
authorization_of none = none
authorization_of (some (a, T)) = some a.authorization

abbrev tables_of : Option (Answer × Tables) → Tables
tables_of none = tables
tables_of (some (a, T)) = T

abbrev first : Answer × Tables
first = answer_for ascii (λ t. none) hash_of "q1" 100 wipe row tables

lets_an_edit_through : authorization_of (propose_at edit tables) ≡ some by_policy
unfolding propose gib_sync.Prelude.Text.text_beq gib_sync.Prelude.Sorting.sort
lets_an_edit_through = refl

holds_a_wipe : authorization_of (propose_at wipe tables) ≡ some quarantine
unfolding propose gib_sync.Prelude.Text.text_beq gib_sync.Prelude.Sorting.sort
holds_a_wipe = refl

abbrev held : Tables
held = tables_of (propose_at wipe tables)

keeps_one_row : length held.quarantines ≡ 1
unfolding propose gib_sync.Prelude.Text.text_beq gib_sync.Prelude.Sorting.sort
keeps_one_row = refl

abbrev locked : Tables
locked = record tables { vaults = ("v", record row { write_locked_at = some 3 }) ∷ [] }

refuses_when_locked : authorization_of (propose_at edit locked) ≡ some locked_out
unfolding propose
refuses_when_locked = refl

-- The proposal is found again by what it says, where the row has another hash and the entries alone.
abbrev renamed : Tables
renamed = record held {
  quarantines =
      map
        (λ (r : QuarantineRow). record r {
          manifest = listed [];
          item = record r.item { proposal_hash = "old" };
        })
        held.quarantines;
}

finds_same_work : tables_of (propose ascii (λ t. none) hash_of "q2" 200 wipe renamed) ≡ renamed
unfolding propose gib_sync.Prelude.Text.text_beq gib_sync.Prelude.Sorting.sort
finds_same_work = refl

expires :
    map (λ (r : QuarantineRow). r.item.status) (list "v" 604800101 held).1.quarantines ≡ stale ∷ []
unfolding list propose gib_sync.Prelude.Text.text_beq gib_sync.Prelude.Sorting.sort
expires = refl

abbrev alerted : Tables
alerted = event "e" "v" "mass_change_quarantine" warning (text "Held") 5 tables

clears_alerts : map (λ (h : HealthRow). h.cleared_at) (list "v" 7 alerted).1.health ≡ some 7 ∷ []
unfolding list
clears_alerts = refl

propose-again_example :
    propose ascii (λ t. none) hash_of "q2" 100 wipe first.1
    ≡ some (record first.0 { created = false }, first.1)
unfolding propose
propose-again_example =
    propose-again ascii (λ t. none) hash_of "q1" "q2" 100 wipe tables {a = first.0} {T' = first.1}
      refl
