-- ===== src/Plugin/Status/Tests.antt =====
-- Runs of the indicator and what is shown beside it, and the theorem on the indicator at one of them.
use gib_sync.Prelude.{
  ◌≡◌, refl, ℕ, String, Bool, true, false, ◌&&◌, ◌||◌, not, Option, none, some, List, [], ◌∷◌, map,
  ◌==◌, nat_eq,
}
use gib_sync.Prelude.Text.{Text, text}
use gib_sync.Plugin.Live.{LiveSyncStatus, initial_live_status, complete, blocked_phase, uploading}
use gib_sync.Plugin.Status.{healthy, is_verified, derive_indicator_state}
use gib_sync.Plugin.Status.Laws.{is_synced, is_success, is_calm, derive_indicator_state-is_synced}
use gib_sync.Plugin.Status.Overview.{build_sync_facts}
use gib_sync.Plugin.Status.Quick.{build_quick_status_model}

abbrev done : LiveSyncStatus
done = record (initial_live_status true) {
  phase = complete;
  verified = true;
  last_success_at = some (text "2026-01-01T00:00:00.000Z");
}

abbrev sending : LiveSyncStatus
sending = record done {
  phase = uploading;
  running = true;
  current = some 3;
  total = some 12;
  pending_changes = some 1;
}

up_to_date_label : (derive_indicator_state done true false 0 healthy).label ≡ text "Up to date"
unfolding derive_indicator_state
up_to_date_label = refl

counts_sent :
    (derive_indicator_state sending true false 0 healthy).description ≡ text "Sending 3 of 12 files"
unfolding derive_indicator_state
counts_sent = refl

held_text :
    (derive_indicator_state sending true false 2 healthy).description
    ≡ text "2 held changes need review"
unfolding derive_indicator_state
held_text = refl

abbrev none_held : ℕ
none_held = 0

derive_indicator_state-is_synced_example :
    (is_synced (derive_indicator_state done true false 0 healthy) ≡ (
      (true
        && not false
        && none_held == 0
        && healthy.errors == 0
        && is_calm done.phase
        && healthy.warnings == 0)
      && (is_verified done && not done.running)))
    × ((not (is_success (derive_indicator_state done true false 0 healthy)) || is_verified done)
        ≡ true)
derive_indicator_state-is_synced_example =
    derive_indicator_state-is_synced done true false 0 healthy

abbrev at : Text → Option ℕ
at time = some 1000000

last_verified :
    (build_quick_status_model at
      (λ t. [])
      (derive_indicator_state done true false 0 healthy)
      done
      true
      false
      false
      1150000).meta
    ≡ text "Last verified 2 min ago"
unfolding build_quick_status_model derive_indicator_state
last_verified = refl

one_day :
    (build_quick_status_model at
      (λ t. [])
      (derive_indicator_state done true false 0 healthy)
      done
      true
      false
      false
      87500000).meta
    ≡ text "Last verified 1 day ago"
unfolding build_quick_status_model derive_indicator_state
one_day = refl

abbrev stopped : LiveSyncStatus
stopped = record done {
  phase = blocked_phase;
  message = text "The server is in EMERGENCY containment.";
}

server_paused :
    (build_quick_status_model at
      (λ t. [])
      (derive_indicator_state stopped true false 0 healthy)
      stopped
      true
      false
      false
      0).primary_label
    ≡ text "Server paused"
unfolding build_quick_status_model derive_indicator_state gib_sync.Prelude.Text.text_beq
server_paused = refl

facts_of_no_server :
    map (λ f. f.value) (build_sync_facts done none (some "s"))
    ≡ text "Last check passed" ∷ text "Not verified" ∷ text "Checking" ∷ text "Checking" ∷ []
unfolding build_sync_facts
facts_of_no_server = refl
