-- ===== src/Plugin/Status.antt =====
-- plugin/src/status.ts: the indicator that is derived from the live status of plugin/src/settings.ts.
pub mod Overview
pub mod Quick
pub mod Laws
pub mod Tests
use gib_sync.Prelude.{
  ℕ, ◌+◌, min, String, Bool, true, false, ◌&&◌, ◌||◌, not, Option, none, some, List, [], ◌∷◌, ◌++◌,
  ltb, leb, if◌then◌else◌, ◌==◌, nat_eq,
}
use gib_sync.Prelude.Text.{Text, text, text_eq}
use gib_sync.Prelude.Decimal.{decimal, digits_of}
use gib_sync.Plugin.Live.{
  SyncPhase, ActivityLevel, SyncActivity, LiveSyncStatus, initial_live_status, or_zero, is_given,
  first_given, or_text, not_configured, blocked_phase, idle, scheduled, checking_phase,
  retrying_phase, offline_phase, scanning, reading_remote, merging, applying, uploading, committing,
  mirroring, complete, up_to_date, error_phase,
}

pub data IndicatorTone : Type 0 where
  neutral success active warning error : IndicatorTone

pub data IndicatorKey : Type 0 where
  setup blocked attention checking retrying offline syncing queued synced failed : IndicatorKey

pub record IndicatorState : Type 0 where
  pub key : IndicatorKey
  pub label : Text
  pub icon : Text
  pub tone : IndicatorTone
  pub animated : Bool
  pub attention_count : ℕ
  pub description : Text

pub record IndicatorHealth : Type 0 where
  pub errors : ℕ
  pub warnings : ℕ
  pub description : Option Text

abbrev pub healthy : IndicatorHealth
healthy = record { errors = 0; warnings = 0; description = none }

-- `n` things, with an "s" unless it is one.
abbrev pub counted : ℕ → Text → Text
counted n thing = decimal n ++ text " " ++ thing ++ (if n == 1 then [] else text "s")

abbrev pub is_verified : LiveSyncStatus → Bool
is_verified live =
    live.verified && is_given live.last_success_at && or_zero live.pending_changes == 0

-- The phases of `transferPhases`, by what the indicator calls them.
abbrev pub action_of : SyncPhase → Option Text
action_of uploading = some (text "Sending")
action_of applying = some (text "Receiving")
action_of mirroring = some (text "Updating Seafile")
action_of committing = some (text "Saving")
action_of phase = none

abbrev pub is_committing : SyncPhase → Bool
is_committing committing = true
is_committing phase = false

abbrev pub is_scheduled : SyncPhase → Bool
is_scheduled scheduled = true
is_scheduled phase = false

abbrev pub plain :
    IndicatorKey → (label icon : String) → IndicatorTone → Bool → Text → IndicatorState
plain key label icon tone animated description = record {
  key = key;
  label = text label;
  icon = text icon;
  tone = tone;
  animated = animated;
  attention_count = 0;
  description = description;
}

abbrev pub reconnecting : LiveSyncStatus → Bool → IndicatorState
reconnecting live quiet =
    if quiet
    then plain checking "Checking connection" "check" success true (
        text
          "Last check confirmed this device was up to date. Reconnecting to verify the server again.")
    else if ltb 0 (or_zero live.pending_changes)
    then plain retrying "Reconnecting" "cloud-upload" active false
        (text "Your changes are saved on this device. Retrying the connection automatically.")
    else plain retrying "Reconnecting" "cloud" active false
        (text "Reconnecting to the server. This device has not confirmed its latest state yet.")

abbrev pub transferring : LiveSyncStatus → Text → IndicatorState
transferring live action = record {
  key = syncing;
  label = action;
  icon = text "refresh-cw";
  tone = active;
  animated = true;
  attention_count = 0;
  description =
      if ltb 0 (or_zero live.total)
      then action
        ++ text " "
        ++ decimal (min (or_zero live.current) (or_zero live.total))
        ++ text " of "
        ++ decimal (or_zero live.total)
        ++ text " files"
      else if is_committing live.phase
      then text "Saving this version in server history…"
      else action ++ text " changes…";
}

abbrev pub waiting : LiveSyncStatus → IndicatorState
waiting live =
    plain queued (if live.running then "Preparing sync" else "Changes to send") "cloud-upload"
      active false
      (counted (or_zero live.pending_changes) (text "change")
        ++ text " saved on this device "
        ++ (if live.running then text "being prepared for sync" else text "waiting to sync"))

abbrev pub checking_now : Bool → IndicatorState
checking_now verified =
    plain checking "Checking" "check" (if verified then success else neutral) true (
      if verified
      then text "Checking for changes. Last check confirmed this device was up to date."
      else text "Checking this device against the server.")

-- The last returns: nothing is transferred.
abbrev pub at_rest : LiveSyncStatus → IndicatorState
at_rest live =
    let verified = is_verified live in
    if ltb 0 (or_zero live.pending_changes)
    then waiting live
    else if live.running
    then checking_now verified
    else if is_scheduled live.phase && not verified
    then plain checking "Check scheduled" "cloud" neutral false
        (text "Waiting to check this device against the server.")
    else if not verified
    then plain checking "Not verified yet" "circle-dashed" neutral false
        (text "This device has not verified the current server state yet.")
    else plain synced "Up to date" "check" success false (
        if live.incoming_reconnecting
        then text
            "Last check confirmed this device was up to date. Live updates are reconnecting; automatic checks remain active."
        else text "This device has verified the latest server snapshot.")

abbrev pub moving : LiveSyncStatus → Option Text → IndicatorState
moving live none = at_rest live
moving live (some action) = if live.running then transferring live action else at_rest live

abbrev pub warned : LiveSyncStatus → IndicatorHealth → IndicatorState
warned live health =
    if ltb 0 health.warnings
    then plain attention "Needs attention" "triangle-alert" warning false
        (or_text health.description (counted health.warnings (text "health warning")))
    else moving live (action_of live.phase)

-- The returns that go by the phase, and what follows them.
abbrev pub by_phase : LiveSyncStatus → IndicatorHealth → SyncPhase → IndicatorState
by_phase live health blocked_phase =
    plain blocked "Needs attention" "shield-alert" warning false live.message
by_phase live health retrying_phase = reconnecting live (is_verified live && health.warnings == 0)
by_phase live health offline_phase =
    plain offline "Offline" "cloud-off" neutral false
      (text "Could not reach the server. Your changes remain on this device.")
by_phase live health error_phase =
    plain failed "Sync couldn’t finish" "triangle-alert" error false
      (first_given live.last_error live.message)
by_phase live health phase = warned live health

unfoldable pub derive_indicator_state :
    LiveSyncStatus
    → (configured is_blocked : Bool) → (attention_count : ℕ) → IndicatorHealth
    → IndicatorState
unfolding digits_of decimal
derive_indicator_state live configured is_blocked attention_count health =
    if not configured
    then plain setup "Setup" "circle-dashed" neutral false (text "Gib Sync is not configured")
    else if is_blocked
    then plain blocked "Paused" "pause-circle" neutral false (text "Synchronization is paused")
    else if ltb 0 attention_count
    then record (plain attention "Attention" "triangle-alert" warning false
        (counted attention_count (text "held change") ++ text " need review")) {
          attention_count = attention_count;
        }
    else if ltb 0 health.errors
    then plain failed "Needs repair" "cloud-off" error false
        (or_text health.description (counted health.errors (text "server health error")))
    else by_phase live health live.phase
