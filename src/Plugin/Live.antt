-- ===== src/Plugin/Live.antt =====
-- plugin/src/settings.ts: the live status of a device's synchronization.
use gib_sync.Prelude.{ℕ, Bool, true, false, Option, none, some, List, [], ◌∷◌, if◌then◌else◌}
use gib_sync.Prelude.Text.{Text, text}

pub data SyncPhase : Type 0 where
  not_configured blocked_phase idle scheduled checking_phase retrying_phase offline_phase :
      SyncPhase
  scanning reading_remote merging applying uploading committing mirroring : SyncPhase
  complete up_to_date error_phase : SyncPhase

pub data ActivityLevel : Type 0 where
  info_level success_level warning_level error_level : ActivityLevel

pub record SyncActivity : Type 0 where
  pub at : Text
  pub phase : SyncPhase
  pub level : ActivityLevel
  pub message : Text
  pub current : Option ℕ
  pub total : Option ℕ
  pub repeats : Option ℕ

pub record LiveSyncStatus : Type 0 where
  pub phase : SyncPhase
  pub message : Text
  pub running : Bool
  pub current : Option ℕ
  pub total : Option ℕ
  pub started_at : Option Text
  pub completed_at : Option Text
  pub last_success_at : Option Text
  pub last_error_at : Option Text
  pub last_error : Text
  pub last_result : Text
  pub next_sync_at : Option Text
  pub activities : List SyncActivity
  pub verified : Bool
  pub pending_changes : Option ℕ
  pub incoming_reconnecting : Bool

abbrev pub initial_live_status : Bool → LiveSyncStatus
initial_live_status configured = record {
  phase = if configured then idle else not_configured;
  message = if configured then text "Ready" else text "Not configured";
  running = false;
  current = none;
  total = none;
  started_at = none;
  completed_at = none;
  last_success_at = none;
  last_error_at = none;
  last_error = [];
  last_result = [];
  next_sync_at = none;
  activities = [];
  verified = false;
  pending_changes = none;
  incoming_reconnecting = false;
}

-- What JavaScript takes a missing number, a missing text and an empty one for.
abbrev pub or_zero : Option ℕ → ℕ
or_zero none = 0
or_zero (some n) = n

abbrev pub is_given : Option Text → Bool
is_given none = false
is_given (some []) = false
is_given (some (c ∷ s)) = true

abbrev pub first_given : Text → Text → Text
first_given [] other = other
first_given (c ∷ s) other = c ∷ s

abbrev pub or_text : Option Text → Text → Text
or_text none other = other
or_text (some s) other = s
