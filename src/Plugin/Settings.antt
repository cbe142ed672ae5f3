-- ===== src/Plugin/Settings.antt =====
-- plugin/src/settings.ts: the settings of a device, and the paths that they keep from
-- synchronization.
pub mod Paths
pub mod Sync
pub mod Laws
pub mod Tests
use gib_sync.Prelude.{ℕ, String, Bool, true, false, Option, none, some, List, [], ◌∷◌}
use gib_sync.Prelude.Text.{Text, text}
use gib_sync.Prelude.Dict.{Dict}
use gib_sync.Protocol.Model.{ManifestEntry}
use gib_sync.Protocol.ServerStatus.{StorageLocation}

pub record RetiredPathState : Type 0 where
  pub hash : String
  pub snapshot_id : String
  pub retired_at : ℕ

pub record PendingCommit : Type 0 where
  pub intent_sequence : Option ℕ
  pub parent_id : Option String
  pub fingerprint : String
  pub prior_hashes : Dict Text (Option String)
  pub prior_entries : Option (Dict Text ManifestEntry)

pub data ApplyPhase : Type 0 where
  planned staged backed_up promoting applied : ApplyPhase

pub record ApplyOperation : Type 0 where
  pub namespace_path : Option Text
  pub target_hash : Option String
  pub prior_hash : Option String
  pub stage_path : Text
  pub backup_path : Text
  pub phase : ApplyPhase

pub data HoldKind : Type 0 where
  incomplete activation : HoldKind

-- An entry that was there before, and the path at which its bytes are kept.
pub record HeldEntry : Type 0 where
  pub entry : ManifestEntry
  pub source_path : Option Text

pub record PackageHold : Type 0 where
  pub reason : Text
  pub at : ℕ
  pub kind : Option HoldKind
  pub attempts : Option ℕ
  pub retry_at : Option ℕ
  pub fingerprint : Option String
  pub prior_entries : Option (Dict Text HeldEntry)

pub data OnboardingMode : Type 0 where
  preserve_local server_first : OnboardingMode

pub record PendingMove : Type 0 where
  pub from : Text
  pub to : Text
  pub at : ℕ

-- `B` is the type of `vaultLocationBinding`, which only plugin/src/vault-location.ts reads.
pub record GibSyncSettings (B : Type 0) : Type 0 where
  pub package_holds : Dict Text PackageHold
  pub config_dir : Text
  pub onboarding_mode : OnboardingMode
  pub pending_moves : List PendingMove
  pub file_creation_times : Dict Text ℕ
  pub observed_folder_snapshot_id : Option String
  pub server_url : Text
  pub vault_id : Text
  pub vault_name : Text
  pub vault_key : Text
  pub device_id : Text
  pub device_name : Text
  pub device_token : Text
  pub last_snapshot_id : Option String
  pub initialized : Bool
  pub auto_sync : Bool
  pub instant_receive : Bool
  pub sync_on_file_change : Bool
  pub paused : Bool
  pub server_diagnostic_logging : Bool
  pub sync_interval_seconds : ℕ
  pub sync_bookmarks : Bool
  pub sync_obsidian_config : Bool
  pub sync_plugins : Bool
  pub plugin_sync_bootstrap_pending : Bool
  pub exclusions : List Text
  pub desktop_status_icon : Bool
  pub desktop_status_text : Bool
  pub mobile_sidebar_indicator : Bool
  pub mobile_top_indicator : Bool
  pub animate_status_indicator : Bool
  pub show_attention_badge : Bool
  pub vault_identity : Text
  pub vault_location_binding : Option B
  pub pending_paths : List Text
  pub pending_path_times : Dict Text ℕ
  pub pending_apply_paths : List Text
  pub pending_apply_snapshot_id : Option String
  pub pending_apply_base_snapshot_id : Option String
  pub pending_apply_prior_hashes : Dict Text (Option String)
  pub retired_paths : Dict Text RetiredPathState
  pub pending_commit : Option PendingCommit
  pub pending_apply_operations : Dict Text ApplyOperation
  pub pending_apply_prior_entries : Dict Text ManifestEntry
  pub local_reconcile_bases : Dict Text (Option ManifestEntry)
  pub folder_create_times : Dict Text ℕ
  pub folder_cleanup_version : ℕ
  pub last_folder_cleanup_at : ℕ
  pub last_folder_cleanup_error : Text
  pub retired_folder_count : ℕ
  pub retired_folder_note : Text
  pub full_scan_required : Bool
  pub last_full_scan_at : Option Text
  pub storage : Option StorageLocation
  pub last_success_at : Option Text
  pub last_error_at : Option Text
  pub last_error : Text
  pub last_result : Text

abbrev pub default_settings : {B : Type 0} → GibSyncSettings B
default_settings = record {
  package_holds = [];
  config_dir = text ".obsidian";
  onboarding_mode = preserve_local;
  pending_moves = [];
  file_creation_times = [];
  observed_folder_snapshot_id = none;
  server_url = [];
  vault_id = [];
  vault_name = [];
  vault_key = [];
  device_id = [];
  device_name = [];
  device_token = [];
  last_snapshot_id = none;
  initialized = false;
  auto_sync = true;
  instant_receive = true;
  sync_on_file_change = true;
  paused = false;
  server_diagnostic_logging = false;
  sync_interval_seconds = 60;
  sync_bookmarks = true;
  sync_obsidian_config = false;
  sync_plugins = false;
  plugin_sync_bootstrap_pending = false;
  exclusions = text ".trash/" ∷ text ".git/" ∷ text ".obsidian/plugins/gib-sync/" ∷ [];
  desktop_status_icon = true;
  desktop_status_text = true;
  mobile_sidebar_indicator = true;
  mobile_top_indicator = false;
  animate_status_indicator = true;
  show_attention_badge = true;
  vault_identity = [];
  vault_location_binding = none;
  pending_paths = [];
  pending_path_times = [];
  pending_apply_paths = [];
  pending_apply_snapshot_id = none;
  pending_apply_base_snapshot_id = none;
  pending_apply_prior_hashes = [];
  retired_paths = [];
  pending_commit = none;
  pending_apply_operations = [];
  pending_apply_prior_entries = [];
  local_reconcile_bases = [];
  folder_create_times = [];
  folder_cleanup_version = 5;
  last_folder_cleanup_at = 0;
  last_folder_cleanup_error = [];
  retired_folder_count = 0;
  retired_folder_note = [];
  full_scan_required = true;
  last_full_scan_at = none;
  storage = none;
  last_success_at = none;
  last_error_at = none;
  last_error = [];
  last_result = [];
}
