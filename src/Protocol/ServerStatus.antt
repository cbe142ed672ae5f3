-- ===== src/Protocol/ServerStatus.antt =====
-- packages/protocol/src/index.ts: what the server tells a device of its vault.
use gib_sync.Prelude.{ℕ, String, Bool, Option, List}
use gib_sync.Prelude.Text.{Text}
use gib_sync.Server.FolderMigration.{Snapshot}
use gib_sync.Server.Safeguards.{SafeguardPolicy}

pub record StorageLocation : Type 0 where
  pub seafile_url : Text
  pub username : Text
  pub library_id : Text
  pub library_name : Text
  pub base_path : Text
  pub readable_path : Text

pub record ServerContainmentStatus : Type 0 where
  pub active : Bool
  pub this_vault_allowed : Bool
  pub enabled_at : Option Text
  pub reason : Option Text

pub record SafeguardState : Type 0 where
  pub policy : SafeguardPolicy
  pub write_locked : Bool
  pub write_locked_at : Option Text
  pub write_locked_by : Option Text
  pub trusted_until : Option Text
  pub pending_quarantines : ℕ

pub data AlertLevel : Type 0 where
  info warning error : AlertLevel

pub record HealthAlert : Type 0 where
  pub code : Text
  pub level : AlertLevel
  pub message : Text
  pub at : Text

pub data DeviceCompatibility : Type 0 where
  compatible_device update_available incompatible : DeviceCompatibility

pub record DeviceInfo : Type 0 where
  pub id : Text
  pub name : Text
  pub created_at : Text
  pub last_seen_at : Text
  pub revoked_at : Option Text
  pub ready : Bool
  -- its size: the skew is signed, and nothing here reads it
  pub clock_skew_ms : ℕ
  pub current : Bool
  pub client_version : Option Text
  pub client_protocol : Option ℕ
  pub compatibility : DeviceCompatibility
  pub acknowledged_snapshot_id : Option String
  pub acknowledged_at : Option Text

pub record ClientCompatibility : Type 0 where
  pub client_version : Option Text
  pub client_protocol : Option ℕ
  pub minimum_version : Text
  pub recommended_version : Text
  pub server_protocol : ℕ
  pub server_version : Option Text
  pub server_capabilities : List Text
  pub compatible : Bool
  pub update_available : Bool
  pub reason : Option Text

pub data ProjectionState : Type 0 where
  idle_projection queued_projection running_projection retrying_projection : ProjectionState

pub record Projection : Type 0 where
  pub state : ProjectionState
  pub attempts : ℕ
  pub last_error : Option Text

pub record ServerStatus : Type 0 where
  pub protocol_version : ℕ
  pub server_version : Option Text
  pub server_capabilities : List Text
  pub vault_id : Text
  pub vault_name : Text
  pub device_id : Text
  pub device_name : Text
  pub device_count : ℕ
  pub snapshot_count : ℕ
  pub blob_count : ℕ
  pub blob_bytes : ℕ
  pub head : Option Snapshot
  pub storage : StorageLocation
  pub server_time : Text
  pub mirror_head_id : Option Text
  pub mirror_file_count : ℕ
  pub mirror_current : Bool
  pub external_scan_at : Option Text
  pub external_import_at : Option Text
  pub external_error : Option Text
  pub containment : Option ServerContainmentStatus
  pub safeguards : SafeguardState
  pub health_alerts : List HealthAlert
  pub devices : List DeviceInfo
  pub client_compatibility : ClientCompatibility
  pub projection : Option Projection
