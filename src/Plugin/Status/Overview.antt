-- ===== src/Plugin/Status/Overview.antt =====
-- plugin/src/status-overview.ts: the facts and the quick status that are shown beside the
-- indicator. `Date.parse` and the date of the locale are arguments.
use gib_sync.Prelude.{
  ℕ, String, Bool, false, ◌&&◌, ◌||◌, not, Option, none, some, List, [], ◌∷◌, ◌++◌, keep, length,
  ltb, if◌then◌else◌, ◌==◌, nat_eq, string_eq, option_eq, is_some,
}
use gib_sync.Prelude.Text.{Text, text, text_eq}
use gib_sync.Prelude.Decimal.{decimal, digits_of}
use gib_sync.Protocol.ServerStatus.{ServerStatus, DeviceInfo, Projection}
use gib_sync.Plugin.Live.{LiveSyncStatus, or_zero, is_given}
use gib_sync.Plugin.Status.{IndicatorTone, neutral, success, active, warning, counted}

pub record SyncFact : Type 0 where
  pub label : Text
  pub value : Text
  pub detail : Text
  pub tone : IndicatorTone

abbrev pub head_of : Option ServerStatus → Option String
head_of none = none
head_of (some server) = elim server.head [ none ↦ none | some head ↦ some head.id ]

abbrev pub others_of : Option ServerStatus → List DeviceInfo
others_of none = []
others_of (some server) =
    keep (λ (d : DeviceInfo). not d.current && not (is_given d.revoked_at)) server.devices

abbrev pub caught_up : Option String → List DeviceInfo → ℕ
caught_up none devices = 0
caught_up (some head) devices =
    length (keep (λ (d : DeviceInfo). d.acknowledged_snapshot_id == some head) devices)

-- This device has received the head and has nothing left to send.
abbrev pub is_current : LiveSyncStatus → Option String → Option String → Bool
is_current live head local =
    is_some head && head == local && live.verified && or_zero live.pending_changes == 0

abbrev pub own_fact : LiveSyncStatus → Bool → SyncFact
own_fact live current =
    let pending = or_zero live.pending_changes in
    record {
      label = text "This device";
      value =
          if ltb 0 pending
          then counted pending (text "change") ++ text " waiting"
          else if current
          then text "Up to date"
          else if live.verified
          then text "Last check passed"
          else text "Checking";
      detail =
          if ltb 0 pending
          then text "Local changes have not finished syncing yet."
          else if current
          then text "This device confirmed the latest accepted server version."
          else text "A successful sync verifies what this device has received.";
      tone = if ltb 0 pending then active else if current then success else neutral;
    }

abbrev pub accepted_fact : ℕ → Option String → Option String → SyncFact
accepted_fact pending head local = record {
  label = text "Accepted server copy";
  value =
      if ltb 0 pending
      then text "Waiting for this device"
      else if not (is_some head)
      then text "Not verified"
      else if head == local
      then text "Received"
      else text "Updates available";
  detail =
      text "Accepted versions are stored in server history before other devices download them.";
  tone =
      if ltb 0 pending || is_some head && not (head == local)
      then active
      else if is_some head
      then success
      else neutral;
}

abbrev pub others_value : Bool → Option String → (caught others : ℕ) → Text
others_value known head caught others =
    if not known
    then text "Checking"
    else if others == 0
    then text "No other active devices"
    else if not (is_some head)
    then text "Not verified"
    else if caught == others
    then decimal caught ++ text " caught up"
    else decimal caught ++ text " of " ++ decimal others ++ text " confirmed"

abbrev pub others_fact : Bool → Option String → (caught others : ℕ) → SyncFact
others_fact known head caught others = record {
  label = text "Other devices";
  value = others_value known head caught others;
  detail =
      if others == 0
      then text "Add another device with manual setup or a temporary code."
      else text
          "A device is confirmed only after it acknowledges this accepted version; offline devices catch up when opened.";
  tone = if caught == others && ltb 0 others then success else neutral;
}

abbrev pub projection_error : Option Projection → Bool
projection_error none = false
projection_error (some p) = is_given p.last_error

abbrev pub readable : (value : Text) → IndicatorTone → SyncFact
readable value tone = record {
  label = text "Readable Seafile copy";
  value = value;
  detail =
      text
        "This readable copy is separate from accepted sync history. Other devices can sync while Seafile catches up.";
  tone = tone;
}

abbrev pub readable_fact : Option ServerStatus → SyncFact
readable_fact none = readable (text "Checking") neutral
readable_fact (some server) =
    if is_given server.external_error || projection_error server.projection
    then readable (text "Retrying safely") warning
    else if server.mirror_current
    then readable (text "Current") success
    else readable (text "Catching up") active

unfoldable pub build_sync_facts :
    LiveSyncStatus → Option ServerStatus → (local_snapshot : Option String) → List SyncFact
unfolding digits_of decimal
build_sync_facts live server local =
    let head = head_of server in
    let others = others_of server in
    own_fact live (is_current live head local)
    ∷ accepted_fact (or_zero live.pending_changes) head local
    ∷ others_fact (is_some server) head (caught_up head others) (length others)
    ∷ readable_fact server
    ∷ []

pub data QuickStatusAction : Type 0 where
  set_up resolve review resume open_settings sync : QuickStatusAction

pub record QuickStatusModel : Type 0 where
  pub description : Text
  pub meta : Text
  pub primary_action : QuickStatusAction
  pub primary_label : Text
  pub primary_disabled : Bool
