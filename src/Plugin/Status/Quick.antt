-- ===== src/Plugin/Status/Quick.antt =====
-- plugin/src/status-overview.ts: `buildQuickStatusModel`.
use gib_sync.Prelude.{
  ℕ, ◌+◌, ◌-◌, ◌/◌, min, max, Bool, true, false, ◌||◌, not, Option, none, some, ◌++◌, ltb,
  if◌then◌else◌, ◌==◌, nat_eq,
}
use gib_sync.Prelude.Text.{Text, text, text_eq}
use gib_sync.Prelude.Decimal.{decimal, digits_of}
use gib_sync.Prelude.Regex.{one, followed, many, matches, literally, anywhere}
use gib_sync.Protocol.Host.{ascii}
use gib_sync.Plugin.Live.{LiveSyncStatus, or_zero, is_given, first_given}
use gib_sync.Plugin.Status.{
  IndicatorKey, setup, blocked, attention, checking, retrying, offline, syncing, queued, synced,
  failed, IndicatorState, counted,
}
use gib_sync.Plugin.Status.Overview.{
  QuickStatusAction, set_up, resolve, review, resume, open_settings, sync, QuickStatusModel,
}

module _ (parse : Text → Option ℕ) (locale_date : ℕ → Text) where
  abbrev pub ago : ℕ → Text → Text
  ago n unit = decimal n ++ unit

  abbrev pub since : (timestamp now : ℕ) → Text
  since timestamp now =
      let seconds = (now - timestamp) / 1000 in
      let minutes = seconds / 60 in
      let hours = minutes / 60 in
      let days = hours / 24 in
      if ltb seconds 10
      then text "just now"
      else if ltb seconds 60
      then ago seconds (text " sec ago")
      else if ltb minutes 60
      then ago minutes (text " min ago")
      else if ltb hours 24
      then ago hours (text " hr ago")
      else if ltb days 7
      then counted days (text "day") ++ text " ago"
      else locale_date timestamp

  unfoldable pub relative_time : Option Text → (now : ℕ) → Text
  unfolding digits_of decimal
  relative_time none now = text "never"
  relative_time (some value) now =
      if is_given (some value)
      then elim (parse value) [ none ↦ text "never" | some timestamp ↦ since timestamp now ]
      else text "never"

  abbrev pub describe : IndicatorState → LiveSyncStatus → IndicatorKey → Text
  describe state live blocked =
      first_given state.description (text "Synchronization is safely paused.")
  describe state live attention =
      if ltb 0 state.attention_count
      then counted state.attention_count (text "held change") ++ text " need review."
      else first_given state.description (text "Gib Sync needs your attention.")
  describe state live syncing = state.description
  describe state live checking = state.description
  describe state live retrying = state.description
  describe state live offline = state.description
  describe state live queued = state.description
  describe state live failed =
      first_given live.last_error (first_given state.description (text "Sync could not finish."))
  describe state live setup = text "Your vault is up to date."
  describe state live synced = text "Your vault is up to date."

  -- A time that cannot be read is `NaN`, which `Math.max` passes on.
  abbrev pub retry_text : Option ℕ → (now : ℕ) → Text
  retry_text none now = text "Retrying in NaN sec"
  retry_text (some next) now =
      text "Retrying in " ++ decimal (max 1 ((next - now + 999) / 1000)) ++ text " sec"

  abbrev pub retry_meta : Option Text → (now : ℕ) → Text
  retry_meta none now = text "Retrying automatically"
  retry_meta (some next) now =
      if is_given (some next) then retry_text (parse next) now else text "Retrying automatically"

  abbrev pub verified_meta : LiveSyncStatus → (now : ℕ) → Text
  verified_meta live now =
      if is_given live.last_success_at
      then text "Last verified " ++ relative_time live.last_success_at now
      else text "Not verified yet"

  abbrev pub meta_of : LiveSyncStatus → (now : ℕ) → IndicatorKey → Text
  meta_of live now syncing =
      let total = or_zero live.total in
      if ltb 0 total
      then decimal (min (or_zero live.current) total)
        ++ text " of "
        ++ decimal total
        ++ text " files"
      else text "Working now"
  meta_of live now retrying = retry_meta live.next_sync_at now
  meta_of live now queued =
      let pending = or_zero live.pending_changes in
      if ltb 0 pending then counted pending (text "pending change") else text "Waiting to check"
  meta_of live now key = verified_meta live now

  -- `/emergency containment/i`
  abbrev pub names_containment : Text → Bool
  names_containment description =
      matches
        (anywhere (followed (literally (text "emergency containment")) (many (one (λ c. true)))))
        (ascii.lower description)

  abbrev pub sync_label : LiveSyncStatus → IndicatorKey → Text
  sync_label live key =
      if live.running
      then elim key [
        | checking ↦ text "Checking…"
        | retrying ↦ text "Retrying…"
        | other ↦ text "Syncing…"
      ]
      else elim key [
        | failed ↦ text "Try again"
        | offline ↦ text "Try again"
        | other ↦ text "Sync now"
      ]

  abbrev pub is_blocked_key : IndicatorKey → Bool
  is_blocked_key blocked = true
  is_blocked_key key = false

  -- The action, its label and whether it is disabled.
  abbrev pub primary_of :
      IndicatorState
      → LiveSyncStatus
      → (configured native_sync_blocked paused : Bool) → QuickStatusAction × Text × Bool
  primary_of state live configured native_sync_blocked paused =
      if not configured
      then (set_up, text "Set up", false)
      else if native_sync_blocked
      then (resolve, text "Resolve", false)
      else if ltb 0 state.attention_count
      then (review, text "Review", false)
      else if paused
      then (resume, text "Resume", false)
      else if is_blocked_key state.key
      then (if state.label == text "Server paused" || names_containment state.description
          then (sync, text "Server paused", true)
          else (open_settings, text "Open settings", false))
      else (sync, sync_label live state.key, live.running)

  unfoldable pub build_quick_status_model :
      IndicatorState
      → LiveSyncStatus
      → (configured native_sync_blocked paused : Bool) → (now : ℕ) → QuickStatusModel
  unfolding digits_of decimal relative_time matches
  build_quick_status_model state live configured native_sync_blocked paused now =
      let primary = primary_of state live configured native_sync_blocked paused in
      record {
        description =
            if not configured
            then text "Connect this vault to start syncing."
            else if native_sync_blocked
            then text "Turn off Obsidian Sync to continue safely."
            else if paused
            then text "Automatic syncing is paused."
            else describe state live state.key;
        meta = if not configured then text "Not connected" else meta_of live now state.key;
        primary_action = primary.0;
        primary_label = primary.1;
        primary_disabled = primary.2;
      }
