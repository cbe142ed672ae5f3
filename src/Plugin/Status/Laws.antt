-- ===== src/Plugin/Status/Laws.antt =====
-- plugin/src/status.ts: when the indicator says that all is well.
use gib_sync.Prelude.{
  ◌≡◌, refl, ℕ, Bool, true, false, ◌&&◌, ◌||◌, not, Option, none, some, ltb, ◌==◌, nat_eq,
  if◌then◌else◌, arith,
}
use gib_sync.Prelude.Text.{Text}
use gib_sync.Plugin.Live.{
  SyncPhase, not_configured, blocked_phase, idle, scheduled, checking_phase, retrying_phase,
  offline_phase, scanning, reading_remote, merging, applying, uploading, committing, mirroring,
  complete, up_to_date, error_phase, LiveSyncStatus,
}
use gib_sync.Plugin.Status.{
  success, synced, IndicatorState, IndicatorHealth, is_verified, at_rest, transferring, action_of,
  moving, warned, by_phase, reconnecting, derive_indicator_state,
}

abbrev pub is_synced : IndicatorState → Bool
is_synced s = elim s.key [ synced ↦ true | other ↦ false ]

abbrev pub is_success : IndicatorState → Bool
is_success s = elim s.tone [ success ↦ true | other ↦ false ]

-- A phase that is not a failure of its own.
abbrev pub is_calm : SyncPhase → Bool
is_calm blocked_phase = false
is_calm retrying_phase = false
is_calm offline_phase = false
is_calm error_phase = false
is_calm phase = true

at_rest-is_synced :
    (live : LiveSyncStatus) → is_synced (at_rest live) ≡ (is_verified live && not live.running)
at_rest-is_synced live = ground arith

at_rest-is_success :
    (live : LiveSyncStatus) → (not (is_success (at_rest live)) || is_verified live) ≡ true
at_rest-is_success live = ground arith

-- What is shown where nothing keeps it from being verified.
abbrev shows_synced : LiveSyncStatus → Bool
shows_synced live = is_verified live && not live.running

-- The two facts that each part of the derivation keeps; `here` is what else "Up to date" needs.
abbrev Honest : LiveSyncStatus → Bool → IndicatorState → Type 0
Honest live here s =
    (is_synced s ≡ (here && shows_synced live)) × ((not (is_success s) || is_verified live) ≡ true)

at_rest-Honest : (live : LiveSyncStatus) → Honest live true (at_rest live)
at_rest-Honest live = (at_rest-is_synced live, at_rest-is_success live)

moving_if-Honest :
    (live : LiveSyncStatus) (action : Text) (b : Bool)
    → live.running ≡ b
    → Honest live true (if b then transferring live action else at_rest live)
moving_if-Honest live action true r = (ground arith, refl)
moving_if-Honest live action false r = at_rest-Honest live

moving-Honest :
    (live : LiveSyncStatus) (action : Option Text) → Honest live true (moving live action)
moving-Honest live none = at_rest-Honest live
moving-Honest live (some action) = moving_if-Honest live action live.running refl

-- A return ahead of the others.
guarded-Honest :
    (live : LiveSyncStatus) (here b rest : Bool) (s t : IndicatorState)
    → is_synced s ≡ false
    → is_success s ≡ false
    → here ≡ (not b && rest)
    → Honest live rest t
    → Honest live here (if b then s else t)
guarded-Honest live here true rest s t k u e h = (ground arith, ground arith)
guarded-Honest live here false rest s t k u e h = (ground (arith, h.0), h.1)

warned-Honest :
    (live : LiveSyncStatus) (health : IndicatorHealth)
    → Honest live (health.warnings == 0) (warned live health)
warned-Honest live health =
    guarded-Honest live (health.warnings == 0) (ltb 0 health.warnings) true _ _ refl refl
      (ground arith) (moving-Honest live (action_of live.phase))

reconnecting-Honest :
    (live : LiveSyncStatus) (quiet : Bool)
    → (not quiet || is_verified live) ≡ true
    → Honest live false (reconnecting live quiet)
reconnecting-Honest live quiet h = (ground arith, ground arith)

by_phase-Honest :
    (live : LiveSyncStatus) (health : IndicatorHealth) (phase : SyncPhase)
    → Honest live (is_calm phase && health.warnings == 0) (by_phase live health phase)
by_phase-Honest live health blocked_phase = (refl, refl)
by_phase-Honest live health offline_phase = (refl, refl)
by_phase-Honest live health error_phase = (refl, refl)
by_phase-Honest live health retrying_phase =
    reconnecting-Honest live (is_verified live && health.warnings == 0) (ground arith)
by_phase-Honest live health not_configured = warned-Honest live health
by_phase-Honest live health idle = warned-Honest live health
by_phase-Honest live health scheduled = warned-Honest live health
by_phase-Honest live health checking_phase = warned-Honest live health
by_phase-Honest live health scanning = warned-Honest live health
by_phase-Honest live health reading_remote = warned-Honest live health
by_phase-Honest live health merging = warned-Honest live health
by_phase-Honest live health applying = warned-Honest live health
by_phase-Honest live health uploading = warned-Honest live health
by_phase-Honest live health committing = warned-Honest live health
by_phase-Honest live health mirroring = warned-Honest live health
by_phase-Honest live health complete = warned-Honest live health
by_phase-Honest live health up_to_date = warned-Honest live health

-- The indicator says "Up to date" exactly where the device is configured and not blocked, nothing is
-- held back, the server has no errors and no warnings, the last check succeeded with no change left
-- to send, no synchronization runs, and the phase is none of the failures; and it shows the tone of
-- success only where the last check succeeded with no change left to send.
pub derive_indicator_state-is_synced :
    (live : LiveSyncStatus) (configured is_blocked : Bool) (attention_count : ℕ)
    (health : IndicatorHealth)
    → (is_synced (derive_indicator_state live configured is_blocked attention_count health) ≡ (
        (configured
          && not is_blocked
          && attention_count == 0
          && health.errors == 0
          && is_calm live.phase
          && health.warnings == 0)
        && (is_verified live && not live.running)))
      × ((not (
              is_success (derive_indicator_state live configured is_blocked attention_count health))
            || is_verified live)
          ≡ true)
unfolding derive_indicator_state
derive_indicator_state-is_synced live configured is_blocked attention_count health =
    guarded-Honest live _ (not configured)
      (not is_blocked
        && attention_count == 0
        && health.errors == 0
        && is_calm live.phase
        && health.warnings == 0)
      _ _ refl refl (ground arith)
      (guarded-Honest live _ is_blocked
        (attention_count == 0 && health.errors == 0 && is_calm live.phase && health.warnings == 0) _
        _ refl refl (ground arith)
        (guarded-Honest live _ (ltb 0 attention_count)
          (health.errors == 0 && is_calm live.phase && health.warnings == 0) _ _ refl refl
          (ground arith)
          (guarded-Honest live _ (ltb 0 health.errors) (is_calm live.phase && health.warnings == 0)
            _ _ refl refl (ground arith) (by_phase-Honest live health live.phase))))
