-- ===== src/Plugin/Recovery/Tests.antt =====
-- A run of plugin/src/sync-recovery.ts, and the theorem about it there.
use gib_sync.Prelude.{ℕ, zero, suc, ◌≡◌, refl, Bool, true, String}
use gib_sync.Prelude.Result.{Result, ok, err}
use gib_sync.Plugin.Recovery.{SyncError, transport_error, api_error, returned, delays, recover_sync}
use gib_sync.Plugin.Recovery.Laws.{Accounted, recover_sync-Accounted}

-- The network is away, then the server is busy, then it answers.
abbrev flaky : ℕ → Result SyncError String
flaky zero = err transport_error
flaky (suc zero) = err (api_error 503)
flaky (suc (suc n)) = ok "synced"

abbrev always : ℕ → Bool
always attempt = true

synced : (recover_sync flaky always).0 ≡ returned "synced"
unfolding recover_sync gib_sync.Plugin.Recovery.is_transient_sync_error
synced = refl

recover_sync-Accounted_example : Accounted flaky always 0 delays (recover_sync flaky always)
recover_sync-Accounted_example = recover_sync-Accounted flaky always
