-- ===== src/Plugin/Recovery.antt =====
-- plugin/src/sync-recovery.ts: `recoverSync` runs the reconciliation again after a passing failure.
-- The operation and `shouldContinue` are parameters: they may answer differently at each attempt.
-- Waiting and `onRetry` are what the trace records.
pub mod Laws
pub mod Tests
use gib_sync.Prelude.{
  ℕ, ◌+◌, Bool, true, false, ◌||◌, Option, none, some, List, [], ◌∷◌, length, ltb, contains, nat_eq,
  if◌then◌else◌,
}
use gib_sync.Prelude.Result.{Result, ok, err}

pub data SyncError : Type 0 where
  transport_error : SyncError
  api_error : (status : ℕ) → SyncError
  other_error : SyncError

unfoldable pub is_transient_sync_error : SyncError → Bool
is_transient_sync_error transport_error = true
is_transient_sync_error (api_error status) =
    contains (408 ∷ 409 ∷ 429 ∷ 500 ∷ 502 ∷ 503 ∷ 504 ∷ []) status
is_transient_sync_error other_error = false

pub data Outcome (A : Type 0) : Type 0 where
  returned : A → Outcome A
  thrown : SyncError → Outcome A
  cancelled : Outcome A

-- The call of `onRetry` before a wait.
pub record Retry : Type 0 where
  pub error : SyncError
  pub attempt : ℕ
  pub delay : ℕ

abbrev pub delays : List ℕ
delays = 2000 ∷ 5000 ∷ 10000 ∷ []

module _ {A : Type 0} (operation : ℕ → Result SyncError A) (should_continue : ℕ → Bool) where
  abbrev pub log_retry : Retry → Outcome A × List Retry → Outcome A × List Retry
  log_retry r (outcome, retries) = (outcome, r ∷ retries)

  -- The loop from an attempt on, with the delays that are left for the attempts after it.
  unfoldable pub attempts_from : ℕ → List ℕ → Outcome A × List Retry
  attempts_from attempt [] =
      if should_continue attempt
      then elim (operation attempt) [
        | ok value ↦ (returned value, [])
        | err error ↦ (thrown error, [])
      ]
      else (cancelled, [])
  attempts_from attempt (delay ∷ later) =
      let again = attempts_from (attempt + 1) later in
      if should_continue attempt
      then elim (operation attempt) [
        | ok value ↦ (returned value, [])
        | err error ↦
            if is_transient_sync_error error
            then log_retry (record { error = error; attempt = attempt + 1; delay = delay }) again
            else (thrown error, [])
      ]
      else (cancelled, [])

  unfoldable pub recover_sync : Outcome A × List Retry
  unfolding attempts_from
  recover_sync = attempts_from 0 delays
