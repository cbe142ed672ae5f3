-- ===== src/Server/Rollout/Control/Reached.antt =====
-- apps/server/src/reconciliation-rollout.ts: the states that the calls lead to, in any order.
use gib_sync.Prelude.{◌≡◌, refl, ℕ, String, Bool, true, false, Option, List, arith}
use gib_sync.Prelude.Text.{Text}
use gib_sync.Prelude.Result.{ok}
use gib_sync.Server.Rollout.Control.{
  is_hold, Observation, unresolved, Release, Rollout, new_rollout, Deployment, is_release, status,
  allows, observe, accepted,
}
use gib_sync.Server.Rollout.Control.Reviews.{
  review_discrepancy, authorize_canary, activate, review_release,
}
use gib_sync.Server.Rollout.Control.Rows.{is_held, same-is_held, no_other, same_if, not_hold}
use gib_sync.Server.Rollout.Control.Held.{
  status-is_held, observe-is_held, review_discrepancy-is_held, authorize_canary-is_held,
  activate-is_held, review_release-is_held, accepted-is_held,
}

-- From a vault that is new; the release may be reviewed by way of another vault at any time.
pub data Reached (D : Deployment) : Rollout → Type 0 where
  started : (release : Option Release) → Reached D (new_rollout release)
  looked : (at_rest : Bool) (r : Rollout) → Reached D r → Reached D (status D at_rest r)
  observed :
      (at_rest : Bool) (o : Observation) (r : Rollout)
      → Reached D r
      → Reached D (observe D at_rest o r)
  reviewed :
      (fingerprint candidate : String) (report : Text) (r s : Rollout)
      → Reached D r
      → review_discrepancy fingerprint candidate report r ≡ ok s
      → Reached D s
  authorized :
      (at_rest scoped is_ready verified : Bool) (device : String) (report : Text) (sequence : ℕ)
      (r : Rollout)
      → Reached D r
      → Reached D (authorize_canary D at_rest scoped is_ready verified device report sequence r).1
  activated :
      (at_rest : Bool) (reports : List Text) (r : Rollout)
      → Reached D r
      → Reached D (activate D at_rest reports r).1
  promoted :
      (at_rest : Bool) (evidence : Release) (reports : List Text) (r : Rollout)
      → Reached D r
      → Reached D (review_release D at_rest evidence reports r).1
  batch_accepted :
      (batches : ℕ → ℕ) (device : String) (r : Rollout)
      → Reached D r
      → Reached D (accepted batches device r)
  released :
      (release : Option Release) (r : Rollout)
      → Reached D r
      → Reached D (record r { release = release })

module _ (D : Deployment) where
  Reached-is_held : (r : Rollout) → Reached D r → is_held r ≡ true
  unfolding is_held
  Reached-is_held r (started release) = refl
  Reached-is_held s (looked at_rest r p) = status-is_held D at_rest r (Reached-is_held r p)
  Reached-is_held s (observed at_rest o r p) = observe-is_held D at_rest o r (Reached-is_held r p)
  Reached-is_held s (reviewed fingerprint candidate report r t p e) =
      review_discrepancy-is_held D fingerprint candidate report r (Reached-is_held r p) e
  Reached-is_held s (authorized at_rest scoped is_ready verified device report sequence r p) =
      authorize_canary-is_held D at_rest scoped is_ready verified device report sequence r
        (Reached-is_held r p)
  Reached-is_held s (activated at_rest reports r p) =
      activate-is_held D at_rest reports r (Reached-is_held r p)
  Reached-is_held s (promoted at_rest evidence reports r p) =
      review_release-is_held D at_rest evidence reports r (Reached-is_held r p)
  Reached-is_held s (batch_accepted batches device r p) =
      accepted-is_held batches device r (Reached-is_held r p)
  Reached-is_held s (released release r p) =
      same-is_held r (record r { release = release }) refl refl (Reached-is_held r p)

  on_hold-status : (at_rest : Bool) (r : Rollout) → is_hold r.mode ≡ true → status D at_rest r ≡ r
  unfolding status
  on_hold-status at_rest r h =
      rw ((no_other r.mode h).0, (no_other r.mode h).1)
        (same_if (is_release D D.digest r.release) r)

  -- In every state that the calls lead to, whatever their order: while a mismatch awaits its
  -- review, the vault is on hold, and no device is let through.
  pub Reached-allows :
      (r : Rollout) (at_rest : Bool) (device : String)
      → Reached D r
      → unresolved r ≡ true
      → (is_hold r.mode ≡ true) × (allows D at_rest device r ≡ false)
  unfolding allows is_held
  Reached-allows r at_rest device p u =
      let held : is_hold r.mode ≡ true = ground (arith, Reached-is_held r p) in
      (held, rw (on_hold-status at_rest r held) (ground (arith, not_hold r.mode)))
