-- ===== src/Server/Rollout/Control/Held.antt =====
-- apps/server/src/reconciliation-rollout.ts: a mismatch that nobody has reviewed holds the vault.
use gib_sync.Prelude.{
  ◌≡◌, refl, subst, ℕ, String, Bool, true, false, ◌&&◌, not, some, List, [], ◌∷◌, ◌++◌, map,
  some_of, if◌then◌else◌, arith, Bool-cases, inl, inr,
}
use gib_sync.Prelude.Text.{Text}
use gib_sync.Prelude.Result.{Result, ok, err, ok-injective}
use gib_sync.Server.Rollout.Control.{
  shadow, canary, active, is_active, Observation, unresolved, Release, Rollout, Deployment,
  is_release, demote, promote, status, observe, add_observation, seen, accepted, RolloutError,
  discrepancy_review, canary_review, activation_review, not_reviewed, not_released,
}
use gib_sync.Server.Rollout.Control.Reviews.{
  mark_reviewed, release_hold, review_discrepancy, authorize_canary, activate, review_release,
  bars_canary, bars_activation, is_report, is_subject,
}
use gib_sync.Server.Rollout.Control.Rows.{
  is_held, not_hold, choose-is_held, settle-is_held, guarded-is_held, same-is_held, settled,
  free-is_held, unresolved-append, unresolved-mark,
}

release_hold-is_held : (r : Rollout) → is_held r ≡ true → is_held (release_hold r) ≡ true
release_hold-is_held r h =
    choose-is_held _ (record r { mode = shadow; held = false }) r
      (λ a. free-is_held (record r { mode = shadow; held = false }) (ground arith)) (λ a. h)

-- The row with one observation marked as reviewed.
abbrev marked : String → Rollout → Rollout
marked fingerprint r = record r {
  reviews = r.reviews ++ (discrepancy_review ∷ []);
  observations = map (mark_reviewed fingerprint) r.observations;
}

marked-is_held :
    (fingerprint : String) (r : Rollout) → is_held r ≡ true → is_held (marked fingerprint r) ≡ true
unfolding is_held
marked-is_held fingerprint r h = ground (arith, unresolved-mark fingerprint r.observations)

reviewed-is_held :
    (b : Bool) (fingerprint : String) (r : Rollout) {s : Rollout}
    → is_held r ≡ true
    → ◌≡◌ {A = Result RolloutError Rollout}
        (if b then ok (release_hold (marked fingerprint r)) else err not_reviewed)
        (ok s)
    → is_held s ≡ true
reviewed-is_held true fingerprint r h e =
    subst (λ s. is_held s ≡ true) (ok-injective e)
      (release_hold-is_held (marked fingerprint r) (marked-is_held fingerprint r h))
reviewed-is_held false fingerprint r h e = absurd (cc)

module _ (D : Deployment) where
  demote-is_held : (r : Rollout) → is_held r ≡ true → is_held (demote r) ≡ true
  demote-is_held r h =
      choose-is_held (is_active r.mode) _ r
        (λ a. free-is_held (record r { mode = shadow }) (settled r h ((not_hold r.mode).0 a)))
        (λ a. h)

  promote-is_held :
      (at_rest : Bool) (r : Rollout) → is_held r ≡ true → is_held (promote D at_rest r) ≡ true
  promote-is_held at_rest r h =
      choose-is_held _ _ r (λ a. free-is_held (record r { mode = active }) (ground arith)) (λ a. h)

  pub status-is_held :
      (at_rest : Bool) (r : Rollout) → is_held r ≡ true → is_held (status D at_rest r) ≡ true
  unfolding status
  status-is_held at_rest r h =
      choose-is_held (is_release D D.digest r.release) _ _ (λ a. promote-is_held at_rest r h)
        (λ a. demote-is_held r h)

  add_observation-is_held :
      (o : Observation) (r : Rollout) → is_held r ≡ true → is_held (add_observation o r) ≡ true
  unfolding is_held
  add_observation-is_held o r h = elim (Bool-cases o.matched) [
    | inl m ↦ rw m (ground (arith, unresolved-append r.observations o))
    | inr m ↦ rw m (ground arith)
  ]

  pub observe-is_held :
      (at_rest : Bool) (o : Observation) (r : Rollout)
      → is_held r ≡ true
      → is_held (observe D at_rest o r) ≡ true
  unfolding observe
  observe-is_held at_rest o r h =
      let s = status D at_rest r in
      let held = status-is_held at_rest r h in
      status-is_held at_rest _ (
        choose-is_held (seen o.fingerprint s) s _ (λ e. held)
          (λ e. add_observation-is_held o s held))

  pub review_discrepancy-is_held :
      (fingerprint candidate : String) (report : Text) (r : Rollout) {s : Rollout}
      → is_held r ≡ true
      → review_discrepancy fingerprint candidate report r ≡ ok s
      → is_held s ≡ true
  unfolding review_discrepancy
  review_discrepancy-is_held fingerprint candidate report r h e =
      reviewed-is_held
        (some_of (is_subject fingerprint candidate) r.observations && is_report report) fingerprint
        r h e

  bars_canary-unresolved :
      (verified is_ready : Bool) (report : Text) (s : Rollout)
      → bars_canary D verified is_ready report s ≡ false
      → unresolved s ≡ false
  bars_canary-unresolved verified is_ready report s b = ground arith

  bars_activation-unresolved :
      (reports : List Text) (s : Rollout)
      → bars_activation D reports s ≡ false
      → unresolved s ≡ false
  bars_activation-unresolved reports s b = ground arith

  pub authorize_canary-is_held :
      (at_rest scoped is_ready verified : Bool) (device : String) (report : Text) (sequence : ℕ)
      (r : Rollout)
      → is_held r ≡ true
      → is_held (authorize_canary D at_rest scoped is_ready verified device report sequence r).1
        ≡ true
  unfolding authorize_canary
  authorize_canary-is_held at_rest scoped is_ready verified device report sequence r h =
      let s : Rollout = status D at_rest r in
      elim (Bool-cases scoped) [
        | inl a ↦ rw a (
            guarded-is_held _ _ [] s _ (status-is_held at_rest r h) (λ g.
              free-is_held
                (record s {
                  reviews = s.reviews ++ (canary_review ∷ []);
                  mode = canary;
                  canary_device = some device;
                  canary_start = sequence;
                })
                (bars_canary-unresolved verified is_ready report s g)))
        | inr a ↦ rw a h
      ]

  pub activate-is_held :
      (at_rest : Bool) (reports : List Text) (r : Rollout)
      → is_held r ≡ true
      → is_held (activate D at_rest reports r).1 ≡ true
  unfolding activate
  activate-is_held at_rest reports r h =
      let s : Rollout = status D at_rest r in
      guarded-is_held _ _ ((not (is_release D D.digest s.release), not_released) ∷ []) s _
        (status-is_held at_rest r h)
        (λ g.
          free-is_held (record s { reviews = s.reviews ++ (activation_review ∷ []); mode = active })
            (bars_activation-unresolved reports s g))

  pub review_release-is_held :
      (at_rest : Bool) (evidence : Release) (reports : List Text) (r : Rollout)
      → is_held r ≡ true
      → is_held (review_release D at_rest evidence reports r).1 ≡ true
  unfolding review_release
  review_release-is_held at_rest evidence reports r h =
      let s : Rollout = status D at_rest r in
      let held = status-is_held at_rest r h in
      settle-is_held _ s (record s { release = some evidence }) held
        (λ a. same-is_held s (record s { release = some evidence }) refl refl held)

pub accepted-is_held :
    (batches : ℕ → ℕ) (device : String) (r : Rollout)
    → is_held r ≡ true
    → is_held (accepted batches device r) ≡ true
unfolding accepted
accepted-is_held batches device r h =
    choose-is_held _ (record r { canary_batches = batches r.canary_start }) r
      (λ a. same-is_held r (record r { canary_batches = batches r.canary_start }) refl refl h)
      (λ a. h)
