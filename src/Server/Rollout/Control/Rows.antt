-- ===== src/Server/Rollout/Control/Rows.antt =====
-- apps/server/src/reconciliation-rollout.ts: when a row that awaits a review is on hold, step by
-- step.
use gib_sync.Prelude.{
  ◌≡◌, refl, String, Bool, true, false, ◌||◌, not, List, [], ◌∷◌, ◌++◌, map, some_of, if◌then◌else◌,
  arith,
}
use gib_sync.Prelude.Result.{Result, ok, err, guards}
use gib_sync.Server.Rollout.Control.{
  Mode, shadow, canary, active, hold, is_hold, is_active, is_shadow, is_canary, Observation,
  awaits_review, unresolved, Rollout, RolloutError,
}
use gib_sync.Server.Rollout.Control.Reviews.{mark_reviewed, settle}

-- Where a mismatch awaits its review, the vault is on hold.
unfoldable pub is_held : Rollout → Bool
is_held r = not (unresolved r) || is_hold r.mode

pub not_hold :
    (m : Mode)
    → (is_active m ≡ true → is_hold m ≡ false)
      × (is_shadow m ≡ true → is_hold m ≡ false)
      × (is_canary m ≡ true → is_hold m ≡ false)
not_hold shadow = ground arith
not_hold canary = ground arith
not_hold active = ground arith
not_hold hold = ground arith

pub no_other : (m : Mode) → is_hold m ≡ true → (is_shadow m ≡ false) × (is_active m ≡ false)
no_other shadow h = absurd (cc)
no_other canary h = (refl, refl)
no_other active h = absurd (cc)
no_other hold h = (refl, refl)

pub same_if : (b : Bool) (r : Rollout) → (if b then r else r) ≡ r
same_if true r = refl
same_if false r = refl

pub choose-is_held :
    (b : Bool) (r s : Rollout)
    → (b ≡ true → is_held r ≡ true)
    → (b ≡ false → is_held s ≡ true)
    → is_held (if b then r else s) ≡ true
choose-is_held true r s hr hs = hr refl
choose-is_held false r s hr hs = hs refl

pub settle-is_held :
    (g : Result RolloutError (Unit {0})) (before after : Rollout)
    → is_held before ≡ true
    → (g ≡ ok tt → is_held after ≡ true)
    → is_held (settle g before after).1 ≡ true
settle-is_held (err thrown) before after h k = h
settle-is_held (ok done) before after h k = k refl

-- Past the first test, it does not hold.
pub guarded-is_held :
    (bad : Bool) (thrown : RolloutError) (more : List (Bool × RolloutError))
    (before after : Rollout)
    → is_held before ≡ true
    → (bad ≡ false → is_held after ≡ true)
    → is_held (settle (guards ((bad, thrown) ∷ more)) before after).1 ≡ true
unfolding guards
guarded-is_held true thrown more before after h k = h
guarded-is_held false thrown more before after h k =
    settle-is_held (guards more) before after h (λ g. k refl)

-- What else is written to the row does not matter.
pub same-is_held :
    (r s : Rollout)
    → r.mode ≡ s.mode
    → r.observations ≡ s.observations
    → is_held r ≡ true
    → is_held s ≡ true
unfolding is_held
same-is_held r s m o h = cc

-- A vault that is not on hold has nothing that awaits a review.
pub settled : (r : Rollout) → is_held r ≡ true → is_hold r.mode ≡ false → unresolved r ≡ false
unfolding is_held
settled r h m = ground arith

-- Nothing awaits a review, so any mode will do.
pub free-is_held : (r : Rollout) → unresolved r ≡ false → is_held r ≡ true
unfolding is_held
free-is_held r u = ground arith

pub unresolved-append :
    (os : List Observation) (o : Observation)
    → some_of awaits_review (os ++ (o ∷ [])) ≡ (some_of awaits_review os || awaits_review o)
unresolved-append [] o = ground arith
unresolved-append (p ∷ os) o = ground (arith, unresolved-append os o)

pub unresolved-mark :
    (fingerprint : String) (os : List Observation)
    → some_of awaits_review os ≡ false
    → some_of awaits_review (map (mark_reviewed fingerprint) os) ≡ false
unresolved-mark fingerprint [] h = refl
unresolved-mark fingerprint (o ∷ os) h = ground (arith, unresolved-mark fingerprint os)
