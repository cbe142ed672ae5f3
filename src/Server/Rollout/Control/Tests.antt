-- ===== src/Server/Rollout/Control/Tests.antt =====
-- Runs of `ReconciliationRollout`, and the theorem about it at one of them.
use gib_sync.Prelude.{◌≡◌, refl, ℕ, String, Bool, true, false, Option, none, some, List, [], ◌∷◌}
use gib_sync.Prelude.Text.{Text, text}
use gib_sync.Prelude.Result.{ok, err}
use gib_sync.Server.Rollout.Control.{
  Mode, shadow, active, hold, is_hold, Observation, Release, Rollout, new_rollout, Deployment,
  unresolved, status, allows, observe, accepted,
}
use gib_sync.Server.Rollout.Control.Reviews.{
  review_discrepancy, authorize_canary, activate, review_release,
}
use gib_sync.Server.Rollout.Control.Reached.{started, observed, Reached-allows}

abbrev digest : Text
digest = text "sha256:0123456789abcdef0123456789abcdef0123456789abcdef0123456789abcdef"

abbrev report : Text
report = text "0123456789abcdef0123456789abcdef0123456789abcdef0123456789abcdef"

abbrev small : Deployment
small = record {
  version = "1";
  digest = some digest;
  required_comparisons = 1;
  required_batches = 1;
}

abbrev comparison : String → Bool → Observation
comparison name matched = record {
  fingerprint = name;
  matched = matched;
  reviewed = false;
  candidate_hash = "c";
}

abbrev compared : Rollout
compared = observe small false (comparison "x" true) (new_rollout none)

abbrev mismatched : Rollout
mismatched = observe small false (comparison "y" false) compared

abbrev as_canary : Rollout
as_canary =
    accepted (λ start. 2) "phone"
      (authorize_canary small false true true true "phone" report 7 compared).1

abbrev tried : Release
tried = record { release_id = "1"; image_digest = digest }

abbrev evidence : List Text
evidence = report ∷ report ∷ report ∷ report ∷ []

promoted : (review_release small false tried evidence as_canary).1.release ≡ some tried
unfolding review_release gib_sync.Prelude.Text.text_beq accepted authorize_canary observe
promoted = refl

activated :
    (activate small false
      (report ∷ report ∷ report ∷ [])
      (review_release small false tried evidence as_canary).1).1.mode
    ≡ active
unfolding activate review_release gib_sync.Prelude.Text.text_beq accepted authorize_canary observe
activated = refl

-- A reviewed release reaches a vault at rest that has been compared often enough.
automatic : (status small true (record compared { release = some tried })).mode ≡ active
unfolding status gib_sync.Prelude.Text.text_beq observe
automatic = refl

held_back : mismatched.mode ≡ hold
unfolding observe
held_back = refl

canary_is_let_through : allows small false "phone" as_canary ≡ true
unfolding allows accepted authorize_canary observe
canary_is_let_through = refl

abbrev mode_after_review : Mode
mode_after_review = elim (review_discrepancy "y" "c" report mismatched) [
  | err thrown ↦ hold
  | ok r ↦ r.mode
]

review_frees : mode_after_review ≡ shadow
unfolding review_discrepancy observe
review_frees = refl

waits : unresolved mismatched ≡ true
unfolding observe
waits = refl

Reached-allows_example :
    (is_hold mismatched.mode ≡ true) × (allows small true "phone" mismatched ≡ false)
Reached-allows_example =
    Reached-allows small mismatched true "phone"
      (observed false (comparison "y" false) compared
        (observed false (comparison "x" true) (new_rollout none) (started none)))
      waits
