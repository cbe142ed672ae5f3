-- ===== src/Server/Rollout/Control/Reviews.antt =====
-- apps/server/src/reconciliation-rollout.ts: the private calls of the operator. A review is a
-- report's hash; what else the calls ask of the server is an argument.
use gib_sync.Prelude.{
  ℕ, String, Bool, true, false, ◌&&◌, ◌||◌, not, some, List, [], ◌∷◌, ◌++◌, map, some_of, leb, ltb,
  if◌then◌else◌, ◌==◌, nat_eq, string_eq, option_eq,
}
use gib_sync.Prelude.Text.{Text, text, text_eq}
use gib_sync.Prelude.Regex.{Regex, one, matches, times, literally, followed}
use gib_sync.Prelude.Result.{Result, ok, err, guards}
use gib_sync.Server.Rollout.Control.{
  shadow, canary, active, is_shadow, is_canary, is_active, is_hold, Observation, ReviewKind,
  discrepancy_review, canary_review, activation_review, Release, Rollout, RolloutError,
  not_reviewed, no_canary_scope, not_eligible, not_proven, not_released, not_promoted, Deployment,
  awaits_review, unresolved, is_release, status,
}

abbrev pub hex : Regex
hex = one (λ c. leb 48 c && leb c 57 || leb 97 c && leb c 102)

-- `^[a-f0-9]{64}$`
unfoldable pub is_report : Text → Bool
unfolding matches
is_report hash = matches (times 64 hex) hash

abbrev pub mark_reviewed : String → Observation → Observation
mark_reviewed fingerprint o =
    if o.fingerprint == fingerprint then record o { reviewed = true } else o

abbrev pub release_hold : Rollout → Rollout
release_hold r =
    if is_hold r.mode && not (unresolved r) then record r { mode = shadow; held = false } else r

abbrev pub is_subject : String → String → Observation → Bool
is_subject fingerprint candidate o =
    o.fingerprint == fingerprint && awaits_review o && o.candidate_hash == candidate

unfoldable pub review_discrepancy :
    (fingerprint candidate_hash : String)
    → (report_hash : Text) → Rollout
    → Result RolloutError Rollout
unfolding is_report
review_discrepancy fingerprint candidate report r =
    if some_of (is_subject fingerprint candidate) r.observations && is_report report
    then ok (
        release_hold (record r {
          reviews = r.reviews ++ (discrepancy_review ∷ []);
          observations = map (mark_reviewed fingerprint) r.observations;
        }))
    else err not_reviewed

abbrev pub lacks_report : List Text → Bool
lacks_report reports = some_of (λ (report : Text). not (is_report report)) reports

abbrev pub is_canary_review : ReviewKind → Bool
is_canary_review canary_review = true
is_canary_review other = false

-- `^sha256:[a-f0-9]{64}$`
abbrev pub digest_form : Regex
digest_form = followed (literally (text "sha256:")) (times 64 hex)

-- Throws leave the row as it was before them; past them it is the new one.
abbrev pub settle :
    Result RolloutError (Unit {0}) → Rollout → Rollout → Result RolloutError (Unit {0}) × Rollout
settle (err thrown) before after = (err thrown, before)
settle (ok done) before after = (ok tt, after)

module _ (D : Deployment) where
  abbrev pub bars_canary : (verified is_ready : Bool) → Text → Rollout → Bool
  bars_canary verified is_ready report s =
      not verified
      || not (is_report report)
      || not (is_shadow s.mode)
      || unresolved s
      || ltb s.comparisons D.required_comparisons
      || not is_ready

  abbrev pub bars_activation : List Text → Rollout → Bool
  bars_activation reports s =
      not (is_canary s.mode)
      || unresolved s
      || ltb s.comparisons D.required_comparisons
      || ltb s.canary_batches D.required_batches
      || lacks_report reports

  -- `scoped` is whether the server is confined to a test account and all its vaults lie there,
  -- `is_ready` whether the device has finished its first sync and is not revoked.
  -- Also a refused call has gone through `status`, which may have changed the row.
  unfoldable pub authorize_canary :
      (at_rest scoped is_ready verified : Bool)
      → (device : String) → (report_hash : Text) → (sequence : ℕ) → Rollout
      → Result RolloutError (Unit {0}) × Rollout
  unfolding status is_report guards
  authorize_canary at_rest scoped is_ready verified device report sequence r =
      if scoped
      then (let s : Rollout = status D at_rest r in
          settle (guards ((bars_canary verified is_ready report s, not_eligible) ∷ [])) s
            (record s {
              reviews = s.reviews ++ (canary_review ∷ []);
              mode = canary;
              canary_device = some device;
              canary_start = sequence;
            }))
      else (err no_canary_scope, r)

  unfoldable pub activate :
      (at_rest : Bool) → (reports : List Text) → Rollout → Result RolloutError (Unit {0}) × Rollout
  unfolding status is_report guards
  activate at_rest reports r =
      let s : Rollout = status D at_rest r in
      settle
        (guards (
          (bars_activation reports s, not_proven)
          ∷ (not (is_release D D.digest s.release), not_released)
          ∷ []))
        s (record s { reviews = s.reviews ++ (activation_review ∷ []); mode = active })

  -- The evidence names a release; the row is that of the vault on which it was tried.
  unfoldable pub review_release :
      (at_rest : Bool)
      → (evidence : Release) → (reports : List Text) → Rollout
      → Result RolloutError (Unit {0}) × Rollout
  unfolding status is_report matches guards
  review_release at_rest evidence reports r =
      let s : Rollout = status D at_rest r in
      settle
        (guards (
          (
            not (is_release D D.digest (some evidence))
                || not (matches digest_form evidence.image_digest)
                || not (some_of is_canary_review s.reviews)
                || not (is_canary s.mode || is_active s.mode)
                || ltb s.comparisons D.required_comparisons
                || unresolved s
                || ltb s.canary_batches D.required_batches
                || lacks_report reports,
            not_promoted,
          )
          ∷ []))
        s (record s { release = some evidence })
