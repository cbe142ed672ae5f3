-- ===== src/Server/Rollout/Control.antt =====
-- apps/server/src/reconciliation-rollout.ts: `ReconciliationRollout`, on the rows of one vault. The
-- tables that only other components write are read through arguments: whether the vault is at
-- rest, its batches and its devices. The times that are written here are never read and are left
-- out.
pub mod Reviews
pub mod Rows
pub mod Held
pub mod Reached
pub mod Tests
use gib_sync.Prelude.{
  ℕ, ◌+◌, String, Bool, true, false, ◌&&◌, ◌||◌, not, Option, none, some, List, [], ◌∷◌, ◌++◌, map,
  keep, some_of, contains, length, leb, ltb, is_some, if◌then◌else◌, ◌==◌, nat_eq, string_eq,
  option_eq,
}
use gib_sync.Prelude.Text.{Text, text, text_eq, starts_with, slice_from}
use gib_sync.Prelude.Result.{Result, ok, err, guards}
use gib_sync.Server.Safeguards.{is_blank}

pub data Mode : Type 0 where
  shadow canary active hold : Mode

abbrev pub is_shadow : Mode → Bool
is_shadow shadow = true
is_shadow other = false

abbrev pub is_canary : Mode → Bool
is_canary canary = true
is_canary other = false

abbrev pub is_active : Mode → Bool
is_active active = true
is_active other = false

abbrev pub is_hold : Mode → Bool
is_hold hold = true
is_hold other = false

-- `sync_shadow_observations`
pub record Observation : Type 0 where
  pub fingerprint : String
  pub matched : Bool
  pub reviewed : Bool
  pub candidate_hash : String

pub data ReviewKind : Type 0 where
  discrepancy_review canary_review activation_review : ReviewKind

-- `sync_release_validation`, of which there is at most one row.
pub record Release : Type 0 where
  pub release_id : String
  pub image_digest : Text

pub data RolloutError : Type 0 where
  not_reviewed no_canary_scope not_eligible not_proven not_released not_promoted : RolloutError

-- The row of `sync_rollouts` and what belongs to its vault.
pub record Rollout : Type 0 where
  pub mode : Mode
  pub canary_device : Option String
  pub canary_start : ℕ
  pub comparisons : ℕ
  pub mismatches : ℕ
  pub canary_batches : ℕ
  pub held : Bool
  pub observations : List Observation
  pub reviews : List ReviewKind
  pub release : Option Release

-- INSERT OR IGNORE: the row of a vault that has none.
abbrev pub new_rollout : Option Release → Rollout
new_rollout release = record {
  mode = shadow;
  canary_device = none;
  canary_start = 0;
  comparisons = 0;
  mismatches = 0;
  canary_batches = 0;
  held = false;
  observations = [];
  reviews = [];
  release = release;
}

-- `SERVER_VERSION` and what the constructor is given.
pub record Deployment : Type 0 where
  pub version : String
  pub digest : Option Text
  pub required_comparisons : ℕ
  pub required_batches : ℕ

abbrev pub awaits_review : Observation → Bool
awaits_review o = not o.matched && not o.reviewed

abbrev pub unresolved : Rollout → Bool
unresolved r = some_of awaits_review r.observations

abbrev pub is_release : Deployment → Option Text → Option Release → Bool
is_release D none release = false
is_release D (some digest) none = false
is_release D (some digest) (some release) =
    not (is_blank digest) && release.release_id == D.version && release.image_digest == digest

abbrev pub demote : Rollout → Rollout
demote r = if is_active r.mode then record r { mode = shadow } else r

abbrev pub seen : String → Rollout → Bool
seen fingerprint r = some_of (λ (o : Observation). o.fingerprint == fingerprint) r.observations

abbrev pub add_observation : Observation → Rollout → Rollout
add_observation o r = record r {
  observations = r.observations ++ (o ∷ []);
  comparisons = r.comparisons + 1;
  mismatches = r.mismatches + (if o.matched then 0 else 1);
  mode = if o.matched then r.mode else hold;
  held = if o.matched then r.held else true;
}

-- A batch of the canary that was accepted: `batches` of its device, after its start, are in the
-- vault.
unfoldable pub accepted : (batches : ℕ → ℕ) → (device : String) → Rollout → Rollout
accepted batches device r =
    if is_canary r.mode && r.canary_device == some device && not (unresolved r)
    then record r { canary_batches = batches r.canary_start }
    else r

-- `at_rest` is what the statement asks of the other tables: the accepted state is mirrored, and
-- there is no job, quarantine, alert or revision that waits.
module _ (D : Deployment) where
  abbrev pub promote : Bool → Rollout → Rollout
  promote at_rest r =
      if is_shadow r.mode
        && leb D.required_comparisons r.comparisons
        && not (unresolved r)
        && at_rest
      then record r { mode = active }
      else r

  unfoldable pub status : Bool → Rollout → Rollout
  status at_rest r = if is_release D D.digest r.release then promote at_rest r else demote r

  unfoldable pub allows : Bool → String → Rollout → Bool
  unfolding status
  allows at_rest device r =
      let s = status at_rest r in
      is_active s.mode || is_canary s.mode && s.canary_device == some device

  -- A comparison that was recorded before is not counted again.
  unfoldable pub observe : Bool → Observation → Rollout → Rollout
  unfolding status
  observe at_rest o r =
      let s = status at_rest r in
      status at_rest (if seen o.fingerprint s then s else add_observation o s)
