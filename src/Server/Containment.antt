-- ===== src/Server/Containment.antt =====
-- apps/server/src/containment.ts: `ContainmentService`, which confines the server to one vault, on
-- the tables `server_containment` (one row at most) and `server_containment_events`, the newest
-- event first. The names of the vaults are those of the table `vaults`.
pub mod Laws
pub mod Tests
use gib_sync.Prelude.{
  ℕ, String, Bool, true, false, ◌||◌, not, Option, none, some, List, [], ◌∷◌, is_some,
  if◌then◌else◌, ◌==◌, string_eq, option_eq,
}
use gib_sync.Prelude.Text.{Text, text}
use gib_sync.Prelude.Dict.{Dict, lookup}
use gib_sync.Prelude.Result.{Result, ok, err, ◌>>=◌, ◌>>◌, refuse}
use gib_sync.Server.Paths.{is_empty}

pub record ContainmentState : Type 0 where
  pub active : Bool
  pub allowed_vault_id : Option String
  pub allowed_vault_name : Option String
  pub reason : Option Text
  pub enabled_at : Option ℕ

pub record ContainmentRow : Type 0 where
  pub allowed_vault_id : String
  pub reason : Text
  pub enabled_at : ℕ
  pub disabled_at : Option ℕ

pub data ContainmentAction : Type 0 where
  enabled disabled : ContainmentAction

pub record ContainmentEvent : Type 0 where
  pub action : ContainmentAction
  pub allowed_vault_id : Option String
  pub reason : Text
  pub created_at : ℕ

pub record Tables : Type 0 where
  pub names : Dict String String
  pub containment : Option ContainmentRow
  pub events : List ContainmentEvent

pub data ContainmentError : Type 0 where
  unknown_vault_id no_reason_given : ContainmentError

abbrev pub inactive : ContainmentState
inactive = record {
  active = false;
  allowed_vault_id = none;
  allowed_vault_name = none;
  reason = none;
  enabled_at = none;
}

-- JOIN vaults v ON v.id=c.allowed_vault_id
abbrev pub joined : Dict String String → String → Text → ℕ → ContainmentState
joined names id reason at = elim (lookup id names) [
  | none ↦ inactive
  | some name ↦ record {
    active = true;
    allowed_vault_id = some id;
    allowed_vault_name = some name;
    reason = some reason;
    enabled_at = some at;
  }
]

unfoldable pub current_state : Tables → ContainmentState
current_state T = elim T.containment [
  | none ↦ inactive
  | some row ↦
      if is_some row.disabled_at
      then inactive
      else joined T.names row.allowed_vault_id row.reason row.enabled_at
]

unfoldable pub allows : String → Tables → Bool
unfolding current_state
allows vault_id T = let s = current_state T in not s.active || s.allowed_vault_id == some vault_id

module _ (trim : Text → Text) where
  unfoldable pub enable : String → Text → ℕ → Tables → Result ContainmentError Tables
  enable id reason now T = do
    refuse (not (is_some (lookup id T.names))) unknown_vault_id
    refuse (is_empty (trim reason)) no_reason_given
    ok (record T {
      containment = some (record {
        allowed_vault_id = id;
        reason = trim reason;
        enabled_at = now;
        disabled_at = none;
      });
      events =
          record {
            action = enabled;
            allowed_vault_id = some id;
            reason = trim reason;
            created_at = now;
          }
          ∷ T.events;
    })

  abbrev pub disabled_row : ℕ → Option ContainmentRow → Option ContainmentRow
  disabled_row now none = none
  disabled_row now (some row) = some (record row { disabled_at = some now })

  abbrev cleared_reason : Text → Text
  cleared_reason reason = if is_empty (trim reason) then text "Containment cleared" else trim reason

  unfoldable pub disable : Text → ℕ → Tables → Tables
  unfolding current_state
  disable reason now T =
      let current = current_state T in
      if not current.active then T else record T {
        containment = disabled_row now T.containment;
        events =
            record {
              action = disabled;
              allowed_vault_id = current.allowed_vault_id;
              reason = cleared_reason reason;
              created_at = now;
            }
            ∷ T.events;
      }

-- A call that throws has been rolled back.
abbrev pub or_rolled_back : Tables → Result ContainmentError Tables → Tables
or_rolled_back T (ok T') = T'
or_rolled_back T (err e) = T

pub data Switch : Type 0 where
  switch_on : (id : String) (reason : Text) (now : ℕ) → Switch
  switch_off : (reason : Text) (now : ℕ) → Switch

unfoldable pub switch_all : (Text → Text) → List Switch → Tables → Tables
unfolding enable disable
switch_all trim [] T = T
switch_all trim (switch_on id reason now ∷ ss) T =
    switch_all trim ss (or_rolled_back T (enable trim id reason now T))
switch_all trim (switch_off reason now ∷ ss) T = switch_all trim ss (disable trim reason now T)
