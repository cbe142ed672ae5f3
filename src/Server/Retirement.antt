-- ===== src/Server/Retirement.antt =====
-- apps/server/src/vault-retirement.ts: `VaultRetirementService` on the tables `vaults` and
-- `health_events` (apps/server/src/db.ts). The time and the identifier of an event are arguments.
pub mod Laws
pub mod Tests
use gib_sync.Prelude.{
  ℕ, String, Bool, true, false, ◌&&◌, not, Option, none, some, List, [], ◌∷◌, ◌++◌, map, is_some,
  if◌then◌else◌, ◌==◌, string_eq,
}
use gib_sync.Prelude.Text.{Text, text}
use gib_sync.Prelude.Dict.{Dict, lookup, insert}
use gib_sync.Prelude.Result.{Result, ok, err, ◌>>=◌, ◌>>◌, refuse}
use gib_sync.Server.Paths.{is_empty}

-- A row of `vaults`, without its key and what the service does not touch.
pub record Vault : Type 0 where
  pub name : String
  pub retired_at : Option ℕ
  pub retired_reason : Option Text
  pub trusted_until : Option ℕ
  pub trusted_device_id : Option String

-- A row of `health_events`.
pub record HealthEvent : Type 0 where
  pub vault_id : String
  pub code : String
  pub message : Text
  pub created_at : ℕ
  pub cleared_at : Option ℕ

pub record Registry : Type 0 where
  pub vaults : Dict String Vault
  pub health : List HealthEvent

pub record RetirementState : Type 0 where
  pub vault_id : String
  pub vault_name : String
  pub retired : Bool
  pub retired_at : Option ℕ
  pub reason : Option Text

pub data RetirementError : Type 0 where
  unknown_vault reason_required : RetirementError

abbrev pub described : String → Vault → RetirementState
described id v = record {
  vault_id = id;
  vault_name = v.name;
  retired = is_some v.retired_at;
  retired_at = v.retired_at;
  reason = v.retired_reason;
}

unfoldable pub state : String → Registry → Result RetirementError RetirementState
state id R = elim (lookup id R.vaults) [ none ↦ err unknown_vault | some v ↦ ok (described id v) ]

unfoldable pub is_retired : String → Registry → Bool
is_retired id R = elim (lookup id R.vaults) [ none ↦ false | some v ↦ is_some v.retired_at ]

-- UPDATE vaults SET … WHERE id=?
unfoldable pub update : String → (Vault → Vault) → Registry → Registry
update id change R = elim (lookup id R.vaults) [
  | none ↦ R
  | some v ↦ record R { vaults = insert id (change v) R.vaults }
]

abbrev pub is_open : String → HealthEvent → Bool
is_open id h = h.vault_id == id && h.code == "vault_retired" && not (is_some h.cleared_at)

-- UPDATE health_events SET cleared_at=? WHERE vault_id=? AND code='vault_retired' AND cleared_at IS NULL
unfoldable pub clear_retired : String → ℕ → List HealthEvent → List HealthEvent
clear_retired id now [] = []
clear_retired id now (h ∷ hs) =
    (if is_open id h then record h { cleared_at = some now } else h) ∷ clear_retired id now hs

abbrev pub event : String → String → Text → ℕ → HealthEvent
event id code message now = record {
  vault_id = id;
  code = code;
  message = message;
  created_at = now;
  cleared_at = none;
}

abbrev or_text : Text → Text → Text
or_text t other = if is_empty t then other else t

module _ (trim : Text → Text) where
  abbrev pub retired_now : Text → ℕ → Vault → Vault
  retired_now reason now v = record v {
    retired_at = some now;
    retired_reason = some reason;
    trusted_until = none;
    trusted_device_id = none;
  }

  abbrev pub restored : Vault → Vault
  restored v = record v { retired_at = none; retired_reason = none }

  abbrev pub log_retired : String → Text → ℕ → Registry → Registry
  log_retired id reason now R = record R {
    health =
        event id "vault_retired" (text "Vault registration retired: " ++ reason) now ∷ R.health;
  }

  abbrev pub log_restored : String → Text → ℕ → Registry → Registry
  log_restored id reason now R = record R {
    health = event id "vault_restored" reason now ∷ clear_retired id now R.health;
  }

  unfoldable pub retire : String → Text → ℕ → Registry → Result RetirementError Registry
  unfolding state update
  retire id reason now R = do
    current ← state id R
    refuse (is_empty (trim reason)) reason_required
    ok (
        if current.retired
        then R
        else log_retired id (trim reason) now (update id (retired_now (trim reason) now) R))

  unfoldable pub restore : String → Text → ℕ → Registry → Result RetirementError Registry
  unfolding state update clear_retired
  restore id reason now R = do
    current ← state id R
    ok (
        if not current.retired
        then R
        else log_restored id
            (or_text (trim reason) (text "Vault registration restored by operator")) now
            (update id restored R))

-- A call that throws leaves the tables as they were.
abbrev pub or_unchanged : Registry → Result RetirementError Registry → Registry
or_unchanged R (ok R') = R'
or_unchanged R (err e) = R

pub data Command : Type 0 where
  retire_vault restore_vault : (id : String) (reason : Text) (now : ℕ) → Command

unfoldable pub perform_all : (Text → Text) → List Command → Registry → Registry
unfolding retire restore
perform_all trim [] R = R
perform_all trim (retire_vault id reason now ∷ cs) R =
    perform_all trim cs (or_unchanged R (retire trim id reason now R))
perform_all trim (restore_vault id reason now ∷ cs) R =
    perform_all trim cs (or_unchanged R (restore trim id reason now R))
