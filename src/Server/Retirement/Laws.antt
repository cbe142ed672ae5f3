-- ===== src/Server/Retirement/Laws.antt =====
-- The registry and its health events under apps/server/src/vault-retirement.ts.
use gib_sync.Prelude.{
  ℕ, ◌≡◌, refl, String, false, List, [], ◌∷◌, length, keep, arith, eq_iff, Option-cases, inl, inr,
  if◌then◌else◌, ◌==◌, string_eq,
}
use gib_sync.Prelude.Text.{Text}
use gib_sync.Prelude.Dict.{lookup, lookup-insert}
use gib_sync.Server.Retirement.{
  HealthEvent, Registry, Command, retire_vault, restore_vault, is_retired, is_open, clear_retired,
  retired_now, restored, state, update, retire, restore, or_unchanged, perform_all,
}

abbrev pub open_events : String → List HealthEvent → ℕ
open_events id hs = length (keep (is_open id) hs)

-- A vault that is retired has one open event of its retirement, any other none.
unfoldable pub Agrees : Registry → Type 0
unfolding is_retired
Agrees R = (id : String) → open_events id R.health ≡ (if is_retired id R then 1 else 0)

open_events-clear_self :
    (id : String) (now : ℕ) (hs : List HealthEvent) → open_events id (clear_retired id now hs) ≡ 0
unfolding clear_retired
open_events-clear_self id now [] = refl
open_events-clear_self id now (h ∷ hs) = ground (arith, open_events-clear_self id now hs)

open_events-clear_other :
    (id other : String) (now : ℕ) (hs : List HealthEvent)
    → (id == other) ≡ false
    → open_events other (clear_retired id now hs) ≡ open_events other hs
unfolding clear_retired
open_events-clear_other id other now [] h = refl
open_events-clear_other id other now (x ∷ hs) h = ground (
  arith,
  open_events-clear_other id other now hs,
  eq_iff x.vault_id id,
  eq_iff x.vault_id other,
  eq_iff id other,
)

retire-Agrees :
    (trim : Text → Text) (id : String) (reason : Text) (now : ℕ) (R : Registry)
    → Agrees R
    → Agrees (or_unchanged R (retire trim id reason now R))
unfolding Agrees retire is_retired
retire-Agrees trim id reason now R agrees other = elim (Option-cases (lookup id R.vaults)) [
  | inl e ↦ rw (e, retire, state) (agrees other)
  | inr (v, e) ↦
      rw (e, retire, state, update)
        (ground (
          arith,
          agrees other,
          lookup-insert other id (retired_now trim (trim reason) now v) R.vaults,
          eq_iff id other,
        ))
]

restore-Agrees :
    (trim : Text → Text) (id : String) (reason : Text) (now : ℕ) (R : Registry)
    → Agrees R
    → Agrees (or_unchanged R (restore trim id reason now R))
unfolding Agrees restore is_retired
restore-Agrees trim id reason now R agrees other = elim (Option-cases (lookup id R.vaults)) [
  | inl e ↦ rw (e, restore, state) (agrees other)
  | inr (v, e) ↦
      rw (e, restore, state, update)
        (ground (
          arith,
          agrees other,
          lookup-insert other id (restored trim v) R.vaults,
          eq_iff id other,
          open_events-clear_self id now R.health,
          open_events-clear_other id other now R.health,
        ))
]

-- Whatever vaults are retired and restored, also twice or with calls that fail: a vault that is
-- retired has exactly one open `vault_retired` event, and any other vault has none, if that was so
-- before.
pub perform_all-Agrees :
    (trim : Text → Text) (cs : List Command) (R : Registry)
    → Agrees R
    → Agrees (perform_all trim cs R)
unfolding perform_all
perform_all-Agrees trim [] R agrees = agrees
perform_all-Agrees trim (retire_vault id reason now ∷ cs) R agrees =
    perform_all-Agrees trim cs (or_unchanged R (retire trim id reason now R))
      (retire-Agrees trim id reason now R agrees)
perform_all-Agrees trim (restore_vault id reason now ∷ cs) R agrees =
    perform_all-Agrees trim cs (or_unchanged R (restore trim id reason now R))
      (restore-Agrees trim id reason now R agrees)
