-- ===== src/Server/Retirement/Tests.antt =====
-- Runs of apps/server/src/vault-retirement.ts, and the theorem about it at one of them.
use gib_sync.Prelude.{
  ℕ, ◌≡◌, refl, arith, Bool, true, false, Option, none, some, List, [], ◌∷◌, String, string_eq,
}
use gib_sync.Prelude.Text.{Text, text, trim}
use gib_sync.Prelude.Dict.{lookup}
use gib_sync.Server.Retirement.{
  Vault, Registry, Command, retire_vault, restore_vault, perform_all, is_retired,
}
use gib_sync.Server.Retirement.Laws.{Agrees, open_events, perform_all-Agrees}

abbrev vault : String → Vault
vault name = record {
  name = name;
  retired_at = none;
  retired_reason = none;
  trusted_until = none;
  trusted_device_id = none;
}

abbrev registry : Registry
registry = record { vaults = ("v1", vault "Notes") ∷ ("v2", vault "Work") ∷ []; health = [] }

-- The second call is on a vault that is retired already, the third gives no reason, and the fifth
-- names no vault.
abbrev commands : List Command
commands =
    retire_vault "v1" (text " lost ") 10
    ∷ retire_vault "v1" (text "again") 20
    ∷ retire_vault "v2" (text "  ") 30
    ∷ restore_vault "v1" [] 40
    ∷ restore_vault "v9" [] 50
    ∷ retire_vault "v1" (text "gone") 60
    ∷ []

one_open : open_events "v1" (perform_all trim commands registry).health ≡ 1
unfolding perform_all lookup gib_sync.Prelude.Dict.insert gib_sync.Prelude.Text.trim_end
    gib_sync.Prelude.Text.trim_start
one_open = refl

starts_well : Agrees registry
unfolding Agrees is_retired lookup
starts_well id = ground arith

perform_all-Agrees_example : Agrees (perform_all trim commands registry)
perform_all-Agrees_example = perform_all-Agrees trim commands registry starts_well
