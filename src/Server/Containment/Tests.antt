-- ===== src/Server/Containment/Tests.antt =====
-- Runs of apps/server/src/containment.ts, and the theorems about it at some of them.
use gib_sync.Prelude.{
  ℕ, ◌≡◌, refl, Bool, true, false, Option, none, some, List, [], ◌∷◌, ◌==◌, String, string_eq,
}
use gib_sync.Prelude.Text.{Text, text, trim}
use gib_sync.Prelude.Result.{ok, err}
use gib_sync.Server.Containment.{Tables, Switch, switch_on, switch_off, switch_all, allows, enable}
use gib_sync.Server.Containment.Laws.{Logged, switch_all-Logged}

abbrev tables : Tables
tables = record { names = ("v1", "Notes") ∷ ("v2", "Work") ∷ []; containment = none; events = [] }

-- The second call names no vault and the fourth gives no reason.
abbrev switches : List Switch
switches =
    switch_on "v1" (text "canary") 10
    ∷ switch_on "v9" (text "wrong") 20
    ∷ switch_off [] 30
    ∷ switch_on "v2" (text " ") 40
    ∷ switch_on "v2" (text "incident") 50
    ∷ []

only_work : allows "v1" (switch_all trim switches tables) ≡ false
unfolding switch_all allows gib_sync.Prelude.Dict.lookup gib_sync.Prelude.Text.trim_end
    gib_sync.Prelude.Text.trim_start
only_work = refl

unlogged : Logged tables
unfolding Logged
unlogged = refl

switch_all-Logged_example : Logged (switch_all trim switches tables)
switch_all-Logged_example = switch_all-Logged trim switches tables unlogged

abbrev contained : Tables
contained = elim (enable trim "v1" (text "canary") 10 tables) [ ok T ↦ T | err e ↦ tables ]

switched_on : enable trim "v1" (text "canary") 10 tables ≡ ok contained
unfolding enable gib_sync.Prelude.Dict.lookup gib_sync.Prelude.Text.trim_end
    gib_sync.Prelude.Text.trim_start
switched_on = refl
