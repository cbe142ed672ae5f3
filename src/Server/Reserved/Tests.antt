-- ===== src/Server/Reserved/Tests.antt =====
-- Runs of the functions on reserved paths, and the theorem about them at one of them.
use gib_sync.Prelude.{◌≡◌, refl, String, Bool, true, false, Option, none, some, List, [], ◌∷◌, All}
use gib_sync.Prelude.Text.{Text, text}
use gib_sync.Prelude.Result.{ok, err}
use gib_sync.Protocol.Host.{ascii}
use gib_sync.Protocol.Operations.{file}
use gib_sync.Server.Operations.Ledger.{SyncEntity}
use gib_sync.Server.Reserved.{is_reserved_sync_path, not_a_sync_target, assert_reserved_state}
use gib_sync.Server.Reserved.Laws.{stays_out, assert_reserved_state-stays_out}

abbrev entity : String → String → SyncEntity
entity path hash = record {
  id = path;
  kind = file;
  path = text path;
  hash = some hash;
  size = 3;
  mtime = 1;
  revision = record {
    id = "r";
    parent_id = none;
    device_id = "phone";
    device_name = "Phone";
    modified_at = 1;
  };
  deleted = false;
  sequence = 1;
  ordinal = none;
}

abbrev roots : List Text
roots = text ".config" ∷ []

plugin_is_reserved :
    is_reserved_sync_path ascii (text ".Config/plugins/Gib-Sync/main.js") roots ≡ true
unfolding is_reserved_sync_path gib_sync.Prelude.Text.text_beq
plugin_is_reserved = refl

other_plugin_is_free :
    is_reserved_sync_path ascii (text ".obsidian/plugins/gib-sync-2/main.js") roots ≡ false
unfolding is_reserved_sync_path gib_sync.Prelude.Text.text_beq
other_plugin_is_free = refl

abbrev old_rows : List SyncEntity
old_rows = entity ".gib-sync/state.json" "1" ∷ entity "a.md" "2" ∷ []

row_may_stay :
    assert_reserved_state ascii old_rows
      (entity ".gib-sync/state.json" "1" ∷ entity "a.md" "3" ∷ [])
      roots
    ≡ ok tt
unfolding assert_reserved_state gib_sync.Prelude.Text.text_beq
row_may_stay = refl

row_may_not_change :
    assert_reserved_state ascii old_rows (entity ".gib-sync/state.json" "2" ∷ []) roots
    ≡ err not_a_sync_target
unfolding assert_reserved_state gib_sync.Prelude.Text.text_beq
row_may_not_change = refl

assert_reserved_state-stays_out_example :
    All
      (λ (e : SyncEntity). stays_out ascii roots old_rows e ≡ true)
      (entity ".gib-sync/state.json" "1" ∷ entity "a.md" "3" ∷ [])
assert_reserved_state-stays_out_example =
    assert_reserved_state-stays_out ascii roots old_rows
      (entity ".gib-sync/state.json" "1" ∷ entity "a.md" "3" ∷ []) row_may_stay
