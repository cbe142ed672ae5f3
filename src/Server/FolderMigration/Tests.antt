-- ===== src/Server/FolderMigration/Tests.antt =====
-- Runs of the folder migration, and the theorems at concrete inputs.
use gib_sync.Prelude.{ℕ, ◌≡◌, refl, String, Bool, true, false, Option, none, some, List, [], ◌∷◌}
use gib_sync.Prelude.Text.{Text, text}
use gib_sync.Prelude.Dict.{Dict, lookup}
use gib_sync.Prelude.Result.{ok, err}
use gib_sync.Protocol.Host.{ascii}
use gib_sync.Protocol.Model.{ManifestEntry}
use gib_sync.Server.FolderMigration.{Snapshot, LegacyFolderRepairPlan}
use gib_sync.Server.FolderMigration.Chain.{cycle, current_chain, finished, current_chain-finished}
use gib_sync.Server.FolderMigration.Plans.{
  head_folders, plan_legacy_folder_descendant_repair, plan_retired_legacy_folder_repair,
}
use gib_sync.Server.FolderMigration.Repair.{Vaults, repair_vault, repair_unsafe_legacy_folder_heads}
use gib_sync.Server.FolderMigration.Laws.{
  IsCleanup, is_stale_folder, plan_legacy_folder_descendant_repair-IsCleanup,
  repair_vault-repair_vault,
}

abbrev note : ManifestEntry
note = record {
  path = text "a.md";
  hash = "1";
  size = 3;
  mtime = 0;
  file_id = none;
  revision = none;
}

abbrev first : Snapshot
first = record {
  id = "a";
  vault_id = "v";
  parent_id = none;
  device_id = "laptop";
  device_name = "Laptop";
  created_at = text "2026-01-01";
  entries = note ∷ [];
  folders = none;
  folder_repair = none;
}

abbrev seed : Snapshot
seed = record {
  id = "b";
  vault_id = "v";
  parent_id = some "a";
  device_id = "seafile:v";
  device_name = "Seafile";
  created_at = text "2026-01-02";
  entries = note ∷ [];
  folders = some (text "old" ∷ []);
  folder_repair = none;
}

abbrev child : Snapshot
child = record {
  id = "c";
  vault_id = "v";
  parent_id = some "b";
  device_id = "laptop";
  device_name = "Laptop";
  created_at = text "2026-01-03";
  entries = note ∷ [];
  folders = some (text "old" ∷ text "new" ∷ []);
  folder_repair = none;
}

abbrev store : Dict String Snapshot
store = ("a", first) ∷ ("b", seed) ∷ ("c", child) ∷ []

abbrev looped : Dict String Snapshot
looped = ("a", record first { parent_id = some "b" }) ∷ ("b", seed) ∷ []

abbrev plan : LegacyFolderRepairPlan
plan = record {
  vault_id = "v";
  head_id = "c";
  origin_ids = "b" ∷ [];
  contaminated_folders = text "old" ∷ [];
  desired_folders = text "new" ∷ [];
  current_folders = text "new" ∷ text "old" ∷ [];
  observed_at = some (text "2026-01-02");
  issued_at = none;
}

chain_order : current_chain store "v" "c" ≡ ok (first ∷ seed ∷ child ∷ [])
unfolding current_chain lookup
chain_order = refl

chain_cycle : current_chain looped "v" "b" ≡ err (cycle "v")
unfolding current_chain lookup
chain_cycle = refl

current_chain-finished_example : finished (current_chain looped "v" "b") ≡ true
current_chain-finished_example = current_chain-finished looped "v" "b"

planned : plan_legacy_folder_descendant_repair ascii store "v" "c" ≡ ok (some plan)
unfolding plan_legacy_folder_descendant_repair lookup gib_sync.Prelude.Text.text_beq
    gib_sync.Prelude.Sorting.sort gib_sync.Prelude.Text.starts_with gib_sync.Prelude.Text.text_leb
planned = refl

plan_legacy_folder_descendant_repair-IsCleanup_example :
    (chain : List Snapshot) × (fs : List Text) × (current_chain store "v" "c" ≡ ok chain)
    × (head_folders chain ≡ some fs)
    × IsCleanup fs (is_stale_folder ascii chain (text "old")) plan (text "old")
plan_legacy_folder_descendant_repair-IsCleanup_example =
    plan_legacy_folder_descendant_repair-IsCleanup ascii store "v" "c" plan (text "old") planned

-- Nothing is retired where the head declares folders.
not_rewound : plan_retired_legacy_folder_repair ascii store "v" "c" ≡ ok none
unfolding plan_retired_legacy_folder_repair lookup
not_rewound = refl

abbrev vaults : Vaults
vaults = record { heads = ("v", some "b") ∷ []; warnings = [] }

abbrev repaired : Vaults
repaired = record { heads = ("v", some "a") ∷ []; warnings = "v" ∷ [] }

repair_heads : repair_unsafe_legacy_folder_heads ascii store vaults ≡ (repaired, 1)
unfolding repair_unsafe_legacy_folder_heads lookup gib_sync.Prelude.Text.text_beq
    gib_sync.Prelude.Sorting.sort gib_sync.Prelude.Dict.insert
repair_heads = refl

repair_run : repair_vault ascii store "v" (some "b") vaults ≡ (repaired, 1)
unfolding repair_vault lookup gib_sync.Prelude.Text.text_beq gib_sync.Prelude.Sorting.sort
    gib_sync.Prelude.Dict.insert
repair_run = refl

repair_vault-repair_vault_example :
    repair_vault ascii store "v" (some "a") (repair_vault ascii store "v" (some "b") vaults).0
    ≡ ((repair_vault ascii store "v" (some "b") vaults).0, 0)
unfolding repair_vault lookup gib_sync.Prelude.Text.text_beq gib_sync.Prelude.Sorting.sort
    gib_sync.Prelude.Dict.insert
repair_vault-repair_vault_example =
    repair_vault-repair_vault ascii store "v" (some "b") (some "a") vaults refl refl
