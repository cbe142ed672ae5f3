-- ===== src/Server/FolderMigration/Repair.antt =====
-- apps/server/src/folder-migration.ts: `repairUnsafeLegacyFolderHeads`, which takes every vault whose
-- head is an unsafe folder baseline back to the snapshot before it.
use gib_sync.Prelude.{
  ℕ, ◌+◌, String, Option, none, some, List, [], ◌∷◌, ◌++◌, ◌==◌, nat_eq, string_eq, option_eq,
  if◌then◌else◌,
}
use gib_sync.Prelude.Text.{text_eq}
use gib_sync.Prelude.Dict.{Dict, lookup, insert}
use gib_sync.Protocol.Host.{Host}
use gib_sync.Server.FolderMigration.{Snapshot, unsafe_legacy_folder_seed}
use gib_sync.Server.FolderMigration.Plans.{found}

-- The heads of the vaults, and the warnings that were raised for them.
pub record Vaults : Type 0 where
  pub heads : Dict String (Option String)
  pub warnings : List String

-- `UPDATE vaults SET head_id=? WHERE id=? AND head_id=?`, with a warning where a row was changed
unfoldable pub rewind_head : String → (from to : Snapshot) → Vaults → Vaults × ℕ
rewind_head vault head parent v =
    if lookup vault v.heads == some (some head.id)
    then (
      record v {
        heads = insert vault (some parent.id) v.heads;
        warnings = v.warnings ++ (vault ∷ []);
      },
      1,
    )
    else (v, 0)

abbrev pub rewind_to : Host → Snapshot → Option Snapshot → Option (Snapshot × Snapshot)
rewind_to H head none = none
rewind_to H head (some parent) =
    if unsafe_legacy_folder_seed H head (some parent) then some (head, parent) else none

-- The head of a vault and the snapshot that it goes back to, if the head is unsafe.
abbrev pub rewound : Host → Dict String Snapshot → Option Snapshot → Option (Snapshot × Snapshot)
rewound H store none = none
rewound H store (some head) = rewind_to H head (found head.parent_id store)

unfoldable pub rewind_found : String → Option (Snapshot × Snapshot) → Vaults → Vaults × ℕ
unfolding rewind_head
rewind_found vault none v = (v, 0)
rewind_found vault (some both) v = rewind_head vault both.0 both.1 v

unfoldable pub repair_vault :
    Host → Dict String Snapshot → String → Option String → Vaults → Vaults × ℕ
unfolding rewind_found unsafe_legacy_folder_seed lookup
repair_vault H store vault none v = (v, 0)
repair_vault H store vault (some head_id) v =
    rewind_found vault (rewound H store (lookup head_id store)) v

-- The loop over the rows that the SELECT returned before it.
unfoldable pub repair_all :
    Host → Dict String Snapshot → Dict String (Option String) → Vaults → Vaults × ℕ
unfolding repair_vault
repair_all H store [] v = (v, 0)
repair_all H store ((vault, head) ∷ rows) v =
    let (u, n) = repair_vault H store vault head v in
    let (w, m) = repair_all H store rows u in (w, n + m)

unfoldable pub repair_unsafe_legacy_folder_heads : Host → Dict String Snapshot → Vaults → Vaults × ℕ
unfolding repair_all
repair_unsafe_legacy_folder_heads H store v = repair_all H store v.heads v
