-- ===== src/Server/Safeguards/Tests.antt =====
-- Runs of `policyFor` and `assessChanges`, and the theorem on them at a concrete input.
use gib_sync.Prelude.{
  ℕ, ◌≡◌, refl, String, Bool, true, false, ◌&&◌, not, Option, none, some, List, [], ◌∷◌, map,
}
use gib_sync.Prelude.Text.{Text, text}
use gib_sync.Protocol.Host.{ascii}
use gib_sync.Protocol.Model.{ManifestEntry}
use gib_sync.Server.Safeguards.{
  SafeguardPolicy, custom, strict, balanced_policy, strict_policy, policy_for, is_device_local,
}
use gib_sync.Server.Safeguards.Assess.{
  ClientSafetySignals, no_signals, many_deleted, left_folder, share_deleted, protected_deleted,
  find_changes, assess_changes, trusted_cleanup, moved_from, moved_to, detected,
}
use gib_sync.Server.Safeguards.Laws.{has_item, is_gone, is_new, find_changes-lem}

abbrev file : String → String → ManifestEntry
file path hash = record {
  path = text path;
  hash = hash;
  size = 10;
  mtime = 0;
  file_id = none;
  revision = none;
}

abbrev earlier : List ManifestEntry
earlier =
    file "a/x.md" "1"
    ∷ file "a/y.md" "2"
    ∷ file "a/z.md" "3"
    ∷ file ".obsidian/workspace-2.json" "4"
    ∷ []

-- One file was moved, two were deleted and the layout of one device was cleaned up.
abbrev later : List ManifestEntry
later = file "b/x.md" "1" ∷ file "b/new.md" "5" ∷ []

abbrev announced : ClientSafetySignals
announced = record no_signals {
  device_local_cleanup_paths = text ".obsidian/workspace-2.json" ∷ [];
}

abbrev careful : SafeguardPolicy
careful = policy_for custom (
    some (record strict_policy {
      deletion_count = 2;
      small_vault_deletion_count = 2;
      folder_impact_count = 2;
      protected_paths = text "/a/" ∷ text "c" ∷ [];
    }))

layout_is_local : is_device_local (text "\\.Obsidian\\workspace-2.json/") ≡ true
unfolding is_device_local gib_sync.Server.Safeguards.drop_last_slashes
layout_is_local = refl

note_is_shared : is_device_local (text ".obsidian/workspaces.json") ≡ false
unfolding is_device_local gib_sync.Server.Safeguards.drop_last_slashes
    gib_sync.Prelude.Text.starts_with
note_is_shared = refl

plugin_cache_is_local : is_device_local (text ".obsidian/plugins/x/Cache/data.json") ≡ true
unfolding is_device_local gib_sync.Server.Safeguards.drop_last_slashes
    gib_sync.Prelude.Text.starts_with gib_sync.Prelude.Text.text_beq
plugin_cache_is_local = refl

plugin_data_is_shared : is_device_local (text ".obsidian/plugins/x/data.json") ≡ false
unfolding is_device_local gib_sync.Server.Safeguards.drop_last_slashes
    gib_sync.Prelude.Text.starts_with gib_sync.Prelude.Text.text_beq
plugin_data_is_shared = refl

conflict_copy_is_local :
    is_device_local (text ".obsidian/app (conflict - pc - 2026-01-02 03-04-05 UTC - 2).json") ≡ true
unfolding is_device_local gib_sync.Server.Safeguards.drop_last_slashes
    gib_sync.Prelude.Text.starts_with
conflict_copy_is_local = refl

reasons_found :
    (assess_changes ascii careful announced earlier later).0.reasons
    ≡ many_deleted 2
      ∷ share_deleted 67
      ∷ left_folder 2 (text "a")
      ∷ protected_deleted (text "a")
      ∷ []
unfolding assess_changes policy_for gib_sync.Prelude.Text.text_beq gib_sync.Prelude.Sorting.sort
reasons_found = refl

counts_found : (assess_changes ascii careful announced earlier later).0.deleted_count ≡ 2
unfolding assess_changes gib_sync.Prelude.Text.text_beq gib_sync.Prelude.Sorting.sort
counts_found = refl

find_changes-lem_example :
    (has_item (text "a/y.md") (find_changes ascii announced earlier later).deletions ≡ (
      (is_gone ascii announced earlier later (text "a/y.md")
        && not (trusted_cleanup announced (text "a/y.md")))
      && not (moved_from (detected ascii announced earlier later) (text "a/y.md"))))
    × (has_item (text "a/y.md") (find_changes ascii announced earlier later).creations ≡ (
        is_new ascii announced earlier later (text "a/y.md")
        && not (moved_to (detected ascii announced earlier later) (text "a/y.md"))))
find_changes-lem_example = find_changes-lem ascii announced earlier later (text "a/y.md")
