-- ===== src/Plugin/Settings/Tests.antt =====
-- plugin/src/settings.ts, on paths and settings as a device has them.
use gib_sync.Prelude.{◌≡◌, refl, String, Bool, true, false, none, some, List, [], ◌∷◌, ◌&&◌, not}
use gib_sync.Prelude.Text.{Text, text, split}
use gib_sync.Protocol.Host.{ascii}
use gib_sync.Server.Paths.{first_is, safe_relative_path}
use gib_sync.Plugin.Settings.{GibSyncSettings, default_settings}
use gib_sync.Plugin.Settings.Paths.{
  is_safe_vault_path, normalized_config_dir, canonical_config_path, is_plugin_data_path,
  is_obsidian_system_path, is_device_local_obsidian_path,
}
use gib_sync.Plugin.Settings.Sync.{should_sync_changed_path}
use gib_sync.Plugin.Settings.Laws.{
  is_accepted, should_sync_changed_path-more, is_safe_vault_path-safe_relative_path,
}

abbrev settings : GibSyncSettings String
settings = record default_settings {
  config_dir = text ".Config";
  exclusions = text "drafts/" ∷ text "old" ∷ text ".config/plugins/dict/main.js" ∷ [];
}

abbrev sent : String → GibSyncSettings String → Bool
sent path s = should_sync_changed_path ascii (text path) s

sends_a_note : sent "notes/a.md" settings ≡ true
unfolding should_sync_changed_path is_safe_vault_path gib_sync.Prelude.Text.starts_with split
    gib_sync.Prelude.Text.text_beq gib_sync.Plugin.Settings.Sync.is_never_sent canonical_config_path
    gib_sync.Prelude.Regex.matches is_device_local_obsidian_path
    gib_sync.Plugin.Settings.Paths.obsidian_plugin_path
sends_a_note = refl

withholds_a_draft : sent "Drafts/a.md" settings ≡ false
unfolding should_sync_changed_path is_safe_vault_path gib_sync.Prelude.Text.starts_with split
    gib_sync.Prelude.Text.text_beq gib_sync.Plugin.Settings.Sync.is_never_sent canonical_config_path
    gib_sync.Prelude.Regex.matches is_device_local_obsidian_path
    gib_sync.Plugin.Settings.Paths.obsidian_plugin_path
withholds_a_draft = refl

withholds_own_state : sent ".gib-sync/apply/1.stage" settings ≡ false
unfolding should_sync_changed_path is_safe_vault_path gib_sync.Prelude.Text.starts_with split
    gib_sync.Prelude.Text.text_beq gib_sync.Plugin.Settings.Sync.is_never_sent canonical_config_path
withholds_own_state = refl

abbrev open_settings : GibSyncSettings String
open_settings = record settings { sync_plugins = true; sync_obsidian_config = true }

sends_a_plugin : sent ".config/plugins/other/main.js" open_settings ≡ true
unfolding should_sync_changed_path is_safe_vault_path gib_sync.Prelude.Text.starts_with split
    gib_sync.Prelude.Text.text_beq gib_sync.Plugin.Settings.Sync.is_never_sent canonical_config_path
    gib_sync.Prelude.Regex.matches is_device_local_obsidian_path
    gib_sync.Plugin.Settings.Paths.obsidian_plugin_path gib_sync.Prelude.Text.join
sends_a_plugin = refl

-- An exclusion of the program keeps all of the plugin back.
withholds_half_a_plugin : sent ".config/plugins/dict/manifest.json" open_settings ≡ false
unfolding should_sync_changed_path is_safe_vault_path gib_sync.Prelude.Text.starts_with split
    gib_sync.Prelude.Text.text_beq gib_sync.Plugin.Settings.Sync.is_never_sent canonical_config_path
    gib_sync.Prelude.Regex.matches is_device_local_obsidian_path
    gib_sync.Plugin.Settings.Paths.obsidian_plugin_path gib_sync.Prelude.Text.join
withholds_half_a_plugin = refl

withholds_itself : sent ".config/plugins/gib-sync/data.json" open_settings ≡ false
unfolding should_sync_changed_path is_safe_vault_path gib_sync.Prelude.Text.starts_with split
    gib_sync.Prelude.Text.text_beq gib_sync.Plugin.Settings.Sync.is_never_sent canonical_config_path
    gib_sync.Prelude.Regex.matches is_device_local_obsidian_path
    gib_sync.Plugin.Settings.Paths.obsidian_plugin_path gib_sync.Prelude.Text.join
withholds_itself = refl

withholds_a_workspace : sent ".config/workspace-mobile.json" open_settings ≡ false
unfolding should_sync_changed_path is_safe_vault_path gib_sync.Prelude.Text.starts_with split
    gib_sync.Prelude.Text.text_beq gib_sync.Plugin.Settings.Sync.is_never_sent canonical_config_path
    gib_sync.Prelude.Regex.matches is_device_local_obsidian_path
withholds_a_workspace = refl

withholds_a_cache : sent ".config/plugins/other/Cache/1.bin" open_settings ≡ false
unfolding should_sync_changed_path is_safe_vault_path gib_sync.Prelude.Text.starts_with split
    gib_sync.Prelude.Text.text_beq gib_sync.Plugin.Settings.Sync.is_never_sent canonical_config_path
    gib_sync.Prelude.Regex.matches is_device_local_obsidian_path
    gib_sync.Plugin.Settings.Paths.obsidian_plugin_path gib_sync.Prelude.Text.join
withholds_a_cache = refl

canonical :
    canonical_config_path ascii (text "/.CONFIG\\Plugins/x") (text ".config/")
    ≡ text ".obsidian/Plugins/x"
unfolding canonical_config_path gib_sync.Prelude.Text.text_beq is_safe_vault_path
    gib_sync.Prelude.Text.starts_with split
canonical = refl

data_file :
    is_plugin_data_path ascii (text ".obsidian/plugins/x/Data.json") (text ".obsidian") ≡ true
unfolding gib_sync.Plugin.Settings.Paths.obsidian_plugin_path split canonical_config_path
    gib_sync.Prelude.Text.text_beq is_safe_vault_path gib_sync.Prelude.Text.starts_with
    gib_sync.Prelude.Regex.matches gib_sync.Prelude.Text.join
data_file = refl

system_file : is_obsidian_system_path ascii (text ".config/app.json") (text ".config") ≡ true
unfolding gib_sync.Prelude.Text.starts_with canonical_config_path gib_sync.Prelude.Text.text_beq
    is_safe_vault_path split
system_file = refl

unsafe_dir : normalized_config_dir (text "../x") ≡ text ".obsidian"
unfolding is_safe_vault_path gib_sync.Prelude.Text.starts_with split gib_sync.Prelude.Text.text_beq
unsafe_dir = refl

-- A path with a slash at its end is safe to the plugin and refused by the server.
trailing_slash : (is_safe_vault_path (text "a/") ≡ true) × (safe_relative_path (text "a/") ≡ none)
unfolding is_safe_vault_path gib_sync.Prelude.Text.starts_with split gib_sync.Prelude.Text.text_beq
    safe_relative_path
trailing_slash = (refl, refl)

should_sync_changed_path-more_example :
    should_sync_changed_path ascii (text "notes/a.md") (record settings {
      exclusions = text "old" ∷ [];
      sync_bookmarks = true;
      sync_obsidian_config = false;
      sync_plugins = true;
    })
    ≡ true
unfolding gib_sync.Prelude.Text.text_beq should_sync_changed_path is_safe_vault_path
    gib_sync.Prelude.Text.starts_with split gib_sync.Plugin.Settings.Sync.is_never_sent
    canonical_config_path gib_sync.Prelude.Regex.matches is_device_local_obsidian_path
    gib_sync.Plugin.Settings.Paths.obsidian_plugin_path
should_sync_changed_path-more_example =
    should_sync_changed_path-more ascii (text "notes/a.md") settings (text "old" ∷ []) true false
      true (refl, tt) refl

is_safe_vault_path-safe_relative_path_example :
    is_accepted (safe_relative_path (text "notes/../a.md")) ≡ (
      is_safe_vault_path (text "notes/../a.md")
      && not (first_is (text ".gib-sync") (split (text "notes/../a.md"))))
unfolding gib_sync.Server.Safeguards.drop_last_slashes
is_safe_vault_path-safe_relative_path_example =
    is_safe_vault_path-safe_relative_path (text "notes/../a.md") refl refl refl refl
