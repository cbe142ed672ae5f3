-- ===== src/Plugin/Settings/Sync.antt =====
-- plugin/src/settings.ts: `shouldSyncChangedPath`, whether a change of a path is sent.
use gib_sync.Prelude.{
  Bool, true, false, ◌&&◌, ◌||◌, not, Option, none, some, List, ◌++◌, some_of, leb, ◌==◌, nat_eq,
}
use gib_sync.Prelude.Text.{Text, text, text_eq, starts_with}
use gib_sync.Prelude.Regex.{
  Regex, one, followed, either, many, matches, literally, optional, some_more, digit,
}
use gib_sync.Protocol.Host.{Host, ascii}
use gib_sync.Server.Safeguards.{drop_slashes, drop_last_slashes, is_blank}
use gib_sync.Plugin.Settings.{GibSyncSettings}
use gib_sync.Plugin.Settings.Paths.{
  with_slashes, is_safe_vault_path, obsidian_dir, below, PluginPath, canonical_config_path,
  obsidian_plugin_path, is_device_local_plugin, is_device_local_obsidian_path,
}

-- The folder itself, or a path below it.
abbrev pub at_or_below : Text → Text → Bool
at_or_below folder path = path == folder || below folder path

abbrev pub is_private : Text → Bool
is_private normalized =
    is_blank normalized
    || at_or_below (text ".gib-sync") normalized
    || at_or_below (text ".trash") normalized

-- `[0-9a-f-]`, on lower case
abbrev hex_or_dash : Regex
hex_or_dash = either digit (either (one (λ c. leb b'a' c && leb c b'f')) (literally (text "-")))

-- `^\.obsidian\/plugins\/\.gib-sync-package-[0-9a-f-]+\.(?:stage|original|probe)(?:\/|$)`
abbrev package_stage : Regex
package_stage = followed (literally (text ".obsidian/plugins/.gib-sync-package-")) (
    followed (some_more hex_or_dash) (
      followed (literally (text ".")) (
        followed
          (either (literally (text "stage"))
            (either (literally (text "original")) (literally (text "probe"))))
          (optional (followed (literally (text "/")) (many (one (λ c. true))))))))

abbrev pub is_plugin_list : Text → Bool
is_plugin_list normalized =
    at_or_below (text ".obsidian/plugins") normalized
    || normalized == text ".obsidian/community-plugins.json"

abbrev pub is_bookmarks : Host → Text → Bool
is_bookmarks H normalized = H.lower normalized == text ".obsidian/bookmarks.json"

-- What the switches of the settings keep back, of the root of the configuration, the bookmarks, the
-- plugins and the other files of the configuration.
abbrev pub is_off : (bookmarks config plugins : Bool) (root marks listed system : Bool) → Bool
is_off bookmarks config plugins root marks listed system =
    (root && not bookmarks && not config && not plugins)
    || (marks && not bookmarks)
    || (listed && not plugins)
    || (not marks && not listed && not root && not config && system)

module _ (H : Host) where
  -- The part of the plugin that an exclusion takes away.
  abbrev takes_file : Text → PluginPath → Text → Bool
  takes_file excluded plugin name =
      at_or_below excluded (text ".obsidian/plugins/" ++ H.lower plugin.id ++ (text "/" ++ name))

  abbrev pub takes_executable : Text → PluginPath → Text → Bool
  takes_executable config_dir plugin prefix =
      let stripped = drop_last_slashes (drop_slashes (with_slashes prefix)) in
      let excluded = H.lower (canonical_config_path H stripped config_dir) in
      not (is_blank excluded)
      && (takes_file excluded plugin (text "manifest.json")
          || takes_file excluded plugin (text "main.js"))

  -- A plugin of the transport itself, or one of whose program an exclusion takes a part.
  abbrev pub is_plugin_kept_back : Text → List Text → Option PluginPath → Bool
  is_plugin_kept_back config_dir exclusions none = false
  is_plugin_kept_back config_dir exclusions (some plugin) =
      is_device_local_plugin H plugin.id || some_of (takes_executable config_dir plugin) exclusions

  abbrev pub is_excluded_by : Text → Text → Text → Text → Bool
  is_excluded_by config_dir actual normalized prefix =
      let excluded = drop_last_slashes (drop_slashes (with_slashes prefix)) in
      let canonical = H.lower (canonical_config_path H excluded config_dir) in
      not (is_blank excluded)
      && (at_or_below (H.lower excluded) (H.lower actual) || at_or_below canonical normalized)

  abbrev pub is_switched_off : (bookmarks config plugins : Bool) → Text → Bool
  is_switched_off bookmarks config plugins normalized =
      is_off bookmarks config plugins (normalized == obsidian_dir) (is_bookmarks H normalized)
        (is_plugin_list normalized) (starts_with normalized (text ".obsidian/"))

  -- What no setting lets through.
  unfoldable pub is_never_sent : Text → Bool
  is_never_sent normalized =
      is_private normalized
      || matches package_stage (ascii.lower normalized)
      || is_device_local_obsidian_path H normalized obsidian_dir
      || normalized == text ".obsidian/core-plugins.json"

  unfoldable pub should_sync_changed_path : {B : Type 0} → Text → GibSyncSettings B → Bool
  unfolding drop_last_slashes
  should_sync_changed_path path s =
      let actual = drop_slashes (with_slashes path) in
      let normalized = H.lower (canonical_config_path H actual s.config_dir) in
      let plugin = obsidian_plugin_path H normalized obsidian_dir in
      is_safe_vault_path path
      && not (is_never_sent normalized)
      && not (is_plugin_kept_back s.config_dir s.exclusions plugin)
      && not (is_switched_off s.sync_bookmarks s.sync_obsidian_config s.sync_plugins normalized)
      && not (some_of (is_excluded_by s.config_dir actual normalized) s.exclusions)
