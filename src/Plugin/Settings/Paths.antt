-- ===== src/Plugin/Settings/Paths.antt =====
-- plugin/src/settings.ts: `normalizedConfigDir` … `isObsidianSystemPath` and `isSafeVaultPath`, what
-- a path of the vault is to the plugin. The argument `configDir` is always given here.
use gib_sync.Prelude.{
  suc, Bool, false, ◌&&◌, ◌||◌, not, Option, none, some, List, [], ◌∷◌, ◌++◌, contains, some_of,
  length, if◌then◌else◌, ◌==◌, nat_eq, leb,
}
use gib_sync.Prelude.Text.{
  Text, text, text_eq, slash, split, join, starts_with, replace_unit, slice_from,
}
use gib_sync.Prelude.Regex.{any, many, matches}
use gib_sync.Protocol.Host.{Host, ascii}
use gib_sync.Server.Safeguards.{
  drop_slashes, drop_last_slashes, is_blank, workspace_path, conflict_name, log_name, generated,
}
use gib_sync.Server.Paths.{bad_part}

-- `path.replace(/\\/g,"/")`
abbrev pub with_slashes : Text → Text
with_slashes path = replace_unit 92 slash path

-- `/^[a-z]:/i.test(path)`, a drive letter
abbrev pub has_drive : Text → Bool
has_drive [] = false
has_drive (c ∷ []) = false
has_drive (c ∷ d ∷ s) = (leb b'A' c && leb c b'Z' || leb b'a' c && leb c b'z') && d == b':'

unfoldable pub is_safe_vault_path : Text → Bool
unfolding drop_last_slashes
is_safe_vault_path path =
    let normalized = drop_last_slashes (with_slashes path) in
    not (is_blank normalized)
    && not (starts_with normalized (text "/"))
    && not (has_drive normalized)
    && not (contains normalized 0)
    && not (some_of bad_part (split normalized))

abbrev pub obsidian_dir : Text
obsidian_dir = text ".obsidian"

abbrev pub normalized_config_dir : Text → Text
normalized_config_dir config_dir =
    let normalized = drop_last_slashes (drop_slashes (with_slashes config_dir)) in
    if is_safe_vault_path normalized then normalized else obsidian_dir

-- A path below a folder: `path.startsWith(`${folder}/`)`
abbrev pub below : Text → Text → Bool
below folder path = starts_with path (folder ++ text "/")

pub record PluginPath : Type 0 where
  pub id : Text
  pub relative : Text

-- `^\.obsidian\/plugins\/([^/]+)(?:\/(.*))?$`, without regard to case
abbrev plugin_path : List Text → Option PluginPath
plugin_path (a ∷ b ∷ plugin ∷ more) =
    if ascii.lower a == obsidian_dir
      && ascii.lower b == text "plugins"
      && not (is_blank plugin)
      && matches (many any) (join more)
    then some record { id = plugin; relative = join more }
    else none
plugin_path parts = none

abbrev pub is_gib_sync_conflict_path : Text → Bool
is_gib_sync_conflict_path path =
    matches conflict_name (ascii.lower (drop_slashes (with_slashes path)))

module _ (H : Host) where
  unfoldable pub canonical_config_path : Text → Text → Text
  canonical_config_path path config_dir =
      let normalized = drop_slashes (with_slashes path) in
      let root = normalized_config_dir config_dir in
      if H.lower normalized == H.lower root
      then obsidian_dir
      else if below (H.lower root) (H.lower normalized)
      then text ".obsidian/" ++ slice_from (suc (length root)) normalized
      else normalized

  abbrev pub is_device_local_workspace_path : Text → Text → Bool
  is_device_local_workspace_path path config_dir =
      matches workspace_path (ascii.lower (canonical_config_path path config_dir))

  unfoldable pub obsidian_plugin_path : Text → Text → Option PluginPath
  obsidian_plugin_path path config_dir = plugin_path (split (canonical_config_path path config_dir))

  abbrev is_data : Option PluginPath → Bool
  is_data none = false
  is_data (some plugin) = H.lower plugin.relative == text "data.json"

  abbrev pub is_plugin_data_path : Text → Text → Bool
  is_plugin_data_path path config_dir = is_data (obsidian_plugin_path path config_dir)

  abbrev pub is_device_local_plugin : Text → Bool
  is_device_local_plugin id = contains (text "gib-sync" ∷ text "obsidian42-brat" ∷ []) (H.lower id)

  abbrev pub is_generated_file : Option PluginPath → Bool
  is_generated_file none = false
  is_generated_file (some plugin) =
      some_of (λ segment. contains generated (H.lower segment)) (split plugin.relative)
      || matches log_name (ascii.lower plugin.relative)

  abbrev pub is_generated_plugin_path : Text → Text → Bool
  is_generated_plugin_path path config_dir =
      is_generated_file (obsidian_plugin_path path config_dir)

  abbrev pub is_legacy_obsidian_conflict_path : Text → Text → Bool
  is_legacy_obsidian_conflict_path path config_dir =
      let normalized = canonical_config_path path config_dir in
      starts_with (H.lower normalized) (text ".obsidian/") && is_gib_sync_conflict_path normalized

  unfoldable pub is_device_local_obsidian_path : Text → Text → Bool
  is_device_local_obsidian_path path config_dir =
      is_device_local_workspace_path path config_dir
      || is_generated_plugin_path path config_dir
      || is_legacy_obsidian_conflict_path path config_dir

  abbrev pub is_obsidian_system_path : Text → Text → Bool
  is_obsidian_system_path path config_dir =
      starts_with (H.lower (canonical_config_path path config_dir)) (text ".obsidian/")
