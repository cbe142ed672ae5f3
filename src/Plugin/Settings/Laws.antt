-- ===== src/Plugin/Settings/Laws.antt =====
-- plugin/src/settings.ts: how the paths that a device sends depend on its settings, and how its test
-- of a path agrees with that of the server (apps/server/src/seafile.ts).
use gib_sync.Prelude.{
  ◌≡◌, ◌∙◌, refl, ap, sym, Bool, true, false, ◌&&◌, ◌||◌, not, Option, none, some, List, [], ◌∷◌,
  contains, some_of, All, nat_eq, nat_beq, Bool-cases, inl, inr, arith, if◌then◌else◌,
}
use gib_sync.Prelude.Text.{Text, text, text_eq, text_beq, text_beq_iff, split, starts_with}
use gib_sync.Protocol.Host.{Host}
use gib_sync.Server.Safeguards.{drop_slashes, drop_last_slashes, is_blank}
use gib_sync.Server.Paths.{is_empty, bad_part, first_is, safe_relative_path}
use gib_sync.Plugin.Settings.{GibSyncSettings}
use gib_sync.Plugin.Settings.Paths.{
  with_slashes, is_safe_vault_path, has_drive, obsidian_dir, PluginPath, canonical_config_path,
  obsidian_plugin_path, is_device_local_plugin,
}
use gib_sync.Plugin.Settings.Sync.{
  is_never_sent, is_plugin_kept_back, is_off, is_excluded_by, takes_executable,
  should_sync_changed_path,
}

abbrev pub Within : List Text → List Text → Type 0
Within fewer more = All (λ (p : Text). contains more p ≡ true) fewer

some_of-contains :
    (test : Text → Bool) (l : List Text) (p : Text)
    → contains l p ≡ true
    → test p ≡ true
    → some_of test l ≡ true
some_of-contains test [] p h t = cc
some_of-contains test (q ∷ l) p h t = elim (Bool-cases (text_beq p q)) [
  | inl e ↦ let same : p ≡ q = (text_beq_iff p q).0 e in rw (sym same) (rw t refl)
  | inr e ↦ let rest = some_of-contains test l p (ground arith) t in ground arith
]

some_of-Within :
    (test : Text → Bool) (fewer more : List Text)
    → Within fewer more
    → some_of test more ≡ false
    → some_of test fewer ≡ false
some_of-Within test [] more w h = refl
some_of-Within test (p ∷ ps) more w h =
    let rest = some_of-Within test ps more w.1 h in
    elim (Bool-cases (test p)) [
      | inl e ↦ absurd (ground (arith, some_of-contains test more p w.0 e))
      | inr e ↦ ground arith
    ]

is_off-more :
    (b c p b' c' p' root marks listed system : Bool)
    → is_off b c p root marks listed system ≡ false
    → is_off (b || b') (c || c') (p || p') root marks listed system ≡ false
is_off-more b c p b' c' p' root marks listed system h = ground arith

still_true :
    (a n k k' o o' x x' : Bool)
    → (k ≡ false → k' ≡ false)
    → (o ≡ false → o' ≡ false)
    → (x ≡ false → x' ≡ false)
    → (a && not n && not k && not o && not x) ≡ true
    → (a && not n && not k' && not o' && not x') ≡ true
still_true a n k k' o o' x x' f g w h = ground arith

rejoined : (d x x' : Bool) → (x ≡ false → x' ≡ false) → (d || x) ≡ false → (d || x') ≡ false
rejoined d x x' f h = ground arith

module _ (H : Host) where
  is_plugin_kept_back-Within :
      (config_dir : Text) (fewer more : List Text) (plugin : Option PluginPath)
      → Within fewer more
      → is_plugin_kept_back H config_dir more plugin ≡ false
      → is_plugin_kept_back H config_dir fewer plugin ≡ false
  is_plugin_kept_back-Within config_dir fewer more none w h = refl
  is_plugin_kept_back-Within config_dir fewer more (some plugin) w h =
      rejoined (is_device_local_plugin H plugin.id) _ _
        (some_of-Within (takes_executable H config_dir plugin) fewer more w) h

  -- A path that is sent is still sent after exclusions are taken away and switches are turned on.
  pub should_sync_changed_path-more :
      {B : Type 0} (path : Text) (s : GibSyncSettings B) (fewer : List Text) (b c p : Bool)
      → Within fewer s.exclusions
      → should_sync_changed_path H path s ≡ true
      → should_sync_changed_path H path (record s {
        exclusions = fewer;
        sync_bookmarks = s.sync_bookmarks || b;
        sync_obsidian_config = s.sync_obsidian_config || c;
        sync_plugins = s.sync_plugins || p;
      })
        ≡ true
  unfolding should_sync_changed_path
  should_sync_changed_path-more path s fewer b c p w h =
      let actual = drop_slashes (with_slashes path) in
      let normalized = H.lower (canonical_config_path H actual s.config_dir) in
      let plugin = obsidian_plugin_path H normalized obsidian_dir in
      still_true (is_safe_vault_path path) (is_never_sent H normalized) _ _ _ _ _ _
        (is_plugin_kept_back-Within s.config_dir fewer s.exclusions plugin w)
        (is_off-more s.sync_bookmarks s.sync_obsidian_config s.sync_plugins b c p _ _ _ _)
        (some_of-Within (is_excluded_by H s.config_dir actual normalized) fewer s.exclusions w) h

abbrev pub is_accepted : Option Text → Bool
is_accepted none = false
is_accepted (some path) = true

with_slashes-id : (path : Text) → contains path 92 ≡ false → with_slashes path ≡ path
with_slashes-id [] h = refl
with_slashes-id (c ∷ s) h = elim (Bool-cases (nat_beq c 92)) [
  | inl e ↦ absurd (ground arith)
  | inr e ↦ rw e (ap (λ r. c ∷ r) (with_slashes-id s (ground arith)))
]

is_accepted-choose :
    (empty slashed root bad own : Bool) (path : Text)
    → slashed ≡ false
    → is_accepted
        (if empty || slashed || root then none else (if bad || own then none else some path))
      ≡ (not empty && not root && true && true && not bad && not own)
is_accepted-choose true slashed root bad own path h = refl
is_accepted-choose false true root bad own path h = absurd (ground arith)
is_accepted-choose false false true bad own path h = refl
is_accepted-choose false false false true own path h = refl
is_accepted-choose false false false false true path h = refl
is_accepted-choose false false false false false path h = refl

is_empty-is_blank : (path : Text) → is_empty path ≡ is_blank path
is_empty-is_blank [] = refl
is_empty-is_blank (c ∷ s) = refl

-- A path without a backslash, a NUL unit, a drive letter and a slash at its end is accepted by the
-- server just when the plugin takes it for safe and its first segment is not `.gib-sync`.
pub is_safe_vault_path-safe_relative_path :
    (path : Text)
    → contains path 92 ≡ false
    → contains path 0 ≡ false
    → has_drive path ≡ false
    → drop_last_slashes path ≡ path
    → is_accepted (safe_relative_path path)
      ≡ (is_safe_vault_path path && not (first_is (text ".gib-sync") (split path)))
unfolding safe_relative_path is_safe_vault_path
is_safe_vault_path-safe_relative_path path b z d e =
    let same : drop_last_slashes (with_slashes path) ≡ path =
      ap drop_last_slashes (with_slashes-id path b) ∙ e in
    is_accepted-choose (is_empty path) (contains path 92) (starts_with path (text "/"))
      (some_of bad_part (split path)) (first_is (text ".gib-sync") (split path)) _ b
    ∙ (rw (is_empty-is_blank path) (rw same (rw d (rw z refl))))
