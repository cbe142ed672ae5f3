-- ===== src/Server/Safeguards.antt =====
-- apps/server/src/safeguards.ts: the policies, and the paths that belong to one device only.
-- `clockSkewMinutes` is not read by the assessment and is left out of the policy.
pub mod Assess
pub mod Review
pub mod Laws
pub mod Tests
use gib_sync.Prelude.{
  ℕ, ◌*◌, String, Bool, true, false, ◌&&◌, ◌||◌, not, Option, none, some, List, [], ◌∷◌, ◌++◌, map,
  keep, some_of, contains, if◌then◌else◌, ◌==◌, nat_eq,
}
use gib_sync.Prelude.Text.{Text, text, text_eq, slash, split, join, starts_with, replace_unit}
use gib_sync.Prelude.Regex.{
  Regex, nothing, one, followed, either, many, matches, literally, optional, some_more, times,
  digit, any, no_slash, anywhere,
}
use gib_sync.Protocol.Host.{Host, ascii}

pub data SafeguardMode : Type 0 where
  balanced strict custom : SafeguardMode

pub record SafeguardPolicy : Type 0 where
  pub mode : SafeguardMode
  pub deletion_count : ℕ
  pub small_vault_deletion_count : ℕ
  pub small_vault_deletion_percent : ℕ
  pub changed_count : ℕ
  pub changed_percent : ℕ
  pub folder_impact_count : ℕ
  pub file_growth_bytes : ℕ
  pub file_growth_percent : ℕ
  pub protected_paths : List Text

abbrev pub balanced_policy : SafeguardPolicy
balanced_policy = record {
  mode = balanced;
  deletion_count = 10;
  small_vault_deletion_count = 5;
  small_vault_deletion_percent = 20;
  changed_count = 100;
  changed_percent = 30;
  folder_impact_count = 20;
  file_growth_bytes = 52428800;
  file_growth_percent = 500;
  protected_paths = [];
}

abbrev pub strict_policy : SafeguardPolicy
strict_policy = record {
  mode = strict;
  deletion_count = 5;
  small_vault_deletion_count = 3;
  small_vault_deletion_percent = 10;
  changed_count = 50;
  changed_percent = 20;
  folder_impact_count = 10;
  file_growth_bytes = 20971520;
  file_growth_percent = 300;
  protected_paths = [];
}

abbrev pub drop_slashes : Text → Text
drop_slashes [] = []
drop_slashes (c ∷ s) = if c == slash then drop_slashes s else c ∷ s

unfoldable pub drop_last_slashes : Text → Text
drop_last_slashes [] = []
drop_last_slashes (c ∷ s) =
    let rest = drop_last_slashes s in
    elim rest [ [] ↦ if c == slash then [] else c ∷ [] | d ∷ more ↦ c ∷ d ∷ more ]

-- `path.replace(/\\/g,"/").replace(/^\/+|\/+$/g,"")`
abbrev pub normalize : Text → Text
normalize path = drop_last_slashes (drop_slashes (replace_unit 92 slash path))

abbrev pub policy_base : SafeguardMode → SafeguardPolicy
policy_base balanced = balanced_policy
policy_base strict = strict_policy
policy_base custom = balanced_policy

abbrev pub is_blank : Text → Bool
is_blank [] = true
is_blank (c ∷ s) = false

abbrev pub thresholds : SafeguardMode → Option SafeguardPolicy → SafeguardPolicy
thresholds balanced given = policy_base balanced
thresholds strict given = policy_base strict
thresholds custom none = policy_base custom
thresholds custom (some p) = p

abbrev pub declared_paths : SafeguardPolicy → Option SafeguardPolicy → List Text
declared_paths base none = base.protected_paths
declared_paths base (some p) = p.protected_paths

-- A stored policy is given as a whole; only a custom one sets thresholds of its own.
unfoldable pub policy_for : SafeguardMode → Option SafeguardPolicy → SafeguardPolicy
unfolding drop_last_slashes
policy_for mode given = record (thresholds mode given) {
  mode = mode;
  protected_paths =
      keep (λ p. not (is_blank p)) (map normalize (declared_paths (policy_base mode) given));
}

-- `^\.obsidian\/workspace(?:-[^/]+)?\.json$`, on lower case
abbrev pub workspace_path : Regex
workspace_path = followed (literally (text ".obsidian/workspace")) (
    followed (optional (followed (literally (text "-")) (some_more no_slash)))
      (literally (text ".json")))

abbrev pub two_digits : Regex
two_digits = times 2 digit

-- `\d{4}-\d{2}-\d{2} \d{2}-\d{2}-\d{2}`
abbrev pub stamp : Regex
stamp = followed (times 4 digit) (
    followed (literally (text "-")) (
      followed two_digits (
        followed (literally (text "-")) (
          followed two_digits (
            followed (literally (text " ")) (
              followed two_digits (
                followed (literally (text "-"))
                  (followed two_digits (followed (literally (text "-")) two_digits)))))))))

-- ` \(conflict - .+ - <stamp> UTC(?: - \d+)?\)(?:\.[^/]+)?$`, on lower case
abbrev pub conflict_name : Regex
conflict_name = anywhere (
    followed (literally (text " (conflict - ")) (
      followed (some_more any) (
        followed (literally (text " - ")) (
          followed stamp (
            followed (literally (text " utc")) (
              followed (optional (followed (literally (text " - ")) (some_more digit))) (
                followed (literally (text ")"))
                  (optional (followed (literally (text ".")) (some_more no_slash))))))))))

-- `\.(?:log|tmp)$`, on lower case
abbrev pub log_name : Regex
log_name =
    anywhere
      (followed (literally (text ".")) (either (literally (text "log")) (literally (text "tmp"))))

abbrev pub generated : List Text
generated = map text (
    ".cache" ∷ "cache" ∷ "caches" ∷ "embeddings" ∷ "index-data" ∷ "indexes" ∷ "logs"
    ∷ "node_modules" ∷ "search-index" ∷ "temp" ∷ "tmp" ∷ [])

-- `^\.obsidian\/plugins\/[^/]+\/(.+)$`, on lower case: the group, as its parts
abbrev pub plugin_parts : List Text → Option (List Text)
plugin_parts (a ∷ b ∷ plugin ∷ first ∷ more) =
    if a == text ".obsidian"
      && b == text "plugins"
      && not (is_blank plugin)
      && matches (some_more any) (join (first ∷ more))
    then some (first ∷ more)
    else none
plugin_parts parts = none

abbrev pub is_generated : Option (List Text) → Bool
is_generated none = false
is_generated (some parts) = some_of (contains generated) parts || matches log_name (join parts)

-- The patterns ignore the case of ASCII letters, so they are read on a lower-case path.
unfoldable pub is_device_local : Text → Bool
unfolding matches split join
is_device_local path =
    let value = ascii.lower (normalize path) in
    matches workspace_path value
    || starts_with value (text ".obsidian/") && matches conflict_name value
    || is_generated (plugin_parts (split value))
