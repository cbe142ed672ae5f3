-- ===== src/Server/Paths/Tests.antt =====
-- Runs of the functions on paths, and the theorem about them at one of them.
use gib_sync.Prelude.{◌≡◌, refl, Option, none, some, All, List, [], ◌∷◌}
use gib_sync.Prelude.Text.{text, split}
use gib_sync.Server.Paths.{safe_relative_path, ancestors}

climbing : safe_relative_path (text "notes/../secret.md") ≡ none
unfolding safe_relative_path gib_sync.Prelude.Text.starts_with split gib_sync.Prelude.Text.text_beq
climbing = refl

reserved : safe_relative_path (text ".gib-sync/state.json") ≡ none
unfolding safe_relative_path gib_sync.Prelude.Text.starts_with split gib_sync.Prelude.Text.text_beq
reserved = refl

outermost_first : ancestors (text "a/b/c.md") ≡ text "a" ∷ text "a/b" ∷ []
unfolding ancestors split gib_sync.Prelude.Text.join
outermost_first = refl

accepted : safe_relative_path (text "notes/today.md") ≡ some (text "notes/today.md")
unfolding safe_relative_path gib_sync.Prelude.Text.starts_with split gib_sync.Prelude.Text.text_beq
    gib_sync.Prelude.Text.join
accepted = refl
