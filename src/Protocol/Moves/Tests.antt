-- ===== src/Protocol/Moves/Tests.antt =====
-- Runs of `detectMoves`, and its theorem at a concrete input.
use gib_sync.Prelude.{ℕ, ◌≡◌, refl, String, Option, none, some, List, [], ◌∷◌, All}
use gib_sync.Prelude.Text.{Text, text}
use gib_sync.Protocol.Host.{ascii}
use gib_sync.Protocol.Model.{ManifestEntry}
use gib_sync.Protocol.Moves.{DetectedMove, identity, assessment, detect_moves}
use gib_sync.Protocol.Moves.Laws.{IsDetected, detect_moves-IsDetected}

abbrev file : String → String → ManifestEntry
file path hash = record {
  path = text path;
  hash = hash;
  size = 10;
  mtime = 0;
  file_id = none;
  revision = none;
}

abbrev earlier : List ManifestEntry
earlier = file "a/x.md" "1" ∷ file "a/y.md" "2" ∷ file "a/z.md" "3" ∷ []

-- Two files were moved as they were, and the third was edited on the way.
abbrev later : List ManifestEntry
later = file "b/x.md" "1" ∷ file "b/y.md" "2" ∷ file "b/z.md" "4" ∷ []

abbrev move : String → String → DetectedMove
move source destination = record { previous_path = text source; path = text destination }

by_contents_only :
    detect_moves ascii identity earlier later ≡ move "a/x.md" "b/x.md" ∷ move "a/y.md" "b/y.md" ∷ []
unfolding detect_moves gib_sync.Prelude.Sorting.sort gib_sync.Prelude.Text.text_beq
    gib_sync.Prelude.Text.text_leb
by_contents_only = refl

by_folder :
    detect_moves ascii assessment earlier later
    ≡ move "a/x.md" "b/x.md" ∷ move "a/y.md" "b/y.md" ∷ move "a/z.md" "b/z.md" ∷ []
unfolding detect_moves gib_sync.Prelude.Sorting.sort gib_sync.Prelude.Text.text_beq
    gib_sync.Prelude.Text.text_leb
by_folder = refl

detect_moves-IsDetected_example :
    All (IsDetected ascii earlier later) (detect_moves ascii assessment earlier later)
detect_moves-IsDetected_example = detect_moves-IsDetected ascii assessment earlier later
