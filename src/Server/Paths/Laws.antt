-- ===== src/Server/Paths/Laws.antt =====
-- What a path that passes `safeRelativePath` (apps/server/src/seafile.ts) cannot do.
use gib_sync.Prelude.{◌≡◌, ◌≢◌, false, some, List, [], ◌∷◌, All, some_of, arith}
use gib_sync.Prelude.Text.{Text, text, text_eq, text_beq_iff, split, join-split}
use gib_sync.Server.Paths.{bad_part, safe_relative_path}

-- A segment that names a file or a folder below the current one.
abbrev pub Plain : Text → Type 0
Plain part = (part ≢ []) × (part ≢ text ".") × (part ≢ text "..")

Plain-parts : (parts : List Text) → some_of bad_part parts ≡ false → All Plain parts
Plain-parts [] h = tt
Plain-parts (p ∷ ps) h = (
  (
    (λ e. ground (arith, text_beq_iff p [])),
    (λ e. ground (arith, text_beq_iff p (text "."))),
    (λ e. ground (arith, text_beq_iff p (text ".."))),
  ),
  Plain-parts ps (ground arith),
)

-- An accepted path is returned as it was given, and every segment of it is plain: none is empty,
-- `.` or `..`, so the path names something below the vault's folder.
pub safe_relative_path-Plain :
    (value : Text) {path : Text}
    → safe_relative_path value ≡ some path
    → (path ≡ value) × All Plain (split path)
unfolding safe_relative_path
safe_relative_path-Plain value {path} h =
    let same : path ≡ value = ground (arith, join-split value) in
    let plain : some_of bad_part (split value) ≡ false = ground arith in
    (same, rw same (Plain-parts (split value) plain))
