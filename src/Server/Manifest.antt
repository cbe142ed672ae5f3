-- ===== src/Server/Manifest.antt =====
-- apps/server/src/manifest.ts: the checks that every accepted manifest passes.
pub mod Laws
pub mod Tests
use gib_sync.Prelude.{
  Bool, false, not, Option, none, some, List, [], ◌∷◌, ◌++◌, contains, is_some, if◌then◌else◌, ◌==◌,
}
use gib_sync.Prelude.Text.{Text, text_eq, text_leb}
use gib_sync.Prelude.Dict.{Dict, lookup, insert}
use gib_sync.Prelude.Sorting.{sort}
use gib_sync.Prelude.Result.{Result, ok, err, ◌>>=◌, ◌>>◌, refuse, each}
use gib_sync.Protocol.Host.{Host, portable}
use gib_sync.Protocol.Model.{ManifestEntry}
use gib_sync.Server.Paths.{safe_relative_path, ancestors, add_once}

pub data ManifestError : Type 0 where
  invalid_path : Text → ManifestError
  duplicate_file : Text → ManifestError
  file_alias : Text → Text → ManifestError
  file_as_folder : Text → Text → ManifestError
  folder_alias : Text → Text → ManifestError

pub record CanonicalManifest : Type 0 where
  pub entries : List ManifestEntry
  pub folders : Option (List Text)

abbrev or_invalid : Text → Option Text → Result ManifestError Text
or_invalid path none = err (invalid_path path)
or_invalid path (some p) = ok p

abbrev pub safe_path : Text → Result ManifestError Text
safe_path path = or_invalid path (safe_relative_path path)

unfoldable pub safe_entries : List ManifestEntry → Result ManifestError (List ManifestEntry)
safe_entries [] = ok []
safe_entries (e ∷ es) = do
  path ← safe_path e.path
  rest ← safe_entries es
  ok (record e { path = path } ∷ rest)

pub record FileNames : Type 0 where
  pub exact : List Text
  pub portable_names : Dict Text Text

module _ (H : Host) where
  abbrev pub by_collation : ManifestEntry → ManifestEntry → Bool
  by_collation a b = H.collate a.path b.path

  -- A name that is taken by another spelling.
  abbrev pub differs : Option Text → Text → Bool
  differs none path = false
  differs (some other) path = not (other == path)

  abbrev pub spelled : Option Text → Text
  spelled none = []
  spelled (some p) = p

  unfoldable pub add_file : ManifestEntry → FileNames → Result ManifestError FileNames
  add_file entry names =
      let path = entry.path in
      let key = portable H path in
      let other = lookup key names.portable_names in
      do
        refuse (contains names.exact path) (duplicate_file path)
        refuse (differs other path) (file_alias (spelled other) path)
        ok (record {
          exact = path ∷ names.exact;
          portable_names = insert key path names.portable_names;
        })

  unfoldable pub add_folder :
      Dict Text Text → Text → Dict Text Text → Result ManifestError (Dict Text Text)
  add_folder files path folders =
      let key = portable H path in
      let file = lookup key files in
      let other = lookup key folders in
      do
        refuse (is_some file) (file_as_folder (spelled file) path)
        refuse (differs other path) (folder_alias (spelled other) path)
        ok (insert key path folders)

  pub record FolderNames : Type 0 where
    pub all_folders : Dict Text Text
    pub portable_folders : Dict Text Text
    pub exact_folders : List Text

  unfoldable pub declare_folder :
      Dict Text Text → List Text → Text → FolderNames → Result ManifestError FolderNames
  unfolding add_folder
  declare_folder files implicit raw names = do
    path ← safe_path raw
    if contains implicit path
        then ok names
        else (let key = portable H path in
            let other = lookup key names.portable_folders in
            do
              refuse (differs other path) (folder_alias (spelled other) path)
              all ← each (add_folder files) (path ∷ ancestors path) names.all_folders
              ok (record {
                all_folders = all;
                portable_folders = insert key path names.portable_folders;
                exact_folders = add_once names.exact_folders path;
              }))

  abbrev pub parents_of : List ManifestEntry → List Text
  parents_of [] = []
  parents_of (e ∷ es) = ancestors e.path ++ parents_of es

  unfoldable pub canonical_manifest :
      List ManifestEntry → Option (List Text) → Result ManifestError CanonicalManifest
  unfolding safe_entries add_file add_folder declare_folder
  canonical_manifest entries folders = do
    safe ← safe_entries entries
    let ordered = sort by_collation safe
    files ← each add_file ordered (record { exact = []; portable_names = [] })
    let implicit = parents_of ordered
    all ← each (add_folder files.portable_names) implicit []
    elim folders [
      | none ↦ ok (record { entries = ordered; folders = none })
      | some declared ↦ do
        names ←
            each (declare_folder files.portable_names implicit) declared
              (record { all_folders = all; portable_folders = []; exact_folders = [] })
        ok (record { entries = ordered; folders = some (sort text_leb names.exact_folders) })
    ]
