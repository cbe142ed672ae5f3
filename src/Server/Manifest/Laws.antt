-- ===== src/Server/Manifest/Laws.antt =====
-- What `canonicalManifest` (apps/server/src/manifest.ts) guarantees of the files that it accepts.
use gib_sync.Prelude.{
  ◌≡◌, ◌≢◌, sym, ap, subst, ◌∙◌, true, Option, none, some, List, [], ◌∷◌, All, contains, arith,
  Option-cases, inl, inr,
}
use gib_sync.Prelude.Text.{Text, text_eq, text_beq_iff}
use gib_sync.Prelude.Dict.{lookup, insert, lookup-insert}
use gib_sync.Prelude.Sorting.{sort}
use gib_sync.Prelude.Result.{ok, >>=-eq-ok, ok-injective, each, refuse}
use gib_sync.Protocol.Host.{Host, portable}
use gib_sync.Protocol.Model.{ManifestEntry}
use gib_sync.Server.Paths.{safe_relative_path}
use gib_sync.Server.Paths.Laws.{safe_relative_path-Plain}
use gib_sync.Server.Manifest.{
  CanonicalManifest, FileNames, duplicate_file, file_alias, spelled, safe_path, safe_entries,
  by_collation, differs, add_file, add_folder, parents_of, FolderNames, declare_folder,
  canonical_manifest,
}

abbrev pub Safe : ManifestEntry → Type 0
Safe e = safe_relative_path e.path ≡ some e.path

safe_path-Safe :
    (path : Text) {p : Text}
    → safe_path path ≡ ok p
    → (safe_relative_path path ≡ some path) × (p ≡ path)
safe_path-Safe path {p} h = elim (Option-cases (safe_relative_path path)) [
  | inl e ↦ cc (rw e at h)
  | inr (q, e) ↦
      let same : q ≡ path = (safe_relative_path-Plain path e).0 in
      (e ∙ ap some same, sym (ok-injective (rw e at h)) ∙ same)
]

safe_entries-Safe :
    (es : List ManifestEntry) {safe : List ManifestEntry}
    → safe_entries es ≡ ok safe
    → All Safe es × (safe ≡ es)
unfolding safe_entries
safe_entries-Safe [] h = (tt, sym (ok-injective h))
safe_entries-Safe (e ∷ es) h =
    let (path, safe, rest) = >>=-eq-ok (safe_path e.path) _ h in
    let (others, ih, last) = >>=-eq-ok (safe_entries es) _ rest in
    let (fine, same) = safe_path-Safe e.path safe in
    let (all, unchanged) = safe_entries-Safe es ih in
    (
      (fine, all),
      sym (ok-injective last)
          ∙ ap (λ p. record e { path = p } ∷ others) same
          ∙ ap (λ xs. e ∷ xs) unchanged,
    )

module _ (H : Host) where
  abbrev key_of : ManifestEntry → Text
  key_of e = portable H e.path

  -- No two files have paths that differ only by case or by Unicode normalization.
  abbrev pub NoAliases : List ManifestEntry → Type 0
  NoAliases [] = Unit
  NoAliases (e ∷ es) = All (λ f. portable H f.path ≢ portable H e.path) es × NoAliases es

  -- Every spelling on record is among the exact paths.
  Spelled : FileNames → Type 0
  Spelled names =
      (key path : Text)
      → lookup key names.portable_names ≡ some path
      → contains names.exact path ≡ true

  abbrev with_file : ManifestEntry → FileNames → FileNames
  with_file e names = record {
    exact = e.path ∷ names.exact;
    portable_names = insert (key_of e) e.path names.portable_names;
  }

  add_file-fresh :
      (e : ManifestEntry) (names : FileNames) {names' : FileNames}
      → Spelled names
      → add_file H e names ≡ ok names'
      → (lookup (key_of e) names.portable_names ≡ none) × (names' ≡ with_file e names)
  unfolding add_file Spelled
  add_file-fresh e names known h =
      let found = lookup (key_of e) names.portable_names in
      let (u, new, rest) =
        >>=-eq-ok (refuse (contains names.exact e.path) (duplicate_file e.path)) _ h in
      let (v, agreed, last) =
        >>=-eq-ok (refuse (differs H found e.path) (file_alias (spelled H found) e.path)) _ rest in
      (
        elim (Option-cases found) [
          | inl free ↦ free
          | inr (other, taken) ↦
              absurd (taken_twice other new (rw taken at agreed) (known (key_of e) other taken))
        ],
        sym (ok-injective last),
      )
    where
      taken_twice :
          (other : Text) {u v : Unit {0}}
          → refuse (contains names.exact e.path) (duplicate_file e.path) ≡ ok u
          → refuse (differs H (some other) e.path) (file_alias other e.path) ≡ ok v
          → contains names.exact other ≡ true
          → ⊥
      taken_twice other new agreed there = ground (arith, text_beq_iff other e.path)

  with_file-Spelled :
      (e : ManifestEntry) (names : FileNames) → Spelled names → Spelled (with_file e names)
  unfolding Spelled
  with_file-Spelled e names spelled key path h = ground (
    arith,
    lookup-insert key (key_of e) e.path names.portable_names,
    text_beq_iff path e.path,
    spelled key path,
  )

  Free : FileNames → ManifestEntry → Type 0
  Free names f = lookup (key_of f) names.portable_names ≡ none

  Free-with_file :
      (e : ManifestEntry) (names : FileNames) (es : List ManifestEntry)
      → All (Free (with_file e names)) es
      → All (Free names) es × All (λ f. portable H f.path ≢ portable H e.path) es
  unfolding Free
  Free-with_file e names [] h = (tt, tt)
  Free-with_file e names (f ∷ es) (h, hs) =
      let (free, others) = Free-with_file e names es hs in
      let looked = lookup-insert (key_of f) (key_of e) e.path names.portable_names in
      (
        (ground (arith, looked), free),
        (λ same. ground (arith, looked, text_beq_iff (key_of e) (key_of f)), others),
      )

  each-NoAliases :
      (es : List ManifestEntry) (names : FileNames) {names' : FileNames}
      → Spelled names
      → each (add_file H) es names ≡ ok names'
      → All (Free names) es × NoAliases es
  unfolding each Free
  each-NoAliases [] names spelled h = (tt, tt)
  each-NoAliases (e ∷ es) names {names' = names'} spelled h =
      let (next, first, rest) = >>=-eq-ok (add_file H e names) _ h in
      let (free, same) = add_file-fresh e names spelled first in
      let (all, apart) =
        each-NoAliases es (with_file e names) (with_file-Spelled e names spelled)
          (subst (λ n. each (add_file H) es n ≡ ok names') same rest) in
      let (frees, others) = Free-with_file e names es all in ((free, frees), (others, apart))

-- What an accepted manifest is.
pub record IsCanonical (H : Host) (entries : List ManifestEntry) (m : CanonicalManifest)
    : Type 0 where
  pub safe : All Safe entries
  pub ordered : m.entries ≡ sort (by_collation H) entries
  pub no_aliases : NoAliases H m.entries

abbrev no_names : FileNames
no_names = record { exact = []; portable_names = [] }

no_names-Spelled : (H : Host) → Spelled H no_names
unfolding Spelled lookup
no_names-Spelled H key path h = cc

made-IsCanonical :
    (H : Host) (entries safe : List ManifestEntry) (files : FileNames) (m : CanonicalManifest)
    → safe_entries entries ≡ ok safe
    → each (add_file H) (sort (by_collation H) safe) no_names ≡ ok files
    → m.entries ≡ sort (by_collation H) safe
    → IsCanonical H entries m
made-IsCanonical H entries safe files m s f same =
    let (all, unchanged) = safe_entries-Safe entries s in
    record {
      safe = all;
      ordered = same ∙ ap (sort (by_collation H)) unchanged;
      no_aliases =
          subst (NoAliases H) (sym same)
            (each-NoAliases H (sort (by_collation H) safe) no_names (no_names-Spelled H) f).1;
    }

-- The entries of an accepted manifest are the given ones, in the order of `localeCompare`; each has a
-- safe relative path, and no two of them differ only by case or Unicode normalization, or not at all.
pub canonical_manifest-IsCanonical :
    (H : Host) (entries : List ManifestEntry) (folders : Option (List Text)) {m : CanonicalManifest}
    → canonical_manifest H entries folders ≡ ok m
    → IsCanonical H entries m
unfolding canonical_manifest
canonical_manifest-IsCanonical H entries none {m = m} h =
    let (safe, s, h1) = >>=-eq-ok (safe_entries entries) _ h in
    let (files, f, h2) = >>=-eq-ok (each (add_file H) (sort (by_collation H) safe) no_names) _ h1 in
    let (all, g, last) =
      >>=-eq-ok
        (each (add_folder H files.portable_names) (parents_of H (sort (by_collation H) safe)) []) _
        h2 in
    made-IsCanonical H entries safe files m s f (ap (λ x. x.entries) (sym (ok-injective last)))
canonical_manifest-IsCanonical H entries (some declared) {m = m} h =
    let (safe, s, h1) = >>=-eq-ok (safe_entries entries) _ h in
    let ordered = sort (by_collation H) safe in
    let (files, f, h2) = >>=-eq-ok (each (add_file H) ordered no_names) _ h1 in
    let (all, g, h3) =
      >>=-eq-ok (each (add_folder H files.portable_names) (parents_of H ordered) []) _ h2 in
    let start : FolderNames H = record {
      all_folders = all;
      portable_folders = [];
      exact_folders = [];
    } in
    let (names, d, last) =
      >>=-eq-ok (each (declare_folder H files.portable_names (parents_of H ordered)) declared start)
        _ h3 in
    made-IsCanonical H entries safe files m s f (ap (λ x. x.entries) (sym (ok-injective last)))
