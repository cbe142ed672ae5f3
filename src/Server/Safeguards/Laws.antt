-- ===== src/Server/Safeguards/Laws.antt =====
-- apps/server/src/safeguards.ts: which paths `assessChanges` reports as deleted and as created.
use gib_sync.Prelude.{
  ◌≡◌, refl, ◌∙◌, ap, Bool, true, false, ◌&&◌, not, Option, some, List, [], ◌∷◌, map, keep, some_of,
  is_some, if◌then◌else◌, ◌==◌, arith,
}
use gib_sync.Prelude.Text.{Text, text_eq, text_beq_iff}
use gib_sync.Prelude.Dict.{Dict, lookup, values}
use gib_sync.Protocol.Host.{Host}
use gib_sync.Protocol.Model.{ManifestEntry}
use gib_sync.Protocol.Moves.{index_by_path, missing_from}
use gib_sync.Protocol.Moves.Laws.{Keyed, index_by_path-Keyed}
use gib_sync.Server.Safeguards.Assess.{
  ClientSafetySignals, ChangeItem, find_changes, before, after, all_raw_deleted, raw_deleted,
  raw_created, detected, deletion, creation, moved_from, moved_to, trusted_cleanup,
}

-- A list of entries, or of changes, that has one with the path.
abbrev pub has_entry : Text → List ManifestEntry → Bool
has_entry path es = some_of (λ (e : ManifestEntry). e.path == path) es

abbrev pub has_item : Text → List ChangeItem → Bool
has_item path cs = some_of (λ (c : ChangeItem). c.path == path) cs

module _ (path : Text) (e : ManifestEntry) (es : List ManifestEntry) where
  has_entry-if :
      (b : Bool)
      → has_entry path (if b then e ∷ es else es)
        ≡ (if e.path == path && b then true else has_entry path es)
  has_entry-if true = ground arith
  has_entry-if false = ground arith

  same_test : (test : Text → Bool) → (e.path == path) ≡ true → test e.path ≡ test path
  same_test test s = ap test ((text_beq_iff e.path path).0 s)

merge :
    (same here there rest found : Bool)
    → (same ≡ true → here ≡ there)
    → found ≡ (rest && there)
    → (if same && here then true else found) ≡ ((if same then true else rest) && there)
merge true true there rest found agree h = agree refl
merge true false there rest found agree h = ground (arith, agree refl)
merge false here there rest found agree h = h

-- A test that depends on the path alone keeps or drops every entry of a path.
has_entry-keep :
    (path : Text) (test : Text → Bool) (es : List ManifestEntry)
    → has_entry path (keep (λ (e : ManifestEntry). test e.path) es)
      ≡ (has_entry path es && test path)
has_entry-keep path test [] = refl
has_entry-keep path test (e ∷ es) =
    has_entry-if path e (keep (λ (x : ManifestEntry). test x.path) es) (test e.path)
    ∙ merge (e.path == path) (test e.path) (test path) (has_entry path es) _
        (same_test path e es test) (has_entry-keep path test es)

is_some-if :
    (b rest : Bool) (e : ManifestEntry) (o : Option ManifestEntry)
    → rest ≡ is_some o
    → (if b then true else rest) ≡ is_some (if b then some e else o)
is_some-if true rest e o h = refl
is_some-if false rest e o h = h

has_entry-values :
    (path : Text) (d : Dict Text ManifestEntry)
    → Keyed d
    → has_entry path (values d) ≡ is_some (lookup path d)
unfolding lookup Keyed
has_entry-values path [] h = refl
has_entry-values path ((k, e) ∷ d) (h, hs) =
    rw h (is_some-if (e.path == path) _ e (lookup path d) (has_entry-values path d hs))

has_entry-missing_from :
    (path : Text) (index other : Dict Text ManifestEntry)
    → Keyed index
    → has_entry path (missing_from other index)
      ≡ (is_some (lookup path index) && not (is_some (lookup path other)))
has_entry-missing_from path index other h =
    has_entry-keep path (λ (q : Text). not (is_some (lookup q other))) (values index)
    ∙ ap (λ (b : Bool). b && not (is_some (lookup path other))) (has_entry-values path index h)

has_item-deletion :
    (path : Text) (es : List ManifestEntry) → has_item path (map deletion es) ≡ has_entry path es
has_item-deletion path [] = refl
has_item-deletion path (e ∷ es) =
    ap (λ (b : Bool). if e.path == path then true else b) (has_item-deletion path es)

has_item-creation :
    (path : Text) (es : List ManifestEntry) → has_item path (map creation es) ≡ has_entry path es
has_item-creation path [] = refl
has_item-creation path (e ∷ es) =
    ap (λ (b : Bool). if e.path == path then true else b) (has_item-creation path es)

module _ (H : Host) (signals : ClientSafetySignals) (previous next : List ManifestEntry) where
  -- In the earlier list and not in the later one, and the reverse.
  abbrev pub is_gone : Text → Bool
  is_gone path =
      is_some (lookup path (index_by_path previous []))
      && not (is_some (lookup path (index_by_path next [])))

  abbrev pub is_new : Text → Bool
  is_new path =
      is_some (lookup path (index_by_path next []))
      && not (is_some (lookup path (index_by_path previous [])))

  raw_deleted-lem :
      (path : Text)
      → has_entry path (raw_deleted H signals previous next)
        ≡ (is_gone path && not (trusted_cleanup signals path))
  unfolding Keyed
  raw_deleted-lem path =
      has_entry-keep path (λ (q : Text). not (trusted_cleanup signals q))
        (all_raw_deleted H signals previous next)
      ∙ ap (λ (b : Bool). b && not (trusted_cleanup signals path))
          (has_entry-missing_from path (before H signals previous next)
            (after H signals previous next) (index_by_path-Keyed previous [] tt))

  raw_created-lem :
      (path : Text) → has_entry path (raw_created H signals previous next) ≡ is_new path
  unfolding Keyed
  raw_created-lem path =
      has_entry-missing_from path (after H signals previous next) (before H signals previous next)
        (index_by_path-Keyed next [] tt)

  -- A path is reported as deleted exactly when the earlier list has it, the later one has not, it
  -- is not a device-local path whose cleanup was announced, and no detected move leads from it; it
  -- is reported as created exactly when the later list alone has it and no detected move leads to
  -- it.
  pub find_changes-lem :
      (path : Text)
      → (has_item path (find_changes H signals previous next).deletions ≡ (
          (is_gone path && not (trusted_cleanup signals path))
          && not (moved_from (detected H signals previous next) path)))
        × (has_item path (find_changes H signals previous next).creations
            ≡ (is_new path && not (moved_to (detected H signals previous next) path)))
  unfolding find_changes
  find_changes-lem path = (
    has_item-deletion path _
        ∙ has_entry-keep path (λ (q : Text). not (moved_from (detected H signals previous next) q))
            (raw_deleted H signals previous next)
        ∙ ap (λ (b : Bool). b && not (moved_from (detected H signals previous next) path))
            (raw_deleted-lem path),
    has_item-creation path _
        ∙ has_entry-keep path (λ (q : Text). not (moved_to (detected H signals previous next) q))
            (raw_created H signals previous next)
        ∙ ap (λ (b : Bool). b && not (moved_to (detected H signals previous next) path))
            (raw_created-lem path),
  )
