-- ===== src/Protocol/Moves.antt =====
-- packages/protocol/src/index.ts: `detectMoves`, which finds the files that were moved between two
-- manifests by identity, by contents, and by the folders that such moves point to.
pub mod Laws
pub mod Tests
use gib_sync.Prelude.{
  ℕ, suc, ◌+◌, ◌*◌, ◌-◌, max, min, String, Bool, true, false, ◌&&◌, ◌||◌, not, Option, none, some,
  List, [], ◌∷◌, ◌++◌, map, keep, some_of, contains, length, take, leb, ltb, is_some, if◌then◌else◌,
  ◌==◌, nat_eq, string_eq, option_eq, Eq,
}
use gib_sync.Prelude.Text.{Text, text, text_eq, slash, split, join, starts_with, slice_from}
use gib_sync.Prelude.Dict.{Dict, lookup, insert, values}
use gib_sync.Prelude.Sorting.{sort}
use gib_sync.Protocol.Host.{Host}
use gib_sync.Protocol.Model.{ManifestEntry, given}

pub record DetectedMove : Type 0 where
  pub previous_path : Text
  pub path : Text

abbrev pub backwards {ℓ} : {A : Type ℓ} → List A → List A → List A
backwards [] done = done
backwards (x ∷ xs) done = backwards xs (x ∷ done)

-- How far two lists agree from their start.
unfoldable pub agreement : List Text → List Text → ℕ
agreement [] ys = 0
agreement (x ∷ xs) [] = 0
agreement (x ∷ xs) (y ∷ ys) = let rest = agreement xs ys in if x == y then suc rest else 0

-- The parts of two paths that are left when their common end is cut off.
unfoldable pub moved_prefix : Text → Text → Option (Text × Text)
unfolding agreement split join
moved_prefix previous_path path =
    let previous = split previous_path in
    let next = split path in
    let suffix = agreement (backwards previous []) (backwards next []) in
    let from = join (take (length previous - suffix) previous) in
    let to = join (take (length next - suffix) next) in
    if suffix == 0 || from == to then none else some (from, to)

-- `new Map(entries.map((entry) => [entry.path, entry]))`: the last entry of a path counts.
unfoldable pub index_by_path :
    List ManifestEntry → Dict Text ManifestEntry → Dict Text ManifestEntry
unfolding insert
index_by_path [] index = index
index_by_path (e ∷ es) index = index_by_path es (insert e.path e index)

-- The entries of one index whose path the other has not.
abbrev pub missing_from : Dict Text ManifestEntry → Dict Text ManifestEntry → List ManifestEntry
missing_from other index =
    keep (λ (e : ManifestEntry). not (is_some (lookup e.path other))) (values index)

abbrev pub or_empty : Option (List ManifestEntry) → List ManifestEntry
or_empty none = []
or_empty (some group) = group

abbrev pub group_of {ℓ} :
    {K : Type ℓ} ⦃e : Eq K⦄ → K → Dict K (List ManifestEntry) → List ManifestEntry
group_of key groups = or_empty (lookup key groups)

unfoldable pub group_by {ℓ} :
    {K : Type ℓ} ⦃e : Eq K⦄
    → (ManifestEntry → K)
    → List ManifestEntry
    → Dict K (List ManifestEntry)
    → Dict K (List ManifestEntry)
unfolding insert lookup
group_by key [] groups = groups
group_by key (e ∷ es) groups =
    group_by key es (insert (key e) (group_of (key e) groups ++ (e ∷ [])) groups)

abbrev pub identity_of : ManifestEntry → String
identity_of e = elim e.file_id [ none ↦ "" | some id ↦ id ]

-- The entries that have an identity, by it.
abbrev pub by_identity : List ManifestEntry → Dict String (List ManifestEntry)
by_identity entries =
    group_by identity_of (keep (λ (e : ManifestEntry). given e.file_id) entries) []

abbrev pub by_hash : List ManifestEntry → Dict String (List ManifestEntry)
by_hash entries = group_by (λ (e : ManifestEntry). e.hash) entries []

-- `result` and `usedCreated`
pub record Moves : Type 0 where
  pub result : Dict Text Text
  pub used : List Text

abbrev pub add_move : Text → Text → Moves → Moves
add_move source destination m = record {
  result = insert source destination m.result;
  used = destination ∷ m.used;
}

-- A group of exactly one entry.
abbrev pub single : List ManifestEntry → Option ManifestEntry
single [] = none
single (e ∷ []) = some e
single (e ∷ f ∷ more) = none

module _ (before : Dict Text ManifestEntry) (created : List ManifestEntry)
    (identities identities_after : Dict String (List ManifestEntry)) where
  abbrev pub identity_destination : ManifestEntry → Option ManifestEntry
  identity_destination source =
      if given source.file_id && is_some (single (group_of (identity_of source) identities))
      then single (group_of (identity_of source) identities_after)
      else none

  abbrev pub arrives : ManifestEntry → Bool
  arrives d =
      not (is_some (lookup d.path before))
      && some_of (λ (c : ManifestEntry). c.path == d.path) created

  -- The loop over the removed entries that follows an identity.
  unfoldable pub by_identities : List ManifestEntry → Moves → Moves
  unfolding insert lookup
  by_identities [] m = m
  by_identities (source ∷ more) m =
      let next : Moves = elim (identity_destination source) [
        | none ↦ m
        | some d ↦ if arrives d then add_move source.path d.path m else m
      ] in
      by_identities more next

abbrev pub identities_differ : ManifestEntry → ManifestEntry → Bool
identities_differ s d = given s.file_id && given d.file_id && not (s.file_id == d.file_id)

abbrev pub take_pair : Moves → Option ManifestEntry → Option ManifestEntry → Moves
take_pair m none d = m
take_pair m (some s) none = m
take_pair m (some s) (some d) =
    if is_some (lookup s.path m.result) || contains m.used d.path || identities_differ s d
    then m
    else add_move s.path d.path m

-- The loop over the hashes of the removed entries.
unfoldable pub by_contents :
    Dict String (List ManifestEntry) → Dict String (List ManifestEntry) → Moves → Moves
unfolding insert lookup
by_contents created_by_hash [] m = m
by_contents created_by_hash ((hash, sources) ∷ more) m =
    by_contents created_by_hash more
      (take_pair m (single sources) (single (group_of hash created_by_hash)))

pub record PrefixCount : Type 0 where
  pub previous : Text
  pub next : Text
  pub count : ℕ
  pub exact : ℕ

abbrev pub one_if : Bool → ℕ
one_if b = if b then 1 else 0

unfoldable pub support : Text → Text → Bool → Dict Text PrefixCount → Dict Text PrefixCount
unfolding moved_prefix insert lookup
support source destination exact counts = elim (moved_prefix source destination) [
  | none ↦ counts
  | some both ↦
      let key = both.0 ++ (0 ∷ both.1) in
      elim (lookup key counts) [
        | none ↦
            insert key
              (record { previous = both.0; next = both.1; count = 1; exact = one_if exact }) counts
        | some c ↦
            insert key (record c { count = c.count + 1; exact = c.exact + one_if exact }) counts
      ]
]

unfoldable pub support_exact : Dict Text Text → Dict Text PrefixCount → Dict Text PrefixCount
unfolding support
support_exact [] counts = counts
support_exact ((source, destination) ∷ more) counts =
    support_exact more (support source destination true counts)

-- What follows the last of a unit, if it occurs.
unfoldable pub after_last : ℕ → Text → Option Text
after_last c [] = none
after_last c (x ∷ s) =
    let rest = after_last c s in
    elim rest [ some found ↦ some found | none ↦ if x == c then some s else none ]

abbrev pub name : Text → Text
name path = elim (after_last slash path) [ none ↦ path | some n ↦ n ]

abbrev pub dot : ℕ
dot = 46

module _ (H : Host) where
  abbrev pub extension : Text → Text
  extension path = elim (after_last dot (name path)) [ none ↦ [] | some e ↦ H.lower e ]

  -- The same name, the same extension, and sizes within the larger of 64 KiB and half the larger file.
  abbrev pub resembles : ManifestEntry → ManifestEntry → Bool
  resembles s d =
      let largest = max s.size d.size in
      let difference = largest - min s.size d.size in
      extension s.path == extension d.path && not (ltb (max 131072 largest) (difference * 2))

  abbrev pub support_pair :
      Option ManifestEntry → Option ManifestEntry → Dict Text PrefixCount → Dict Text PrefixCount
  support_pair none d counts = counts
  support_pair (some s) none counts = counts
  support_pair (some s) (some d) counts =
      let supported = support s.path d.path false counts in
      if resembles s d then supported else counts

  -- The loop over the names of what is left of the removed entries.
  unfoldable pub support_names :
      Dict Text (List ManifestEntry)
      → Dict Text (List ManifestEntry)
      → Dict Text PrefixCount
      → Dict Text PrefixCount
  unfolding support after_last
  support_names created_by_name [] counts = counts
  support_names created_by_name ((filename, sources) ∷ more) counts =
      support_names created_by_name more
        (support_pair (single sources) (single (group_of filename created_by_name)) counts)

-- The longer prefix first, and of equally long ones the one with more support.
abbrev pub stronger : PrefixCount → PrefixCount → Bool
stronger a b =
    if length a.previous == length b.previous
    then leb b.count a.count
    else ltb (length b.previous) (length a.previous)

abbrev pub mappings_of : Dict Text PrefixCount → List PrefixCount
mappings_of counts =
    sort stronger (keep (λ (c : PrefixCount). leb 2 c.exact || leb 3 c.count) (values counts))

abbrev pub is_empty_text : Text → Bool
is_empty_text [] = true
is_empty_text (c ∷ s) = false

-- `${folder}/`, nothing for the root
abbrev pub folder_prefix : Text → Text
folder_prefix folder = if is_empty_text folder then [] else folder ++ (slash ∷ [])

-- Where a mapping would put a path.
abbrev pub candidate : PrefixCount → Text → Option Text
candidate c path =
    let prefix = folder_prefix c.previous in
    if starts_with path prefix
    then some (folder_prefix c.next ++ slice_from (length prefix) path)
    else none

module _ (before after : Dict Text ManifestEntry) where
  abbrev pub is_open : Moves → Text → Bool
  is_open m path =
      not (contains m.used path)
      && not (is_some (lookup path before))
      && is_some (lookup path after)

  -- The first mapping that puts the entry on a path which is new and not taken.
  unfoldable pub relocate : List PrefixCount → Text → Moves → Moves
  unfolding insert lookup starts_with
  relocate [] source m = m
  relocate (c ∷ more) source m =
      let others = relocate more source m in
      elim (candidate c source) [
        | none ↦ others
        | some path ↦ if is_open m path then add_move source path m else others
      ]

  -- The loop over the removed entries that follows the mappings.
  unfoldable pub by_folders : List PrefixCount → List ManifestEntry → Moves → Moves
  unfolding relocate
  by_folders mappings [] m = m
  by_folders mappings (source ∷ more) m =
      by_folders mappings more
        (if is_some (lookup source.path m.result) then m else relocate mappings source.path m)

pub data Mode : Type 0 where
  identity assessment : Mode

abbrev pub no_moves : Moves
no_moves = record { result = []; used = [] }

module _ (H : Host) where
  -- The mappings that the moves found so far, and resembling names, point to.
  unfoldable pub find_mappings : List ManifestEntry → List ManifestEntry → Moves → List PrefixCount
  unfolding support_names support_exact group_by after_last
  find_mappings removed created m =
      let left = keep (λ (e : ManifestEntry). not (is_some (lookup e.path m.result))) removed in
      let free = keep (λ (e : ManifestEntry). not (contains m.used e.path)) created in
      let by_name = λ (entries : List ManifestEntry).
        group_by (λ (e : ManifestEntry). name e.path) entries [] in
      mappings_of (support_names H (by_name free) (by_name left) (support_exact m.result []))

  unfoldable pub certain_moves : List ManifestEntry → List ManifestEntry → Moves
  unfolding by_identities by_contents index_by_path group_by
  certain_moves previous next =
      let before = index_by_path previous [] in
      let after = index_by_path next [] in
      let removed = missing_from after before in
      let created = missing_from before after in
      by_contents (by_hash created) (by_hash removed)
        (by_identities before created (by_identity previous) (by_identity next) removed no_moves)

  unfoldable pub all_moves : Mode → List ManifestEntry → List ManifestEntry → Moves
  unfolding certain_moves find_mappings by_folders index_by_path
  all_moves identity previous next = certain_moves previous next
  all_moves assessment previous next =
      let before = index_by_path previous [] in
      let after = index_by_path next [] in
      let removed = missing_from after before in
      let certain = certain_moves previous next in
      by_folders before after (find_mappings removed (missing_from before after) certain) removed
        certain

  abbrev pub move_of : Text × Text → DetectedMove
  move_of both = record { previous_path = both.0; path = both.1 }

  unfoldable pub detect_moves : Mode → List ManifestEntry → List ManifestEntry → List DetectedMove
  unfolding all_moves
  detect_moves mode previous next =
      sort (λ (a b : DetectedMove). H.collate a.previous_path b.previous_path)
        (map move_of (all_moves mode previous next).result)
