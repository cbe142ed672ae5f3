-- ===== src/Protocol/Moves/Laws.antt =====
-- Where a detected move starts and ends (`detectMoves` of packages/protocol/src/index.ts).
use gib_sync.Prelude.{
  ◌≡◌, refl, sym, ◌∙◌, subst, String, Bool, true, false, ◌||◌, not, Option, none, some, List, [],
  ◌∷◌, ◌++◌, map, keep, some_of, All, is_some, if◌then◌else◌, ◌==◌, string_eq, Eq, arith,
  Bool-cases, inl, inr, contains,
}
use gib_sync.Prelude.Text.{Text, text_eq, text_beq_iff}
use gib_sync.Prelude.Dict.{Dict, lookup, insert, values}
use gib_sync.Prelude.Sorting.{sort, insert_sorted}
use gib_sync.Protocol.Host.{Host}
use gib_sync.Protocol.Model.{ManifestEntry}
use gib_sync.Protocol.Moves.{
  DetectedMove, index_by_path, missing_from, or_empty, group_of, group_by, by_identity, by_hash,
  Moves, add_move, single, identity_destination, arrives, by_identities, identities_differ,
  take_pair, by_contents, PrefixCount, candidate, is_open, relocate, by_folders, Mode, identity,
  assessment, no_moves, certain_moves, all_moves, move_of, detect_moves,
}

module _ {A : Type 0} (P : A → Type 0) where
  All-append : (xs ys : List A) → All P xs → All P ys → All P (xs ++ ys)
  All-append [] ys hx hy = hy
  All-append (x ∷ xs) ys (h, hx) hy = (h, All-append xs ys hx hy)

  All-insert_sorted :
      (le : A → A → Bool) (x : A) (ys : List A) → P x → All P ys → All P (insert_sorted le x ys)
  unfolding insert_sorted
  All-insert_sorted le x [] h hs = (h, tt)
  All-insert_sorted le x (y ∷ ys) h (k, hs) = elim (Bool-cases (le x y)) [
    | inl e ↦ rw e (h, (k, hs))
    | inr e ↦ rw e (k, All-insert_sorted le x ys h hs)
  ]

  All-sort : (le : A → A → Bool) (xs : List A) → All P xs → All P (sort le xs)
  unfolding sort
  All-sort le [] h = tt
  All-sort le (x ∷ xs) (h, hs) = All-insert_sorted le x (sort le xs) h (All-sort le xs hs)

  -- Where there is a value, it has the property.
  abbrev pub Holds : Option A → Type 0
  Holds none = Unit
  Holds (some a) = P a

module _ {K V : Type 0} ⦃e : Eq K⦄ (P : K × V → Type 0) where
  All-insert : (k : K) (v : V) (d : Dict K V) → P (k, v) → All P d → All P (insert k v d)
  unfolding insert
  All-insert k v [] h hs = (h, tt)
  All-insert k v ((j, w) ∷ d) h (i, hs) = elim (Bool-cases (j == k)) [
    | inl s ↦ rw s (h, hs)
    | inr s ↦ rw s (i, All-insert k v d h hs)
  ]

module _ {K : Type 0} ⦃e : Eq K⦄ (P : ManifestEntry → Type 0) where
  Grouped : Dict K (List ManifestEntry) → Type 0
  Grouped groups = All (λ (g : K × List ManifestEntry). All P g.1) groups

  group_of-All :
      (key : K) (groups : Dict K (List ManifestEntry))
      → Grouped groups
      → All P (group_of key groups)
  unfolding lookup Grouped
  group_of-All key [] h = tt
  group_of-All key ((k, group) ∷ groups) (h, hs) = pick (k == key) (group_of-All key groups hs)
    where
      pick :
          (b : Bool)
          → All P (group_of key groups)
          → All P (or_empty (if b then some group else lookup key groups))
      pick true later = h
      pick false later = later

  group_by-Grouped :
      (key : ManifestEntry → K) (es : List ManifestEntry) (groups : Dict K (List ManifestEntry))
      → All P es
      → Grouped groups
      → Grouped (group_by key es groups)
  unfolding group_by Grouped
  group_by-Grouped key [] groups h g = g
  group_by-Grouped key (x ∷ es) groups (h, hs) g = group_by-Grouped key es _ hs (
      All-insert (λ (q : K × List ManifestEntry). All P q.1) (key x) _ groups
        (All-append P (group_of (key x) groups) (x ∷ []) (group_of-All (key x) groups g) (h, tt)) g)

single-Holds :
    (P : ManifestEntry → Type 0) (group : List ManifestEntry) → All P group → Holds P (single group)
single-Holds P [] h = tt
single-Holds P (x ∷ []) (h, hs) = h
single-Holds P (x ∷ y ∷ more) h = tt

-- Every entry stands under its path.
unfoldable pub Keyed : Dict Text ManifestEntry → Type 0
Keyed d = All (λ (q : Text × ManifestEntry). q.0 ≡ q.1.path) d

pub index_by_path-Keyed :
    (es : List ManifestEntry) (d : Dict Text ManifestEntry) → Keyed d → Keyed (index_by_path es d)
unfolding index_by_path Keyed
index_by_path-Keyed [] d h = h
index_by_path-Keyed (x ∷ es) d h =
    index_by_path-Keyed es (insert x.path x d)
      (All-insert (λ (q : Text × ManifestEntry). q.0 ≡ q.1.path) x.path x d refl h)

-- A path that an index has, and one that it has not.
abbrev Has : Dict Text ManifestEntry → Text → Type 0
Has d path = is_some (lookup path d) ≡ true

abbrev Lacks : Dict Text ManifestEntry → Text → Type 0
Lacks d path = is_some (lookup path d) ≡ false

Has-cons :
    (k : Text) (x : ManifestEntry) (d : Dict Text ManifestEntry) (path : Text)
    → Has d path
    → Has ((k, x) ∷ d) path
unfolding lookup
Has-cons k x d path h = ground arith

values-Has :
    (d : Dict Text ManifestEntry) → Keyed d → All (λ (x : ManifestEntry). Has d x.path) (values d)
unfolding lookup Keyed
values-Has [] h = tt
values-Has ((k, x) ∷ d) (h, hs) =
    (ground (arith, text_beq_iff k x.path), wider (values d) (values-Has d hs))
  where
    wider :
        (xs : List ManifestEntry)
        → All (λ (y : ManifestEntry). Has d y.path) xs
        → All (λ (y : ManifestEntry). Has ((k, x) ∷ d) y.path) xs
    wider [] g = tt
    wider (y ∷ ys) (g, gs) = (Has-cons k x d y.path g, wider ys gs)

-- The entries that `missing_from` keeps are in the one index and not in the other.
abbrev Leaves : Dict Text ManifestEntry → Dict Text ManifestEntry → ManifestEntry → Type 0
Leaves index other x = Has index x.path × Lacks other x.path

keep-Leaves :
    (index other : Dict Text ManifestEntry) (xs : List ManifestEntry)
    → All (λ (x : ManifestEntry). Has index x.path) xs
    → All
        (Leaves index other)
        (keep (λ (x : ManifestEntry). not (is_some (lookup x.path other))) xs)
keep-Leaves index other [] h = tt
keep-Leaves index other (x ∷ xs) (h, hs) = elim (Bool-cases (is_some (lookup x.path other))) [
  | inl e ↦ rw e (keep-Leaves index other xs hs)
  | inr e ↦ rw e ((h, e), keep-Leaves index other xs hs)
]

missing_from-Leaves :
    (index other : Dict Text ManifestEntry)
    → Keyed index
    → All (Leaves index other) (missing_from other index)
missing_from-Leaves index other h = keep-Leaves index other (values index) (values-Has index h)

-- A move from a path that the later manifest lacks to one that the earlier manifest lacks.
abbrev pub IsMove : (before after : Dict Text ManifestEntry) → Text × Text → Type 0
IsMove before after (source, destination) =
    Has before source × Lacks after source × Has after destination × Lacks before destination

module _ (before after : Dict Text ManifestEntry) where
  Sound : Moves → Type 0
  Sound m = All (IsMove before after) m.result

  add_move-Sound :
      (source destination : Text) (m : Moves)
      → IsMove before after (source, destination)
      → Sound m
      → Sound (add_move source destination m)
  unfolding Sound
  add_move-Sound source destination m h s =
      All-insert (IsMove before after) source destination m.result h s

  -- The path of a created entry is one that arrives.
  some_of-Has :
      (created : List ManifestEntry) (path : Text)
      → All (Leaves after before) created
      → some_of (λ (c : ManifestEntry). c.path == path) created ≡ true
      → Has after path × Lacks before path
  some_of-Has [] path h e = cc
  some_of-Has (c ∷ created) path (h, hs) e = elim (Bool-cases (c.path == path)) [
    | inl s ↦ subst (λ q. Has after q × Lacks before q) ((text_beq_iff c.path path).0 s) h
    | inr s ↦ some_of-Has created path hs (sym (rw s refl) ∙ e)
  ]

  by_identities-Sound :
      (created : List ManifestEntry) (ids ids_after : Dict String (List ManifestEntry))
      (removed : List ManifestEntry) (m : Moves)
      → All (Leaves after before) created
      → All (Leaves before after) removed
      → Sound m
      → Sound (by_identities before created ids ids_after removed m)
  unfolding by_identities
  by_identities-Sound created ids ids_after [] m hc hr s = s
  by_identities-Sound created ids ids_after (source ∷ more) m hc (h, hs) s =
      by_identities-Sound created ids ids_after more _ hc hs
        (followed (identity_destination before created ids ids_after source))
    where
      followed :
          (o : Option ManifestEntry)
          → Sound (elim o [
            | none ↦ m
            | some d ↦
                if arrives before created ids ids_after d then add_move source.path d.path m else m
          ])
      followed none = s
      followed (some d) = elim (Bool-cases (arrives before created ids ids_after d)) [
        | inl e ↦
            let (here, gone) = some_of-Has created d.path hc (ground arith) in
            rw e (add_move-Sound source.path d.path m (h.0, h.1, here, gone) s)
        | inr e ↦ rw e s
      ]

  take_pair-Sound :
      (m : Moves) (a b : Option ManifestEntry)
      → Holds (Leaves before after) a
      → Holds (Leaves after before) b
      → Sound m
      → Sound (take_pair m a b)
  take_pair-Sound m none b ha hb s = s
  take_pair-Sound m (some x) none ha hb s = s
  take_pair-Sound m (some x) (some d) ha hb s =
      elim (Bool-cases
        (is_some (lookup x.path m.result) || contains m.used d.path || identities_differ x d)) [
          | inl e ↦ rw e s
          | inr e ↦ rw e (add_move-Sound x.path d.path m (ha.0, ha.1, hb.0, hb.1) s)
        ]

  by_contents-Sound :
      (created removed : Dict String (List ManifestEntry)) (m : Moves)
      → Grouped (Leaves after before) created
      → Grouped (Leaves before after) removed
      → Sound m
      → Sound (by_contents created removed m)
  unfolding by_contents Grouped
  by_contents-Sound created [] m hc hr s = s
  by_contents-Sound created ((hash, sources) ∷ more) m hc (h, hs) s =
      by_contents-Sound created more _ hc hs (
        take_pair-Sound m (single sources) (single (group_of hash created))
          (single-Holds (Leaves before after) sources h)
          (single-Holds (Leaves after before) (group_of hash created)
            (group_of-All (Leaves after before) hash created hc))
          s)

  relocate-Sound :
      (mappings : List PrefixCount) (source : Text) (m : Moves)
      → Has before source
      → Lacks after source
      → Sound m
      → Sound (relocate before after mappings source m)
  unfolding relocate
  relocate-Sound [] source m h g s = s
  relocate-Sound (c ∷ more) source m h g s =
      placed (candidate c source) (relocate-Sound more source m h g s)
    where
      placed :
          (o : Option Text)
          → Sound (relocate before after more source m)
          → Sound (elim o [
            | none ↦ relocate before after more source m
            | some path ↦
                if is_open before after m path
                then add_move source path m
                else relocate before after more source m
          ])
      placed none later = later
      placed (some path) later = elim (Bool-cases (is_open before after m path)) [
        | inl e ↦ rw e (add_move-Sound source path m (h, g, ground arith, ground arith) s)
        | inr e ↦ rw e later
      ]

  by_folders-Sound :
      (mappings : List PrefixCount) (removed : List ManifestEntry) (m : Moves)
      → All (Leaves before after) removed
      → Sound m
      → Sound (by_folders before after mappings removed m)
  unfolding by_folders
  by_folders-Sound mappings [] m h s = s
  by_folders-Sound mappings (source ∷ more) m (h, hs) s =
      by_folders-Sound mappings more _ hs (step (is_some (lookup source.path m.result)))
    where
      step : (b : Bool) → Sound (if b then m else relocate before after mappings source.path m)
      step true = s
      step false = relocate-Sound mappings source.path m h.0 h.1 s

keep-All :
    (P : ManifestEntry → Type 0) (test : ManifestEntry → Bool) (xs : List ManifestEntry)
    → All P xs
    → All P (keep test xs)
keep-All P test [] h = tt
keep-All P test (x ∷ xs) (h, hs) = elim (Bool-cases (test x)) [
  | inl e ↦ rw e (h, keep-All P test xs hs)
  | inr e ↦ rw e (keep-All P test xs hs)
]

module _ (H : Host) (previous next : List ManifestEntry) where
  abbrev pub before_of : Dict Text ManifestEntry
  before_of = index_by_path previous []

  abbrev pub after_of : Dict Text ManifestEntry
  after_of = index_by_path next []

  removed-Leaves : All (Leaves before_of after_of) (missing_from after_of before_of)
  unfolding Keyed
  removed-Leaves = missing_from-Leaves before_of after_of (index_by_path-Keyed previous [] tt)

  created-Leaves : All (Leaves after_of before_of) (missing_from before_of after_of)
  unfolding Keyed
  created-Leaves = missing_from-Leaves after_of before_of (index_by_path-Keyed next [] tt)

  certain_moves-Sound : Sound before_of after_of (certain_moves H previous next)
  unfolding certain_moves Sound Grouped
  certain_moves-Sound =
      by_contents-Sound before_of after_of (by_hash (missing_from before_of after_of))
        (by_hash (missing_from after_of before_of)) _
        (group_by-Grouped (Leaves after_of before_of) (λ (e : ManifestEntry). e.hash)
          (missing_from before_of after_of) [] created-Leaves tt)
        (group_by-Grouped (Leaves before_of after_of) (λ (e : ManifestEntry). e.hash)
          (missing_from after_of before_of) [] removed-Leaves tt)
        (by_identities-Sound before_of after_of (missing_from before_of after_of)
          (by_identity previous) (by_identity next) (missing_from after_of before_of) no_moves
          created-Leaves removed-Leaves tt)

  all_moves-Sound : (mode : Mode) → Sound before_of after_of (all_moves H mode previous next)
  unfolding all_moves
  all_moves-Sound identity = certain_moves-Sound
  all_moves-Sound assessment =
      by_folders-Sound before_of after_of _ (missing_from after_of before_of) _ removed-Leaves
        certain_moves-Sound

  abbrev pub IsDetected : DetectedMove → Type 0
  IsDetected m = IsMove before_of after_of (m.previous_path, m.path)

  map-IsDetected :
      (d : Dict Text Text) → All (IsMove before_of after_of) d → All IsDetected (map (move_of H) d)
  map-IsDetected [] h = tt
  map-IsDetected ((source, destination) ∷ d) (h, hs) = (h, map-IsDetected d hs)

-- Every detected move, in either mode, leads from a path that is in the earlier manifest only to a
-- path that is in the later one only.
pub detect_moves-IsDetected :
    (H : Host) (mode : Mode) (previous next : List ManifestEntry)
    → All (IsDetected H previous next) (detect_moves H mode previous next)
unfolding detect_moves Sound
detect_moves-IsDetected H mode previous next =
    All-sort (IsDetected H previous next) _
      (map (move_of H) (all_moves H mode previous next).result)
      (map-IsDetected H previous next (all_moves H mode previous next).result
        (all_moves-Sound H previous next mode))
