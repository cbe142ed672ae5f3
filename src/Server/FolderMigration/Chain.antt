-- ===== src/Server/FolderMigration/Chain.antt =====
-- apps/server/src/folder-migration.ts: `currentChain`, which walks from a head to the first snapshot.
use gib_sync.Prelude.{
  ℕ, zero, suc, ◌≤◌, ◌<◌, ◌≡◌, refl, String, Bool, true, false, Option, none, some, List, [], ◌∷◌,
  ◌==◌, string_eq, contains, is_some, beq_refl, length, if◌then◌else◌, arith, eq_iff, Bool-cases,
  Option-cases, inl, inr,
}
use gib_sync.Prelude.Dict.{Dict, lookup, keys}
use gib_sync.Prelude.Result.{Result, ok, err}
use gib_sync.Server.FolderMigration.{Snapshot}

-- `exhausted` is the end of the fuel, which the theorem below rules out.
pub data AncestryError : Type 0 where
  cycle : String → AncestryError
  incomplete : String → AncestryError
  exhausted : AncestryError

-- The loop: `later` are the snapshots that were visited, the oldest of them first.
unfoldable pub walk :
    ℕ
    → Dict String Snapshot
    → (vault : String) → Option String
    → (seen : List String) (later : List Snapshot) → Result AncestryError (List Snapshot)
walk fuel store vault none seen later = ok later
walk zero store vault (some id) seen later = err exhausted
walk (suc fuel) store vault (some id) seen later =
    if id == ""
    then ok later
    else if contains seen id
    then err (cycle vault)
    else elim (lookup id store) [
      | none ↦ err (incomplete vault)
      | some s ↦ elim (s.vault_id == vault) [
        | false ↦ err (incomplete vault)
        | true ↦ walk fuel store vault s.parent_id (id ∷ seen) (s ∷ later)
      ]
    ]

-- A snapshot is visited once, so one round for each and one more are enough.
unfoldable pub current_chain :
    Dict String Snapshot → (vault head : String) → Result AncestryError (List Snapshot)
unfolding walk
current_chain store vault head = walk (suc (length store)) store vault (some head) [] []

-- How many of the ids were not visited.
unseen : List String → List String → ℕ
unseen seen [] = 0
unseen seen (i ∷ ids) = let rest = unseen seen ids in if contains seen i then rest else suc rest

unseen-le : (id : String) (seen ids : List String) → unseen (id ∷ seen) ids ≤ unseen seen ids
unfolding unseen
unseen-le id seen [] = omega arith
unseen-le id seen (i ∷ ids) = ground (arith, unseen-le id seen ids, eq_iff id i)

unseen-nil : (ids : List String) → unseen [] ids ≡ length ids
unfolding unseen
unseen-nil [] = refl
unseen-nil (i ∷ ids) = omega (arith, unseen-nil ids)

length-keys : (store : Dict String Snapshot) → length (keys store) ≡ length store
length-keys [] = refl
length-keys ((i, x) ∷ store) = omega (arith, length-keys store)

-- A visit to a snapshot that is there, and was not visited, leaves one less.
unseen-lt :
    (id : String) (seen : List String) (store : Dict String Snapshot)
    → is_some (lookup id store) ≡ true
    → contains seen id ≡ false
    → unseen (id ∷ seen) (keys store) < unseen seen (keys store)
unfolding unseen lookup
unseen-lt id seen [] h new = cc
unseen-lt id seen ((i, x) ∷ store) h new = elim (Bool-cases (i == id)) [
  | inl e ↦
      let same : i ≡ id = (eq_iff i id).0 e in
      rw (same, beq_refl id, new) (omega (arith, unseen-le id seen (keys store)))
  | inr e ↦
      ground
        (arith, eq_iff i id, eq_iff id i, unseen-lt id seen store, unseen-le id seen (keys store))
]

abbrev pub finished : Result AncestryError (List Snapshot) → Bool
finished (ok chain) = true
finished (err exhausted) = false
finished (err (cycle vault)) = true
finished (err (incomplete vault)) = true

walk-finished :
    (fuel : ℕ) (store : Dict String Snapshot) (vault : String) (id : Option String)
    (seen : List String) (later : List Snapshot)
    → unseen seen (keys store) < fuel
    → finished (walk fuel store vault id seen later) ≡ true
unfolding walk
walk-finished zero store vault none seen later h = refl
walk-finished (suc fuel) store vault none seen later h = refl
walk-finished zero store vault (some id) seen later h = absurd (omega arith)
walk-finished (suc fuel) store vault (some id) seen later h = elim (Bool-cases (id == "")) [
  | inl e ↦ rw e refl
  | inr e ↦ elim (Bool-cases (contains seen id)) [
    | inl c ↦ rw (e, c) refl
    | inr c ↦ elim (Option-cases (lookup id store)) [
      | inl n ↦ rw (e, c, n) refl
      | inr (s, f) ↦ elim (Bool-cases (s.vault_id == vault)) [
        | inl v ↦
            rw (e, c, f, v)
              (walk-finished fuel store vault s.parent_id (id ∷ seen) (s ∷ later)
                (omega (arith, unseen-lt id seen store (rw f refl) c)))
        | inr v ↦ rw (e, c, f, v) refl
      ]
    ]
  ]
]

-- The walk along the parents always ends: with the first snapshot, or with the finding that the
-- ancestry has a cycle or a gap. As many rounds as there are snapshots, and one more, are enough.
pub current_chain-finished :
    (store : Dict String Snapshot) (vault head : String)
    → finished (current_chain store vault head) ≡ true
unfolding current_chain
current_chain-finished store vault head =
    walk-finished (suc (length store)) store vault (some head) [] []
      (omega (arith, unseen-nil (keys store), length-keys store))
