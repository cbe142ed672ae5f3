-- ===== src/Protocol/Reconcile/Decision.antt =====
-- What the shared decision of packages/protocol/src/operations.ts means for the two sides.
use gib_sync.Prelude.{
  String, ◌==◌, string_eq, nat_eq, option_eq, nat_beq_iff, not, ◌&&◌, ◌||◌, ◌≡◌, refl, ◌⊎◌, Bool,
  true, false, Option, none, some, arith, eq_iff, is_some,
}
use gib_sync.Protocol.Model.{ManifestEntry, given}
use gib_sync.Protocol.Reconcile.{
  ReconcileKind, unchanged, equal, local_only, remote_only, concurrent_edit, edit_delete,
  independent_create, same, recreated, decide_kind,
}

-- A version is safe to replace: it is gone, or it has the bytes and the identity of the base.
abbrev pub Replaceable : Option ManifestEntry → Option ManifestEntry → Type 0
Replaceable base side = (side ≡ none) ⊎ (same base side ≡ true)

-- What each decision promises.
abbrev pub Promise :
    ReconcileKind → Option ManifestEntry → Option ManifestEntry → Option ManifestEntry → Type 0
Promise unchanged base local remote = (same base local ≡ true) × (same local remote ≡ true)
Promise equal base local remote = same local remote ≡ true
Promise local_only base local remote = Replaceable base remote × (same local remote ≡ false)
Promise remote_only base local remote = Replaceable base local × (same local remote ≡ false)
Promise concurrent_edit base local remote =
    (is_some base ≡ true)
    × (is_some local ≡ true)
    × (is_some remote ≡ true)
    × (same base local ≡ false)
    × (same base remote ≡ false)
Promise edit_delete base local remote =
    (is_some base ≡ true)
    × ((local ≡ none) ⊎ (remote ≡ none))
    × (same base local ≡ false)
    × (same base remote ≡ false)
Promise independent_create base local remote =
    (same local remote ≡ false)
    × ((base ≡ none) ⊎ (recreated base local ≡ true) ⊎ (recreated base remote ≡ true))

-- The tests on three present versions stay shut: each has one of two values.
all_present :
    (b l r : ManifestEntry)
    → Promise (decide_kind (some b) (some l) (some r)) (some b) (some l) (some r)
unfolding decide_kind
all_present b l r = ground arith

no_base :
    (l r : ManifestEntry) → Promise (decide_kind none (some l) (some r)) none (some l) (some r)
unfolding decide_kind same recreated
no_base l r = ground arith

no_local :
    (b r : ManifestEntry) → Promise (decide_kind (some b) none (some r)) (some b) none (some r)
unfolding decide_kind same recreated
no_local b r = ground arith

no_remote :
    (b l : ManifestEntry) → Promise (decide_kind (some b) (some l) none) (some b) (some l) none
unfolding decide_kind same recreated
no_remote b l = ground arith

-- A decision to take one side finds the other side replaceable: gone, or as in the base. It calls
-- both sides equal only where they are. It calls for a merge, or holds an edit against a deletion,
-- only where there is a base and both sides differ from it; and it sets two versions side by side
-- only where they differ and no base is common to them.
pub decide_kind-Promise :
    (base local remote : Option ManifestEntry)
    → Promise (decide_kind base local remote) base local remote
unfolding decide_kind same recreated
decide_kind-Promise none none none = ground arith
decide_kind-Promise none none (some r) = ground arith
decide_kind-Promise none (some l) none = ground arith
decide_kind-Promise none (some l) (some r) = no_base l r
decide_kind-Promise (some b) none none = ground arith
decide_kind-Promise (some b) none (some r) = no_local b r
decide_kind-Promise (some b) (some l) none = no_remote b l
decide_kind-Promise (some b) (some l) (some r) = all_present b l r

abbrev pub mirror : ReconcileKind → ReconcileKind
mirror local_only = remote_only
mirror remote_only = local_only
mirror kind = kind

-- No evidence of two identities.
abbrev pub ids : Option String → Option String → Bool
ids a b = not (given a) || not (given b) || a == b

pub ids_comm : (a b : Option String) → ids a b ≡ ids b a
ids_comm none b = ground arith
ids_comm (some a) none = ground arith
ids_comm (some a) (some b) = ground (arith, eq_iff a b, eq_iff b a, eq_iff a "", eq_iff b "")

ids_trans :
    (b l r : Option String) → given b ≡ true → ids b l ≡ true → ids b r ≡ true → ids l r ≡ true
ids_trans none l r g h k = cc
ids_trans (some b) none r g h k = ground arith
ids_trans (some b) (some l) none g h k = ground arith
ids_trans (some b) (some l) (some r) g h k =
    ground (arith, eq_iff b l, eq_iff b r, eq_iff l r, eq_iff b "", eq_iff l "", eq_iff r "")

ids-recreated :
    (b l : Option String) → (given b && given l && not (l == b)) ≡ false → ids b l ≡ true
ids-recreated none l h = ground arith
ids-recreated (some b) none h = ground arith
ids-recreated (some b) (some l) h = ground (arith, eq_iff b l, eq_iff l b, eq_iff b "", eq_iff l "")

pub same_comm : (a b : Option ManifestEntry) → same a b ≡ same b a
unfolding same
same_comm none none = ground arith
same_comm none (some b) = ground arith
same_comm (some a) none = ground arith
same_comm (some a) (some b) = ground (
  arith,
  eq_iff a.hash b.hash,
  eq_iff b.hash a.hash,
  ids_comm a.file_id b.file_id,
  nat_beq_iff a.size b.size,
  nat_beq_iff b.size a.size,
)

-- The base has an identity, or there is no base.
abbrev pub Identified : Option ManifestEntry → Type 0
Identified none = Unit
Identified (some b) = given b.file_id ≡ true

module _ (b l r : ManifestEntry) where
  hashes :
      ((b.hash == l.hash) ≡ true → (b.hash == r.hash) ≡ (l.hash == r.hash))
      × ((l.hash == r.hash) ≡ true → (b.hash == l.hash) ≡ (b.hash == r.hash))
  hashes = ground (arith, eq_iff b.hash l.hash, eq_iff b.hash r.hash, eq_iff l.hash r.hash)

  sizes :
      ((b.size == l.size) ≡ true → (b.size == r.size) ≡ (l.size == r.size))
      × ((l.size == r.size) ≡ true → (b.size == l.size) ≡ (b.size == r.size))
  sizes = ground arith

  same-base_trans :
      given b.file_id ≡ true
      → same (some b) (some l) ≡ true
      → same (some b) (some r) ≡ true
      → same (some l) (some r) ≡ true
  unfolding same
  same-base_trans g h k = ground (arith, ids_trans b.file_id l.file_id r.file_id, hashes, sizes)

  same-base_eq :
      given b.file_id ≡ true
      → recreated (some b) (some l) ≡ false
      → recreated (some b) (some r) ≡ false
      → same (some l) (some r) ≡ true
      → same (some b) (some l) ≡ same (some b) (some r)
  unfolding same recreated
  same-base_eq g h k e =
      ground
        (arith, ids-recreated b.file_id l.file_id, ids-recreated b.file_id r.file_id, hashes, sizes)

pub missing : (same none none ≡ true) × (recreated none none ≡ false)
unfolding same recreated
missing = (refl, refl)

pub absent :
    (e : ManifestEntry)
    → (same none (some e) ≡ false)
      × (same (some e) none ≡ false)
      × (recreated none (some e) ≡ false)
      × (recreated (some e) none ≡ false)
unfolding same recreated
absent e = (refl, refl, refl, refl)

-- The device and the server come to mirrored decisions on one path: exchanging the two sides
-- exchanges "local only" with "remote only" and changes nothing else, where the base is identified.
pub decide_kind-mirror :
    (base local remote : Option ManifestEntry)
    → Identified base
    → decide_kind base remote local ≡ mirror (decide_kind base local remote)
unfolding decide_kind
decide_kind-mirror none none none h = ground (arith, missing)
decide_kind-mirror none none (some r) h = ground (arith, missing, absent r)
decide_kind-mirror none (some l) none h = ground (arith, missing, absent l)
decide_kind-mirror none (some l) (some r) h =
    ground (arith, missing, absent l, absent r, same_comm (some l) (some r))
decide_kind-mirror (some b) none none h = ground (arith, missing, absent b)
decide_kind-mirror (some b) none (some r) h = ground (arith, missing, absent b, absent r)
decide_kind-mirror (some b) (some l) none h = ground (arith, missing, absent b, absent l)
decide_kind-mirror (some b) (some l) (some r) h =
    ground (arith, same_comm (some l) (some r), same-base_trans b l r, same-base_eq b l r)
