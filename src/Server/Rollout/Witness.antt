-- ===== src/Server/Rollout/Witness.antt =====
-- apps/server/src/reconciliation-rollout.ts: the two witnesses and the shared decision on one path.
use gib_sync.Prelude.{
  ◌≡◌, refl, Bool, true, false, ◌&&◌, not, Option, none, some, arith, eq_iff, String, ◌==◌,
  string_eq, option_eq, nat_eq,
}
use gib_sync.Protocol.Moves.Laws.{Holds}
use gib_sync.Protocol.Model.{ManifestEntry, given}
use gib_sync.Protocol.Reconcile.{decide_kind, same, recreated}
use gib_sync.Protocol.Reconcile.Decision.{same_comm, missing, absent, ids}
use gib_sync.Server.Rollout.{causal_kind, legacy_kind, same_bytes, side_state}

-- Two identities that are known and differ.
abbrev differ : Option String → Option String → Bool
differ b l = given b && given l && not (l == b)

differ-ids : (b l : Option String) → differ b l ≡ true → ids b l ≡ false
differ-ids none l h = cc
differ-ids (some b) none h = ground arith
differ-ids (some b) (some l) h = ground (arith, eq_iff b l, eq_iff l b)

differ-with :
    (b l r : Option String)
    → given l ≡ true
    → ids l r ≡ true
    → differ b r ≡ true
    → differ b l ≡ true
differ-with none l r g s h = cc
differ-with (some b) none r g s h = cc
differ-with (some b) (some l) none g s h = ground arith
differ-with (some b) (some l) (some r) g s h =
    ground (arith, eq_iff b l, eq_iff l b, eq_iff r b, eq_iff l r, eq_iff l "", eq_iff r "")

-- Two identities that differ from the base's are not the base's.
recreated_not_same :
    (b l : ManifestEntry) → recreated (some b) (some l) ≡ true → same (some b) (some l) ≡ false
unfolding recreated same
recreated_not_same b l h = ground (arith, differ-ids b.file_id l.file_id)

-- A side that has the other's bytes and an identity is recreated where the other is.
recreated_with :
    (b l r : ManifestEntry)
    → given l.file_id ≡ true
    → same (some l) (some r) ≡ true
    → recreated (some b) (some r) ≡ true
    → recreated (some b) (some l) ≡ true
unfolding recreated same
recreated_with b l r g s h = ground (arith, differ-with b.file_id l.file_id r.file_id)

-- An entry that is there has an identity, or none has.
abbrev pub HasIdentity : ManifestEntry → Type 0
HasIdentity e = given e.file_id ≡ true

abbrev pub HasNone : ManifestEntry → Type 0
HasNone e = given e.file_id ≡ false

pub causal_kind-decide_kind :
    (base local remote : Option ManifestEntry)
    → Holds HasIdentity local
    → causal_kind base local remote ≡ decide_kind base local remote
unfolding causal_kind decide_kind side_state
causal_kind-decide_kind none none none h = ground (arith, missing)
causal_kind-decide_kind none none (some r) h = ground (arith, missing, absent r)
causal_kind-decide_kind none (some l) none h = ground (arith, missing, absent l)
causal_kind-decide_kind none (some l) (some r) h = ground (arith, missing, absent l, absent r)
causal_kind-decide_kind (some b) none none h = ground (arith, missing, absent b)
causal_kind-decide_kind (some b) none (some r) h =
    ground (arith, missing, absent b, absent r, same_comm (some b) (some r), recreated_not_same b r)
causal_kind-decide_kind (some b) (some l) none h =
    ground (arith, missing, absent b, absent l, same_comm (some b) (some l), recreated_not_same b l)
causal_kind-decide_kind (some b) (some l) (some r) h = ground (
  arith,
  same_comm (some b) (some l),
  same_comm (some b) (some r),
  recreated_not_same b l,
  recreated_not_same b r,
  recreated_with b l r h,
)

same-same_bytes : (a b : Option ManifestEntry) → Holds HasNone a → same a b ≡ same_bytes a b
unfolding same same_bytes
same-same_bytes none none h = refl
same-same_bytes none (some b) h = refl
same-same_bytes (some a) none h = refl
same-same_bytes (some a) (some b) h = ground arith

not_recreated : (b s : Option ManifestEntry) → Holds HasNone b → recreated b s ≡ false
unfolding recreated
not_recreated none s h = refl
not_recreated (some b) none h = refl
not_recreated (some b) (some s) h = ground arith

pub legacy_kind-decide_kind :
    (base local remote : Option ManifestEntry)
    → Holds HasNone base
    → Holds HasNone local
    → legacy_kind base local remote ≡ decide_kind base local remote
unfolding legacy_kind decide_kind
legacy_kind-decide_kind base local remote b l = ground (
  arith,
  same-same_bytes base local b,
  same-same_bytes base remote b,
  same-same_bytes local remote l,
  not_recreated base local b,
  not_recreated base remote b,
)
