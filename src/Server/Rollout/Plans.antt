-- ===== src/Server/Rollout/Plans.antt =====
-- apps/server/src/reconciliation-rollout.ts: the two witnesses and the shared plan.
use gib_sync.Prelude.{
  ◌≡◌, refl, Bool, true, false, Option, some, List, [], ◌∷◌, ◌++◌, map, All, is_some, if◌then◌else◌,
  arith, Bool-cases, Option-cases, inl, inr, ◌==◌,
}
use mathlib.Core.Option.{some-injective}
use gib_sync.Prelude.Text.{Text, text_eq, text_leb}
use gib_sync.Prelude.Dict.{Dict, lookup, insert, keys, lookup-insert}
use gib_sync.Prelude.Sorting.{sort}
use gib_sync.Protocol.Host.{Host}
use gib_sync.Protocol.Model.{ManifestEntry}
use gib_sync.Protocol.Moves.{index_by_path}
use gib_sync.Protocol.Moves.Laws.{Holds}
use gib_sync.Protocol.Reconcile.{
  ReconcileKind, ReconciliationInput, ReconcileDecision, decide_kind, decide_all, by_path_onto,
  by_path, plan_reconciliation, distinct,
}
use gib_sync.Server.Rollout.{
  PathKind, kinds_by, decision_kinds, causal_kind, legacy_kind, causal_decision_kinds,
  legacy_decision_kinds,
}
use gib_sync.Server.Rollout.Witness.{
  HasIdentity, HasNone, causal_kind-decide_kind, legacy_kind-decide_kind,
}

-- Where no path occurs twice, both ways to index a list agree.
index_by_path-by_path :
    (entries : List ManifestEntry) (start d : Dict Text ManifestEntry)
    → by_path_onto start entries ≡ some d
    → index_by_path entries start ≡ d
unfolding by_path_onto index_by_path
index_by_path-by_path [] start d h = ground arith
index_by_path-by_path (e ∷ entries) start d h = elim (Bool-cases (is_some (lookup e.path start))) [
  | inl there ↦ ground arith
  | inr fresh ↦ index_by_path-by_path entries (insert e.path e start) d (ground arith)
]

abbrev pub path_kind : ReconcileDecision → PathKind
path_kind d = record { path = d.path; kind = d.kind }

module _ (H : Host) (base local remote : Dict Text ManifestEntry)
    (decide : Option ManifestEntry → Option ManifestEntry → Option ManifestEntry → ReconcileKind)
    (agree : (path : Text)
      → decide (lookup path base) (lookup path local) (lookup path remote)
        ≡ decide_kind (lookup path base) (lookup path local) (lookup path remote)) where
  kinds_by-decide_all :
      (paths : List Text)
      → kinds_by decide base local remote paths
        ≡ map path_kind (decide_all H base local remote paths)
  kinds_by-decide_all [] = refl
  kinds_by-decide_all (path ∷ paths) = cc (agree path, kinds_by-decide_all paths)

module _ (P : ManifestEntry → Type 0) where
  if-Holds :
      (b : Bool) (e : ManifestEntry) (o : Option ManifestEntry)
      → P e
      → Holds P o
      → Holds P (if b then some e else o)
  if-Holds true e o p h = p
  if-Holds false e o p h = h

  -- What holds of every entry of a list holds of the one that is found under a path.
  index_by_path-Holds :
      (entries : List ManifestEntry) (start : Dict Text ManifestEntry) (path : Text)
      → All P entries
      → Holds P (lookup path start)
      → Holds P (lookup path (index_by_path entries start))
  unfolding index_by_path
  index_by_path-Holds [] start path a h = h
  index_by_path-Holds (e ∷ entries) start path (p, a) h =
      index_by_path-Holds entries (insert e.path e start) path a (
        rw (lookup-insert path e.path e start)
          (if-Holds (e.path == path) e (lookup path start) p h))

module _ (H : Host) (input : ReconciliationInput)
    (decide : Option ManifestEntry → Option ManifestEntry → Option ManifestEntry → ReconcileKind)
    (agree : (path : Text)
      → decide
          (lookup path (index_by_path input.base []))
          (lookup path (index_by_path input.local []))
          (lookup path (index_by_path input.remote []))
        ≡ decide_kind
            (lookup path (index_by_path input.base []))
            (lookup path (index_by_path input.local []))
            (lookup path (index_by_path input.remote []))) where
  decision_kinds-plan :
      {plan : List ReconcileDecision}
      → plan_reconciliation H input ≡ some plan
      → decision_kinds decide input ≡ map path_kind plan
  unfolding plan_reconciliation
  decision_kinds-plan {plan} h = elim (Option-cases (by_path input.base)) [
    | inl e ↦ cc (rw e at h)
    | inr (base, e) ↦ elim (Option-cases (by_path input.local)) [
      | inl f ↦ cc (rw (e, f) at h)
      | inr (local, f) ↦ elim (Option-cases (by_path input.remote)) [
        | inl g ↦ cc (rw (e, f, g) at h)
        | inr (remote, g) ↦
            let made : some (
                  decide_all H base local remote
                    (sort text_leb (distinct (keys base ++ (keys local ++ keys remote)))))
                ≡ some plan =
              rw (e, f, g) at h in
            rw
              (
                ← some-injective _ _ made,
                ← index_by_path-by_path input.base [] base e,
                ← index_by_path-by_path input.local [] local f,
                ← index_by_path-by_path input.remote [] remote g,
              )
              (kinds_by-decide_all H _ _ _ decide agree _)
      ]
    ]
  ]

-- Where every local entry has an identity, the causal witness lists for each path the kind that
-- the shared plan decides on, in the same order.
pub causal_decision_kinds-plan :
    (H : Host) (input : ReconciliationInput) {plan : List ReconcileDecision}
    → All HasIdentity input.local
    → plan_reconciliation H input ≡ some plan
    → causal_decision_kinds input ≡ map path_kind plan
unfolding lookup
causal_decision_kinds-plan H input h made =
    decision_kinds-plan H input causal_kind
      (λ path.
        causal_kind-decide_kind _ _ _ (index_by_path-Holds HasIdentity input.local [] path h tt))
      made

-- Where no entry of the base and of the local list has an identity, the legacy witness, which
-- compares hashes and sizes only, lists for each path the kind that the shared plan decides on.
pub legacy_decision_kinds-plan :
    (H : Host) (input : ReconciliationInput) {plan : List ReconcileDecision}
    → All HasNone input.base
    → All HasNone input.local
    → plan_reconciliation H input ≡ some plan
    → legacy_decision_kinds input ≡ map path_kind plan
unfolding lookup
legacy_decision_kinds-plan H input b l made =
    decision_kinds-plan H input legacy_kind
      (λ path.
        legacy_kind-decide_kind _ _ _ (index_by_path-Holds HasNone input.base [] path b tt)
          (index_by_path-Holds HasNone input.local [] path l tt))
      made
