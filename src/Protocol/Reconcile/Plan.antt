-- ===== src/Protocol/Reconcile/Plan.antt =====
-- The two planners of packages/protocol/src/operations.ts agree.
use gib_sync.Prelude.{
  ◌≡◌, refl, ap, ◌∙◌, true, false, some, List, [], ◌∷◌, ◌++◌, map, arith, is_some, if◌then◌else◌,
  contains, ◌||◌, Option-cases, Bool-cases, inl, inr,
}
use mathlib.Core.Option.{some-injective}
use mathlib.Core.List.{append_assoc, append-nil}
use gib_sync.Prelude.Text.{Text, text_beq, text_eq, text_beq_iff, text_leb}
use gib_sync.Prelude.Dict.{Dict, lookup, insert, keys}
use gib_sync.Prelude.Sorting.{insert_sorted, sort, text_leb-IsOrder}
use gib_sync.Protocol.Host.{Host}
use gib_sync.Protocol.Model.{ManifestEntry}
use gib_sync.Protocol.Cooperative.{sort_cooperative-eq-sort}
use gib_sync.Protocol.Reconcile.{
  ReconciliationInput, ReconcileDecision, decide_all, by_path_onto, by_path, distinct_onto,
  distinct, paths_of, plan_reconciliation, plan_reconciliation_cooperative,
}

keys-insert_fresh :
    (path : Text) (entry : ManifestEntry) (d : Dict Text ManifestEntry)
    → is_some (lookup path d) ≡ false
    → keys (insert path entry d) ≡ keys d ++ (path ∷ [])
unfolding lookup insert
keys-insert_fresh path entry [] h = refl
keys-insert_fresh path entry ((k, v) ∷ d) h = ground (arith, keys-insert_fresh path entry d)

-- A map that could be built has the paths of the entries, in their order.
keys-by_path_onto :
    (entries : List ManifestEntry) (d result : Dict Text ManifestEntry)
    → by_path_onto result entries ≡ some d
    → keys d ≡ keys result ++ paths_of entries
unfolding by_path_onto
keys-by_path_onto [] d result h = cc (append-nil (keys result))
keys-by_path_onto (entry ∷ entries) d result h =
    elim (Bool-cases (is_some (lookup entry.path result))) [
      | inl there ↦ ground arith
      | inr fresh ↦
          let ih = keys-by_path_onto entries d (insert entry.path entry result) (ground arith) in
          cc (
            ih,
            keys-insert_fresh entry.path entry result fresh,
            append_assoc (keys result) (entry.path ∷ []) (paths_of entries),
          )
    ]

distinct_onto-append :
    (ps seen qs : List Text)
    → distinct_onto seen (ps ++ qs) ≡ distinct_onto (distinct_onto seen ps) qs
unfolding distinct_onto
distinct_onto-append [] seen qs = refl
distinct_onto-append (p ∷ ps) seen qs =
    distinct_onto-append ps (if contains seen p then seen else seen ++ (p ∷ [])) qs

-- The cooperative planner returns the decisions of the synchronous one, in the same order, and
-- fails on a duplicate path exactly where that one does.
pub plan_reconciliation_cooperative-eq :
    (H : Host) (input : ReconciliationInput)
    → plan_reconciliation_cooperative H input ≡ plan_reconciliation H input
unfolding plan_reconciliation_cooperative plan_reconciliation
plan_reconciliation_cooperative-eq H input = elim (Option-cases (by_path input.base)) [
  | inl e ↦ rw e
  | inr (base, e) ↦ elim (Option-cases (by_path input.local)) [
    | inl f ↦ rw (e, f)
    | inr (local, f) ↦ elim (Option-cases (by_path input.remote)) [
      | inl g ↦ rw (e, f, g)
      | inr (remote, g) ↦ rw (
        e,
        f,
        g,
        sort_cooperative-eq-sort text_leb-IsOrder,
        keys-by_path_onto input.base base [] e,
        keys-by_path_onto input.local local [] f,
        keys-by_path_onto input.remote remote [] g,
        distinct_onto-append (paths_of input.base) [],
        distinct_onto-append (paths_of input.local),
      )
    ]
  ]
]

contains-append :
    (xs ys : List Text) (p : Text) → contains (xs ++ ys) p ≡ (contains xs p || contains ys p)
contains-append [] ys p = refl
contains-append (x ∷ xs) ys p = ground (arith, contains-append xs ys p)

contains-insert_sorted :
    (x : Text) (xs : List Text) (p : Text)
    → contains (insert_sorted text_leb x xs) p ≡ contains (x ∷ xs) p
unfolding insert_sorted
contains-insert_sorted x [] p = ground arith
contains-insert_sorted x (y ∷ ys) p = ground (arith, contains-insert_sorted x ys p)

contains-sort : (xs : List Text) (p : Text) → contains (sort text_leb xs) p ≡ contains xs p
unfolding sort
contains-sort [] p = refl
contains-sort (x ∷ xs) p =
    contains-insert_sorted x (sort text_leb xs) p
    ∙ ap (λ b. if text_beq p x then true else b) (contains-sort xs p)

contains-distinct_onto :
    (ps seen : List Text) (p : Text)
    → contains (distinct_onto seen ps) p ≡ (contains seen p || contains ps p)
unfolding distinct_onto
contains-distinct_onto [] seen p = ground arith
contains-distinct_onto (q ∷ ps) seen p = ground (
  arith,
  contains-distinct_onto ps seen p,
  contains-distinct_onto ps (seen ++ (q ∷ [])) p,
  contains-append seen (q ∷ []) p,
  text_beq_iff p q,
)

map-path-decide_all :
    (H : Host) (base local remote : Dict Text ManifestEntry) (paths : List Text)
    → map (λ d. d.path) (decide_all H base local remote paths) ≡ paths
map-path-decide_all H base local remote [] = refl
map-path-decide_all H base local remote (p ∷ ps) =
    ap (λ r. p ∷ r) (map-path-decide_all H base local remote ps)

-- A plan decides on exactly the paths that the base, the device or the server has.
pub plan_reconciliation-covers :
    (H : Host) (input : ReconciliationInput) (p : Text) {plan : List ReconcileDecision}
    → plan_reconciliation H input ≡ some plan
    → contains (map (λ d. d.path) plan) p ≡ (
        contains (paths_of input.base) p
        || contains (paths_of input.local) p
        || contains (paths_of input.remote) p)
unfolding plan_reconciliation
plan_reconciliation-covers H input p {plan} h = elim (Option-cases (by_path input.base)) [
  | inl e ↦ cc (rw e at h)
  | inr (base, e) ↦ elim (Option-cases (by_path input.local)) [
    | inl f ↦ cc (rw (e, f) at h)
    | inr (local, f) ↦ elim (Option-cases (by_path input.remote)) [
      | inl g ↦ cc (rw (e, f, g) at h)
      | inr (remote, g) ↦
          let made : some (
                decide_all H base local remote
                  (sort text_leb (distinct (keys base ++ (keys local ++ keys remote)))))
              ≡ some plan =
            rw (e, f, g) at h in
          rw
            (
              ← some-injective _ _ made,
              map-path-decide_all,
              contains-sort,
              contains-distinct_onto,
              contains-append,
              contains-append,
              keys-by_path_onto input.base base [] e,
              keys-by_path_onto input.local local [] f,
              keys-by_path_onto input.remote remote [] g,
            )
            (ground arith)
    ]
  ]
]
