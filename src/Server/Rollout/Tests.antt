-- ===== src/Server/Rollout/Tests.antt =====
-- Runs of the witnesses, and the theorems about them at some of them.
use gib_sync.Prelude.{◌≡◌, refl, Bool, true, false, String, Option, none, some, List, [], ◌∷◌, map}
use gib_sync.Prelude.Text.{text}
use gib_sync.Protocol.Host.{ascii}
use gib_sync.Protocol.Model.{ManifestEntry}
use gib_sync.Protocol.Reconcile.{
  ReconciliationInput, ReconcileDecision, decide_kind, plan_reconciliation, equal, unchanged,
  independent_create,
}
use gib_sync.Server.Rollout.{causal_kind, legacy_kind, causal_decision_kinds, legacy_decision_kinds}
use gib_sync.Server.Rollout.Comparison.{Evidence, is_matched}
use gib_sync.Server.Rollout.Plans.{
  path_kind, causal_decision_kinds-plan, legacy_decision_kinds-plan,
}

abbrev note : String → String → Option String → ManifestEntry
note path hash id = record {
  path = text path;
  hash = hash;
  size = 4;
  mtime = 0;
  file_id = id;
  revision = none;
}

abbrev identified : ReconciliationInput
identified = record {
  base = note "a.md" "0" (some "1") ∷ note "b.md" "0" (some "2") ∷ [];
  local = note "b.md" "0" (some "3") ∷ note "a.md" "1" (some "1") ∷ [];
  remote = note "a.md" "0" (some "1") ∷ note "c.md" "2" (some "4") ∷ [];
}

abbrev anonymous : ReconciliationInput
anonymous = record {
  base = note "a.md" "0" none ∷ [];
  local = note "a.md" "1" none ∷ [];
  remote = note "c.md" "2" none ∷ note "a.md" "2" none ∷ [];
}

abbrev plan_of : ReconciliationInput → List ReconcileDecision
plan_of input = elim (plan_reconciliation ascii input) [ none ↦ [] | some p ↦ p ]

identified_plan : plan_reconciliation ascii identified ≡ some (plan_of identified)
unfolding plan_reconciliation gib_sync.Protocol.Reconcile.by_path_onto gib_sync.Prelude.Dict.lookup
    gib_sync.Prelude.Dict.insert gib_sync.Prelude.Text.text_beq
identified_plan = refl

anonymous_plan : plan_reconciliation ascii anonymous ≡ some (plan_of anonymous)
unfolding plan_reconciliation gib_sync.Protocol.Reconcile.by_path_onto gib_sync.Prelude.Dict.lookup
    gib_sync.Prelude.Dict.insert gib_sync.Prelude.Text.text_beq
anonymous_plan = refl

causal_decision_kinds-plan_example :
    causal_decision_kinds identified ≡ map path_kind (plan_of identified)
causal_decision_kinds-plan_example =
    causal_decision_kinds-plan ascii identified (refl, (refl, tt)) identified_plan

legacy_decision_kinds-plan_example :
    legacy_decision_kinds anonymous ≡ map path_kind (plan_of anonymous)
legacy_decision_kinds-plan_example =
    legacy_decision_kinds-plan ascii anonymous (refl, tt) (refl, tt) anonymous_plan

-- The identity of the local file is not known, and the server has recreated it with its contents:
-- here the causal witness differs from the shared decision.
causal_of_unknown :
    causal_kind
      (some (note "a.md" "0" (some "1")))
      (some (note "a.md" "0" none))
      (some (note "a.md" "0" (some "2")))
    ≡ unchanged
unfolding causal_kind gib_sync.Protocol.Reconcile.same
causal_of_unknown = refl

shared_of_unknown :
    decide_kind
      (some (note "a.md" "0" (some "1")))
      (some (note "a.md" "0" none))
      (some (note "a.md" "0" (some "2")))
    ≡ equal
unfolding decide_kind gib_sync.Protocol.Reconcile.recreated gib_sync.Protocol.Reconcile.same
shared_of_unknown = refl

-- The legacy witness does not see that two files of one path are two.
legacy_of_two :
    legacy_kind none (some (note "a.md" "0" (some "1"))) (some (note "a.md" "0" (some "2"))) ≡ equal
unfolding legacy_kind gib_sync.Server.Rollout.same_bytes
legacy_of_two = refl

shared_of_two :
    decide_kind none (some (note "a.md" "0" (some "1"))) (some (note "a.md" "0" (some "2")))
    ≡ independent_create
unfolding decide_kind gib_sync.Protocol.Reconcile.recreated gib_sync.Protocol.Reconcile.same
shared_of_two = refl

abbrev nothing_known : Evidence
nothing_known = record {
  from_seafile = true;
  validated_identities = true;
  proven_remote_creations = [];
  local_creation_intents = [];
  is_accepted = λ e path. false;
  is_recreation = λ b l path. false;
}

plain_match : is_matched nothing_known ascii anonymous ≡ some true
unfolding is_matched gib_sync.Protocol.Reconcile.by_path_onto gib_sync.Prelude.Text.text_beq
    gib_sync.Prelude.Sorting.sort gib_sync.Protocol.Reconcile.distinct_onto
    gib_sync.Prelude.Text.text_leb gib_sync.Protocol.Reconcile.same decide_kind
    gib_sync.Server.Rollout.same_bytes
plain_match = refl

-- The local file has a new identity in the place of the old one.
abbrev replaced : ReconciliationInput
replaced = record {
  base = note "b.md" "0" (some "2") ∷ [];
  local = note "b.md" "0" (some "3") ∷ [];
  remote = note "b.md" "0" (some "2") ∷ [];
}

no_intent : is_matched nothing_known ascii replaced ≡ some false
unfolding is_matched gib_sync.Protocol.Reconcile.by_path_onto gib_sync.Prelude.Sorting.sort
    gib_sync.Protocol.Reconcile.distinct_onto gib_sync.Prelude.Text.text_beq
    gib_sync.Protocol.Reconcile.same decide_kind gib_sync.Server.Rollout.same_bytes
no_intent = refl

recorded_intent :
    is_matched (record nothing_known { is_recreation = λ b l path. true }) ascii replaced
    ≡ some true
unfolding is_matched gib_sync.Protocol.Reconcile.by_path_onto gib_sync.Prelude.Sorting.sort
    gib_sync.Protocol.Reconcile.distinct_onto gib_sync.Prelude.Text.text_beq
    gib_sync.Protocol.Reconcile.same decide_kind gib_sync.Server.Rollout.same_bytes
recorded_intent = refl
