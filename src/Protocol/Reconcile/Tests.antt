-- ===== src/Protocol/Reconcile/Tests.antt =====
-- Runs of the shared decision and the planners, and the theorems about them at some of them.
use gib_sync.Prelude.{
  ℕ, ◌≡◌, refl, String, Bool, Option, none, some, List, [], ◌∷◌, map, contains, ◌||◌,
}
use gib_sync.Prelude.Text.{text, text_eq, text_leb, Text}
use gib_sync.Protocol.Host.{ascii}
use gib_sync.Protocol.Model.{ManifestEntry}
use gib_sync.Protocol.Reconcile.{
  ReconciliationInput, ReconcileDecision, decide_kind, local_only, concurrent_edit, decide_all,
  by_path, plan_reconciliation, plan_reconciliation_cooperative, paths_of,
}
use gib_sync.Protocol.Reconcile.Decision.{Promise, decide_kind-Promise, decide_kind-mirror, mirror}
use gib_sync.Protocol.Reconcile.Plan.{
  plan_reconciliation_cooperative-eq, plan_reconciliation-covers,
}

abbrev note : String → String → ManifestEntry
note path hash = record {
  path = text path;
  hash = hash;
  size = 4;
  mtime = 0;
  file_id = some path;
  revision = none;
}

abbrev base : ManifestEntry
base = note "a.md" "h0"

abbrev mine : ManifestEntry
mine = note "a.md" "h1"

abbrev theirs : ManifestEntry
theirs = note "a.md" "h2"

both_edited : decide_kind (some base) (some mine) (some theirs) ≡ concurrent_edit
unfolding decide_kind gib_sync.Protocol.Reconcile.recreated gib_sync.Protocol.Reconcile.same
both_edited = refl

decide_kind-Promise_example :
    Promise (decide_kind (some base) (some mine) none) (some base) (some mine) none
decide_kind-Promise_example = decide_kind-Promise (some base) (some mine) none

decide_kind-mirror_example :
    decide_kind (some base) (some base) (some mine)
    ≡ mirror (decide_kind (some base) (some mine) (some base))
decide_kind-mirror_example = decide_kind-mirror (some base) (some mine) (some base) refl

abbrev input : ReconciliationInput
input = record {
  base = base ∷ [];
  local = note "b.md" "h3" ∷ mine ∷ [];
  remote = base ∷ note "c.md" "h4" ∷ [];
}

abbrev plan : List ReconcileDecision
plan = elim (plan_reconciliation ascii input) [ none ↦ [] | some p ↦ p ]

planned : plan_reconciliation ascii input ≡ some plan
unfolding plan_reconciliation gib_sync.Protocol.Reconcile.by_path_onto gib_sync.Prelude.Dict.lookup
    gib_sync.Prelude.Dict.insert gib_sync.Prelude.Text.text_beq
planned = refl

plan_reconciliation_cooperative-eq_example :
    plan_reconciliation_cooperative ascii input ≡ plan_reconciliation ascii input
plan_reconciliation_cooperative-eq_example = plan_reconciliation_cooperative-eq ascii input

plan_reconciliation-covers_example : contains (map (λ d. d.path) plan) (text "c.md") ≡ (
    contains (paths_of input.base) (text "c.md")
    || contains (paths_of input.local) (text "c.md")
    || contains (paths_of input.remote) (text "c.md"))
plan_reconciliation-covers_example = plan_reconciliation-covers ascii input (text "c.md") planned

abbrev paths : List Text
paths = text "c" ∷ text "a" ∷ text "d" ∷ text "b" ∷ text "a" ∷ []
