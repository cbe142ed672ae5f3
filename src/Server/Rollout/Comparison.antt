-- ===== src/Server/Rollout/Comparison.antt =====
-- apps/server/src/reconciliation-rollout.ts: `observe` compares the shared plan with the witnesses,
-- and excuses differences of the legacy one that known identities explain. What it asks of the
-- database is an argument.
use gib_sync.Prelude.{
  String, Bool, true, false, ◌&&◌, ◌||◌, not, Option, none, some, List, [], ◌∷◌, map, some_of,
  if◌then◌else◌, ◌==◌, nat_eq, string_eq, option_eq,
}
use gib_sync.Prelude.Text.{Text, text_eq}
use gib_sync.Prelude.Dict.{Dict, lookup, insert}
use gib_sync.Protocol.Host.{Host}
use gib_sync.Protocol.Model.{ManifestEntry, given}
use gib_sync.Protocol.Moves.{index_by_path}
use gib_sync.Protocol.Reconcile.{
  ReconcileKind, unchanged, equal, local_only, remote_only, concurrent_edit, edit_delete,
  independent_create, ReconciliationInput, ReconcileDecision, plan_reconciliation, recreated,
}
use gib_sync.Server.Rollout.{
  PathKind, legacy_decision_kinds, causal_decision_kinds, legacy_kind, causal_kind,
}

-- The string that stands for a kind.
abbrev pub kind_name : ReconcileKind → String
kind_name unchanged = "unchanged"
kind_name equal = "equal"
kind_name local_only = "local-only"
kind_name remote_only = "remote-only"
kind_name concurrent_edit = "concurrent-edit"
kind_name edit_delete = "edit-delete"
kind_name independent_create = "independent-create"

abbrev pub same_path_kind : PathKind → PathKind → Bool
same_path_kind a b = a.path == b.path && kind_name a.kind == kind_name b.kind

-- `JSON.stringify(…) === JSON.stringify(…)`
unfoldable pub same_kinds : List PathKind → List PathKind → Bool
same_kinds [] [] = true
same_kinds [] (b ∷ bs) = false
same_kinds (a ∷ as_) [] = false
same_kinds (a ∷ as_) (b ∷ bs) = let rest = same_kinds as_ bs in same_path_kind a b && rest

-- The decisions whose kind the witness has not at their place.
unfoldable pub differences : List PathKind → List PathKind → List PathKind
differences [] witness = []
differences (d ∷ ds) [] = d ∷ differences ds []
differences (d ∷ ds) (w ∷ ws) =
    let rest = differences ds ws in if kind_name d.kind == kind_name w.kind then rest else d ∷ rest

-- `new Map(witness.map(...))`: the last of a path counts.
abbrev pub kinds_of : List PathKind → Dict Text ReconcileKind → Dict Text ReconcileKind
kinds_of [] index = index
kinds_of (w ∷ ws) index = kinds_of ws (insert w.path w.kind index)

pub record CreationProof : Type 0 where
  pub path : Text
  pub target_id : Option String

pub record CreationIntent : Type 0 where
  pub path : Text
  pub target_id : Option String
  pub base_target_id : Option String

-- The evidence of a call, and what the database says: `is_accepted` whether a live file of the
-- vault has this identity, path, hash and size, `is_recreation` whether an operation has put the
-- second identity in the first one's place at the path.
pub record Evidence : Type 0 where
  pub from_seafile : Bool
  pub validated_identities : Bool
  pub proven_remote_creations : List CreationProof
  pub local_creation_intents : List CreationIntent
  pub is_accepted : ManifestEntry → Text → Bool
  pub is_recreation : Option String → Option String → Text → Bool

module _ (E : Evidence) where
  abbrev pub is_proven : Text → ManifestEntry → Bool
  is_proven path r =
      some_of (λ (proof : CreationProof). proof.path == path && proof.target_id == r.file_id)
        E.proven_remote_creations

  -- Two files of equal bytes, each with an identity of its own, of which the server's is proven.
  abbrev pub is_second_file : Text → Option ManifestEntry → Option ManifestEntry → Bool
  is_second_file path none r = false
  is_second_file path (some l) none = false
  is_second_file path (some l) (some r) =
      given l.file_id
      && given r.file_id
      && not (l.file_id == r.file_id)
      && l.hash == r.hash
      && l.size == r.size
      && is_proven path r
      && E.is_accepted l path

  abbrev pub is_equal_kind : Option ReconcileKind → Bool
  is_equal_kind none = false
  is_equal_kind (some kind) = kind_name kind == "equal"

  -- A local identity that is not the base's has its intent, or its operation.
  abbrev pub lacks_intent : Text → ManifestEntry → Option ManifestEntry → Bool
  lacks_intent path b none = false
  lacks_intent path b (some l) =
      recreated (some b) (some l)
      && not (
          some_of
            (λ (intent : CreationIntent).
              intent.path == path
              && intent.target_id == l.file_id
              && intent.base_target_id == b.file_id)
            E.local_creation_intents)
      && not (E.from_seafile && E.is_recreation b.file_id l.file_id path)

  abbrev pub lacks_proof : Text → ManifestEntry → Option ManifestEntry → Bool
  lacks_proof path b none = false
  lacks_proof path b (some r) =
      recreated (some b) (some r) && E.from_seafile && not (is_proven path r)

  -- `w` is what the legacy witness says of the path.
  unfoldable pub is_justified :
      PathKind → (w : Option ReconcileKind) → (b l r : Option ManifestEntry) → Bool
  unfolding recreated
  is_justified d w none l r =
      E.validated_identities
      && E.from_seafile
      && kind_name d.kind == "independent-create"
      && is_equal_kind w
      && is_second_file d.path l r
  is_justified d w (some b) l r =
      E.validated_identities
      && given b.file_id
      && not (lacks_intent d.path b l)
      && not (lacks_proof d.path b r)
      && (recreated (some b) l || recreated (some b) r)

  abbrev pub all_justified :
      (base local remote : Dict Text ManifestEntry) → Dict Text ReconcileKind → List PathKind → Bool
  all_justified base local remote witness [] = true
  all_justified base local remote witness (d ∷ ds) =
      is_justified d (lookup d.path witness) (lookup d.path base) (lookup d.path local)
        (lookup d.path remote)
      && all_justified base local remote witness ds

  abbrev pub is_match : ReconciliationInput → List PathKind → Bool
  is_match input decisions =
      let witness = legacy_decision_kinds input in
      same_kinds (causal_decision_kinds input) decisions
      && (same_kinds witness decisions
          || all_justified (index_by_path input.base []) (index_by_path input.local [])
              (index_by_path input.remote []) (kinds_of witness []) (differences decisions witness))

  -- `none` where the shared plan throws.
  unfoldable pub is_matched : Host → ReconciliationInput → Option Bool
  unfolding legacy_kind causal_kind is_justified same_kinds differences plan_reconciliation lookup
      insert index_by_path
  is_matched H input = elim (plan_reconciliation H input) [
    | none ↦ none
    | some plan ↦ some (
        is_match input
          (map (λ (d : ReconcileDecision). record { path = d.path; kind = d.kind }) plan))
  ]
