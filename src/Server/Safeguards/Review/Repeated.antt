-- ===== src/Server/Safeguards/Review/Repeated.antt =====
-- apps/server/src/safeguards.ts: what happens when the same work is proposed again.
use gib_sync.Prelude.{
  ◌≡◌, refl, ap, subst, ℕ, suc, ◌+◌, String, Bool, true, false, ◌&&◌, ◌||◌, not, Option, none, some,
  List, [], ◌∷◌, ◌++◌, is_some, ltb, nat_eq, string_eq, beq_refl, arith, Bool-cases, Option-cases,
  inl, inr,
}
use gib_sync.Prelude.Text.{Text}
use gib_sync.Prelude.Dict.{lookup}
use gib_sync.Protocol.Host.{Host}
use gib_sync.Protocol.Model.{ManifestEntry}
use gib_sync.Server.Safeguards.{SafeguardPolicy}
use gib_sync.Server.Safeguards.Assess.{ChangeAssessment, ChangeItem, is_nil, assess_changes}
use gib_sync.Server.Safeguards.Review.{
  QuarantineRow, VaultSafetyRow, PendingFolders, Tables, is_trusted, policy,
}
use gib_sync.Server.Safeguards.Review.Request.{Proposal, ProposalKey, has_hash, proposal_hash}
use gib_sync.Server.Safeguards.Review.Propose.{
  Answer, first_such, or_first, existing, new_row, hold, decide, explicit_review, entries_of,
  signals_of, answer_for, propose,
}

abbrev repeated : Answer → Answer
repeated a = record a { created = false }

first_such-append :
    (test : QuarantineRow → Bool) (rs : List QuarantineRow) (r : QuarantineRow)
    → first_such test rs ≡ none
    → test r ≡ true
    → first_such test (rs ++ (r ∷ [])) ≡ some r
unfolding first_such
first_such-append test [] r h t = rw t refl
first_such-append test (s ∷ rs) r h t = elim (Bool-cases (test s)) [
  | inl e ↦ absurd (ground arith)
  | inr e ↦ rw e (first_such-append test rs r (ground arith) t)
]

or_first-none : (a b : Option QuarantineRow) → or_first a b ≡ none → a ≡ none
or_first-none none b h = refl
or_first-none (some r) b h = absurd (ground arith)

or_first-some :
    (a b : Option QuarantineRow) (r : QuarantineRow) → a ≡ some r → or_first a b ≡ some r
or_first-some a b r h = rw h refl

later : (n k : ℕ) → ltb n (n + suc k) ≡ true
later n k = ground arith

module _ (H : Host) (hash : ProposalKey → String) (now : ℕ) (p : Proposal)
    (assessed : ChangeAssessment × List ChangeItem) where
  new_row-has_hash :
      (id : String)
      → has_hash (proposal_hash H hash p) p now (new_row H hash now p assessed id) ≡ true
  new_row-has_hash id =
      let here = beq_refl p.vault_id in
      let hashed = beq_refl (proposal_hash H hash p) in
      rw here (rw hashed (rw (later now 604799999) refl))

  existing-new :
      (id : String) (ps : List PendingFolders) (rows : List QuarantineRow)
      → existing H hash now p ps rows ≡ none
      → existing H hash now p ps (rows ++ (new_row H hash now p assessed id ∷ []))
        ≡ some (new_row H hash now p assessed id)
  unfolding existing
  existing-new id ps rows h =
      or_first-some
        (first_such (has_hash (proposal_hash H hash p) p now)
          (rows ++ (new_row H hash now p assessed id ∷ [])))
        _ _
        (first_such-append (has_hash (proposal_hash H hash p) p now) rows
          (new_row H hash now p assessed id)
          (or_first-none (first_such (has_hash (proposal_hash H hash p) p now) rows) _ h)
          (new_row-has_hash id))

  hold-again :
      (id again : String) (ps : List PendingFolders) (rows : List QuarantineRow)
      (found : Option QuarantineRow)
      → existing H hash now p ps rows ≡ found
      → (let first = hold H hash now p assessed id rows found in
          hold H hash now p assessed again first.1 (existing H hash now p ps first.1)
          ≡ (repeated first.0, first.1))
  hold-again id again ps rows none h = rw (existing-new id ps rows h) refl
  hold-again id again ps rows (some r) h = rw h refl

  decide-again :
      (id again : String) (row : VaultSafetyRow) (previous : List ManifestEntry)
      (ps : List PendingFolders) (rows : List QuarantineRow)
      → (let first = decide H hash now p assessed id row previous ps rows in
          decide H hash now p assessed again row previous ps first.1 ≡ (repeated first.0, first.1))
  unfolding decide
  decide-again id again row previous ps rows = elim (Bool-cases (is_some row.write_locked_at)) [
    | inl e ↦ rw e refl
    | inr e ↦
        rw e
          (elim (Bool-cases (
            is_nil assessed.0.reasons
            || is_nil previous
            || (is_trusted row p.device_id now && not (explicit_review p assessed.0)))) [
              | inl f ↦ rw f (elim (Bool-cases (is_trusted row p.device_id now)) [
                | inl g ↦ rw g refl
                | inr g ↦ rw g refl
              ])
              | inr f ↦ rw f (hold-again id again ps rows (existing H hash now p ps rows) refl)
            ])
  ]

-- What a call gives, and what it gives again.
abbrev Settled : (Tables → Option (Answer × Tables)) → Answer × Tables → Type 0
Settled call x = call x.1 ≡ some (repeated x.0, x.1)

module _ (H : Host) (parse_policy : Text → Option SafeguardPolicy) (hash : ProposalKey → String)
    (id again : String) (now : ℕ) (p : Proposal) (T : Tables) where
  answer_for-again :
      (row : VaultSafetyRow)
      → (let first = answer_for H parse_policy hash id now p row T in
          answer_for H parse_policy hash again now p row first.1 ≡ (repeated first.0, first.1))
  unfolding answer_for policy
  answer_for-again row =
      let previous = entries_of row.head_id T.snapshots in
      let assessed =
        assess_changes H (policy parse_policy p.vault_id T) (signals_of p.signals) previous
          p.entries in
      ap (λ (x : Answer × List QuarantineRow). (x.0, record T { quarantines = x.1 }))
        (decide-again H hash now p assessed id again row previous T.pending_folders T.quarantines)

  propose-Settled :
      (row : VaultSafetyRow)
      → lookup p.vault_id T.vaults ≡ some row
      → Settled
          (propose H parse_policy hash again now p)
          (answer_for H parse_policy hash id now p row T)
  unfolding propose answer_for
  propose-Settled row e = rw e (ap some (answer_for-again row))

-- Whatever is answered to a proposal, the same proposal at the same time is answered alike, with the
-- same quarantine: the first call has changed what the second one needs, so that the second one
-- creates nothing and leaves the tables as they are.
pub propose-again :
    (H : Host) (parse_policy : Text → Option SafeguardPolicy) (hash : ProposalKey → String)
    (id again : String) (now : ℕ) (p : Proposal) (T : Tables) {a : Answer} {T' : Tables}
    → propose H parse_policy hash id now p T ≡ some (a, T')
    → propose H parse_policy hash again now p T' ≡ some (record a { created = false }, T')
unfolding propose
propose-again H parse_policy hash id again now p T {a} {T'} h =
    elim (Option-cases (lookup p.vault_id T.vaults)) [
      | inl e ↦ absurd (ground arith)
      | inr (row, e) ↦
          let same : answer_for H parse_policy hash id now p row T ≡ (a, T') = ground arith in
          subst (Settled (propose H parse_policy hash again now p)) same
            (propose-Settled H parse_policy hash id again now p T row e)
    ]
