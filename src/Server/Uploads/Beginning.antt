-- ===== src/Server/Uploads/Beginning.antt =====
-- `cleanupExpired` and `begin` of apps/server/src/content-upload.ts keep the receipts in order.
use gib_sync.Prelude.{
  ℕ, is_some, is_some, ◌≡◌, refl, ◌∙◌, subst, String, true, Option, none, some, List, [], ◌∷◌,
  if◌then◌else◌, ◌==◌, nat_eq, string_eq, option_eq, Bool-cases, Option-cases, inl, inr, arith,
  beq_refl,
}
use gib_sync.Prelude.Dict.{lookup, insert, lookup-insert, lookup-insert_self, lookup-erase}
use gib_sync.Prelude.Result.{Result, ok, err, guards}
use gib_sync.Prelude.State.{◌>>◌, Post, Triple, >>=-Triple, Post-finally, modify, lift-next}
use gib_sync.Server.Uploads.{
  SessionRow, receiving, Uploads, Bytes, UploadDevice, receipts_of, Failure,
}
use gib_sync.Server.Uploads.Leases.{assert_lease, owned_by, holds, release, take_lease}
use gib_sync.Server.Uploads.Staging.{path, recover}
use gib_sync.Server.Uploads.Working.{
  Working, anyone, release-IsSound, exclusive-IsSound, recover-Working,
}
use gib_sync.Server.Uploads.Invariant.{IsSound, SoundRow, update-IsSound, point-IsSound}
use gib_sync.Server.Uploads.Expiry.{
  drop_files, drop_rows, without_owned, delete_session, clean_row, clean_one, clean_all,
  cleanup_expired, is_expired,
}
use gib_sync.Server.Uploads.Intake.{
  Times, new_row, insert_session, admit, admit_checks, ensure_row, recovered, resume, enter, begin,
  begin_checks,
}
use gib_sync.Server.Uploads.{find_identity, Finalizer}

-- The table has a row of the owner under the id.
abbrev Owns : String → String → Uploads → Type 0
Owns owner id s = (x : SessionRow) × (lookup id s.sessions ≡ some x) × (owned_by owner x ≡ true)

assert_lease-Owns :
    (owner id : String) (now : ℕ)
    → Triple IsSound (assert_lease owner id now) (λ _ s. IsSound s × Owns owner id s) IsSound
assert_lease-Owns owner id now s h = elim (Option-cases (lookup id s.sessions)) [
  | inl e ↦ rw e h
  | inr (x, e) ↦ elim (Bool-cases (holds owner now x)) [
    | inl b ↦ rw (e, b) (h, (x, e, ground arith))
    | inr b ↦ rw (e, b) h
  ]
]

lookup-without_owned :
    (owner id j : String) (s : Uploads)
    → Owns owner id s
    → lookup j (without_owned owner id s.sessions) ≡ (if id == j then none else lookup j s.sessions)
lookup-without_owned owner id j s (x, e, o) = ground (arith, lookup-erase j id s.sessions)

receipts_of-drop_rows :
    (owner id j : String) (s : Uploads)
    → receipts_of j (drop_rows owner id s) ≡ (if id == j then [] else receipts_of j s)
receipts_of-drop_rows owner id j s = ground (arith, lookup-erase j id s.receipts)

drop_rows-IsSound :
    (owner id : String) (s : Uploads) → IsSound s → Owns owner id s → IsSound (drop_rows owner id s)
drop_rows-IsSound owner id s h o =
    point-IsSound id s (drop_rows owner id s)
      (rw (lookup-without_owned owner id id s o, receipts_of-drop_rows owner id id s, beq_refl id)
        refl)
      (λ j d. (
        lookup-without_owned owner id j s o ∙ rw d refl,
        receipts_of-drop_rows owner id j s ∙ rw d refl,
      ))
      h

pub delete_session-IsSound :
    (owner : String) (now : ℕ) (r : SessionRow)
    → Triple IsSound (delete_session owner now r) (λ _. IsSound) IsSound
unfolding delete_session
delete_session-IsSound owner now r s h =
    lift-next (λ _. IsSound) IsSound (path r.id)
      (λ name.
        modify (drop_files r name)
        >> (assert_lease owner r.id now >> modify (drop_rows owner r.id)))
      s h
      λ name _.
        >>=-Triple IsSound (λ _ t. IsSound t × Owns owner r.id t) (λ _. IsSound) IsSound
          (assert_lease owner r.id now) (λ _. modify (drop_rows owner r.id))
          (assert_lease-Owns owner r.id now) (λ _ t k. drop_rows-IsSound owner r.id t k.0 k.1)
          (drop_files r name s) h

clean_row-IsSound :
    (owner : String) (now : ℕ) (r : SessionRow) (row : Option SessionRow)
    → Triple IsSound (clean_row owner now r row) (λ _. IsSound) IsSound
unfolding clean_row
clean_row-IsSound owner now r none s h = h
clean_row-IsSound owner now r (some x) s h = elim (Bool-cases (is_expired now x)) [
  | inl b ↦ rw b (
      Post-finally (λ _. IsSound) (λ _. IsSound) IsSound IsSound (release owner r.id) _
        (delete_session-IsSound owner now r _ (
          update-IsSound r.id (is_expired now) (take_lease owner now) s
            (λ y. (refl, refl, refl, refl)) h))
        (λ v t. release-IsSound owner r.id t) (release-IsSound owner r.id))
  | inr b ↦ rw b h
]

clean_all-IsSound :
    (owner : String) (now : ℕ) (rs : List SessionRow)
    → Triple IsSound (clean_all owner now rs) (λ _. IsSound) IsSound
unfolding clean_all clean_one
clean_all-IsSound owner now [] s h = h
clean_all-IsSound owner now (r ∷ rs) s h =
    >>=-Triple IsSound (λ _. IsSound) (λ _. IsSound) IsSound (clean_one owner now r)
      (λ _. clean_all owner now rs) (λ t. clean_row-IsSound owner now r (lookup r.id t.sessions) t)
      (λ _. clean_all-IsSound owner now rs) s h

pub cleanup_expired-IsSound :
    (owner : String) (now : ℕ) → Triple IsSound (cleanup_expired owner now) (λ _. IsSound) IsSound
unfolding cleanup_expired
cleanup_expired-IsSound owner now s h = clean_all-IsSound owner now _ s h

insert-IsSound :
    (id : String) (r : SessionRow) (s : Uploads)
    → lookup id s.sessions ≡ none
    → r.id ≡ id
    → r.offset ≡ 0
    → r.state ≡ receiving
    → IsSound s
    → IsSound (record s { sessions = insert id r s.sessions })
insert-IsSound id r s new at start fresh h =
    let bare : receipts_of id s ≡ [] = subst (λ o. SoundRow id o (receipts_of id s)) new (h id) in
    point-IsSound id s (record s { sessions = insert id r s.sessions })
      (rw (lookup-insert_self id r s.sessions, bare, start, fresh) (at, refl, tt))
      (λ j n. (lookup-insert j id r s.sessions ∙ rw n refl, refl)) h

insert_session-IsSound :
    (d : UploadDevice) (hash : String) (size : ℕ) (id : String) (now : ℕ)
    → Triple IsSound (insert_session d hash size id now) (λ _. IsSound) IsSound
insert_session-IsSound d hash size id now s h =
    elim (Bool-cases (is_some (find_identity d hash size s.sessions))) [
      | inl e ↦ rw e h
      | inr e ↦ elim (Option-cases (lookup id s.sessions)) [
        | inl f ↦ rw (e, f) (insert-IsSound id (new_row d hash size id now) s f refl refl refl h)
        | inr (x, f) ↦ rw (e, f) h
      ]
    ]

pub admit-IsSound :
    (d : UploadDevice) (hash : String) (size now available : ℕ) (id : String)
    → Triple IsSound (admit d hash size now available id) (λ _. IsSound) IsSound
unfolding admit
admit-IsSound d hash size now available id s h =
    lift-next (λ _. IsSound) IsSound (guards (admit_checks d size now available s))
      (λ _. insert_session d hash size id now) s h
      λ _ _. insert_session-IsSound d hash size id now s h

-- A step that returns its state as it is.
quiet :
    {A : Type 0} (result : Result Failure A) (s : Uploads)
    → IsSound s
    → Post (λ _. IsSound) IsSound (result, s)
quiet (ok value) s h = h
quiet (err e) s h = h

module _ (sha256 : Bytes → String) (max_blob : ℕ) (owner : String) where
  recovered-IsSound :
      (t : Times) (r : SessionRow)
      → Triple (Working anyone r) (recovered sha256 max_blob owner t r) (λ _. IsSound) IsSound
  unfolding recovered
  recovered-IsSound t r =
      >>=-Triple (Working anyone r) (Working anyone) (λ _. IsSound) IsSound
        (recover sha256 owner t.checked r) _ (recover-Working sha256 owner t.checked r)
        (λ x s w. w.0)

  resume-IsSound :
      (d : UploadDevice) (t : Times) (r : SessionRow) (job : Option Finalizer)
      → Triple IsSound (resume sha256 max_blob owner d t r job) (λ _. IsSound) IsSound
  unfolding resume
  resume-IsSound d t r none s h =
      exclusive-IsSound owner d r.id t.started (recovered sha256 max_blob owner t)
        (recovered-IsSound t) s h
  resume-IsSound d t r (some job) s h = h

  ensure_row-IsSound :
      (d : UploadDevice) (hash : String) (size now available : ℕ) (id : String)
      (row : Option SessionRow)
      → Triple IsSound
          (ensure_row sha256 max_blob owner d hash size now available id row)
          (λ _. IsSound)
          IsSound
  unfolding ensure_row
  ensure_row-IsSound d hash size now available id (some r) s h = h
  ensure_row-IsSound d hash size now available id none s h =
      >>=-Triple IsSound (λ _. IsSound) (λ _. IsSound) IsSound (admit d hash size now available id)
        _ (admit-IsSound d hash size now available id) (λ _ t. quiet _ t) s h

  enter-IsSound :
      (d : UploadDevice) (hash : String) (size available : ℕ) (id : String) (t : Times)
      → Triple IsSound
          (enter sha256 max_blob owner d hash size available id t)
          (λ _. IsSound)
          IsSound
  unfolding enter
  enter-IsSound d hash size available id t s h =
      >>=-Triple IsSound (λ _. IsSound) (λ _. IsSound) IsSound
        (ensure_row sha256 max_blob owner d hash size t.started available id
          (find_identity d hash size s.sessions))
        (λ r u. resume sha256 max_blob owner d t r (lookup r.id u.finalizers) u)
        (ensure_row-IsSound d hash size t.started available id
          (find_identity d hash size s.sessions))
        (λ r u. resume-IsSound d t r (lookup r.id u.finalizers) u) s h

  pub begin-IsSound :
      (d : UploadDevice) (hash : String) (size available : ℕ) (id : String) (t : Times)
      → Triple IsSound
          (begin sha256 max_blob owner d hash size available id t)
          (λ _. IsSound)
          IsSound
  unfolding begin
  begin-IsSound d hash size available id t s h =
      lift-next (λ _. IsSound) IsSound (guards (begin_checks sha256 max_blob owner hash size s))
        (λ _.
          cleanup_expired owner t.started >> enter sha256 max_blob owner d hash size available id t)
        s h
        λ _ _.
          >>=-Triple IsSound (λ _. IsSound) (λ _. IsSound) IsSound (cleanup_expired owner t.started)
            (λ _. enter sha256 max_blob owner d hash size available id t)
            (cleanup_expired-IsSound owner t.started)
            (λ _. enter-IsSound d hash size available id t) s h
