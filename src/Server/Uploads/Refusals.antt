-- ===== src/Server/Uploads/Refusals.antt =====
-- When a request on an upload is refused, and what an upload that is let in leaves of the limits
-- (apps/server/src/content-upload.ts).
use gib_sync.Prelude.{
  ℕ, ◌+◌, ◌≤◌, ◌≡◌, refl, String, Bool, true, false, ◌&&◌, not, Option, none, some, List, [], ◌∷◌,
  ◌++◌, length, length-append, sum_by-append, keep, is_some, if◌then◌else◌, string_eq, Bool-cases,
  Option-cases, inl, inr, arith,
}
use gib_sync.Prelude.Dict.{Dict, lookup, insert, values}
use gib_sync.Prelude.Result.{ok, err, guards, guards-All}
use gib_sync.Prelude.State.{Post, Post-ok, lift-next}
use gib_sync.Server.Uploads.{
  SessionRow, Failure, fail, Uploads, Upload, UploadDevice, belongs, is_active, active_count,
  owned_count, reserved, reserved_bytes, find_identity,
}
use gib_sync.Server.Uploads.Leases.{acquire, exclusive, is_free}
use gib_sync.Server.Uploads.Intake.{admit, admit_checks, insert_session, new_row, needed_bytes}

-- Why a request may not work on the session that the table has under its id.
abbrev pub refusal : UploadDevice → ℕ → Option SessionRow → Option Failure
refusal d now none = some (fail 404 "Upload session not found")
refusal d now (some r) =
    if not (belongs d r)
    then some (fail 404 "Upload session not found")
    else if not (is_free now r)
    then some (fail 409 "This upload is being processed; retry shortly")
    else none

-- A session that is not there, that another device began, or whose lease still runs: the request is
-- refused with the code that says so, nothing is run, and nothing is changed, not even the lease.
pub exclusive-refusal :
    {A : Type 0} (owner : String) (d : UploadDevice) (id : String) (now : ℕ)
    (operation : SessionRow → Upload A) (s : Uploads) (e : Failure)
    → refusal d now (lookup id s.sessions) ≡ some e
    → exclusive owner d id now operation s ≡ (err e, s)
unfolding exclusive acquire
exclusive-refusal owner d id now operation s e h = elim (Option-cases (lookup id s.sessions)) [
  | inl f ↦ ground arith
  | inr (r, f) ↦ ground arith
]

values-insert :
    (id : String) (r : SessionRow) (d : Dict String SessionRow)
    → lookup id d ≡ none
    → values (insert id r d) ≡ values d ++ r ∷ []
unfolding lookup insert
values-insert id r [] h = refl
values-insert id r ((j, x) ∷ d) h = ground (arith, values-insert id r d)

keep-append :
    (p : SessionRow → Bool) (xs ys : List SessionRow) → keep p (xs ++ ys) ≡ keep p xs ++ keep p ys
keep-append p [] ys = refl
keep-append p (x ∷ xs) ys = ground (arith, keep-append p xs ys)

-- A count goes up by one at most where a row is added.
count-snoc :
    (p : SessionRow → Bool) (xs : List SessionRow) (r : SessionRow)
    → length (keep p (xs ++ r ∷ [])) ≤ length (keep p xs) + 1
count-snoc p xs r =
    rw (keep-append p xs (r ∷ []), length-append (keep p xs) (keep p (r ∷ []))) (at_most (p r))
  where
    at_most :
        (b : Bool) → length (keep p xs) + length (if b then r ∷ [] else []) ≤ length (keep p xs) + 1
    at_most true = omega arith
    at_most false = omega arith

-- The limits hold: 64 uploads of the server, 8 of the device, and 64 MiB of the disk beside all that
-- the uploads may still take.
pub record IsWithinLimits (d : UploadDevice) (now available : ℕ) (s : Uploads) : Type 0 where
  pub active : active_count now s ≤ 64
  pub owned : owned_count d now s ≤ 8
  pub space : reserved s + 67108864 ≤ available

insert_session-IsWithinLimits :
    (d : UploadDevice) (hash : String) (size now available : ℕ) (id : String) (s : Uploads)
    → active_count now s ≤ 63
    → owned_count d now s ≤ 7
    → needed_bytes size + reserved s ≤ available
    → Post (λ _. IsWithinLimits d now available) (λ _. Unit) (insert_session d hash size id now s)
insert_session-IsWithinLimits d hash size now available id s active owned space =
    elim (Bool-cases (is_some (find_identity d hash size s.sessions))) [
      | inl e ↦ rw e (record { active = omega arith; owned = omega arith; space = omega arith })
      | inr e ↦ elim (Option-cases (lookup id s.sessions)) [
        | inl f ↦ rw (e, f) (added f)
        | inr (x, f) ↦ rw (e, f) tt
      ]
    ]
  where
    new : SessionRow
    new = new_row d hash size id now

    added :
        lookup id s.sessions ≡ none
        → IsWithinLimits d now available (record s { sessions = insert id new s.sessions })
    added f =
        let grown = values-insert id new s.sessions f in
        record {
          active = rw grown (omega (arith, count-snoc (is_active now) (values s.sessions) new));
          owned = rw grown (
              omega
                (arith, count-snoc (λ r. belongs d r && is_active now r) (values s.sessions) new));
          space =
              rw grown (omega (arith, sum_by-append reserved_bytes (values s.sessions) (new ∷ [])));
        }

-- Where a new upload is let in, the server has at most 64 that are under way and the device 8, and
-- the free space covers what all of them may still take and 64 MiB more.
pub admit-IsWithinLimits :
    (d : UploadDevice) (hash : String) (size now available : ℕ) (id : String) (s t : Uploads)
    → admit d hash size now available id s ≡ (ok tt, t)
    → IsWithinLimits d now available t
unfolding admit
admit-IsWithinLimits d hash size now available id s t e =
    Post-ok (λ _. IsWithinLimits d now available) (admit d hash size now available id s) tt t
      (lift-next (λ _. IsWithinLimits d now available) (λ _. Unit)
        (guards (admit_checks d size now available s)) (λ _. insert_session d hash size id now) s tt
        λ _ allowed.
          let (many, (again, (space, nil))) =
            guards-All (admit_checks d size now available s) allowed in
          insert_session-IsWithinLimits d hash size now available id s (ground arith) (ground arith)
            (ground arith))
      e
