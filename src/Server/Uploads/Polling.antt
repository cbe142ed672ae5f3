-- ===== src/Server/Uploads/Polling.antt =====
-- apps/server/src/content-upload.ts: the job that completes an upload in the background
-- (`startOrPoll`, `cancel`, `close`).
use gib_sync.Prelude.{
  ℕ, String, Bool, true, false, ◌||◌, not, Option, none, some, [], ◌∷◌, ltb, if◌then◌else◌, ◌==◌,
  nat_eq, string_eq, map,
}
use gib_sync.Prelude.Text.{text_eq}
use gib_sync.Prelude.Dict.{Dict, lookup, insert, erase}
use gib_sync.Prelude.Result.{Result, ok, err}
use gib_sync.Prelude.State.{◌>>=◌, ◌>>◌, refuse}
use gib_sync.Server.Uploads.{
  UploadDevice, SessionRow, Failure, fail, Uploads, Upload, Stage, waiting, verifying, Finalizer,
  is_complete, result, ContentUploadState,
}
use gib_sync.Server.Uploads.Leases.{row}
use gib_sync.Server.Uploads.Finish.{Host, Attempt, complete_upload}

abbrev pub set_failure : String → String → Failure → Uploads → Uploads
set_failure id job failure s = record s { failures = insert id (job, failure) s.failures }

-- `catch` and `finally` of the job: its error is kept for the next poll unless it was cancelled.
abbrev pub settled : {A : Type 0} → String → String → Result Failure A × Uploads → Uploads
settled id job (outcome, s) = elim (lookup id s.finalizers) [
  | none ↦ s
  | some f ↦
      let kept : Uploads = elim outcome [
        | ok value ↦ s
        | err failure ↦ if f.cancelled then s else set_failure id job failure s
      ] in
      if f.id == job then record kept { finalizers = erase id kept.finalizers } else kept
]

-- The job that `startOrPoll` leaves running.
unfoldable pub run_finalizer :
    Host → String → UploadDevice → String → String → Attempt → Uploads → Uploads
unfolding complete_upload
run_finalizer host owner d id job a s = settled id job (complete_upload host owner d id a s)

-- A session that waits, or whose job is under way.
abbrev pub processing : SessionRow → Option String → Stage → ℕ → ContentUploadState
processing r job stage bytes = record (result r) {
  processing = true;
  processing_id = job;
  stage = some stage;
  processed_bytes = bytes;
}

abbrev pub lease_runs : ℕ → SessionRow → Bool
lease_runs now r = elim r.lease_until [ none ↦ false | some until ↦ ltb now until ]

abbrev pub has_jobs : Dict String Finalizer → Bool
has_jobs [] = false
has_jobs (job ∷ jobs) = true

abbrev pub start_job : SessionRow → String → ℕ → Upload ContentUploadState
start_job r job now = λ s.
    if not (r.offset == r.size)
    then (err (fail 409 "Content upload is not complete"), s)
    else if has_jobs s.finalizers || lease_runs now r
    then (ok (processing r none waiting 0), s)
    else (
      ok (processing r (some job) verifying 0),
      record s {
        finalizers =
            insert r.id
              (record { id = job; stage = verifying; processed_bytes = 0; cancelled = false })
              s.finalizers;
      },
    )

unfoldable pub start_or_poll :
    UploadDevice → String → (job : String) (now : ℕ) → Upload ContentUploadState
start_or_poll d id job now =
    (λ s. refuse s.closing (fail 503 "The server is restarting; retry safely") s)
    >> row d id
    >>= λ r s. if is_complete r.state then (ok (result r), s) else elim (lookup id s.finalizers) [
      | some f ↦ (ok (processing r (some f.id) f.stage f.processed_bytes), s)
      | none ↦ elim (lookup id s.failures) [
        | some failure ↦ (err failure.1, record s { failures = erase id s.failures })
        | none ↦ start_job r job now s
      ]
    ]

abbrev pub stop : Finalizer → Finalizer
stop f = record f { cancelled = true }

abbrev pub drop_failure : String → String → Uploads → Uploads
drop_failure id job s = elim (lookup id s.failures) [
  | none ↦ s
  | some failure ↦ if failure.0 == job then record s { failures = erase id s.failures } else s
]

unfoldable pub cancel : UploadDevice → String → (job : String) → Upload (String × Bool)
cancel d id job = row d id >>= λ _ s. elim (lookup id s.finalizers) [
  | none ↦ (ok (id, false), s)
  | some f ↦
      if f.id == job
      then (
        ok (id, true),
        drop_failure id job (record s { finalizers = insert id (stop f) s.finalizers }),
      )
      else (ok (id, false), s)
]

-- Every job is told to stop; the server then waits for each to settle.
unfoldable pub close : Uploads → Uploads
close s = record s {
  finalizers = map (λ (entry : String × Finalizer). (entry.0, stop entry.1)) s.finalizers;
  closing = true;
}
