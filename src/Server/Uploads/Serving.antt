-- ===== src/Server/Uploads/Serving.antt =====
-- The uploads of a server from its first start on: every request, poll and background job is a step
-- (apps/server/src/content-upload.ts).
use gib_sync.Prelude.{
  ℕ, ◌≤◌, ◌≡◌, refl, sym, subst, String, false, none, some, List, [], nat_eq, string_eq, arith,
}
use gib_sync.Prelude.Dict.{Dict, lookup}
use gib_sync.Prelude.Text.{Text}
use gib_sync.Prelude.Result.{Result, ok, err}
use gib_sync.Prelude.State.{Post, ◌>>=◌, >>=-Triple}
use gib_sync.Server.Uploads.{
  SessionRow, Failure, Uploads, UploadDevice, Bytes, receipts_of, ReceiptRow, update, fresh_process,
}
use gib_sync.Server.Uploads.Leases.{renew, holds, acquire, take_lease}
use gib_sync.Server.Uploads.Staging.{recover}
use gib_sync.Server.Uploads.Expiry.{is_expired, delete_session}
use gib_sync.Server.Uploads.Intake.{Times, begin, chunk, receive, admit}
use gib_sync.Server.Uploads.Finish.{Host, Attempt, complete_upload, finish}
use gib_sync.Server.Uploads.Polling.{settled, run_finalizer, start_or_poll, cancel, close}
use gib_sync.Server.Uploads.Laws.{Chain, Chain-le}
use gib_sync.Server.Uploads.Invariant.{IsSound, SoundRow, Filled, update-IsSound}
use gib_sync.Server.Uploads.Receiving.{chunk-IsSound, receive-IsSound}
use gib_sync.Server.Uploads.Working.{Working, anyone, acquire-IsSound, recover-Working}
use gib_sync.Server.Uploads.Finishing.{complete_upload-IsSound, finish-IsSound}
use gib_sync.Server.Uploads.Beginning.{begin-IsSound, delete_session-IsSound, admit-IsSound}

abbrev pub empty_uploads : Uploads
empty_uploads = record {
  sessions = [];
  receipts = [];
  blobs = [];
  integrity = [];
  wrapped_keys = [];
  files = [];
  stored = [];
  verified = [];
  finalizers = [];
  failures = [];
  closing = false;
}

-- One thing that happens, by any device and in any process; a handler that throws is a step too. So
-- are the parts of a request that change a table on their own (`took` to `deleted`): a process may
-- stop after any of them, and the one that starts then (`restarted`) finds any files on the disk.
pub data Step (host : Host) (max_blob : ℕ) (s : Uploads) : Uploads → Type 0 where
  begun :
      (owner : String) (d : UploadDevice) (hash : String) (size available : ℕ) (id : String)
      (t : Times)
      → Step host max_blob s (begin host.sha256 max_blob owner d hash size available id t s).1
  received :
      (owner : String) (d : UploadDevice) (id : String) (index : ℕ) (bytes : Bytes)
      (expected : String) (t : Times)
      → Step host max_blob s (chunk host.sha256 owner d id index bytes expected t s).1
  polled :
      (d : UploadDevice) (id job : String) (now : ℕ)
      → Step host max_blob s (start_or_poll d id job now s).1
  finalized :
      (owner : String) (d : UploadDevice) (id job : String) (a : Attempt)
      → Step host max_blob s (run_finalizer host owner d id job a s)
  renewed : (owner id : String) (now : ℕ) → Step host max_blob s (renew owner id now s)
  cancelled : (d : UploadDevice) (id job : String) → Step host max_blob s (cancel d id job s).1
  closed : Step host max_blob s (close s)
  took : (owner id : String) (now : ℕ) → Step host max_blob s (acquire owner id now s).1
  rechecked :
      (owner : String) (now : ℕ) (r : SessionRow)
      → lookup r.id s.sessions ≡ some r
      → Step host max_blob s (recover host.sha256 owner now r s).1
  appended :
      (owner : String) (index : ℕ) (bytes : Bytes) (expected : String) (t : Times) (r : SessionRow)
      → lookup r.id s.sessions ≡ some r
      → Step host max_blob s (receive host.sha256 owner index bytes expected t r s).1
  completed :
      (owner : String) (d : UploadDevice) (a : Attempt) (r : SessionRow)
      → lookup r.id s.sessions ≡ some r
      → Step host max_blob s
          ((recover host.sha256 owner a.times.checked r >>= finish host owner d a) s).1
  admitted :
      (d : UploadDevice) (hash : String) (size now available : ℕ) (id : String)
      → Step host max_blob s (admit d hash size now available id s).1
  seized :
      (owner id : String) (now : ℕ)
      → Step host max_blob s (update id (is_expired now) (take_lease owner now) s)
  deleted :
      (owner : String) (now : ℕ) (r : SessionRow)
      → Step host max_blob s (delete_session owner now r s).1
  restarted : (files : Dict Text Bytes) → Step host max_blob s (fresh_process files s)

pub data Reach (host : Host) (max_blob : ℕ) : Uploads → Type 0 where
  started : Reach host max_blob empty_uploads
  next : {s t : Uploads} → Reach host max_blob s → Step host max_blob s t → Reach host max_blob t

Post-IsSound :
    {A : Type 0} (outcome : Result Failure A × Uploads)
    → Post (λ _. IsSound) IsSound outcome
    → IsSound outcome.1
Post-IsSound (ok value, s) h = h
Post-IsSound (err e, s) h = h

rows_at : String → Dict String (List ReceiptRow) → List ReceiptRow
rows_at id table = elim (lookup id table) [ none ↦ [] | some rows ↦ rows ]

-- Neither the sessions nor the receipts are touched.
untouched-IsSound :
    (s t : Uploads) → t.sessions ≡ s.sessions → t.receipts ≡ s.receipts → IsSound s → IsSound t
unfolding rows_at
untouched-IsSound s t a b h j =
    subst (λ p. SoundRow j (lookup j p) (receipts_of j t)) (sym a)
      (subst (λ q. SoundRow j (lookup j s.sessions) (rows_at j q)) (sym b) (h j))

settled-IsSound :
    {A : Type 0} (id job : String) (outcome : Result Failure A) (s : Uploads)
    → IsSound s
    → IsSound (settled id job (outcome, s))
settled-IsSound id job outcome s =
    untouched-IsSound s (settled id job (outcome, s)) (ground arith) (ground arith)

start_or_poll-IsSound :
    (d : UploadDevice) (id job : String) (now : ℕ) (s : Uploads)
    → IsSound s
    → IsSound (start_or_poll d id job now s).1
unfolding start_or_poll
start_or_poll-IsSound d id job now s =
    untouched-IsSound s (start_or_poll d id job now s).1 (ground arith) (ground arith)

cancel-IsSound :
    (d : UploadDevice) (id job : String) (s : Uploads) → IsSound s → IsSound (cancel d id job s).1
unfolding cancel
cancel-IsSound d id job s = untouched-IsSound s (cancel d id job s).1 (ground arith) (ground arith)

at_row :
    (r : SessionRow) (s : Uploads)
    → lookup r.id s.sessions ≡ some r
    → IsSound s
    → Working anyone r s
at_row r s e h = (h, (r, e, (refl, refl, refl, refl), refl))

weaken :
    (outcome : Result Failure SessionRow × Uploads)
    → Post (Working anyone) IsSound outcome
    → Post (λ _. IsSound) IsSound outcome
weaken (ok value, s) w = w.0
weaken (err e, s) h = h

Step-IsSound :
    (host : Host) (max_blob : ℕ) {s t : Uploads} → Step host max_blob s t → IsSound s → IsSound t
unfolding run_finalizer renew close
Step-IsSound host max_blob {s = s} (begun owner d hash size available id t) h =
    Post-IsSound (begin host.sha256 max_blob owner d hash size available id t s)
      (begin-IsSound host.sha256 max_blob owner d hash size available id t s h)
Step-IsSound host max_blob {s = s} (received owner d id index bytes expected t) h =
    Post-IsSound (chunk host.sha256 owner d id index bytes expected t s)
      (chunk-IsSound host.sha256 owner d id index bytes expected t s h)
Step-IsSound host max_blob {s = s} (polled d id job now) h = start_or_poll-IsSound d id job now s h
Step-IsSound host max_blob {s = s} (finalized owner d id job a) h =
    let done = complete_upload host owner d id a s in
    settled-IsSound id job done.0 done.1
      (Post-IsSound done (complete_upload-IsSound host owner d id a s h))
Step-IsSound host max_blob {s = s} (renewed owner id now) h =
    update-IsSound id (holds owner now) _ s (λ r. (refl, refl, refl, refl)) h
Step-IsSound host max_blob {s = s} (cancelled d id job) h = cancel-IsSound d id job s h
Step-IsSound host max_blob closed h = h
Step-IsSound host max_blob {s = s} (took owner id now) h =
    Post-IsSound (acquire owner id now s) (acquire-IsSound owner id now s h)
Step-IsSound host max_blob {s = s} (rechecked owner now r e) h =
    Post-IsSound (recover host.sha256 owner now r s)
      (weaken _ (recover-Working host.sha256 owner now r s (at_row r s e h)))
Step-IsSound host max_blob {s = s} (appended owner index bytes expected t r e) h =
    Post-IsSound (receive host.sha256 owner index bytes expected t r s)
      (receive-IsSound host.sha256 owner index bytes expected t r s (at_row r s e h))
Step-IsSound host max_blob {s = s} (completed owner d a r e) h =
    Post-IsSound ((recover host.sha256 owner a.times.checked r >>= finish host owner d a) s) (
      >>=-Triple (Working anyone r) (Working anyone) (λ _. IsSound) IsSound
        (recover host.sha256 owner a.times.checked r) (finish host owner d a)
        (recover-Working host.sha256 owner a.times.checked r) (finish-IsSound host owner d a) s
        (at_row r s e h))
Step-IsSound host max_blob {s = s} (admitted d hash size now available id) h =
    Post-IsSound (admit d hash size now available id s)
      (admit-IsSound d hash size now available id s h)
Step-IsSound host max_blob {s = s} (seized owner id now) h =
    update-IsSound id (is_expired now) (take_lease owner now) s (λ r. (refl, refl, refl, refl)) h
Step-IsSound host max_blob {s = s} (deleted owner now r) h =
    Post-IsSound (delete_session owner now r s) (delete_session-IsSound owner now r s h)
Step-IsSound host max_blob (restarted files) h = h

Reach-IsSound : (host : Host) (max_blob : ℕ) {s : Uploads} → Reach host max_blob s → IsSound s
unfolding lookup
Reach-IsSound host max_blob started = λ id. refl
Reach-IsSound host max_blob (next r step) =
    Step-IsSound host max_blob step (Reach-IsSound host max_blob r)

-- In every state that a server can reach, also when it stopped in the middle of a request and was
-- started again on whatever files the disk has kept, the receipts of a session acknowledge its file from the
-- start, in order and without a gap, up to the offset that is reported; the offset is within the
-- size, and a session that is complete has acknowledged all of it.
pub reached_session :
    (host : Host) (max_blob : ℕ) {s : Uploads} (id : String) (r : SessionRow)
    → Reach host max_blob s
    → lookup id s.sessions ≡ some r
    → (r.offset ≤ r.size)
      × Chain r.size 0 0 (receipts_of id s) r.offset
      × Filled r.state r.offset r.size
reached_session host max_blob {s = s} id r reach found =
    let (same, chain, filled) =
      subst (λ o. SoundRow id o (receipts_of id s)) found (Reach-IsSound host max_blob reach id) in
    (Chain-le r.size 0 0 (receipts_of id s) r.offset (omega arith) chain, chain, filled)
