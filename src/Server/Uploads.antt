-- ===== src/Server/Uploads.antt =====
-- apps/server/src/content-upload.ts: `ContentUploads`, which receives a file in chunks. This module
-- has the rows of its tables (apps/server/src/db.ts), the state of the class and its queries.
-- A file name of the directory `incoming-uploads` is a text, its contents a list of bytes.
pub mod Leases
pub mod Staging
pub mod Expiry
pub mod Intake
pub mod Finish
pub mod Polling
pub mod Stored
pub mod Recovered
pub mod Sealed
pub mod Refusals
pub mod Laws
pub mod Invariant
pub mod Working
pub mod Receiving
pub mod Finishing
pub mod Beginning
pub mod Serving
pub mod Tests
use gib_sync.Prelude.{
  ℕ, ◌+◌, ◌*◌, ◌-◌, String, Bool, true, false, ◌&&◌, not, Option, none, some, List, [], ◌∷◌, ltb,
  leb, if◌then◌else◌, ◌==◌, nat_eq, string_eq, keep, length, sum_by, is_some,
}
use gib_sync.Prelude.Text.{Text}
use gib_sync.Prelude.Dict.{Dict, lookup, insert, values}
use gib_sync.Prelude.Result.{Result, ok, err}
use gib_sync.Prelude.State.{Act}

abbrev pub Bytes : Type 0
Bytes = List ℕ

abbrev pub chunk_bytes : ℕ
chunk_bytes = 262144

abbrev pub lease_ms : ℕ
lease_ms = 30000

abbrev pub session_max_age : ℕ
session_max_age = 604800000

pub record UploadDevice : Type 0 where
  pub id : String
  pub vault_id : String

pub data SessionState : Type 0 where
  receiving complete : SessionState

abbrev pub is_complete : SessionState → Bool
is_complete receiving = false
is_complete complete = true

-- A row of `content_uploads`.
pub record SessionRow : Type 0 where
  pub id : String
  pub vault_id : String
  pub device_id : String
  pub hash : String
  pub size : ℕ
  pub offset : ℕ
  pub state : SessionState
  pub created_at : ℕ
  pub updated_at : ℕ
  pub lease_owner : Option String
  pub lease_until : Option ℕ

-- A row of `content_upload_chunks`.
pub record ReceiptRow : Type 0 where
  pub chunk_index : ℕ
  pub offset : ℕ
  pub size : ℕ
  pub hash : String

-- A thrown `Error`, with the status that `fail` gives it.
pub record Failure : Type 0 where
  pub status : Option ℕ
  pub message : String

abbrev pub fail : ℕ → String → Failure
fail code message = record { status = some code; message = message }

-- An `Error` that carries no status.
abbrev pub plain : String → Failure
plain message = record { status = none; message = message }

pub data Stage : Type 0 where
  waiting verifying uploading checking : Stage

pub record Finalizer : Type 0 where
  pub id : String
  pub stage : Stage
  pub processed_bytes : ℕ
  pub cancelled : Bool

pub record Integrity : Type 0 where
  pub clear_size : ℕ
  pub cipher_size : ℕ

-- The tables, the staging directory, and the fields of the class. A table with a key of two
-- columns is a map of maps; the receipts of a session stand in the order of their index.
pub record Uploads : Type 0 where
  pub sessions : Dict String SessionRow
  pub receipts : Dict String (List ReceiptRow)
  pub blobs : Dict String (Dict String ℕ)
  pub integrity : Dict String (Dict String Integrity)
  pub wrapped_keys : Dict String String
  pub files : Dict Text Bytes
  pub stored : Dict String (Dict String Bytes)
  pub verified : List String
  pub finalizers : Dict String Finalizer
  pub failures : Dict String (String × Failure)
  pub closing : Bool

-- `new ContentUploads` in a process that starts: the tables are as they were, the directory has
-- whatever the disk has kept, and the fields of the class are fresh.
abbrev pub fresh_process : Dict Text Bytes → Uploads → Uploads
fresh_process files s = record s {
  files = files;
  verified = [];
  finalizers = [];
  failures = [];
  closing = false;
}

abbrev pub Upload : Type 0 → Type 0
Upload A = Act Uploads Failure A

pub record ContentUploadState : Type 0 where
  pub id : String
  pub hash : String
  pub size : ℕ
  pub offset : ℕ
  pub chunk : ℕ
  pub complete : Bool
  pub processing : Bool
  pub processing_id : Option String
  pub stage : Option Stage
  pub processed_bytes : ℕ

abbrev pub result : SessionRow → ContentUploadState
result r = record {
  id = r.id;
  hash = r.hash;
  size = r.size;
  offset = r.offset;
  chunk = chunk_bytes;
  complete = is_complete r.state;
  processing = false;
  processing_id = none;
  stage = none;
  processed_bytes = 0;
}

-- The rows of a session that the table has, none where it has no entry.
abbrev pub receipts_of : String → Uploads → List ReceiptRow
receipts_of id s = elim (lookup id s.receipts) [ none ↦ [] | some rows ↦ rows ]

-- The inner map of a table with two keys.
abbrev pub inner {ℓ} : {V : Type ℓ} → String → Dict String (Dict String V) → Dict String V
inner key table = elim (lookup key table) [ none ↦ [] | some entries ↦ entries ]

abbrev pub put {ℓ} :
    {V : Type ℓ} → String → String → V → Dict String (Dict String V) → Dict String (Dict String V)
put outer key value table = insert outer (insert key value (inner outer table)) table

abbrev pub belongs : UploadDevice → SessionRow → Bool
belongs d r = r.vault_id == d.vault_id && r.device_id == d.id

-- `WHERE vault_id=? AND device_id=? AND hash=? AND size=?`
unfoldable pub find_identity :
    UploadDevice → String → ℕ → Dict String SessionRow → Option SessionRow
find_identity d hash size [] = none
find_identity d hash size ((id, r) ∷ rest) =
    let others = find_identity d hash size rest in
    if belongs d r && r.hash == hash && r.size == size then some r else others

-- `state!='complete' AND updated_at>now-SESSION_MAX_AGE_MS`
abbrev pub is_active : ℕ → SessionRow → Bool
is_active now r = not (is_complete r.state) && ltb now (r.updated_at + session_max_age)

abbrev pub active_count : ℕ → Uploads → ℕ
active_count now s = length (keep (is_active now) (values s.sessions))

abbrev pub owned_count : UploadDevice → ℕ → Uploads → ℕ
owned_count d now s = length (keep (λ r. belongs d r && is_active now r) (values s.sessions))

-- What a session that is not complete may still take of the disk.
abbrev pub reserved_bytes : SessionRow → ℕ
reserved_bytes r = if is_complete r.state then 0 else r.size + (r.size - r.offset) + 29

abbrev pub reserved : Uploads → ℕ
reserved s = sum_by reserved_bytes (values s.sessions)

-- `INSERT INTO content_upload_chunks`, whose primary key is the session and the index
unfoldable pub insert_receipt : ReceiptRow → List ReceiptRow → Result Failure (List ReceiptRow)
insert_receipt new [] = ok (new ∷ [])
insert_receipt new (r ∷ rs) =
    let rest = insert_receipt new rs in
    if new.chunk_index == r.chunk_index
    then err (plain "UNIQUE constraint failed")
    else if ltb new.chunk_index r.chunk_index
    then ok (new ∷ r ∷ rs)
    else elim rest [ err e ↦ err e | ok later ↦ ok (r ∷ later) ]

-- `UPDATE content_uploads SET … WHERE id=?`, where the row also passes the test
unfoldable pub update : String → (SessionRow → Bool) → (SessionRow → SessionRow) → Uploads → Uploads
update id test change s = elim (lookup id s.sessions) [
  | none ↦ s
  | some r ↦ if test r then record s { sessions = insert id (change r) s.sessions } else s
]
