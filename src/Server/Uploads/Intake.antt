-- ===== src/Server/Uploads/Intake.antt =====
-- apps/server/src/content-upload.ts: `begin` and `chunk`. `Date.now()`, the free
-- space that `statfs` reports, `randomUUID` and MAX_BLOB_BYTES are arguments.
use gib_sync.Prelude.{
  ℕ, ◌+◌, ◌*◌, ◌-◌, String, Bool, true, ◌&&◌, ◌||◌, not, Option, none, some, List, [], ◌∷◌, ◌++◌,
  leb, ltb, min, is_some, if◌then◌else◌, ◌==◌, nat_eq, string_eq, length, take, drop, keep,
  every_of,
}
use gib_sync.Prelude.Text.{Text, text}
use gib_sync.Prelude.Dict.{lookup, insert}
use gib_sync.Prelude.Result.{Result, ok, err, guards}
use gib_sync.Prelude.State.{◌>>=◌, ◌>>◌, pure, modify, lift, transaction}
use gib_sync.Server.Uploads.{
  UploadDevice, SessionRow, ReceiptRow, Failure, fail, plain, Bytes, Uploads, Upload, receiving,
  Finalizer, is_complete, chunk_bytes, receipts_of, update, result, find_identity, active_count,
  owned_count, reserved, insert_receipt, ContentUploadState,
}
use gib_sync.Server.Uploads.Expiry.{cleanup_expired}
use gib_sync.Server.Uploads.Leases.{assert_lease, owned_by, exclusive}
use gib_sync.Server.Uploads.Staging.{path, write_file, contents, recover}

-- When a request takes its lease, checks it after reading, and accepts what it did.
pub record Times : Type 0 where
  pub started : ℕ
  pub checked : ℕ
  pub accepted : ℕ

-- `[a-f0-9]`
abbrev pub hash_unit : ℕ → Bool
hash_unit u = leb 97 u && leb u 102 || leb 48 u && leb u 57

-- `/^[a-f0-9]{64}$/`
unfoldable pub is_hash : String → Bool
is_hash hash = length (text hash) == 64 && every_of hash_unit (text hash)

abbrev pub max_safe_integer : ℕ
max_safe_integer = 9007199254740991

abbrev pub is_safe : ℕ → Bool
is_safe n = leb n max_safe_integer

abbrev pub new_row : UploadDevice → String → ℕ → String → ℕ → SessionRow
new_row d hash size id now = record {
  id = id;
  vault_id = d.vault_id;
  device_id = d.id;
  hash = hash;
  size = size;
  offset = 0;
  state = receiving;
  created_at = now;
  updated_at = now;
  lease_owner = none;
  lease_until = none;
}

-- `ON CONFLICT(vault_id,device_id,hash,size) DO NOTHING`; an id that exists is refused.
abbrev pub insert_session : UploadDevice → String → ℕ → String → ℕ → Upload (Unit {0})
insert_session d hash size id now = λ s.
    if is_some (find_identity d hash size s.sessions)
    then (ok tt, s)
    else if is_some (lookup id s.sessions)
    then (err (plain "UNIQUE constraint failed: content_uploads.id"), s)
    else (ok tt, record s { sessions = insert id (new_row d hash size id now) s.sessions })

-- Twice the file, the frame of its encrypted copy, and 64 MiB that stay free.
abbrev pub needed_bytes : ℕ → ℕ
needed_bytes size = size * 2 + 29 + 67108864

abbrev pub too_many : UploadDevice → ℕ → Uploads → Bool
too_many d now s = leb 64 (active_count now s) || leb 8 (owned_count d now s)

-- The counts are taken before `statfs` and again in the transaction that inserts. Nothing is
-- written before the insertion, the last step of that transaction, so there is nothing to roll back.
abbrev pub admit_checks : UploadDevice → ℕ → ℕ → ℕ → Uploads → List (Bool × Failure)
admit_checks d size now available s =
    let many = fail 429 "Too many active content uploads; finish existing uploads first" in
    (too_many d now s, many)
    ∷ (too_many d now s, many)
    ∷ (
      ltb available (needed_bytes size + reserved s),
      fail 507 "Not enough private staging space to safely receive this file",
    )
    ∷ []

unfoldable pub admit : UploadDevice → String → ℕ → ℕ → ℕ → String → Upload (Unit {0})
unfolding find_identity guards
admit d hash size now available id = λ s.
    (lift (guards (admit_checks d size now available s)) >> insert_session d hash size id now) s

abbrev session_row : Option SessionRow → Result Failure SessionRow
session_row none = err (plain "Cannot read properties of undefined")
session_row (some r) = ok r

module _ (sha256 : Bytes → String) (max_blob : ℕ) (owner : String) where
  unfoldable pub recovered : Times → SessionRow → Upload ContentUploadState
  unfolding recover
  recovered t current = recover sha256 owner t.checked current >>= λ r. pure (result r)

  -- An upload whose finalizer runs is only reported.
  unfoldable pub resume :
      UploadDevice → Times → SessionRow → Option Finalizer → Upload ContentUploadState
  unfolding exclusive recovered
  resume d t r none = exclusive owner d r.id t.started (recovered t)
  resume d t r (some job) = pure (record (result r) {
    processing = true;
    processing_id = some job.id;
    stage = some job.stage;
    processed_bytes = job.processed_bytes;
  })

  unfoldable pub ensure_row :
      UploadDevice → String → ℕ → ℕ → ℕ → String → Option SessionRow → Upload SessionRow
  unfolding admit find_identity
  ensure_row d hash size now available id (some r) = pure r
  ensure_row d hash size now available id none = admit d hash size now available id >> λ t.
      (session_row (find_identity d hash size t.sessions), t)

  abbrev pub begin_checks : String → ℕ → Uploads → List (Bool × Failure)
  begin_checks hash size s =
      (s.closing, fail 503 "The server is restarting; retry safely")
      ∷ (
        not (is_hash hash) || not (is_safe size) || ltb max_blob size,
        fail 422 "Invalid content hash or byte size",
      )
      ∷ []

  -- What follows the clean-up.
  unfoldable pub enter :
      UploadDevice → String → ℕ → (available : ℕ) (id : String) → Times → Upload ContentUploadState
  unfolding ensure_row resume find_identity
  enter d hash size available id t = λ s.
      (ensure_row d hash size t.started available id (find_identity d hash size s.sessions)
          >>= λ r u. resume d t r (lookup r.id u.finalizers) u)
        s

  unfoldable pub begin :
      UploadDevice → String → ℕ → (available : ℕ) (id : String) → Times → Upload ContentUploadState
  unfolding enter cleanup_expired is_hash guards
  begin d hash size available id t = λ s.
      (lift (guards (begin_checks hash size s))
          >> (cleanup_expired owner t.started >> enter d hash size available id t))
        s

-- A chunk that was acknowledged already must be the same one.
abbrev pub replayed : SessionRow → ℕ → Bytes → String → Upload (String × ℕ)
replayed r index bytes expected = λ s. (
  elim (keep (λ x. x.chunk_index == index) (receipts_of r.id s)) [
    | [] ↦ err (fail 409 "A different chunk was already acknowledged")
    | receipt ∷ more ↦
        if receipt.hash == expected && receipt.size == length bytes
        then ok (r.id, r.offset)
        else err (fail 409 "A different chunk was already acknowledged")
  ],
  s,
)

abbrev pub overwrite : ℕ → Bytes → Bytes → Bytes
overwrite offset bytes file = take offset file ++ bytes ++ drop (offset + length bytes) file

abbrev pub record_receipt : String → ReceiptRow → Upload (Unit {0})
record_receipt id receipt = λ s. elim (insert_receipt receipt (receipts_of id s)) [
  | err e ↦ (err e, s)
  | ok rows ↦ (ok tt, record s { receipts = insert id rows s.receipts })
]

abbrev pub advance : ℕ → ℕ → SessionRow → SessionRow
advance offset now r = record r { offset = offset; updated_at = now }

abbrev pub order_checks : ℕ → SessionRow → List (Bool × Failure)
order_checks index r =
    (
      is_complete r.state || not (index * chunk_bytes == r.offset),
      fail 409 "Content upload chunks must arrive in order",
    )
    ∷ []

abbrev pub extent_checks : ℕ → Bytes → SessionRow → List (Bool × Failure)
extent_checks index bytes r =
    (
      not (is_safe (index * chunk_bytes)) || leb r.size (index * chunk_bytes),
      fail 409 "Content upload chunk is outside the declared file",
    )
    ∷ (
      not (length bytes == min chunk_bytes (r.size - index * chunk_bytes)),
      fail 422 "Content upload chunk has an invalid byte size",
    )
    ∷ []

module _ (owner : String) where
  -- The bytes are on the disk before their receipt is in the table.
  unfoldable pub save_chunk : SessionRow → ℕ → Bytes → String → ℕ → Text → Upload (String × ℕ)
  unfolding insert_receipt
  save_chunk r index bytes expected now name =
      let offset = index * chunk_bytes in
      modify (λ s. write_file name (overwrite offset bytes (contents name s)) s)
      >> assert_lease owner r.id now
      >> transaction (
          record_receipt r.id
            (record { chunk_index = index; offset = offset; size = length bytes; hash = expected })
          >> modify (update r.id (owned_by owner) (advance (offset + length bytes) now)))
      >> pure (r.id, offset + length bytes)

  unfoldable pub append_chunk : SessionRow → ℕ → Bytes → String → ℕ → Upload (String × ℕ)
  unfolding path save_chunk
  append_chunk r index bytes expected now =
      lift (path r.id) >>= save_chunk r index bytes expected now

  -- A chunk of the right size is either one that was acknowledged, or the next one.
  unfoldable pub place_chunk : ℕ → Bytes → String → ℕ → SessionRow → Upload (String × ℕ)
  unfolding append_chunk guards
  place_chunk index bytes expected now r =
      if ltb (index * chunk_bytes) r.offset
      then replayed r index bytes expected
      else lift (guards (order_checks index r)) >> append_chunk r index bytes expected now

  unfoldable pub accept_chunk : ℕ → Bytes → String → ℕ → SessionRow → Upload (String × ℕ)
  unfolding place_chunk guards
  accept_chunk index bytes expected now r =
      lift (guards (extent_checks index bytes r)) >> place_chunk index bytes expected now r

module _ (sha256 : Bytes → String) (owner : String) where
  abbrev pub chunk_checks : ℕ → Bytes → String → Uploads → List (Bool × Failure)
  chunk_checks index bytes expected s =
      (s.closing, fail 503 "The server is restarting; retry safely")
      ∷ (
        not (is_safe index)
            || not (is_hash expected)
            || ltb chunk_bytes (length bytes)
            || length bytes == 0,
        fail 422 "Invalid content upload chunk",
      )
      ∷ (not (sha256 bytes == expected), fail 422 "Content upload chunk failed its integrity check")
      ∷ []

  unfoldable pub receive : ℕ → Bytes → String → Times → SessionRow → Upload (String × ℕ)
  unfolding recover accept_chunk
  receive index bytes expected t initial =
      recover sha256 owner t.checked initial >>= accept_chunk owner index bytes expected t.accepted

  unfoldable pub chunk : UploadDevice → String → ℕ → Bytes → String → Times → Upload (String × ℕ)
  unfolding exclusive receive is_hash guards
  chunk d id index bytes expected t = λ s.
      (lift (guards (chunk_checks index bytes expected s))
          >> exclusive owner d id t.started (receive index bytes expected t))
        s
