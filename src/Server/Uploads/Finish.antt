-- ===== src/Server/Uploads/Finish.antt =====
-- apps/server/src/content-upload.ts: `complete`. AES-GCM, SHA-256,
-- the opening of a wrapped key and the storage are parameters. The digest and the cipher take the
-- file in pieces; they are given what was read as a whole, which is the same by their contract.
use gib_sync.Prelude.{
  ℕ, zero, suc, ◌+◌, String, Bool, false, ◌||◌, not, Option, none, some, List, [], ◌∷◌, ◌++◌, ltb,
  is_some, if◌then◌else◌, ◌==◌, nat_eq, string_eq, length, take, drop,
}
use gib_sync.Prelude.Text.{Text, text_eq}
use gib_sync.Prelude.Dict.{lookup}
use gib_sync.Prelude.Result.{Result, ok, err, guards}
use gib_sync.Prelude.State.{◌>>=◌, ◌>>◌, pure, modify, lift, transaction, finally, on_throw}
use gib_sync.Server.Uploads.{
  UploadDevice, SessionRow, Failure, fail, plain, Bytes, Uploads, Upload, Integrity, complete,
  is_complete, update, result, inner, put, ContentUploadState,
}
use gib_sync.Server.Uploads.Leases.{assert_lease, owned_by, exclusive}
use gib_sync.Server.Uploads.Staging.{path, encrypted_path, contents, write_file, forget, recover}
use gib_sync.Server.Uploads.Intake.{Times}
use gib_sync.Server.Uploads.Expiry.{remove_file}

abbrev pub io_bytes : ℕ
io_bytes = 65536

-- What a read stream delivers, on fuel: each piece but the last takes `io_bytes`.
unfoldable pub pieces : ℕ → Bytes → List Bytes
pieces zero file = []
pieces (suc fuel) [] = []
pieces (suc fuel) (b ∷ rest) = take io_bytes (b ∷ rest) ∷ pieces fuel (drop io_bytes (b ∷ rest))

-- `checkSignal`: the signal is given by its reason, none before it is aborted.
abbrev pub check_signal : Option Failure → Result Failure (Unit {0})
check_signal none = ok tt
check_signal (some reason) = err reason

-- What differs from one completion to the next.
pub record Attempt : Type 0 where
  pub id : String
  pub iv : Bytes
  pub signal : Option Failure
  pub times : Times

-- The environment of the class: its hash, its cipher, and the storage of the vault, which may fail.
pub record Host : Type 0 where
  pub sha256 : Bytes → String
  pub encrypt : (key iv : Bytes) (aad : String) (clear : Bytes) → Bytes
  pub open_key : (wrapped vault : String) → Result Failure Bytes
  pub put_file : (vault hash : String) (file : Bytes) → Result Failure (Unit {0})

module _ (host : Host) (owner : String) where
  abbrev pub length_checks : SessionRow → Bytes → List (Bool × Failure)
  length_checks r received =
      (ltb r.size (length received), fail 422 "Content upload exceeded its acknowledged size") ∷ []

  -- The loop over the stream, which adds up what was read.
  unfoldable pub hash_stream : SessionRow → Attempt → Bytes → List Bytes → Upload Bytes
  unfolding guards
  hash_stream r a received [] = pure received
  hash_stream r a received (piece ∷ rest) =
      let next = hash_stream r a (received ++ piece) rest in
      lift (check_signal a.signal)
      >> (assert_lease owner r.id a.times.checked
          >> (lift (guards (length_checks r (received ++ piece))) >> next))

  abbrev pub version_and_iv : Bytes → Bytes
  version_and_iv iv = 1 ∷ iv

  abbrev pub digest_checks : SessionRow → Bytes → List (Bool × Failure)
  digest_checks r received =
      (
        not (length received == r.size) || not (host.sha256 received == r.hash),
        fail 422 "Complete content upload failed its integrity check",
      )
      ∷ []

  abbrev pub encrypted_file : SessionRow → Attempt → Bytes → Bytes → Bytes
  encrypted_file r a key clear = version_and_iv a.iv ++ host.encrypt key a.iv r.hash clear

  unfoldable pub encrypt_received : SessionRow → Attempt → Bytes → Text → Bytes → Upload Bytes
  unfolding guards
  encrypt_received r a key name received = lift (guards (digest_checks r received)) >> λ s.
      (ok (encrypted_file r a key received), write_file name (encrypted_file r a key received) s)

  -- The encrypted copy is written beside the clear file, and removed where anything fails.
  unfoldable pub seal : SessionRow → Attempt → Bytes → Text → Text → Upload Bytes
  unfolding hash_stream pieces encrypt_received
  seal r a key clear_name name = λ s.
      let clear = contents clear_name s in
      on_throw (hash_stream r a [] (pieces (length clear) clear) >>= encrypt_received r a key name)
        (λ t. remove_file name (forget r.id t)) (write_file name (version_and_iv a.iv) s)

  abbrev pub contradicts : SessionRow → Option Integrity → Bool
  contradicts r none = false
  contradicts r (some known) = not (known.clear_size == r.size)

  -- `INSERT OR IGNORE INTO blobs`
  abbrev pub add_blob : String → SessionRow → Uploads → Uploads
  add_blob vault r s =
      if is_some (lookup r.hash (inner vault s.blobs))
      then s
      else record s { blobs = put vault r.hash (r.size + 29) s.blobs }

  -- A row that is there keeps its clear size.
  abbrev pub merged_integrity : SessionRow → Option Integrity → Integrity
  merged_integrity r none = record { clear_size = r.size; cipher_size = r.size + 29 }
  merged_integrity r (some known) = record known { cipher_size = r.size + 29 }

  abbrev pub integrity_checks : String → SessionRow → Uploads → List (Bool × Failure)
  integrity_checks vault r s =
      (
        contradicts r (lookup r.hash (inner vault s.integrity)),
        fail 409 "Verified content size contradicts its immutable hash",
      )
      ∷ []

  abbrev pub add_integrity : String → SessionRow → Uploads → Uploads
  add_integrity vault r s =
      let known = lookup r.hash (inner vault s.integrity) in
      record s { integrity = put vault r.hash (merged_integrity r known) s.integrity }

  abbrev pub mark_complete : ℕ → SessionRow → SessionRow
  mark_complete now r = record r { state = complete; updated_at = now }

  unfoldable pub register : String → SessionRow → ℕ → Upload (Unit {0})
  unfolding guards
  register vault r now = transaction (
      modify (add_blob vault r) >> λ s.
      (lift (guards (integrity_checks vault r s))
          >> modify
              (λ t. update r.id (owned_by owner) (mark_complete now) (add_integrity vault r t)))
        s)

  -- The storage may fail; a file that it has taken stays there.
  abbrev pub put_file : String → SessionRow → Bytes → Upload (Unit {0})
  put_file vault r file =
      lift (host.put_file vault r.hash file)
      >> modify (λ s. record s { stored = put vault r.hash file s.stored })

  abbrev pub discard_clear : SessionRow → Text → Uploads → Uploads
  discard_clear r clear_name s = forget r.id (remove_file clear_name s)

  -- The signal and the lease are checked before the storage takes the file and after it.
  unfoldable pub store_blob : String → SessionRow → Attempt → Bytes → Text → Upload (Unit {0})
  unfolding register
  store_blob vault r a file clear_name =
      lift (check_signal a.signal)
      >> (assert_lease owner r.id a.times.checked
          >> (put_file vault r file
              >> (lift (check_signal a.signal)
                  >> (assert_lease owner r.id a.times.accepted
                      >> (register vault r a.times.accepted
                          >> modify (discard_clear r clear_name))))))

  abbrev pub checked_key : Result Failure Bytes → Result Failure Bytes
  checked_key (err e) = err e
  checked_key (ok key) =
      if length key == 32 then ok key else err (plain "Vault encryption key is invalid")

  abbrev pub vault_key : String → Uploads → Result Failure Bytes
  vault_key vault s = elim (lookup vault s.wrapped_keys) [
    | none ↦ err (fail 404 "Vault not found")
    | some wrapped ↦ checked_key (host.open_key wrapped vault)
  ]

  -- `O_EXCL`: an attempt never writes over another's file.
  abbrev pub output_checks : Text → Uploads → List (Bool × Failure)
  output_checks name s = (is_some (lookup name s.files), plain "EEXIST") ∷ []

  -- The encrypted copy goes in any case.
  unfoldable pub upload_sealed :
      String → SessionRow → Attempt → Text → Text → Bytes → Upload ContentUploadState
  unfolding store_blob
  upload_sealed vault r a clear_name name file =
      finally (store_blob vault r a file clear_name) (remove_file name)
      >> pure (result (record r { state = complete }))

  unfoldable pub publish :
      String → SessionRow → Attempt → Bytes → Text → Text → Upload ContentUploadState
  unfolding seal upload_sealed guards
  publish vault r a key clear_name name = λ s.
      (lift (guards (output_checks name s))
          >> (seal r a key clear_name name >>= upload_sealed vault r a clear_name name))
        s

  abbrev pub whole_checks : SessionRow → List (Bool × Failure)
  whole_checks r = (not (r.offset == r.size), fail 409 "Content upload is not complete") ∷ []

  -- The key of the vault and the names of the two files, each of which may be refused.
  unfoldable pub open_files : UploadDevice → Attempt → SessionRow → Upload ContentUploadState
  unfolding publish path encrypted_path
  open_files d a r = λ s.
      (lift (vault_key d.vault_id s) >>= λ key. lift (path r.id) >>= λ clear_name.
      lift (encrypted_path r.id a.id) >>= publish d.vault_id r a key clear_name)
        s

  unfoldable pub finish : UploadDevice → Attempt → SessionRow → Upload ContentUploadState
  unfolding open_files guards
  finish d a r =
      if is_complete r.state
      then pure (result r)
      else lift (guards (whole_checks r))
        >> (lift (check_signal a.signal)
            >> (assert_lease owner r.id a.times.checked >> open_files d a r))

  unfoldable pub complete_upload : UploadDevice → String → Attempt → Upload ContentUploadState
  unfolding exclusive recover finish
  complete_upload d id a =
      exclusive owner d id a.times.started
        λ initial. recover host.sha256 owner a.times.checked initial >>= finish d a
