-- ===== src/Server/Uploads/Staging.antt =====
-- apps/server/src/content-upload.ts: the staging files and the check of what was acknowledged
-- (`path`, `encryptedPath`, `recover`). SHA-256 is a parameter. Closing a file and making the
-- directory change nothing that is modelled; a path always names a regular file.
use gib_sync.Prelude.{
  ℕ, zero, suc, ◌+◌, ◌-◌, String, Bool, ◌&&◌, ◌||◌, not, none, some, List, [], ◌∷◌, ◌++◌, leb, ltb,
  min, if◌then◌else◌, ◌==◌, nat_eq, string_eq, length, take, drop, keep, every_of, contains,
}
use gib_sync.Prelude.Text.{Text, text, text_eq}
use gib_sync.Prelude.Dict.{lookup, insert}
use gib_sync.Prelude.Result.{Result, ok, err}
use gib_sync.Prelude.State.{◌>>=◌, ◌>>◌, pure, modify, lift, transaction}
use gib_sync.Server.Uploads.{
  SessionRow, ReceiptRow, Failure, fail, Bytes, Uploads, Upload, receiving, is_complete,
  chunk_bytes, receipts_of, update,
}
use gib_sync.Server.Uploads.Leases.{assert_lease, owned_by}

-- `[a-f0-9-]`
abbrev pub id_unit : ℕ → Bool
id_unit u = leb 97 u && leb u 102 || leb 48 u && leb u 57 || u == 45

-- `/^[a-f0-9-]{36}$/`
unfoldable pub is_id : Text → Bool
is_id id = length id == 36 && every_of id_unit id

-- The name of the clear staging file of a session.
unfoldable pub path : String → Result Failure Text
path id =
    if is_id (text id)
    then ok (text id ++ text ".clear")
    else err (fail 400 "Invalid upload session")

unfoldable pub encrypted_path : String → String → Result Failure Text
encrypted_path id attempt =
    if not (is_id (text id))
    then err (fail 400 "Invalid upload session")
    else if is_id (text attempt)
    then ok (text id ++ text "." ++ text attempt ++ text ".encrypted")
    else err (fail 400 "Invalid upload attempt")

-- `O_CREAT`: a file that is not there is empty.
abbrev pub contents : Text → Uploads → Bytes
contents name s = elim (lookup name s.files) [ none ↦ [] | some bytes ↦ bytes ]

abbrev pub write_file : Text → Bytes → Uploads → Uploads
write_file name bytes s = record s { files = insert name bytes s.files }

unfoldable pub zeros : ℕ → Bytes
zeros zero = []
zeros (suc n) = 0 ∷ zeros n

-- `ftruncate`, which also lengthens a file, with zeros
abbrev pub truncate : ℕ → Bytes → Bytes
truncate n bytes = take n bytes ++ zeros (n - length bytes)

abbrev pub forget : String → Uploads → Uploads
forget id s = record s { verified = keep (λ v. not (v == id)) s.verified }

abbrev pub remember : String → Uploads → Uploads
remember id s = record (forget id s) { verified = id ∷ keep (λ v. not (v == id)) s.verified }

-- `DELETE FROM content_upload_chunks WHERE session_id=? AND chunk_index>=?`
abbrev pub drop_receipts : String → ℕ → Uploads → Uploads
drop_receipts id index s = record s {
  receipts = insert id (keep (λ r. ltb r.chunk_index index) (receipts_of id s)) s.receipts;
}

abbrev pub restart : ℕ → ℕ → SessionRow → SessionRow
restart offset now r = record r { offset = offset; state = receiving; updated_at = now }

-- Bytes that no receipt acknowledges are cut off.
abbrev pub trim_file : Text → Bytes → SessionRow → Upload SessionRow
trim_file name bytes r =
    λ s. (ok r, if length bytes == r.offset then s else write_file name (truncate r.offset bytes) s)

module _ (sha256 : Bytes → String) where
  -- The receipt is the next one, and the file has the bytes that it acknowledges.
  abbrev pub confirms : ℕ → Bytes → ℕ → ℕ → ReceiptRow → Bool
  confirms size bytes offset index r =
      r.chunk_index == index
      && r.offset == offset
      && r.size == min chunk_bytes (size - offset)
      && leb (offset + r.size) (length bytes)
      && sha256 (take r.size (drop offset bytes)) == r.hash

  -- The loop over the receipts: how far the file is acknowledged, and by how many of them.
  unfoldable pub verify : ℕ → Bytes → ℕ → ℕ → List ReceiptRow → ℕ × ℕ
  verify size bytes offset index [] = (offset, index)
  verify size bytes offset index (r ∷ rs) =
      let next = verify size bytes (offset + r.size) (suc index) rs in
      if confirms size bytes offset index r then next else (offset, index)

  -- The checks of the receipts and the transaction that keeps those that hold.
  unfoldable pub recheck : String → ℕ → SessionRow → Bytes → Upload SessionRow
  unfolding verify
  recheck owner now r bytes = λ s.
      let (offset, index) = verify r.size bytes 0 0 (receipts_of r.id s) in
      (assert_lease owner r.id now
          >> transaction (
              modify (drop_receipts r.id index)
              >> modify (update r.id (owned_by owner) (restart offset now)))
          >> modify (remember r.id)
          >> pure (record r { offset = offset; state = receiving }))
        s

  unfoldable pub recover : String → ℕ → SessionRow → Upload SessionRow
  unfolding recheck path
  recover owner now r =
      if is_complete r.state
      then pure r
      else lift (path r.id) >>= λ name s.
          let bytes = contents name s in
          (modify (write_file name bytes)
              >> (if not (contains s.verified r.id) || ltb (length bytes) r.offset
                  then recheck owner now r bytes
                  else pure r)
              >>= trim_file name bytes)
            s
