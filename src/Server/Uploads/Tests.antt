-- ===== src/Server/Uploads/Tests.antt =====
-- Runs of the uploads on small files, and the theorems at concrete inputs.
use gib_sync.Prelude.{
  ℕ, ◌+◌, ◌≤◌, ◌≡◌, refl, ap, subst, ◌++◌, String, Bool, true, false, Option, none, some, List, [],
  ◌∷◌, ◌==◌, nat_eq, length, if◌then◌else◌, keep, ltb, arith,
}
use gib_sync.Prelude.Dict.{lookup}
use gib_sync.Prelude.Result.{Result, ok, err}
use gib_sync.Prelude.Text.{Text, text}
use gib_sync.Server.Uploads.{
  Bytes, SessionRow, ReceiptRow, UploadDevice, Uploads, Failure, fail, receiving, complete,
  receipts_of, result, fresh_process, ContentUploadState, verifying,
}
use gib_sync.Server.Uploads.Staging.{verify, contents, path, recover}
use gib_sync.Server.Uploads.Leases.{exclusive, acquire}
use gib_sync.Server.Uploads.Intake.{Times, begin, chunk, admit}
use gib_sync.Server.Uploads.Finish.{Host, Attempt, seal, finish}
use gib_sync.Server.Uploads.Laws.{Chain}
use gib_sync.Server.Uploads.Invariant.{Filled}
use gib_sync.Server.Uploads.Recovered.{IsRecovered, recover-IsRecovered}
use gib_sync.Server.Uploads.Sealed.{IsSealed, seal-IsSealed}
use gib_sync.Server.Uploads.Refusals.{exclusive-refusal, IsWithinLimits, admit-IsWithinLimits}
use gib_sync.Server.Uploads.Serving.{
  empty_uploads, Reach, started, next, begun, received, restarted, reached_session,
}

abbrev short_hash : String
short_hash = "aaaaaaaaaaaaaaaaaaaaaaaaaaaaaaaaaaaaaaaaaaaaaaaaaaaaaaaaaaaaaaaa"

abbrev other_hash : String
other_hash = "bbbbbbbbbbbbbbbbbbbbbbbbbbbbbbbbbbbbbbbbbbbbbbbbbbbbbbbbbbbbbbbb"

-- A hash that tells three bytes from everything else, and a cipher that appends a tag.
abbrev hash_length : Bytes → String
hash_length bytes = if length bytes == 3 then short_hash else other_hash

abbrev tag : Bytes
tag = 0 ∷ 0 ∷ 0 ∷ 0 ∷ 0 ∷ 0 ∷ 0 ∷ 0 ∷ 0 ∷ 0 ∷ 0 ∷ 0 ∷ 0 ∷ 0 ∷ 0 ∷ 0 ∷ []

abbrev key : Bytes
key =
    7 ∷ 7 ∷ 7 ∷ 7 ∷ 7 ∷ 7 ∷ 7 ∷ 7 ∷ 7 ∷ 7 ∷ 7 ∷ 7 ∷ 7 ∷ 7 ∷ 7 ∷ 7 ∷ 7 ∷ 7 ∷ 7 ∷ 7 ∷ 7 ∷ 7 ∷ 7 ∷ 7
    ∷ 7 ∷ 7 ∷ 7 ∷ 7 ∷ 7 ∷ 7 ∷ 7 ∷ 7 ∷ []

append_tag : Bytes → Bytes
append_tag [] = tag
append_tag (b ∷ bytes) = b ∷ append_tag bytes

length-append_tag : (bytes : Bytes) → length (append_tag bytes) ≡ length bytes + 16
unfolding append_tag
length-append_tag [] = refl
length-append_tag (b ∷ bytes) = omega (arith, length-append_tag bytes)

abbrev test_host : Host
test_host = record {
  sha256 = hash_length;
  encrypt = λ k iv aad clear. append_tag clear;
  open_key = λ wrapped vault. ok key;
  put_file = λ vault hash file. ok tt;
}

abbrev device : UploadDevice
device = record { id = "laptop"; vault_id = "vault" }

abbrev upload_id : String
upload_id = "00000000-0000-0000-0000-000000000001"

abbrev early : Times
early = record { started = 10; checked = 11; accepted = 12 }

abbrev later : Times
later = record { started = 20; checked = 21; accepted = 22 }

abbrev three : Bytes
three = 5 ∷ 6 ∷ 7 ∷ []

abbrev fresh_row : SessionRow
fresh_row = record {
  id = upload_id;
  vault_id = "vault";
  device_id = "laptop";
  hash = short_hash;
  size = 3;
  offset = 0;
  state = receiving;
  created_at = 10;
  updated_at = 11;
  lease_owner = none;
  lease_until = none;
}

abbrev acknowledged : SessionRow
acknowledged = record fresh_row { offset = 3; updated_at = 22 }

abbrev clear_name : Text
clear_name = text "00000000-0000-0000-0000-000000000001.clear"

abbrev after_begin : Uploads
after_begin = record empty_uploads {
  sessions = (upload_id, fresh_row) ∷ [];
  receipts = (upload_id, []) ∷ [];
  files = (clear_name, []) ∷ [];
  verified = upload_id ∷ [];
}

abbrev receipt : ReceiptRow
receipt = record { chunk_index = 0; offset = 0; size = 3; hash = short_hash }

abbrev after_chunk : Uploads
after_chunk = record after_begin {
  sessions = (upload_id, acknowledged) ∷ [];
  receipts = (upload_id, receipt ∷ []) ∷ [];
  files = (clear_name, three) ∷ [];
}

begin_run :
    begin hash_length 1000 "server" device short_hash 3 100000000 upload_id early empty_uploads
    ≡ (ok (result fresh_row), after_begin)
unfolding chunk begin lookup gib_sync.Prelude.Dict.insert gib_sync.Server.Uploads.update
    gib_sync.Server.Uploads.Staging.is_id gib_sync.Prelude.Text.text_beq gib_sync.Prelude.Dict.erase
    gib_sync.Prelude.Result.guards gib_sync.Prelude.Text.starts_with
    gib_sync.Server.Uploads.Expiry.clean_all gib_sync.Server.Uploads.Expiry.clean_one
    gib_sync.Server.Uploads.Expiry.clean_row gib_sync.Server.Uploads.Expiry.cleanup_expired admit
    gib_sync.Server.Uploads.Intake.ensure_row gib_sync.Server.Uploads.Intake.enter
    gib_sync.Server.Uploads.Intake.is_hash gib_sync.Server.Uploads.Intake.recovered
    gib_sync.Server.Uploads.Intake.resume acquire exclusive path
    gib_sync.Server.Uploads.Staging.recheck gib_sync.Server.Uploads.Staging.recover verify
    gib_sync.Server.Uploads.Staging.zeros gib_sync.Server.Uploads.find_identity
begin_run = refl

chunk_run :
    chunk hash_length "server" device upload_id 0 three short_hash later after_begin
    ≡ (ok (upload_id, 3), after_chunk)
unfolding chunk lookup gib_sync.Prelude.Dict.insert gib_sync.Server.Uploads.update
    gib_sync.Server.Uploads.Staging.is_id gib_sync.Prelude.Text.text_beq
    gib_sync.Prelude.Result.guards gib_sync.Server.Uploads.Intake.accept_chunk
    gib_sync.Server.Uploads.Intake.append_chunk gib_sync.Server.Uploads.Intake.save_chunk
    gib_sync.Server.Uploads.Intake.place_chunk gib_sync.Server.Uploads.Intake.receive
    gib_sync.Server.Uploads.Intake.is_hash acquire exclusive path
    gib_sync.Server.Uploads.Staging.recheck gib_sync.Server.Uploads.Staging.recover verify
    gib_sync.Server.Uploads.Staging.zeros gib_sync.Server.Uploads.insert_receipt
chunk_run = refl

-- A chunk that is sent twice is acknowledged twice and stored once.
chunk_again :
    chunk hash_length "server" device upload_id 0 three short_hash later after_chunk
    ≡ (ok (upload_id, 3), after_chunk)
unfolding chunk lookup gib_sync.Prelude.Dict.insert gib_sync.Server.Uploads.update
    gib_sync.Server.Uploads.Staging.is_id gib_sync.Prelude.Text.text_beq
    gib_sync.Prelude.Result.guards gib_sync.Server.Uploads.Intake.accept_chunk
    gib_sync.Server.Uploads.Intake.append_chunk gib_sync.Server.Uploads.Intake.save_chunk
    gib_sync.Server.Uploads.Intake.place_chunk gib_sync.Server.Uploads.Intake.receive
    gib_sync.Server.Uploads.Intake.is_hash acquire exclusive path
    gib_sync.Server.Uploads.Staging.recheck gib_sync.Server.Uploads.Staging.recover verify
    gib_sync.Server.Uploads.Staging.zeros gib_sync.Server.Uploads.insert_receipt
chunk_again = refl

-- A chunk that is not the next one is refused, and what recovery did stays done.
chunk_early :
    (chunk hash_length "server" device upload_id 1 three short_hash later after_begin).0
    ≡ err (fail 409 "Content upload chunk is outside the declared file")
unfolding chunk lookup gib_sync.Prelude.Dict.insert gib_sync.Server.Uploads.update
    gib_sync.Server.Uploads.Staging.is_id gib_sync.Prelude.Text.text_beq
    gib_sync.Prelude.Result.guards gib_sync.Server.Uploads.Intake.accept_chunk
    gib_sync.Server.Uploads.Intake.append_chunk gib_sync.Server.Uploads.Intake.save_chunk
    gib_sync.Server.Uploads.Intake.place_chunk gib_sync.Server.Uploads.Intake.receive
    gib_sync.Server.Uploads.Intake.is_hash acquire exclusive path
    gib_sync.Server.Uploads.Staging.recheck gib_sync.Server.Uploads.Staging.recover verify
    gib_sync.Server.Uploads.Staging.zeros gib_sync.Server.Uploads.insert_receipt
chunk_early = refl

after_begin-Reach : Reach test_host 1000 after_begin
after_begin-Reach =
    subst (Reach test_host 1000) (ap (λ o. o.1) begin_run)
      (next started (begun "server" device short_hash 3 100000000 upload_id early))

after_chunk-Reach : Reach test_host 1000 after_chunk
after_chunk-Reach =
    subst (Reach test_host 1000) (ap (λ o. o.1) chunk_run)
      (next after_begin-Reach (received "server" device upload_id 0 three short_hash later))

-- A process that is started again, on a file that has lost its last byte.
abbrev damaged : Uploads
damaged = fresh_process ((clear_name, 5 ∷ 6 ∷ []) ∷ []) after_chunk

damaged-Reach : Reach test_host 1000 damaged
damaged-Reach = next after_chunk-Reach (restarted ((clear_name, 5 ∷ 6 ∷ []) ∷ []))

reached_session_example :
    (3 ≤ 3) × Chain 3 0 0 (receipts_of upload_id damaged) 3 × Filled receiving 3 3
unfolding lookup
reached_session_example = reached_session test_host 1000 upload_id acknowledged damaged-Reach refl

-- The same process on a file that has one byte more, which is cut off.
abbrev held_row : SessionRow
held_row = record acknowledged { lease_owner = some "server"; lease_until = some 30030 }

abbrev lengthened : Uploads
lengthened = record (fresh_process ((clear_name, 5 ∷ 6 ∷ 7 ∷ 8 ∷ []) ∷ []) after_chunk) {
  sessions = (upload_id, held_row) ∷ [];
}

recover-IsRecovered_example :
    (r' : SessionRow) × (t : Uploads) × (recover hash_length "server" 40 held_row lengthened
      ≡ (ok r', t))
    × (r'.id ≡ upload_id)
    × (r'.size ≡ 3)
    × IsRecovered hash_length clear_name r' t
unfolding lookup path gib_sync.Server.Uploads.Staging.is_id gib_sync.Prelude.Text.text_beq
recover-IsRecovered_example =
    recover-IsRecovered hash_length "server" 40 held_row held_row lengthened clear_name 3 refl refl
      refl refl refl (refl, refl, refl, omega arith, refl)

abbrev nonce : Bytes
nonce = 1 ∷ 2 ∷ 3 ∷ 4 ∷ 5 ∷ 6 ∷ 7 ∷ 8 ∷ 9 ∷ 10 ∷ 11 ∷ 12 ∷ []

abbrev attempt : Attempt
attempt = record {
  id = "00000000-0000-0000-0000-00000000000a";
  iv = nonce;
  signal = none;
  times = record { started = 30; checked = 31; accepted = 32 };
}

abbrev encrypted_name : Text
encrypted_name =
    text "00000000-0000-0000-0000-000000000001.00000000-0000-0000-0000-00000000000a.encrypted"

abbrev leased_row : SessionRow
leased_row = record acknowledged { lease_owner = some "server"; lease_until = some 30030 }

abbrev leased : Uploads
leased = record after_chunk { sessions = (upload_id, leased_row) ∷ [] }

abbrev encrypted : Bytes
encrypted = (1 ∷ nonce) ++ three ++ tag

abbrev after_seal : Uploads
after_seal = record leased { files = (clear_name, three) ∷ (encrypted_name, encrypted) ∷ [] }

seal_run :
    seal test_host "server" leased_row attempt key clear_name encrypted_name leased
    ≡ (ok encrypted, after_seal)
unfolding seal lookup gib_sync.Prelude.Dict.insert append_tag gib_sync.Prelude.Text.text_beq
seal_run = refl

seal-IsSealed_example :
    IsSealed test_host "server" leased_row attempt key (contents clear_name leased) encrypted
    × (length encrypted ≡ 3 + 29)
seal-IsSealed_example =
    seal-IsSealed test_host "server" leased_row attempt key clear_name encrypted_name leased
      after_seal encrypted (λ k iv aad clear. length-append_tag clear) refl seal_run

-- Another request, while the lease runs.
exclusive-refusal_example :
    exclusive "other" device upload_id 40 (finish test_host "other" device attempt) leased
    ≡ (err (fail 409 "This upload is being processed; retry shortly"), leased)
unfolding lookup
exclusive-refusal_example =
    exclusive-refusal "other" device upload_id 40 (finish test_host "other" device attempt) leased
      (fail 409 "This upload is being processed; retry shortly") refl

abbrev admitted : Uploads
admitted = record empty_uploads {
  sessions = (upload_id, record fresh_row { updated_at = 10 }) ∷ [];
}

admit-IsWithinLimits_example : IsWithinLimits device 10 100000000 admitted
unfolding admit lookup gib_sync.Prelude.Dict.insert gib_sync.Prelude.Result.guards
    gib_sync.Server.Uploads.find_identity
admit-IsWithinLimits_example =
    admit-IsWithinLimits device short_hash 3 10 100000000 upload_id empty_uploads admitted refl
