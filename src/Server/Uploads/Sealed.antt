-- ===== src/Server/Uploads/Sealed.antt =====
-- What `complete` encrypts and registers (apps/server/src/content-upload.ts).
use gib_sync.Prelude.{
  ℕ, zero, suc, ◌+◌, ◌≤◌, ◌≡◌, refl, sym, ap, ◌∙◌, subst, String, List, [], ◌∷◌, ◌++◌, length,
  length-append, length-drop, take, drop, arith, eq_iff, nat_eq, string_eq,
}
use gib_sync.Prelude.Text.{Text}
use gib_sync.Prelude.Result.{Result, ok, err, guards, guards-All}
use gib_sync.Prelude.State.{◌>>◌, Post, lift, lift-next, continue-Post, Post-on_throw, Post-ok}
use gib_sync.Server.Uploads.{SessionRow, Failure, Uploads, Bytes}
use gib_sync.Server.Uploads.Leases.{assert_lease}
use gib_sync.Server.Uploads.Staging.{contents, write_file, forget}
use gib_sync.Server.Uploads.Expiry.{remove_file}
use gib_sync.Server.Uploads.Finish.{
  Host, Attempt, io_bytes, pieces, check_signal, hash_stream, length_checks, digest_checks,
  encrypt_received, seal, version_and_iv,
}
use mathlib.Core.List.{append_assoc, append-nil}

abbrev joined : List Bytes → Bytes
joined [] = []
joined (piece ∷ rest) = piece ++ joined rest

take-drop : (n : ℕ) (xs : Bytes) → take n xs ++ drop n xs ≡ xs
take-drop zero xs = refl
take-drop (suc n) [] = refl
take-drop (suc n) (x ∷ xs) = ap (λ r. x ∷ r) (take-drop n xs)

-- As many pieces as there are bytes are enough.
joined-pieces : (fuel : ℕ) (file : Bytes) → length file ≤ fuel → joined (pieces fuel file) ≡ file
unfolding pieces
joined-pieces zero [] h = refl
joined-pieces zero (b ∷ rest) h = absurd (omega arith)
joined-pieces (suc fuel) [] h = refl
joined-pieces (suc fuel) (b ∷ rest) h =
    ap (λ r. take io_bytes (b ∷ rest) ++ r)
      (joined-pieces fuel (drop io_bytes (b ∷ rest))
        (omega (arith, length-drop io_bytes (b ∷ rest))))
    ∙ take-drop io_bytes (b ∷ rest)

anything :
    {A : Type 0} (outcome : Result Failure A × Uploads)
    → Post (λ _ _. Unit {0}) (λ _. Unit {0}) outcome
anything (ok value, s) = tt
anything (err e, s) = tt

module _ (host : Host) (owner : String) (r : SessionRow) (a : Attempt) where
  hash_stream-joined :
      (received : Bytes) (rest : List Bytes) (s : Uploads)
      → Post
          (λ all _. all ≡ received ++ joined rest)
          (λ _. Unit {0})
          (hash_stream host owner r a received rest s)
  unfolding hash_stream
  hash_stream-joined received [] s = sym (append-nil received)
  hash_stream-joined received (piece ∷ rest) s =
      let Q : Bytes → Uploads → Type 0 = λ all _. all ≡ received ++ (piece ++ joined rest) in
      let next = hash_stream host owner r a (received ++ piece) rest in
      let checked = lift (guards (length_checks host owner r (received ++ piece))) >> next in
      lift-next Q (λ _. Unit {0}) (check_signal a.signal)
        (λ _. assert_lease owner r.id a.times.checked >> checked) s tt
        λ _ _.
          continue-Post (λ _ _. Unit {0}) Q (λ _. Unit {0}) (λ _. checked)
            (assert_lease owner r.id a.times.checked s)
            (anything (assert_lease owner r.id a.times.checked s))
            λ _ t _.
              lift-next Q (λ _. Unit {0}) (guards (length_checks host owner r (received ++ piece)))
                (λ _. next) t tt
                λ _ _.
                  subst (λ q. Post (λ all _. all ≡ q) (λ _. Unit {0}) (next t))
                    (append_assoc received piece (joined rest))
                    (hash_stream-joined (received ++ piece) rest t)

  -- The bytes have the declared size and hash, and the file is their encryption behind its frame.
  abbrev pub IsSealed : (key clear file : Bytes) → Type 0
  IsSealed key clear file =
      (length clear ≡ r.size)
      × (host.sha256 clear ≡ r.hash)
      × (file ≡ 1 ∷ a.iv ++ host.encrypt key a.iv r.hash clear)

  encrypt_received-IsSealed :
      (key received : Bytes) (name : Text) (s : Uploads)
      → Post
          (λ file _. IsSealed key received file)
          (λ _. Unit {0})
          (encrypt_received host owner r a key name received s)
  unfolding encrypt_received
  encrypt_received-IsSealed key received name s =
      lift-next (λ file _. IsSealed key received file) (λ _. Unit {0})
        (guards (digest_checks host owner r received)) _ s tt
        λ _ allowed.
          let (same, nil) = guards-All (digest_checks host owner r received) allowed in
          (ground arith, ground (arith, eq_iff (host.sha256 received) r.hash), refl)

  seal-Post :
      (key : Bytes) (clear_name name : Text) (s : Uploads)
      → Post
          (λ file _. IsSealed key (contents clear_name s) file)
          (λ _. Unit {0})
          (seal host owner r a key clear_name name s)
  unfolding seal
  seal-Post key clear_name name s =
      let clear = contents clear_name s in
      let Q : Bytes → Uploads → Type 0 = λ file _. IsSealed key clear file in
      let opened = write_file name (version_and_iv host owner a.iv) s in
      let streamed = hash_stream host owner r a [] (pieces (length clear) clear) in
      Post-on_throw Q (λ _. Unit {0}) (λ t. remove_file name (forget r.id t)) _
        (continue-Post (λ all _. all ≡ joined (pieces (length clear) clear)) Q (λ _. Unit {0})
          (encrypt_received host owner r a key name) (streamed opened)
          (hash_stream-joined [] (pieces (length clear) clear) opened)
          (λ all t e.
            subst
              (λ q.
                Post (λ file _. IsSealed key q file) (λ _. Unit {0})
                  (encrypt_received host owner r a key name all t))
              (e ∙ joined-pieces (length clear) clear (omega arith))
              (encrypt_received-IsSealed key all name t)))
        (λ t h. h)

-- An upload is only encrypted and passed on where the staging file, read in pieces, has the declared
-- size and the declared hash; the encrypted file is the frame and the encryption of exactly these
-- bytes. Where the cipher adds a tag of 16 bytes and the nonce has 12, it has the 29 bytes more that
-- are registered as its size.
pub seal-IsSealed :
    (host : Host) (owner : String) (r : SessionRow) (a : Attempt) (key : Bytes)
    (clear_name name : Text) (s t : Uploads) (file : Bytes)
    → ((k iv : Bytes) (aad : String) (clear : Bytes)
        → length (host.encrypt k iv aad clear) ≡ length clear + 16)
    → length a.iv ≡ 12
    → seal host owner r a key clear_name name s ≡ (ok file, t)
    → IsSealed host owner r a key (contents clear_name s) file × (length file ≡ r.size + 29)
seal-IsSealed host owner r a key clear_name name s t file tag nonce e =
    let clear = contents clear_name s in
    let sealed =
      Post-ok (λ f _. IsSealed host owner r a key clear f)
        (seal host owner r a key clear_name name s) file t
        (seal-Post host owner r a key clear_name name s) e in
    (
      sealed,
      rw (sealed.2) (
          omega (
            arith,
            length-append a.iv (host.encrypt key a.iv r.hash clear),
            tag key a.iv r.hash clear,
            sealed.0,
          )),
    )
