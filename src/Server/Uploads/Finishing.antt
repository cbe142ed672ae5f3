-- ===== src/Server/Uploads/Finishing.antt =====
-- `complete` of apps/server/src/content-upload.ts keeps the receipts in order, and calls complete
-- only what has all of its bytes.
use gib_sync.Prelude.{
  ℕ, is_some, ◌≡◌, refl, subst, String, Bool, true, Option, some, List, [], ◌∷◌, ◌++◌, length,
  nat_eq, string_eq, option_eq, Bool-cases, inl, inr, arith,
}
use gib_sync.Prelude.Dict.{lookup}
use gib_sync.Prelude.Result.{guards, guards-All}
use gib_sync.Prelude.State.{
  ◌>>=◌, ◌>>◌, Triple, >>=-Triple, commit-Post, Post-finally, finally, modify, lift, lift-next,
  Post-on_throw,
}
use gib_sync.Prelude.Text.{Text}
use gib_sync.Server.Uploads.{
  SessionRow, is_complete, ReceiptRow, Uploads, Upload, Bytes, UploadDevice, update, receipts_of,
  Failure, inner,
}
use gib_sync.Server.Uploads.Leases.{assert_lease, owned_by}
use gib_sync.Server.Uploads.Staging.{path, encrypted_path, recover, contents, forget}
use gib_sync.Server.Uploads.Working.{
  Working, anyone, assert_lease-Working, exclusive-IsSound, recover-Working, update-at,
  update-other,
}
use gib_sync.Server.Uploads.Invariant.{IsSound, SoundRow, Agrees, receipts-update, point-IsSound}
use gib_sync.Server.Uploads.Finish.{
  Host, Attempt, check_signal, hash_stream, length_checks, encrypt_received, digest_checks, seal,
  register, integrity_checks, mark_complete, add_blob, add_integrity, put_file, discard_clear,
  store_blob, upload_sealed, publish, output_checks, vault_key, whole_checks, open_files, finish,
  complete_upload, pieces,
}
use gib_sync.Server.Uploads.Expiry.{remove_file}

still :
    (owned : SessionRow → Bool) (r : SessionRow) (s : Uploads)
    → Working owned r s
    → Working anyone r s
still owned r s (h, (x, e, a, o)) = (h, (x, e, a, refl))

-- A change of a session that leaves its receipts.
change-IsSound :
    (id : String) (test : SessionRow → Bool) (change : SessionRow → SessionRow) (s : Uploads)
    (x : SessionRow)
    → lookup id s.sessions ≡ some x
    → test x ≡ true
    → SoundRow id (some (change x)) (receipts_of id s)
    → IsSound s
    → IsSound (update id test change s)
change-IsSound id test change s x e b new h =
    point-IsSound id s (update id test change s)
      (rw (update-at id test change s x e b, receipts-update id test change s) new)
      (λ j d. (update-other j id test change s d, rw (receipts-update id test change s) refl)) h

module _ (host : Host) (owner : String) where
  hash_stream-Working :
      (r : SessionRow) (a : Attempt) (received : Bytes) (rest : List Bytes)
      → Triple
          (Working anyone r)
          (hash_stream host owner r a received rest)
          (λ _. Working anyone r)
          IsSound
  unfolding hash_stream
  hash_stream-Working r a received [] s w = w
  hash_stream-Working r a received (piece ∷ rest) s w =
      let next = hash_stream host owner r a (received ++ piece) rest in
      let checked = lift (guards (length_checks host owner r (received ++ piece))) >> next in
      lift-next (λ _. Working anyone r) IsSound (check_signal a.signal)
        (λ _. assert_lease owner r.id a.times.checked >> checked) s w.0
        λ _ _.
          >>=-Triple (Working anyone r) (λ _. Working (owned_by owner) r) (λ _. Working anyone r)
            IsSound (assert_lease owner r.id a.times.checked) (λ _. checked)
            (assert_lease-Working owner r a.times.checked)
            (λ _ t v.
              lift-next (λ _. Working anyone r) IsSound
                (guards (length_checks host owner r (received ++ piece))) (λ _. next) t v.0
                λ _ _.
                  hash_stream-Working r a (received ++ piece) rest t (still (owned_by owner) r t v))
            s w

  encrypt_received-Working :
      (r : SessionRow) (a : Attempt) (key : Bytes) (name : Text) (received : Bytes)
      → Triple
          (Working anyone r)
          (encrypt_received host owner r a key name received)
          (λ _. Working anyone r)
          IsSound
  unfolding encrypt_received
  encrypt_received-Working r a key name received s w =
      lift-next (λ _. Working anyone r) IsSound (guards (digest_checks host owner r received)) _ s
        w.0 λ _ _. w

  seal-Working :
      (r : SessionRow) (a : Attempt) (key : Bytes) (clear_name name : Text)
      → Triple
          (Working anyone r)
          (seal host owner r a key clear_name name)
          (λ _. Working anyone r)
          IsSound
  unfolding seal
  seal-Working r a key clear_name name s w =
      let clear = contents clear_name s in
      Post-on_throw (λ _. Working anyone r) IsSound (λ t. remove_file name (forget r.id t)) _
        (>>=-Triple (Working anyone r) (λ _. Working anyone r) (λ _. Working anyone r) IsSound
          (hash_stream host owner r a [] (pieces (length clear) clear))
          (encrypt_received host owner r a key name)
          (hash_stream-Working r a [] (pieces (length clear) clear))
          (encrypt_received-Working r a key name) _ w)
        (λ t h. h)

  add_blob-Working :
      (owned : SessionRow → Bool) (vault : String) (r : SessionRow) (s : Uploads)
      → Working owned r s
      → Working owned r (add_blob host owner vault r s)
  add_blob-Working owned vault r s w =
      elim (Bool-cases (is_some (lookup r.hash (inner vault s.blobs)))) [
        | inl e ↦ rw e w
        | inr e ↦ rw e w
      ]

  complete-SoundRow :
      (id : String) (r x : SessionRow) (now : ℕ) (rows : List ReceiptRow)
      → r.offset ≡ r.size
      → Agrees r x
      → SoundRow id (some x) rows
      → SoundRow id (some (mark_complete host owner now x)) rows
  complete-SoundRow id r x now rows whole (i, n, o, t) (same, chain, filled) = (same, chain, cc)

  register-IsSound :
      (vault : String) (r : SessionRow) (now : ℕ)
      → r.offset ≡ r.size
      → Triple (Working (owned_by owner) r) (register host owner vault r now) (λ _. IsSound) IsSound
  unfolding register
  register-IsSound vault r now whole s w =
      let u = add_blob host owner vault r s in
      let (h, (x, e, a, o)) = add_blob-Working (owned_by owner) vault r s w in
      commit-Post (λ _. IsSound) IsSound s _ w.0
        (lift-next (λ _. IsSound) (λ _. Unit) (guards (integrity_checks host owner vault r u))
          (λ _. modify (λ t.
            update r.id (owned_by owner) (mark_complete host owner now)
              (add_integrity host owner vault r t)))
          u tt
          λ _ _.
            change-IsSound r.id (owned_by owner) (mark_complete host owner now)
              (add_integrity host owner vault r u) x e o
              (complete-SoundRow r.id r x now (receipts_of r.id u) whole a
                (subst (λ o. SoundRow r.id o (receipts_of r.id u)) e (h r.id)))
              h)

  -- After the signal and the lease are checked once more.
  after_check :
      {A : Type 0} (r : SessionRow) (signal : Option Failure) (now : ℕ) (Q : A → Uploads → Type 0)
      (next : Upload A)
      → Triple (Working (owned_by owner) r) next Q IsSound
      → Triple
          (Working anyone r)
          (lift (check_signal signal) >> (assert_lease owner r.id now >> next))
          Q
          IsSound
  after_check r signal now Q next rest s w =
      lift-next Q IsSound (check_signal signal) (λ _. assert_lease owner r.id now >> next) s w.0
        λ _ _.
          >>=-Triple (Working anyone r) (λ _. Working (owned_by owner) r) Q IsSound
            (assert_lease owner r.id now) (λ _. next) (assert_lease-Working owner r now) (λ _. rest)
            s w

  store_blob-IsSound :
      (vault : String) (r : SessionRow) (a : Attempt) (file : Bytes) (clear_name : Text)
      → r.offset ≡ r.size
      → Triple
          (Working anyone r)
          (store_blob host owner vault r a file clear_name)
          (λ _. IsSound)
          IsSound
  unfolding store_blob
  store_blob-IsSound vault r a file clear_name whole =
      after_check r a.signal a.times.checked (λ _. IsSound)
        (put_file host owner vault r file >> after_put) put
    where
      registered : Upload (Unit {0})
      registered =
          register host owner vault r a.times.accepted
          >> modify (discard_clear host owner r clear_name)

      after_put : Upload (Unit {0})
      after_put =
          lift (check_signal a.signal) >> (assert_lease owner r.id a.times.accepted >> registered)

      registered-IsSound : Triple (Working (owned_by owner) r) registered (λ _. IsSound) IsSound
      registered-IsSound =
          >>=-Triple (Working (owned_by owner) r) (λ _. IsSound) (λ _. IsSound) IsSound
            (register host owner vault r a.times.accepted)
            (λ _. modify (discard_clear host owner r clear_name))
            (register-IsSound vault r a.times.accepted whole) (λ _ s h. h)

      put :
          Triple
            (Working (owned_by owner) r)
            (put_file host owner vault r file >> after_put)
            (λ _. IsSound)
            IsSound
      put s w =
          >>=-Triple (Working (owned_by owner) r) (λ _. Working (owned_by owner) r) (λ _. IsSound)
            IsSound (put_file host owner vault r file) (λ _. after_put)
            (λ t v.
              lift-next (λ _. Working (owned_by owner) r) IsSound (host.put_file vault r.hash file)
                _ t v.0 λ _ _. v)
            (λ _ t v.
              after_check r a.signal a.times.accepted (λ _. IsSound) registered registered-IsSound t
                (still (owned_by owner) r t v))
            s w

  upload_sealed-IsSound :
      (vault : String) (r : SessionRow) (a : Attempt) (clear_name name : Text) (file : Bytes)
      → r.offset ≡ r.size
      → Triple
          (Working anyone r)
          (upload_sealed host owner vault r a clear_name name file)
          (λ _. IsSound)
          IsSound
  unfolding upload_sealed
  upload_sealed-IsSound vault r a clear_name name file whole =
      >>=-Triple (Working anyone r) (λ _. IsSound) (λ _. IsSound) IsSound
        (finally (store_blob host owner vault r a file clear_name) (remove_file name)) _
        (λ s w.
          Post-finally (λ _. IsSound) (λ _. IsSound) IsSound IsSound (remove_file name) _
            (store_blob-IsSound vault r a file clear_name whole s w) (λ v t h. h) (λ t h. h))
        (λ _ s h. h)

  publish-IsSound :
      (vault : String) (r : SessionRow) (a : Attempt) (key : Bytes) (clear_name name : Text)
      → r.offset ≡ r.size
      → Triple
          (Working anyone r)
          (publish host owner vault r a key clear_name name)
          (λ _. IsSound)
          IsSound
  unfolding publish
  publish-IsSound vault r a key clear_name name whole s w =
      lift-next (λ _. IsSound) IsSound (guards (output_checks host owner name s))
        (λ _.
          seal host owner r a key clear_name name
          >>= upload_sealed host owner vault r a clear_name name)
        s w.0
        λ _ _.
          >>=-Triple (Working anyone r) (λ _. Working anyone r) (λ _. IsSound) IsSound
            (seal host owner r a key clear_name name)
            (upload_sealed host owner vault r a clear_name name)
            (seal-Working r a key clear_name name)
            (λ file. upload_sealed-IsSound vault r a clear_name name file whole) s w

  open_files-IsSound :
      (d : UploadDevice) (a : Attempt) (r : SessionRow)
      → r.offset ≡ r.size
      → Triple (Working (owned_by owner) r) (open_files host owner d a r) (λ _. IsSound) IsSound
  unfolding open_files
  open_files-IsSound d a r whole s w =
      lift-next (λ _. IsSound) IsSound (vault_key host owner d.vault_id s)
        (λ key. lift (path r.id) >>= λ clear_name.
          lift (encrypted_path r.id a.id) >>= publish host owner d.vault_id r a key clear_name)
        s w.0
        λ key _.
          lift-next (λ _. IsSound) IsSound (path r.id)
            (λ clear_name.
              lift (encrypted_path r.id a.id) >>= publish host owner d.vault_id r a key clear_name)
            s w.0
            λ clear_name _.
              lift-next (λ _. IsSound) IsSound (encrypted_path r.id a.id)
                (publish host owner d.vault_id r a key clear_name) s w.0
                λ name _.
                  publish-IsSound d.vault_id r a key clear_name name whole s
                    (still (owned_by owner) r s w)

  pub finish-IsSound :
      (d : UploadDevice) (a : Attempt) (r : SessionRow)
      → Triple (Working anyone r) (finish host owner d a r) (λ _. IsSound) IsSound
  unfolding finish
  finish-IsSound d a r s w = elim (Bool-cases (is_complete r.state)) [
    | inl e ↦ rw e w.0
    | inr e ↦ rw e (
        lift-next (λ _. IsSound) IsSound (guards (whole_checks host owner r))
          (λ _.
            lift (check_signal a.signal)
            >> (assert_lease owner r.id a.times.checked >> open_files host owner d a r))
          s w.0
          λ _ allowed.
            let (whole, nil) = guards-All (whole_checks host owner r) allowed in
            after_check r a.signal a.times.checked (λ _. IsSound) (open_files host owner d a r)
              (open_files-IsSound d a r (ground arith)) s w)
  ]

  pub complete_upload-IsSound :
      (d : UploadDevice) (id : String) (a : Attempt)
      → Triple IsSound (complete_upload host owner d id a) (λ _. IsSound) IsSound
  unfolding complete_upload
  complete_upload-IsSound d id a = exclusive-IsSound owner d id a.times.started _ λ r.
      >>=-Triple (Working anyone r) (Working anyone) (λ _. IsSound) IsSound
        (recover host.sha256 owner a.times.checked r) (finish host owner d a)
        (recover-Working host.sha256 owner a.times.checked r) (finish-IsSound d a)
