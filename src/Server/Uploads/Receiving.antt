-- ===== src/Server/Uploads/Receiving.antt =====
-- `chunk` of apps/server/src/content-upload.ts keeps the receipts in order.
use gib_sync.Prelude.{
  ℕ, ◌+◌, ◌*◌, ◌-◌, ◌<◌, min, ◌≡◌, refl, subst, String, false, some, List, [], ◌∷◌, ◌++◌, length,
  nat_eq, string_eq, option_eq, Bool-cases, inl, inr, arith, ltb,
}
use gib_sync.Prelude.Dict.{insert}
use gib_sync.Prelude.Result.{Result, ok, err, guards, guards-All}
use gib_sync.Prelude.State.{
  Post, continue, commit, Triple, >>=-Triple, continue-Post, modify, pure, lift-next,
}
use gib_sync.Prelude.Text.{Text}
use gib_sync.Server.Uploads.{
  SessionRow, SessionState, receiving, complete, is_complete, ReceiptRow, Uploads, Bytes,
  UploadDevice, receipts_of, chunk_bytes, Failure, insert_receipt,
}
use gib_sync.Server.Uploads.Leases.{owned_by, holds, exclusive}
use gib_sync.Server.Uploads.Staging.{path, recover, contents, write_file}
use gib_sync.Server.Uploads.Laws.{Chain-full, Chain-snoc, insert_receipt-last}
use gib_sync.Server.Uploads.Working.{
  Working, anyone, lift-Post, exclusive-IsSound, recover-Working, replace-IsSound,
}
use gib_sync.Server.Uploads.Intake.{
  Times, append_chunk, accept_chunk, place_chunk, receive, chunk_checks, order_checks,
  extent_checks, save_chunk, chunk, replayed, record_receipt, overwrite, advance,
}
use gib_sync.Server.Uploads.Invariant.{IsSound, SoundRow, Filled}

record_receipt-ok :
    (id : String) (new : ReceiptRow) (rows : List ReceiptRow) (t : Uploads)
    → insert_receipt new (receipts_of id t) ≡ ok rows
    → record_receipt id new t ≡ (ok tt, record t { receipts = insert id rows t.receipts })
record_receipt-ok id new rows t e = rw (record_receipt, e) refl

committed-IsSound :
    {A : Type 0} (value : A) (change : Uploads → Uploads) (before t : Uploads)
    (recorded : Result Failure (Unit {0}) × Uploads)
    → recorded ≡ (ok tt, t)
    → IsSound (change t)
    → Post
        (λ _. IsSound)
        IsSound
        (continue (λ _. pure value) (commit before (continue (λ _. modify change) recorded)))
committed-IsSound value change before t recorded e h = rw e h

Filled-receiving : (state : SessionState) (m n : ℕ) → is_complete state ≡ false → Filled state m n
Filled-receiving receiving m n e = tt
Filled-receiving complete m n e = cc

-- The next chunk goes behind the receipts, and the row moves on to its end.
advance-SoundRow :
    (id : String) (x : SessionRow) (rows : List ReceiptRow) (new : ReceiptRow) (now end : ℕ)
    → SoundRow id (some x) rows
    → is_complete x.state ≡ false
    → new.chunk_index * chunk_bytes ≡ x.offset
    → new.offset ≡ x.offset
    → new.size ≡ min chunk_bytes (x.size - x.offset)
    → x.offset < x.size
    → end ≡ x.offset + new.size
    → (insert_receipt new rows ≡ ok (rows ++ new ∷ []))
      × SoundRow id (some (advance end now x)) (rows ++ new ∷ [])
advance-SoundRow id x rows new now end (same, chain, filled) unfinished at start long inside e =
    let full = Chain-full x.size 0 0 rows x.offset chain inside in
    (
      insert_receipt-last x.size 0 0 rows x.offset new chain (omega arith),
      (
        same,
        rw e (Chain-snoc x.size 0 0 rows x.offset new chain (omega arith) start long (omega arith)),
        Filled-receiving x.state end x.size unfinished,
      ),
    )

module _ (owner : String) where
  save_chunk-IsSound :
      (r : SessionRow) (index : ℕ) (bytes : Bytes) (expected : String) (now : ℕ) (name : Text)
      → index * chunk_bytes ≡ r.offset
      → r.offset < r.size
      → length bytes ≡ min chunk_bytes (r.size - r.offset)
      → is_complete r.state ≡ false
      → Triple
          (Working anyone r)
          (save_chunk owner r index bytes expected now name)
          (λ _. IsSound)
          IsSound
  unfolding save_chunk
  save_chunk-IsSound r index bytes expected now name at inside long unfinished t (h, (x, e, a, o)) =
      let u = write_file name (overwrite (index * chunk_bytes) bytes (contents name t)) t in
      let end = index * chunk_bytes + length bytes in
      let new : ReceiptRow = record {
        chunk_index = index;
        offset = index * chunk_bytes;
        size = length bytes;
        hash = expected;
      } in
      let sound = subst (λ o. SoundRow r.id o (receipts_of r.id t)) e (h r.id) in
      let both =
        advance-SoundRow r.id x (receipts_of r.id t) new now end sound (rw (a.3) unfinished)
          (rw (a.2) at) (rw (a.2) at) (rw (a.1, a.2) long) (rw (a.1, a.2) inside)
          (rw (a.2) (omega arith)) in
      elim (Bool-cases (holds owner now x)) [
        | inl b ↦
            rw (e, b)
              (committed-IsSound _ _ u _ _ (record_receipt-ok r.id new _ u both.0) (
                replace-IsSound r.id (owned_by owner) (advance end now) u x _ e (ground arith)
                  both.1 h))
        | inr b ↦ rw (e, b) h
      ]

  append_chunk-IsSound :
      (r : SessionRow) (index : ℕ) (bytes : Bytes) (expected : String) (now : ℕ)
      → index * chunk_bytes ≡ r.offset
      → r.offset < r.size
      → length bytes ≡ min chunk_bytes (r.size - r.offset)
      → is_complete r.state ≡ false
      → Triple
          (Working anyone r)
          (append_chunk owner r index bytes expected now)
          (λ _. IsSound)
          IsSound
  unfolding append_chunk
  append_chunk-IsSound r index bytes expected now at inside long unfinished s w =
      continue-Post (λ _. Working anyone r) (λ _. IsSound) IsSound _ (path r.id, s)
        (lift-Post r (path r.id) s w)
        λ name. save_chunk-IsSound r index bytes expected now name at inside long unfinished

  replayed-IsSound :
      (r : SessionRow) (index : ℕ) (bytes : Bytes) (expected : String) (s : Uploads)
      → IsSound s
      → Post (λ _. IsSound) IsSound (replayed r index bytes expected s)
  replayed-IsSound r index bytes expected s h = keeps (replayed r index bytes expected s).0
    where
      keeps : (result : Result Failure (String × ℕ)) → Post (λ _. IsSound) IsSound (result, s)
      keeps (ok value) = h
      keeps (err e) = h

  place_chunk-IsSound :
      (index : ℕ) (bytes : Bytes) (expected : String) (now : ℕ) (r : SessionRow)
      → index * chunk_bytes < r.size
      → length bytes ≡ min chunk_bytes (r.size - index * chunk_bytes)
      → Triple
          (Working anyone r)
          (place_chunk owner index bytes expected now r)
          (λ _. IsSound)
          IsSound
  unfolding place_chunk
  place_chunk-IsSound index bytes expected now r inside long s w =
      elim (Bool-cases (ltb (index * chunk_bytes) r.offset)) [
        | inl e ↦ rw e (replayed-IsSound r index bytes expected s w.0)
        | inr e ↦ rw e (
            lift-next (λ _. IsSound) IsSound (guards (order_checks index r))
              (λ _. append_chunk owner r index bytes expected now) s w.0
              λ _ allowed.
                let (order, nil) = guards-All (order_checks index r) allowed in
                let place : index * chunk_bytes ≡ r.offset = ground arith in
                append_chunk-IsSound r index bytes expected now place (rw⁻¹ place inside)
                  (rw⁻¹ place long) (ground arith) s w)
      ]

  accept_chunk-IsSound :
      (index : ℕ) (bytes : Bytes) (expected : String) (now : ℕ) (r : SessionRow)
      → Triple
          (Working anyone r)
          (accept_chunk owner index bytes expected now r)
          (λ _. IsSound)
          IsSound
  unfolding accept_chunk
  accept_chunk-IsSound index bytes expected now r s w =
      lift-next (λ _. IsSound) IsSound (guards (extent_checks index bytes r))
        (λ _. place_chunk owner index bytes expected now r) s w.0
        λ _ allowed.
          let (inside, (long, nil)) = guards-All (extent_checks index bytes r) allowed in
          place_chunk-IsSound index bytes expected now r (ground arith) (ground arith) s w

pub receive-IsSound :
    (sha256 : Bytes → String) (owner : String) (index : ℕ) (bytes : Bytes) (expected : String)
    (t : Times) (r : SessionRow)
    → Triple
        (Working anyone r)
        (receive sha256 owner index bytes expected t r)
        (λ _. IsSound)
        IsSound
unfolding receive
receive-IsSound sha256 owner index bytes expected t r =
    >>=-Triple (Working anyone r) (Working anyone) (λ _. IsSound) IsSound
      (recover sha256 owner t.checked r) (accept_chunk owner index bytes expected t.accepted)
      (recover-Working sha256 owner t.checked r)
      (accept_chunk-IsSound owner index bytes expected t.accepted)

-- `chunk` keeps the receipts in order, whatever it is given and wherever it throws.
pub chunk-IsSound :
    (sha256 : Bytes → String) (owner : String) (d : UploadDevice) (id : String) (index : ℕ)
    (bytes : Bytes) (expected : String) (t : Times)
    → Triple IsSound (chunk sha256 owner d id index bytes expected t) (λ _. IsSound) IsSound
unfolding chunk
chunk-IsSound sha256 owner d id index bytes expected t s h =
    lift-next (λ _. IsSound) IsSound (guards (chunk_checks sha256 owner index bytes expected s))
      (λ _. exclusive owner d id t.started (receive sha256 owner index bytes expected t)) s h
      λ _ allowed.
        exclusive-IsSound owner d id t.started _
          (receive-IsSound sha256 owner index bytes expected t) s h
