-- ===== src/Server/Uploads/Recovered.antt =====
-- What `recover` (apps/server/src/content-upload.ts) leaves of a session that a process has not
-- checked yet, whatever is on the disk.
use gib_sync.Prelude.{
  ℕ, ◌≡◌, refl, sym, ap, ◌∙◌, subst, String, Bool, true, false, ◌||◌, not, Option, none, some, List,
  [], length, take-eq_self, keep, contains, ltb, ◌==◌, nat_eq, string_eq, Bool-cases, Option-cases,
  inl, inr, arith,
}
use gib_sync.Prelude.Text.{Text, text_eq}
use gib_sync.Prelude.Dict.{lookup, lookup-insert_self}
use gib_sync.Prelude.Result.{ok}
use gib_sync.Server.Uploads.{
  SessionRow, ReceiptRow, Bytes, Uploads, receiving, is_complete, receipts_of, update,
}
use gib_sync.Server.Uploads.Leases.{holds, owned_by}
use gib_sync.Server.Uploads.Staging.{
  path, contents, write_file, truncate, verify, recheck, recover, trim_file, drop_receipts,
  remember, restart,
}
use gib_sync.Server.Uploads.Laws.{Chain, verify-Chain}
use gib_sync.Server.Uploads.Invariant.{receipts-update}
use gib_sync.Server.Uploads.Stored.{Matches, truncate-take, verify-Matches}

-- The row and the file agree with the receipts in the table: these acknowledge the file from its start
-- to the offset, the file is exactly as long, and has the bytes whose hashes were acknowledged.
abbrev pub IsRecovered : (Bytes → String) → Text → SessionRow → Uploads → Type 0
IsRecovered sha256 name r s =
    (length (contents name s) ≡ r.offset)
    × Chain r.size 0 0 (receipts_of r.id s) r.offset
    × Matches sha256 (contents name s) (receipts_of r.id s)

abbrev rows_or_none : Option (List ReceiptRow) → List ReceiptRow
rows_or_none o = elim o [ none ↦ [] | some rows ↦ rows ]

abbrev bytes_or_none : Option Bytes → Bytes
bytes_or_none o = elim o [ none ↦ [] | some bytes ↦ bytes ]

-- The file after the last step is the one that was read, cut at the offset.
contents-trim_file :
    (name : Text) (bytes : Bytes) (r : SessionRow) (s : Uploads)
    → contents name s ≡ bytes
    → contents name (trim_file name bytes r s).1 ≡ truncate r.offset bytes
contents-trim_file name bytes r s e = elim (Bool-cases (length bytes == r.offset)) [
  | inl b ↦
      let same : length bytes ≡ r.offset = ground arith in
      rw (b, e)
        (sym (
          truncate-take (λ _. "") 0 bytes r.offset (omega arith)
          ∙ take-eq_self r.offset bytes (omega arith)))
  | inr b ↦ rw b (
      ap (λ (o : Option Bytes). bytes_or_none o)
        (lookup-insert_self name (truncate r.offset bytes) s.files))
]

receipts_of-trim_file :
    (name : Text) (bytes : Bytes) (r : SessionRow) (s : Uploads)
    → receipts_of r.id (trim_file name bytes r s).1 ≡ receipts_of r.id s
receipts_of-trim_file name bytes r s = elim (Bool-cases (length bytes == r.offset)) [
  | inl b ↦ rw b refl
  | inr b ↦ rw b refl
]

files-update :
    (id : String) (test : SessionRow → Bool) (change : SessionRow → SessionRow) (s : Uploads)
    → (update id test change s).files ≡ s.files
unfolding update
files-update id test change s = elim (Option-cases (lookup id s.sessions)) [
  | inl e ↦ ground arith
  | inr (r, e) ↦ ground arith
]

module _ (sha256 : Bytes → String) (owner : String) (now : ℕ) where
  -- What the recheck leaves, where the lease is held.
  abbrev rechecked : SessionRow → Bytes → Uploads → Uploads
  rechecked r bytes s =
      let checked = verify sha256 r.size bytes 0 0 (receipts_of r.id s) in
      remember r.id
        (update r.id (owned_by owner) (restart checked.0 now) (drop_receipts r.id checked.1 s))

  recheck-ok :
      (r x : SessionRow) (bytes : Bytes) (s : Uploads)
      → lookup r.id s.sessions ≡ some x
      → holds owner now x ≡ true
      → recheck sha256 owner now r bytes s ≡ (
        ok (record r {
          offset = (verify sha256 r.size bytes 0 0 (receipts_of r.id s)).0;
          state = receiving;
        }),
        rechecked r bytes s,
      )
  unfolding recheck
  recheck-ok r x bytes s e b = rw (e, b) refl

  receipts_of-rechecked :
      (r : SessionRow) (bytes : Bytes) (s : Uploads)
      → receipts_of r.id (rechecked r bytes s)
        ≡ keep
            (λ x. ltb x.chunk_index (verify sha256 r.size bytes 0 0 (receipts_of r.id s)).1)
            (receipts_of r.id s)
  receipts_of-rechecked r bytes s =
      let checked = verify sha256 r.size bytes 0 0 (receipts_of r.id s) in
      let dropped = drop_receipts r.id checked.1 s in
      rw (receipts-update r.id (owned_by owner) (restart checked.0 now) dropped) (
        ap (λ (o : Option (List ReceiptRow)). rows_or_none o)
          (lookup-insert_self r.id (keep (λ x. ltb x.chunk_index checked.1) (receipts_of r.id s))
            s.receipts))

  contents-rechecked :
      (name : Text) (r : SessionRow) (bytes : Bytes) (s : Uploads)
      → contents name (rechecked r bytes s) ≡ contents name s
  contents-rechecked name r bytes s =
      let checked = verify sha256 r.size bytes 0 0 (receipts_of r.id s) in
      rw
        (files-update r.id (owned_by owner) (restart checked.0 now)
          (drop_receipts r.id checked.1 s))
        refl

  -- The first time that a process meets a session which is not complete, and whenever the file is
  -- shorter than the row says: with its lease, `recover` succeeds whatever the file has in it. What it
  -- leaves agrees: the receipts that stay acknowledge the file from its start to the offset that is
  -- returned, the file is exactly that long, and it has the bytes whose hashes were acknowledged. The
  -- receipts before are a chain from the start of the file, as in every state that is reached.
  pub recover-IsRecovered :
      (r x : SessionRow) (s : Uploads) (name : Text) (last : ℕ)
      → is_complete r.state ≡ false
      → path r.id ≡ ok name
      → (not (contains s.verified r.id) || ltb (length (contents name s)) r.offset) ≡ true
      → lookup r.id s.sessions ≡ some x
      → holds owner now x ≡ true
      → Chain r.size 0 0 (receipts_of r.id s) last
      → (r' : SessionRow) × (t : Uploads) × (recover sha256 owner now r s ≡ (ok r', t))
        × (r'.id ≡ r.id)
        × (r'.size ≡ r.size)
        × IsRecovered sha256 name r' t
  unfolding recover
  recover-IsRecovered r x s name last unfinished named unchecked found held chain =
      let bytes = contents name s in
      let u = write_file name bytes s in
      let checked = verify sha256 r.size bytes 0 0 (receipts_of r.id s) in
      let r' : SessionRow = record r { offset = checked.0; state = receiving } in
      let v = rechecked r bytes u in
      let t = (trim_file name bytes r' v).1 in
      let (long, matches) = verify-Matches sha256 r.size bytes (receipts_of r.id s) last chain in
      let rows = receipts_of-trim_file name bytes r' v ∙ receipts_of-rechecked r bytes u in
      let file = contents-trim_file name bytes r' v (
        contents-rechecked name r bytes u
        ∙ ap (λ (o : Option Bytes). bytes_or_none o) (lookup-insert_self name bytes s.files)) in
      (
        r',
        t,
        rw (unfinished, named, unchecked, recheck-ok r x bytes u found held) refl,
        refl,
        refl,
        (
          ap length file ∙ long,
          subst (λ q. Chain r.size 0 0 q checked.0) (sym rows)
              (verify-Chain sha256 r.size bytes 0 0 (receipts_of r.id s) last chain),
          subst (λ q. Matches sha256 (contents name t) q) (sym rows)
              (subst
                (λ f.
                  Matches sha256 f (keep (λ y. ltb y.chunk_index checked.1) (receipts_of r.id s)))
                (sym file) matches),
        ),
      )
