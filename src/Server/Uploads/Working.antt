-- ===== src/Server/Uploads/Working.antt =====
-- Under a lease: the row that a request holds agrees with the table until the request ends
-- (`exclusive` and `recover` of apps/server/src/content-upload.ts).
use gib_sync.Prelude.{
  ℕ, ◌≡◌, refl, sym, ◌∙◌, subst, String, Bool, true, false, some, List, length, keep, if◌then◌else◌,
  ◌==◌, nat_eq, string_eq, option_eq, Bool-cases, Option-cases, inl, inr, arith, eq_iff, ltb, not,
  contains, beq_refl, ◌||◌,
}
use gib_sync.Prelude.Dict.{lookup, insert, lookup-insert}
use gib_sync.Prelude.Result.{Result, ok, err}
use gib_sync.Prelude.State.{
  ◌>>=◌, ◌>>◌, Post, Triple, >>=-Triple, continue-Post, Post-finally, finally, modify, pure,
}
use gib_sync.Prelude.Text.{Text}
use gib_sync.Server.Uploads.{
  SessionRow, is_complete, ReceiptRow, Uploads, Upload, Bytes, UploadDevice, belongs, update,
  receipts_of, Failure,
}
use gib_sync.Server.Uploads.Leases.{
  row, assert_lease, owned_by, holds, acquire, release, exclusive, is_free, take_lease, drop_lease,
}
use gib_sync.Server.Uploads.Staging.{
  path, verify, restart, recheck, recover, trim_file, contents, write_file,
}
use gib_sync.Server.Uploads.Laws.{Chain, verify-Chain}
use gib_sync.Server.Uploads.Invariant.{
  IsSound, SoundRow, Agrees, lookup-update, receipts-update, update-IsSound, point-IsSound,
}

-- The table has a row that agrees with `r`, and the owner's where `owned` says so.
abbrev pub Stored : (SessionRow → Bool) → SessionRow → Uploads → Type 0
Stored owned r s =
    (x : SessionRow) × (lookup r.id s.sessions ≡ some x) × Agrees r x × (owned x ≡ true)

abbrev pub anyone : SessionRow → Bool
anyone x = true

abbrev pub Working : (SessionRow → Bool) → SessionRow → Uploads → Type 0
Working owned r s = IsSound s × Stored owned r s

pub row-Working :
    (d : UploadDevice) (id : String) → Triple IsSound (row d id) (Working anyone) IsSound
row-Working d id s h = elim (Option-cases (lookup id s.sessions)) [
  | inl e ↦ rw e h
  | inr (r, e) ↦ elim (Bool-cases (belongs d r)) [
    | inl b ↦
        rw (e, b)
          (
            h,
            (
              r,
              subst (λ k. lookup k s.sessions ≡ some r) (sym (at_id r e)) e,
              (refl, refl, refl, refl),
              refl,
            ),
          )
    | inr b ↦ rw (e, b) h
  ]
]
  where
    at_id : (r : SessionRow) → lookup id s.sessions ≡ some r → r.id ≡ id
    at_id r e = (subst (λ o. SoundRow id o (receipts_of id s)) e (h id)).0

Post-if :
    {A : Type 0} (P R : Uploads → Type 0) (b : Bool) (value : A) (e : Failure) (s t : Uploads)
    → P s
    → R t
    → Post (λ _. P) R (if b then (ok value, s) else (err e, t))
Post-if P R true value e s t p r = p
Post-if P R false value e s t p r = r

pub lift-Post :
    {A : Type 0} (r : SessionRow) (result : Result Failure A) (s : Uploads)
    → Working anyone r s
    → Post (λ _. Working anyone r) IsSound (result, s)
lift-Post r (ok value) s w = w
lift-Post r (err e) s w = w.0

pub acquire-IsSound :
    (owner id : String) (now : ℕ) → Triple IsSound (acquire owner id now) (λ _. IsSound) IsSound
unfolding acquire
acquire-IsSound owner id now s h =
    Post-if IsSound IsSound _ _ _ _ _
      (update-IsSound id (is_free now) (take_lease owner now) s (λ r. (refl, refl, refl, refl)) h) h

pub release-IsSound : (owner id : String) (s : Uploads) → IsSound s → IsSound (release owner id s)
release-IsSound owner id s h =
    update-IsSound id (owned_by owner) drop_lease s (λ r. (refl, refl, refl, refl)) h

pub assert_lease-Working :
    (owner : String) (r : SessionRow) (now : ℕ)
    → Triple
        (Working anyone r)
        (assert_lease owner r.id now)
        (λ _. Working (owned_by owner) r)
        IsSound
assert_lease-Working owner r now s (h, (x, e, a, o)) = elim (Bool-cases (holds owner now x)) [
  | inl b ↦ rw (e, b) (h, (x, e, a, ground arith))
  | inr b ↦ rw (e, b) h
]

pub exclusive-IsSound :
    {A : Type 0} (owner : String) (d : UploadDevice) (id : String) (now : ℕ)
    (operation : SessionRow → Upload A)
    → ((r : SessionRow) → Triple (Working anyone r) (operation r) (λ _. IsSound) IsSound)
    → Triple IsSound (exclusive owner d id now operation) (λ _. IsSound) IsSound
unfolding exclusive
exclusive-IsSound owner d id now operation body =
    >>=-Triple IsSound (Working anyone) (λ _. IsSound) IsSound (row d id) _ (row-Working d id)
      λ r s w.
        >>=-Triple IsSound (λ _. IsSound) (λ _. IsSound) IsSound (acquire owner id now) _
          (acquire-IsSound owner id now) (λ _. last) s w.0
  where
    last :
        Triple IsSound (finally (row d id >>= operation) (release owner id)) (λ _. IsSound) IsSound
    last s h =
        Post-finally (λ _. IsSound) (λ _. IsSound) IsSound IsSound (release owner id) _
          (>>=-Triple IsSound (Working anyone) (λ _. IsSound) IsSound (row d id) operation
            (row-Working d id) body s h)
          (λ v t. release-IsSound owner id t) (release-IsSound owner id)

pub update-at :
    (id : String) (test : SessionRow → Bool) (change : SessionRow → SessionRow) (s : Uploads)
    (x : SessionRow)
    → lookup id s.sessions ≡ some x
    → test x ≡ true
    → lookup id (update id test change s).sessions ≡ some (change x)
update-at id test change s x e b = ground (arith, lookup-update id id test change s, eq_iff id id)

pub update-other :
    (j id : String) (test : SessionRow → Bool) (change : SessionRow → SessionRow) (s : Uploads)
    → (id == j) ≡ false
    → lookup j (update id test change s).sessions ≡ lookup j s.sessions
update-other j id test change s e = ground (arith, lookup-update j id test change s)

receipts_of-update :
    (j id : String) (rows : List ReceiptRow) (test : SessionRow → Bool)
    (change : SessionRow → SessionRow) (s : Uploads)
    → receipts_of j (update id test change (record s { receipts = insert id rows s.receipts }))
      ≡ (if id == j then rows else receipts_of j s)
receipts_of-update j id rows test change s = ground (
  arith,
  receipts-update id test change (record s { receipts = insert id rows s.receipts }),
  lookup-insert j id rows s.receipts,
)

-- New receipts for the session, and a row that goes with them.
pub replace-IsSound :
    (id : String) (test : SessionRow → Bool) (change : SessionRow → SessionRow) (s : Uploads)
    (x : SessionRow) (rows : List ReceiptRow)
    → lookup id s.sessions ≡ some x
    → test x ≡ true
    → SoundRow id (some (change x)) rows
    → IsSound s
    → IsSound (update id test change (record s { receipts = insert id rows s.receipts }))
replace-IsSound id test change s x rows e b new h = point-IsSound id s t here other h
  where
    s' : Uploads
    s' = record s { receipts = insert id rows s.receipts }

    t : Uploads
    t = update id test change s'

    here : SoundRow id (lookup id t.sessions) (receipts_of id t)
    here =
        rw
          (
            update-at id test change s' x e b,
            receipts_of-update id id rows test change s,
            beq_refl id,
          )
          new

    other :
        (j : String)
        → (id == j) ≡ false
        → (lookup j t.sessions ≡ lookup j s.sessions) × (receipts_of j t ≡ receipts_of j s)
    other j e =
        (update-other j id test change s' e, receipts_of-update j id rows test change s ∙ rw e refl)

module _ (sha256 : Bytes → String) (owner : String) (now : ℕ) where
  recheck-Working :
      (r : SessionRow) (bytes : Bytes)
      → Triple (Working anyone r) (recheck sha256 owner now r bytes) (Working anyone) IsSound
  unfolding recheck
  recheck-Working r bytes s (h, (x, e, a, o)) =
      let verified = verify sha256 r.size bytes 0 0 (receipts_of r.id s) in
      let sound = subst (λ o. SoundRow r.id o (receipts_of r.id s)) e (h r.id) in
      let rows = receipts_of r.id s in
      let kept = keep (λ y. ltb y.chunk_index verified.1) rows in
      let whole = subst (λ n. Chain n 0 0 rows x.offset) a.1 sound.1 in
      let chain =
        subst (λ n. Chain n 0 0 kept verified.0) (sym a.1)
          (verify-Chain sha256 r.size bytes 0 0 rows x.offset whole) in
      elim (Bool-cases (holds owner now x)) [
        | inl b ↦
            rw (e, b)
              (
                replace-IsSound r.id (owned_by owner) (restart verified.0 now) s x _ e
                    (ground arith) (sound.0, chain, tt) h,
                (
                  restart verified.0 now x,
                  update-at r.id (owned_by owner) (restart verified.0 now) _ x e (ground arith),
                  (a.0, a.1, refl, refl),
                  refl,
                ),
              )
        | inr b ↦ rw (e, b) h
      ]

  checked-Working :
      (r : SessionRow) (bytes : Bytes) (b : Bool)
      → Triple
          (Working anyone r)
          (if b then recheck sha256 owner now r bytes else pure r)
          (Working anyone)
          IsSound
  checked-Working r bytes true s w = recheck-Working r bytes s w
  checked-Working r bytes false s w = w

  trim_file-Working :
      (name : Text) (bytes : Bytes) (r : SessionRow)
      → Triple (Working anyone r) (trim_file name bytes r) (Working anyone) IsSound
  trim_file-Working name bytes r s w = elim (Bool-cases (length bytes == r.offset)) [
    | inl e ↦ rw e w
    | inr e ↦ rw e w
  ]

  -- The row that `recover` returns agrees with the table, and the receipts with both.
  pub recover-Working :
      (r : SessionRow)
      → Triple (Working anyone r) (recover sha256 owner now r) (Working anyone) IsSound
  unfolding recover
  recover-Working r s w = elim (Bool-cases (is_complete r.state)) [
    | inl e ↦ rw e w
    | inr e ↦ rw e (
        continue-Post (λ _. Working anyone r) (Working anyone) IsSound _ (path r.id, s)
          (lift-Post r (path r.id) s w) staged)
  ]
    where
      staged :
          (name : Text)
          → Triple
              (Working anyone r)
              (λ t.
                let bytes = contents name t in
                (modify (write_file name bytes)
                    >> (if not (contains t.verified r.id) || ltb (length bytes) r.offset
                        then recheck sha256 owner now r bytes
                        else pure r)
                    >>= trim_file name bytes)
                  t)
              (Working anyone)
              IsSound
      staged name t w =
          let bytes = contents name t in
          continue-Post (Working anyone) (Working anyone) IsSound (trim_file name bytes) _
            (checked-Working r bytes (not (contains t.verified r.id) || ltb (length bytes) r.offset)
              (write_file name bytes t) w)
            (trim_file-Working name bytes)
