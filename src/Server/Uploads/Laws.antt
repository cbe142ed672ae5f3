-- ===== src/Server/Uploads/Laws.antt =====
-- The receipts of an upload: they acknowledge the file from its start, without a gap
-- (apps/server/src/content-upload.ts).
use gib_sync.Prelude.{
  ℕ, suc, ◌+◌, ◌*◌, ◌-◌, ◌≤◌, ◌<◌, min, ◌≡◌, refl, sym, subst, String, true, false, List, [], ◌∷◌,
  ◌++◌, length, keep, ltb, nat_eq, string_eq, Bool-cases, inl, inr, arith,
}
use gib_sync.Prelude.Result.{ok}
use gib_sync.Server.Uploads.{ReceiptRow, Bytes, chunk_bytes, insert_receipt}
use gib_sync.Server.Uploads.Staging.{confirms, verify}

-- The rows count up from `index`, each starts where the one before it ends, and each is as long
-- as a chunk there has to be; the last one ends at `last`.
abbrev pub Chain : ℕ → ℕ → ℕ → List ReceiptRow → ℕ → Type 0
Chain size offset index [] last = offset ≡ last
Chain size offset index (r ∷ rs) last =
    (r.chunk_index ≡ index)
    × (r.offset ≡ offset)
    × (r.size ≡ min chunk_bytes (size - offset))
    × (0 < r.size)
    × Chain size (offset + r.size) (suc index) rs last

pub Chain-ge :
    (size offset index : ℕ) (rs : List ReceiptRow) (last : ℕ)
    → Chain size offset index rs last
    → offset ≤ last
Chain-ge size offset index [] last c = omega arith
Chain-ge size offset index (r ∷ rs) last (i, o, n, p, c) =
    omega (arith, Chain-ge size (offset + r.size) (suc index) rs last c)

pub Chain-le :
    (size offset index : ℕ) (rs : List ReceiptRow) (last : ℕ)
    → offset ≤ size
    → Chain size offset index rs last
    → last ≤ size
Chain-le size offset index [] last h c = omega arith
Chain-le size offset index (r ∷ rs) last h (i, o, n, p, c) =
    Chain-le size (offset + r.size) (suc index) rs last (omega arith) c

-- Where the file is not at its end, every chunk before is a full one.
pub Chain-full :
    (size offset index : ℕ) (rs : List ReceiptRow) (last : ℕ)
    → Chain size offset index rs last
    → last < size
    → last ≡ offset + chunk_bytes * length rs
Chain-full size offset index [] last c h = omega arith
Chain-full size offset index (r ∷ rs) last (i, o, n, p, c) h = omega (
  arith,
  Chain-full size (offset + r.size) (suc index) rs last c h,
  Chain-ge size (offset + r.size) (suc index) rs last c,
)

pub Chain-snoc :
    (size offset index : ℕ) (rs : List ReceiptRow) (last : ℕ) (new : ReceiptRow)
    → Chain size offset index rs last
    → new.chunk_index ≡ index + length rs
    → new.offset ≡ last
    → new.size ≡ min chunk_bytes (size - last)
    → 0 < new.size
    → Chain size offset index (rs ++ new ∷ []) (last + new.size)
Chain-snoc size offset index [] last new c i o n p =
    (omega arith, omega arith, omega arith, p, omega arith)
Chain-snoc size offset index (r ∷ rs) last new (i', o', n', p', c) i o n p = (
  i',
  o',
  n',
  p',
  Chain-snoc size (offset + r.size) (suc index) rs last new c (omega arith) o n p,
)

pub insert_receipt-last :
    (size offset index : ℕ) (rs : List ReceiptRow) (last : ℕ) (new : ReceiptRow)
    → Chain size offset index rs last
    → new.chunk_index ≡ index + length rs
    → insert_receipt new rs ≡ ok (rs ++ new ∷ [])
unfolding insert_receipt
insert_receipt-last size offset index [] last new c i = refl
insert_receipt-last size offset index (r ∷ rs) last new (i', o', n', p', c) i =
    rw (insert_receipt-last size (offset + r.size) (suc index) rs last new c (omega arith))
      (ground arith)

-- No row of a chain stands before its first index.
pub keep-Chain :
    (size offset index bound : ℕ) (rs : List ReceiptRow) (last : ℕ)
    → Chain size offset index rs last
    → bound ≤ index
    → keep (λ r. ltb r.chunk_index bound) rs ≡ []
keep-Chain size offset index bound [] last c h = refl
keep-Chain size offset index bound (r ∷ rs) last (i, o, n, p, c) h =
    ground (arith, keep-Chain size (offset + r.size) (suc index) bound rs last c (omega arith))

pub ltb-of_lt : (a b : ℕ) → a < b → ltb a b ≡ true
ltb-of_lt a b h = ground arith

keep-Chain_first :
    (size offset index bound : ℕ) (r : ReceiptRow) (rs : List ReceiptRow) (last end : ℕ)
    → Chain size offset index (r ∷ rs) last
    → suc index ≤ bound
    → Chain size (offset + r.size) (suc index) (keep (λ x. ltb x.chunk_index bound) rs) end
    → Chain size offset index (keep (λ x. ltb x.chunk_index bound) (r ∷ rs)) end
keep-Chain_first size offset index bound r rs last end (i, o, n, p, c) h k =
    rw (ltb-of_lt r.chunk_index bound (omega arith)) (i, o, n, p, k)

module _ (sha256 : Bytes → String) (size : ℕ) (bytes : Bytes) where
  pub verify-nil : (offset index : ℕ) → verify sha256 size bytes offset index [] ≡ (offset, index)
  unfolding verify
  verify-nil offset index = refl

  pub verify-go :
      (offset index : ℕ) (r : ReceiptRow) (rs : List ReceiptRow)
      → confirms sha256 size bytes offset index r ≡ true
      → verify sha256 size bytes offset index (r ∷ rs)
        ≡ verify sha256 size bytes (offset + r.size) (suc index) rs
  unfolding verify
  verify-go offset index r rs e = rw e refl

  pub verify-stop :
      (offset index : ℕ) (r : ReceiptRow) (rs : List ReceiptRow)
      → confirms sha256 size bytes offset index r ≡ false
      → verify sha256 size bytes offset index (r ∷ rs) ≡ (offset, index)
  unfolding verify
  verify-stop offset index r rs e = rw e refl

  pub verify-ge :
      (offset index : ℕ) (rs : List ReceiptRow)
      → index ≤ (verify sha256 size bytes offset index rs).1
  unfolding verify
  verify-ge offset index [] = omega arith
  verify-ge offset index (r ∷ rs) = elim (Bool-cases (confirms sha256 size bytes offset index r)) [
    | inl e ↦ rw e (omega (arith, verify-ge (offset + r.size) (suc index) rs))
    | inr e ↦ rw e (omega arith)
  ]

  -- The rows that the recheck keeps form a chain up to the offset that it returns.
  abbrev Kept : ℕ → ℕ → List ReceiptRow → ℕ × ℕ → Type 0
  Kept offset index rs (end, bound) =
      Chain size offset index (keep (λ x. ltb x.chunk_index bound) rs) end

  pub verify-Chain :
      (offset index : ℕ) (rs : List ReceiptRow) (last : ℕ)
      → Chain size offset index rs last
      → Kept offset index rs (verify sha256 size bytes offset index rs)
  verify-Chain offset index [] last c = rw (verify-nil offset index) refl
  verify-Chain offset index (r ∷ rs) last (i, o, n, p, c) =
      let whole : Chain size offset index (r ∷ rs) last = (i, o, n, p, c) in
      elim (Bool-cases (confirms sha256 size bytes offset index r)) [
        | inl e ↦ subst (Kept offset index (r ∷ rs)) (sym (verify-go offset index r rs e)) (
            keep-Chain_first size offset index _ r rs last _ whole
              (verify-ge (offset + r.size) (suc index) rs)
              (verify-Chain (offset + r.size) (suc index) rs last c))
        | inr e ↦
            subst (Kept offset index (r ∷ rs)) (sym (verify-stop offset index r rs e))
              (rw (keep-Chain size offset index index (r ∷ rs) last whole (omega arith)) refl)
      ]
