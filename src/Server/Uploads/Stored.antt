-- ===== src/Server/Uploads/Stored.antt =====
-- What is on the disk: the bytes behind the receipts, and the file that is encrypted
-- (`recover` and `complete` of apps/server/src/content-upload.ts).
use gib_sync.Prelude.{
  ℕ, zero, suc, ◌+◌, ◌-◌, ◌≤◌, ◌<◌, ◌≡◌, refl, sym, ap, subst, String, true, List, [], ◌∷◌, ◌++◌,
  length, length-take, keep, take, drop, All, ltb, nat_eq, string_eq, Bool-cases, inl, inr, arith,
  eq_iff,
}
use gib_sync.Server.Uploads.{ReceiptRow, Bytes}
use gib_sync.Server.Uploads.Staging.{confirms, verify, truncate, zeros}
use gib_sync.Server.Uploads.Laws.{
  Chain, verify-nil, verify-go, verify-stop, verify-ge, verify-Chain, ltb-of_lt, keep-Chain,
  Chain-ge,
}
use mathlib.Core.List.{append-nil}

-- The file has the bytes that the rows acknowledge.
abbrev pub Matches : (Bytes → String) → Bytes → List ReceiptRow → Type 0
Matches sha256 bytes [] = Unit
Matches sha256 bytes (r ∷ rs) =
    (r.offset + r.size ≤ length bytes)
    × (sha256 (take r.size (drop r.offset bytes)) ≡ r.hash)
    × Matches sha256 bytes rs

take-append_le : (n : ℕ) (xs ys : Bytes) → n ≤ length xs → take n (xs ++ ys) ≡ take n xs
take-append_le zero xs ys h = refl
take-append_le (suc n) [] ys h = absurd (omega arith)
take-append_le (suc n) (x ∷ xs) ys h = ap (λ r. x ∷ r) (take-append_le n xs ys (omega arith))

-- A slice that ends before a cut is the same after it.
slice-take :
    (n o cut : ℕ) (xs : Bytes) → o + n ≤ cut → take n (drop o (take cut xs)) ≡ take n (drop o xs)
slice-take n zero cut xs h = take-take n cut xs (omega arith)
  where
    take-take : (n cut : ℕ) (xs : Bytes) → n ≤ cut → take n (take cut xs) ≡ take n xs
    take-take zero cut xs h = refl
    take-take (suc n) zero xs h = absurd (omega arith)
    take-take (suc n) (suc cut) [] h = refl
    take-take (suc n) (suc cut) (x ∷ xs) h = ap (λ r. x ∷ r) (take-take n cut xs (omega arith))
slice-take n (suc o) zero xs h = absurd (omega arith)
slice-take n (suc o) (suc cut) [] h = refl
slice-take n (suc o) (suc cut) (x ∷ xs) h = slice-take n o cut xs (omega arith)

-- No row ends behind the end of the chain.
Within : ℕ → List ReceiptRow → Type 0
Within end rs = All (λ r. r.offset + r.size ≤ end) rs

Chain-Within :
    (size offset index : ℕ) (rs : List ReceiptRow) (end : ℕ)
    → Chain size offset index rs end
    → Within end rs
unfolding Within
Chain-Within size offset index [] end c = tt
Chain-Within size offset index (r ∷ rs) end (i, o, n, p, c) =
    let later = Chain-ge size (offset + r.size) (suc index) rs end c in
    (omega arith, Chain-Within size (offset + r.size) (suc index) rs end c)

take-Matches :
    (sha256 : Bytes → String) (bytes : Bytes) (rs : List ReceiptRow) (end : ℕ)
    → end ≤ length bytes
    → Within end rs
    → Matches sha256 bytes rs
    → Matches sha256 (take end bytes) rs
unfolding Within
take-Matches sha256 bytes [] end h w m = tt
take-Matches sha256 bytes (r ∷ rs) end h (e, w) (l, d, m) = (
  omega (arith, length-take end bytes),
  rw (slice-take r.size r.offset end bytes e) d,
  take-Matches sha256 bytes rs end h w m,
)

module _ (sha256 : Bytes → String) (size : ℕ) (bytes : Bytes) where
  confirms-true :
      (offset index : ℕ) (r : ReceiptRow)
      → confirms sha256 size bytes offset index r ≡ true
      → (offset + r.size ≤ length bytes) × (sha256 (take r.size (drop offset bytes)) ≡ r.hash)
  confirms-true offset index r e =
      ground (arith, eq_iff (sha256 (take r.size (drop offset bytes))) r.hash)

  abbrev Confirmed : List ReceiptRow → ℕ × ℕ → Type 0
  Confirmed rs (end, bound) =
      (end ≤ length bytes) × Matches sha256 bytes (keep (λ x. ltb x.chunk_index bound) rs)

  keep-Confirmed :
      (index end bound : ℕ) (r : ReceiptRow) (rs : List ReceiptRow)
      → r.chunk_index < bound
      → (r.offset + r.size ≤ length bytes) × (sha256 (take r.size (drop r.offset bytes)) ≡ r.hash)
      → Confirmed rs (end, bound)
      → Confirmed (r ∷ rs) (end, bound)
  keep-Confirmed index end bound r rs h (l, d) (e, m) =
      rw (ltb-of_lt r.chunk_index bound h) (e, (l, d, m))

  verify-Confirmed :
      (offset index : ℕ) (rs : List ReceiptRow) (last : ℕ)
      → Chain size offset index rs last
      → offset ≤ length bytes
      → Confirmed rs (verify sha256 size bytes offset index rs)
  verify-Confirmed offset index [] last c h =
      subst (Confirmed []) (sym (verify-nil sha256 size bytes offset index)) (h, tt)
  verify-Confirmed offset index (r ∷ rs) last (i, o, n, p, c) h =
      let whole : Chain size offset index (r ∷ rs) last = (i, o, n, p, c) in
      elim (Bool-cases (confirms sha256 size bytes offset index r)) [
        | inl e ↦
            let (l, d) = confirms-true offset index r e in
            subst (Confirmed (r ∷ rs)) (sym (verify-go sha256 size bytes offset index r rs e)) (
              keep-Confirmed index _ _ r rs
                (omega (arith, verify-ge sha256 size bytes (offset + r.size) (suc index) rs))
                (rw o l, rw o d) (verify-Confirmed (offset + r.size) (suc index) rs last c l))
        | inr e ↦
            subst (Confirmed (r ∷ rs)) (sym (verify-stop sha256 size bytes offset index r rs e))
              (h, rw (keep-Chain size offset index index (r ∷ rs) last whole (omega arith)) tt)
      ]

  pub truncate-take : (n : ℕ) → n ≤ length bytes → truncate n bytes ≡ take n bytes
  unfolding zeros
  truncate-take n h = rw (sub_le n h, append-nil) refl
    where
      sub_le : (n : ℕ) → n ≤ length bytes → n - length bytes ≡ 0
      sub_le n h = omega arith

  -- The file cut at the end of the check, and the receipts that stay.
  pub verify-Matches :
      (rs : List ReceiptRow) (last : ℕ)
      → Chain size 0 0 rs last
      → let checked = verify sha256 size bytes 0 0 rs in
        (length (truncate checked.0 bytes) ≡ checked.0)
        × Matches sha256 (truncate checked.0 bytes) (keep (λ x. ltb x.chunk_index checked.1) rs)
  verify-Matches rs last c =
      let checked = verify sha256 size bytes 0 0 rs in
      let (h, m) = verify-Confirmed 0 0 rs last c (omega arith) in
      rw (truncate-take checked.0 h) (
        omega (arith, length-take checked.0 bytes),
        take-Matches sha256 bytes _ checked.0 h
            (Chain-Within size 0 0 _ checked.0 (verify-Chain sha256 size bytes 0 0 rs last c)) m,
      )
