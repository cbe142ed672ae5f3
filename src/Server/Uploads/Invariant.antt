-- ===== src/Server/Uploads/Invariant.antt =====
-- Every session acknowledges a beginning of its file, and a complete one the whole file. What the
-- single steps of apps/server/src/content-upload.ts do to that.
use gib_sync.Prelude.{
  ℕ, ◌≡◌, subst, String, Bool, false, Option, none, some, List, [], if◌then◌else◌, ◌==◌, nat_eq,
  string_eq, option_eq, Bool-cases, Option-cases, inl, inr, arith, eq_iff,
}
use gib_sync.Prelude.Dict.{lookup, lookup-insert}
use gib_sync.Server.Uploads.{
  SessionRow, SessionState, receiving, complete, ReceiptRow, Uploads, update, receipts_of,
}
use gib_sync.Server.Uploads.Laws.{Chain}

abbrev pub Filled : SessionState → ℕ → ℕ → Type 0
Filled receiving offset size = Unit
Filled complete offset size = offset ≡ size

abbrev pub SoundRow : String → Option SessionRow → List ReceiptRow → Type 0
SoundRow id none rows = rows ≡ []
SoundRow id (some r) rows =
    (r.id ≡ id) × Chain r.size 0 0 rows r.offset × Filled r.state r.offset r.size

-- The receipts of every session acknowledge its file from the start to its offset, and a complete
-- session has all of its file.
abbrev pub IsSound : Uploads → Type 0
IsSound s = (id : String) → SoundRow id (lookup id s.sessions) (receipts_of id s)

-- The row that a request works on and the row in the table say the same of the file.
abbrev pub Agrees : SessionRow → SessionRow → Type 0
Agrees r x = (x.id ≡ r.id) × (x.size ≡ r.size) × (x.offset ≡ r.offset) × (x.state ≡ r.state)

SoundRow-Agrees :
    (id : String) (r x : SessionRow) (rows : List ReceiptRow)
    → Agrees r x
    → SoundRow id (some r) rows
    → SoundRow id (some x) rows
SoundRow-Agrees id r x rows (i, n, o, t) h = rw (i, n, o, t) h

abbrev pub changed :
    (SessionRow → Bool) → (SessionRow → SessionRow) → Option SessionRow → Option SessionRow
changed test change none = none
changed test change (some r) = some (if test r then change r else r)

pub lookup-update :
    (j id : String) (test : SessionRow → Bool) (change : SessionRow → SessionRow) (s : Uploads)
    → lookup j (update id test change s).sessions
      ≡ (if id == j then changed test change (lookup id s.sessions) else lookup j s.sessions)
unfolding update
lookup-update j id test change s = elim (Option-cases (lookup id s.sessions)) [
  | inl e ↦ ground (arith, eq_iff id j)
  | inr (r, e) ↦ ground (arith, eq_iff id j, lookup-insert j id (change r) s.sessions)
]

pub receipts-update :
    (id : String) (test : SessionRow → Bool) (change : SessionRow → SessionRow) (s : Uploads)
    → (update id test change s).receipts ≡ s.receipts
unfolding update
receipts-update id test change s = elim (Option-cases (lookup id s.sessions)) [
  | inl e ↦ ground arith
  | inr (r, e) ↦ ground arith
]

changed-SoundRow :
    (id : String) (test : SessionRow → Bool) (change : SessionRow → SessionRow)
    → ((r : SessionRow) → Agrees r (change r))
    → (o : Option SessionRow) (rows : List ReceiptRow) → SoundRow id o rows
    → SoundRow id (changed test change o) rows
changed-SoundRow id test change same none rows h = h
changed-SoundRow id test change same (some r) rows h = elim (Bool-cases (test r)) [
  | inl e ↦ rw e (SoundRow-Agrees id r (change r) rows (same r) h)
  | inr e ↦ rw e h
]

SoundRow-if :
    (id j : String) (a b : Option SessionRow) (rows : List ReceiptRow)
    → ((id ≡ j) → SoundRow j a rows)
    → SoundRow j b rows
    → SoundRow j (if id == j then a else b) rows
SoundRow-if id j a b rows f h = elim (Bool-cases (id == j)) [
  | inl e ↦ rw e (f ((eq_iff id j).0 e))
  | inr e ↦ rw e h
]

-- A change of what the invariant does not read.
pub update-IsSound :
    (id : String) (test : SessionRow → Bool) (change : SessionRow → SessionRow) (s : Uploads)
    → ((r : SessionRow) → Agrees r (change r))
    → IsSound s
    → IsSound (update id test change s)
update-IsSound id test change s same h j =
    rw (lookup-update j id test change s, receipts-update id test change s)
      (SoundRow-if id j _ _ (receipts_of j s)
        (λ e.
          subst (λ k. SoundRow k (changed test change (lookup id s.sessions)) (receipts_of k s)) e
            (changed-SoundRow id test change same (lookup id s.sessions) (receipts_of id s) (h id)))
        (h j))

-- A change of one session and its receipts.
pub point-IsSound :
    (id : String) (s t : Uploads)
    → SoundRow id (lookup id t.sessions) (receipts_of id t)
    → ((j : String)
        → (id == j) ≡ false
        → (lookup j t.sessions ≡ lookup j s.sessions) × (receipts_of j t ≡ receipts_of j s))
    → IsSound s
    → IsSound t
point-IsSound id s t here other h j = elim (Bool-cases (id == j)) [
  | inl e ↦ subst (λ k. SoundRow k (lookup k t.sessions) (receipts_of k t)) ((eq_iff id j).0 e) here
  | inr e ↦ rw ((other j e).0, (other j e).1) (h j)
]
