-- ===== src/Protocol/TextMerge/Hunks.antt =====
-- Hunks on one side alone rebuild that side (packages/protocol/src/text-merge.ts).
use gib_sync.Prelude.{
  ltb, Bool-cases, inl, inr, ℕ, ◌+◌, ◌-◌, ◌≡◌, refl, ap, ◌∙◌, sym, true, false, ◌&&◌, Option, none,
  some, List, [], ◌∷◌, ◌++◌, All, arith, length, take, drop, if◌then◌else◌, length-append,
  drop-append, take-append, drop-add,
}
use gib_sync.Prelude.Text.{Text}
use mathlib.Core.List.{append_assoc}
use gib_sync.Protocol.Model.{Side}
use gib_sync.Protocol.TextMerge.{Part, Hunk, fresh_hunk, grow, concat, scan, changed, Engine, hunks}
use gib_sync.Protocol.TextMerge.Merge.{assemble}

-- What a comparison keeps of the first list and of the second.
unfoldable pub before : List Part → List Text
before [] = []
before (p ∷ ps) = if p.added then before ps else p.value ++ before ps

unfoldable pub after : List Part → List Text
after [] = []
after (p ∷ ps) = if p.removed then after ps else p.value ++ after ps

concat-append : (xs ys : List Text) → concat (xs ++ ys) ≡ concat xs ++ concat ys
unfolding concat
concat-append [] ys = refl
concat-append (x ∷ xs) ys =
    ap (λ t. x ++ t) (concat-append xs ys) ∙ sym (append_assoc x (concat xs) (concat ys))

-- A part is on one side or on both.
abbrev pub OneSided : Part → Type 0
OneSided p = (p.added && p.removed) ≡ false

-- The slice up to a hunk, and what is left after it.
taken :
    (c : ℕ) (base U R : List Text)
    → drop c base ≡ U ++ R
    → take (c + length U - c) (drop c base) ≡ U
taken c base U R h =
    let same : c + length U - c ≡ length U = omega arith in rw (same, h) (take-append U R)

dropped :
    (c r : ℕ) (base U D R : List Text)
    → drop c base ≡ U ++ (D ++ R)
    → r ≡ length D
    → drop (c + length U + r) base ≡ R
dropped c r base U D R h e =
    rw
      (
        e,
        drop-add (c + length U) (length D) base,
        drop-add c (length U) base,
        h,
        drop-append U (D ++ R),
      )
      (drop-append D R)

assemble-cons :
    (base : List Text) (c : ℕ) (U D R : List Text) (T : Text) (h : Hunk) (hs : List Hunk)
    → drop c base ≡ U ++ (D ++ R)
    → h.start ≡ c + length U
    → assemble base (h.start + h.remove) hs ≡ some T
    → assemble base c (h ∷ hs) ≡ some ((concat U ++ concat h.add) ++ T)
unfolding assemble
assemble-cons base c U D R T h hs here s rest =
    let early : ltb h.start c ≡ false = ground arith in
    rw (early, rest, s, taken c base U (D ++ R) here) refl

assemble-nil :
    (base : List Text) (c : ℕ) (R : List Text)
    → drop c base ≡ R
    → assemble base c [] ≡ some (concat R)
unfolding assemble
assemble-nil base c R h = ap (λ ts. some (concat ts)) h

-- Where the scan stands: the cursor is before unchanged tokens `U`, and the current hunk, if there is
-- one, has taken `D` of the first list away.
abbrev Stands : ℕ → List Text → List Text → Option Hunk → ℕ → Type 0
Stands c U D none i = (i ≡ c + length U) × (D ≡ [])
Stands c U D (some h) i =
    (h.start ≡ c + length U) × (h.remove ≡ length D) × (i ≡ h.start + h.remove)

abbrev adds : Option Hunk → List Text
adds none = []
adds (some h) = h.add

abbrev taken_by : Part → List Text → List Text
taken_by p D = if p.removed then D ++ p.value else D

Stands-grow :
    (side : Side) (c i : ℕ) (U D : List Text) (current : Option Hunk) (p : Part)
    → Stands c U D current i
    → Stands c U
        (taken_by p D)
        (some (grow (fresh_hunk side i current) p))
        (if p.removed then i + length p.value else i)
Stands-grow side c i U D none p h = ground (arith, length-append D p.value, h)
Stands-grow side c i U D (some k) p h = ground (arith, length-append D p.value, h)

before-taken :
    (p : Part) (ps : List Part) (D : List Text)
    → OneSided p
    → changed p ≡ true
    → D ++ before (p ∷ ps) ≡ taken_by p D ++ before ps
unfolding before
before-taken p ps D one ch = elim (Bool-cases p.removed) [
  | inl r ↦
      let a : p.added ≡ false = ground arith in rw (r, a, append_assoc D p.value (before ps)) refl
  | inr r ↦ let a : p.added ≡ true = ground arith in rw (r, a) refl
]

adds-after :
    (side : Side) (i : ℕ) (current : Option Hunk) (p : Part) (ps : List Part)
    → OneSided p
    → changed p ≡ true
    → adds (some (grow (fresh_hunk side i current) p)) ++ after ps ≡ adds current ++ after (p ∷ ps)
unfolding after
adds-after side i none p ps one ch = elim (Bool-cases p.removed) [
  | inl r ↦ let a : p.added ≡ false = ground arith in rw (r, a) refl
  | inr r ↦ let a : p.added ≡ true = ground arith in rw (r, a) refl
]
adds-after side i (some h) p ps one ch = elim (Bool-cases p.removed) [
  | inl r ↦ let a : p.added ≡ false = ground arith in rw (r, a) refl
  | inr r ↦
      let a : p.added ≡ true = ground arith in rw (r, a, append_assoc h.add p.value (after ps)) refl
]

kept_part :
    (p : Part) (ps : List Part)
    → changed p ≡ false
    → (before (p ∷ ps) ≡ p.value ++ before ps) × (after (p ∷ ps) ≡ p.value ++ after ps)
unfolding before after
kept_part p ps h = (ground arith, ground arith)

concat-append_three :
    (U N A : List Text) → (concat U ++ concat N) ++ concat A ≡ concat (U ++ (N ++ A))
concat-append_three U N A =
    append_assoc (concat U) (concat N) (concat A)
    ∙ ap (λ t. concat U ++ t) (sym (concat-append N A))
    ∙ sym (concat-append U (N ++ A))

-- A hunk is written after the unchanged tokens before it, and then the rest.
assemble-hunk :
    (base : List Text) (c : ℕ) (U D R A : List Text) (h : Hunk) (hs : List Hunk)
    → drop c base ≡ U ++ (D ++ R)
    → h.start ≡ c + length U
    → assemble base (h.start + h.remove) hs ≡ some (concat A)
    → assemble base c (h ∷ hs) ≡ some (concat (U ++ (h.add ++ A)))
assemble-hunk base c U D R A h hs here s rest =
    assemble-cons base c U D R (concat A) h hs here s rest ∙ ap some (concat-append_three U h.add A)

left_over :
    (base : List Text) (c : ℕ) (U D R : List Text) (h : Hunk)
    → drop c base ≡ U ++ (D ++ R)
    → h.start ≡ c + length U
    → h.remove ≡ length D
    → drop (h.start + h.remove) base ≡ R
left_over base c U D R h here s r = rw s (dropped c h.remove base U D R here r)

module _ (side : Side) (base : List Text) where
  abbrev Rebuilds : List Part → Type 0
  Rebuilds ps =
      (current : Option Hunk) (c i : ℕ) (U D : List Text)
      → Stands c U D current i
      → drop c base ≡ U ++ (D ++ before ps)
      → assemble base c (scan side current i ps) ≡ some (concat (U ++ (adds current ++ after ps)))

  rebuild_end : Rebuilds []
  unfolding scan before after
  rebuild_end none c i U D st here =
      assemble-nil base c (U ++ []) (here ∙ ap (λ d. U ++ (d ++ [])) st.1)
  rebuild_end (some h) c i U D (s, r, e) here =
      assemble-hunk base c U D [] [] h [] here s
        (assemble-nil base _ [] (left_over base c U D [] h here s r))

  rebuild_changed :
      (p : Part) (ps : List Part) → OneSided p → changed p ≡ true → Rebuilds ps → Rebuilds (p ∷ ps)
  unfolding scan
  rebuild_changed p ps one ch ih current c i U D st here = rw ch (
      rw (← adds-after side i current p ps one ch) (
        ih (some (grow (fresh_hunk side i current) p)) c
          (if p.removed then i + length p.value else i) U (taken_by p D)
          (Stands-grow side c i U D current p st)
          (here ∙ ap (λ r. U ++ r) (before-taken p ps D one ch))))

  rebuild_kept : (p : Part) (ps : List Part) → changed p ≡ false → Rebuilds ps → Rebuilds (p ∷ ps)
  unfolding scan
  rebuild_kept p ps same ih none c i U D (e, d) here =
      let (b, a) = kept_part p ps same in
      rw (same, a, ← append_assoc U p.value (after ps))
        (ih none c (i + length p.value) (U ++ p.value) []
          (omega (arith, length-append U p.value), refl)
          (here
            ∙ ap (λ r. U ++ r) (ap (λ x. x ++ before (p ∷ ps)) d ∙ b)
            ∙ sym (append_assoc U p.value (before ps))))
  rebuild_kept p ps same ih (some h) c i U D (s, r, e) here =
      let (b, a) = kept_part p ps same in
      rw (same, a)
        (assemble-hunk base c U D (before (p ∷ ps)) (p.value ++ after ps) h _ here s (
          ih none (h.start + h.remove) (i + length p.value) p.value [] (omega arith, refl)
            (left_over base c U D (before (p ∷ ps)) h here s r ∙ b)))

  rebuild : (ps : List Part) → All OneSided ps → Rebuilds ps
  rebuild [] one = rebuild_end
  rebuild (p ∷ ps) (one, ones) = elim (Bool-cases (changed p)) [
    | inl ch ↦ rebuild_changed p ps one ch (rebuild ps ones)
    | inr same ↦ rebuild_kept p ps same (rebuild ps ones)
  ]

-- A comparison of two lists that is right: its parts have the first list without what was
-- added, the second without what was removed, and no part is both.
pub record Compares (parts : List Part) (base other : List Text) : Type 0 where
  pub old : before parts ≡ base
  pub new : after parts ≡ other
  pub one_sided : All OneSided parts

-- The hunks of one side, assembled on the base, give that side's text back: where the comparison
-- is right, no hunk overlaps another and nothing is lost or invented.
pub assemble-hunks :
    (E : Engine) (base other : List Text) (side : Side) {parts : List Part}
    → E.diff_arrays base other ≡ some parts
    → Compares parts base other
    → (hs : List Hunk) × (hunks E base other side ≡ some hs)
      × (assemble base 0 hs ≡ some (concat other))
unfolding hunks
assemble-hunks E base other side {parts} found right = (
  scan side none 0 parts,
  rw found refl,
  rebuild side base parts right.one_sided none 0 0 [] [] (refl, refl) (sym right.old)
      ∙ ap (λ ts. some (concat ts)) right.new,
)
