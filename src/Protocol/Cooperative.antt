-- ===== src/Protocol/Cooperative.antt =====
-- packages/protocol/src/operations.ts: the bottom-up merge sort inside
-- `planReconciliationCooperative`, which sorts without one long synchronous call. Arrays are
-- lists; the two runs that are merged are what is left between `a` and `endA`, `b` and `endB`.
use gib_sync.Prelude.{
  ℕ, zero, suc, ◌+◌, ◌*◌, ◌≤◌, ◌<◌, ◌≡◌, refl, ap, subst, ◌∙◌, Bool, List, [], ◌∷◌, ◌++◌, arith,
  ltb, if◌then◌else◌, length, length-append, take, drop, length-take, length-drop, take-eq_self,
  drop-eq-nil, take-append, drop-append, take-add, drop-add, take-nil, drop-nil, Bool-cases, inl,
  inr,
}
use mathlib.Core.List.{append-nil}
use gib_sync.Prelude.Sorting.{IsOrder, merge, insert_sorted, sort, length-sort, merge-sort}

module _ {ℓ} {A : Type ℓ} (le : A → A → Bool) where
  -- The loop over `start`, for at most so many rounds; a round past the end adds nothing.
  unfoldable pub merge_pass : ℕ → ℕ → List A → List A
  merge_pass zero width ordered = []
  merge_pass (suc rounds) width ordered =
      merge le (take width ordered) (take width (drop width ordered))
      ++ merge_pass rounds width (drop width (drop width ordered))

  -- The loop over `width`, which starts at 1 and doubles.
  unfoldable pub merge_widths : ℕ → ℕ → List A → List A
  unfolding merge_pass
  merge_widths zero width ordered = ordered
  merge_widths (suc rounds) width ordered =
      let rest = merge_widths rounds (width * 2) (merge_pass (length ordered) width ordered) in
      if ltb width (length ordered) then rest else ordered

  unfoldable pub sort_cooperative : List A → List A
  unfolding merge_widths
  sort_cooperative paths = merge_widths (length paths) 1 paths

  -- The list cut into runs of the given width, each of them sorted.
  sorted_runs : ℕ → ℕ → List A → List A
  sorted_runs zero width xs = []
  sorted_runs (suc rounds) width xs =
      sort le (take width xs) ++ sorted_runs rounds width (drop width xs)

  sorted_runs-nil : (f w : ℕ) → sorted_runs f w [] ≡ []
  unfolding sorted_runs sort
  sorted_runs-nil zero w = refl
  sorted_runs-nil (suc f) w = rw (take-nil w, drop-nil w) (sorted_runs-nil f w)

  -- Rounds past the end of the list change nothing.
  sorted_runs-suc :
      (f w : ℕ) (xs : List A)
      → 0 < w
      → length xs ≤ f
      → sorted_runs (suc f) w xs ≡ sorted_runs f w xs
  unfolding sorted_runs
  sorted_runs-suc zero w [] pos h = sorted_runs-nil 1 w
  sorted_runs-suc zero w (x ∷ xs) pos h = absurd (omega arith)
  sorted_runs-suc (suc f) w xs pos h =
      ap (λ r. sort le (take w xs) ++ r)
        (sorted_runs-suc f w (drop w xs) pos (omega (arith, length-drop {ℓ} w xs)))

  -- The first run, and what follows it.
  split_run :
      (w : ℕ) (xs : List A) (rest : List A)
      → (length xs < w → rest ≡ [])
      → (take w (sort le (take w xs) ++ rest) ≡ sort le (take w xs))
        × (drop w (sort le (take w xs) ++ rest) ≡ rest)
  split_run w xs rest short = elim (Bool-cases (ltb (length xs) w)) [
    | inl lt ↦
        rw (short (ground arith), append-nil)
          (
            take-eq_self w _ (omega (arith, length-sort le (take w xs), length-take {ℓ} w xs)),
            drop-eq-nil w _ (omega (arith, length-sort le (take w xs), length-take {ℓ} w xs)),
          )
    | inr ge ↦
        let full : length (sort le (take w xs)) ≡ w =
          ground (arith, length-sort le (take w xs), length-take w xs) in
        (
          subst (λ k. take k (sort le (take w xs) ++ rest) ≡ sort le (take w xs)) full
              (take-append (sort le (take w xs)) rest),
          subst (λ k. drop k (sort le (take w xs) ++ rest) ≡ rest) full
              (drop-append (sort le (take w xs)) rest),
        )
  ]

  split_runs :
      (f w : ℕ) (xs : List A)
      → (take w (sorted_runs (suc f) w xs) ≡ sort le (take w xs))
        × (drop w (sorted_runs (suc f) w xs) ≡ sorted_runs f w (drop w xs))
  unfolding sorted_runs
  split_runs f w xs =
      split_run w xs (sorted_runs f w (drop w xs))
        (λ h. rw (drop-eq-nil w xs (omega arith)) (sorted_runs-nil f w))

  sorted_runs-one : (f : ℕ) (xs : List A) → length xs ≤ f → sorted_runs f 1 xs ≡ xs
  unfolding sorted_runs sort insert_sorted
  sorted_runs-one zero [] h = refl
  sorted_runs-one zero (x ∷ xs) h = absurd (omega arith)
  sorted_runs-one (suc f) [] h = sorted_runs-one f [] (omega arith)
  sorted_runs-one (suc f) (x ∷ xs) h = ap (λ r. x ∷ r) (sorted_runs-one f xs (omega arith))

  sorted_runs-whole :
      (f w : ℕ) (xs : List A) → length xs ≤ f → length xs ≤ w → sorted_runs f w xs ≡ sort le xs
  unfolding sorted_runs
  sorted_runs-whole zero w [] h k = unfold sort in refl
  sorted_runs-whole zero w (x ∷ xs) h k = absurd (omega arith)
  sorted_runs-whole (suc f) w xs h k =
      rw (take-eq_self w xs k, drop-eq-nil w xs k, sorted_runs-nil f w) (append-nil (sort le xs))

  length-sorted_runs :
      (f w : ℕ) (xs : List A) → 0 < w → length xs ≤ f → length (sorted_runs f w xs) ≡ length xs
  unfolding sorted_runs
  length-sorted_runs zero w xs pos h = omega arith
  length-sorted_runs (suc f) w xs pos h = omega (
    arith,
    length-append {ℓ} (sort le (take w xs)) (sorted_runs f w (drop w xs)),
    length-sort le (take w xs),
    length-take {ℓ} w xs,
    length-drop {ℓ} w xs,
    length-sorted_runs f w (drop w xs) pos,
  )

module _ {ℓ} {A : Type ℓ} {le : A → A → Bool} (O : IsOrder le) where
  -- One pass makes runs of twice the width.
  merge_pass-sorted_runs :
      (f w : ℕ) (xs : List A)
      → 0 < w
      → length xs ≤ f
      → merge_pass le f w (sorted_runs le f w xs) ≡ sorted_runs le f (w + w) xs
  unfolding merge_pass
  merge_pass-sorted_runs zero w xs pos h = unfold sorted_runs in refl
  merge_pass-sorted_runs (suc f) w xs pos h =
      let ys = drop w xs in
      let first = split_runs le f w xs in
      let more = sorted_runs-suc le f w ys pos (omega (arith, length-drop {ℓ} w xs)) in
      let second = split_runs le f w ys in
      let ih =
        merge_pass-sorted_runs f w (drop w ys) pos
          (omega (arith, length-drop {ℓ} w ys, length-drop {ℓ} w xs)) in
      rw (first.0, first.1, ← more, second.0, second.1, ih, merge-sort O)
        (rw (← take-add w w xs, ← drop-add w w xs) (unfold sorted_runs in refl))

  merge_widths-eq-sort :
      (rounds w f : ℕ) (xs : List A)
      → 0 < w
      → length xs ≡ f
      → f ≤ w + rounds
      → merge_widths le rounds w (sorted_runs le f w xs) ≡ sort le xs
  unfolding merge_widths
  merge_widths-eq-sort zero w f xs pos h enough =
      sorted_runs-whole le f w xs (omega arith) (omega arith)
  merge_widths-eq-sort (suc rounds) w f xs pos h enough =
      let len : length (sorted_runs le f w xs) ≡ f =
        length-sorted_runs le f w xs pos (omega arith) ∙ h in
      elim (Bool-cases (ltb w f)) [
        | inl more ↦
            rw (len, more, merge_pass-sorted_runs f w xs pos (omega arith), double)
              (merge_widths-eq-sort rounds (w * 2) f xs (omega arith) h (omega arith))
        | inr done ↦ rw (len, done) (sorted_runs-whole le f w xs (omega arith) (ground arith))
      ]
    where
      double : w + w ≡ w * 2
      double = omega arith

  -- The cooperative sort returns what `Array.prototype.sort` returns.
  pub sort_cooperative-eq-sort : (paths : List A) → sort_cooperative le paths ≡ sort le paths
  unfolding sort_cooperative
  sort_cooperative-eq-sort paths =
      subst (λ ys. merge_widths le (length paths) 1 ys ≡ sort le paths)
        (sorted_runs-one le (length paths) paths (omega arith))
        (merge_widths-eq-sort (length paths) 1 (length paths) paths (omega arith) refl
          (omega arith))
