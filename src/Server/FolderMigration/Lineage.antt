-- ===== src/Server/FolderMigration/Lineage.antt =====
-- What becomes of one folder along the accepted ancestry, and that
-- `planLegacyFolderDescendantRepair` (apps/server/src/folder-migration.ts) finds it out.
use gib_sync.Prelude.{
  ◌≡◌, refl, sym, ap, ◌∙◌, subst, Bool, true, false, ◌&&◌, ◌||◌, not, Option, none, some, List, [],
  ◌∷◌, ◌++◌, ◌==◌, contains, keep, is_some, if◌then◌else◌, arith, Bool-cases, inl, inr,
}
use gib_sync.Prelude.Text.{Text, text_eq, text_leb, text_beq, text_beq_iff}
use gib_sync.Prelude.Sorting.{sort, insert_sorted}
use gib_sync.Protocol.Host.{Host}
use gib_sync.Server.Paths.{add_once, add_all}
use gib_sync.Server.FolderMigration.{
  Snapshot, unsafe_legacy_folder_seed, trusted_device, folders_of, sorted,
}
use gib_sync.Server.FolderMigration.Plans.{
  Provenance, recreated_folders, note_recreations, taint, trace,
}

module _ (p : Text) where
  contains-insert_sorted :
      (x : Text) (ys : List Text)
      → contains (insert_sorted text_leb x ys) p ≡ (if p == x then true else contains ys p)
  unfolding insert_sorted
  contains-insert_sorted x [] = refl
  contains-insert_sorted x (y ∷ ys) = ground (arith, contains-insert_sorted x ys)

  pub contains-sorted : (xs : List Text) → contains (sorted xs) p ≡ contains xs p
  unfolding sort
  contains-sorted [] = refl
  contains-sorted (x ∷ xs) =
      contains-insert_sorted x (sorted xs)
      ∙ ap (λ b. if p == x then true else b) (contains-sorted xs)

  pub contains-keep :
      (test : Text → Bool) (xs : List Text) → contains (keep test xs) p ≡ (test p && contains xs p)
  contains-keep test [] = ground arith
  contains-keep test (x ∷ xs) = elim (Bool-cases (p == x)) [
    | inl e ↦
        let same : x ≡ p = sym ((text_beq_iff p x).0 e) in
        subst (λ y. contains (keep test (y ∷ xs)) p ≡ (test p && contains (y ∷ xs) p)) (sym same)
          (ground (arith, contains-keep test xs, text_beq_iff p p))
    | inr e ↦ ground (arith, contains-keep test xs)
  ]

  contains-append : (xs ys : List Text) → contains (xs ++ ys) p ≡ (contains xs p || contains ys p)
  contains-append [] ys = refl
  contains-append (x ∷ xs) ys = ground (arith, contains-append xs ys)

  contains-add_once :
      (set : List Text) (x : Text)
      → contains (add_once set x) p ≡ (contains set p || contains (x ∷ []) p)
  contains-add_once set x = elim (Bool-cases (contains set x)) [
    | inl e ↦ rw e (elim (Bool-cases (text_beq p x)) [
      | inl f ↦
          let same : x ≡ p = sym ((text_beq_iff p x).0 f) in
          let there : contains set p ≡ true = subst (λ y. contains set y ≡ true) same e in
          rw (f, there) refl
      | inr f ↦ rw f (ground arith)
    ])
    | inr e ↦ rw e (contains-append set (x ∷ []))
  ]

  contains-add_all :
      (set xs : List Text) → contains (add_all set xs) p ≡ (contains set p || contains xs p)
  contains-add_all set [] = ground arith
  contains-add_all set (x ∷ xs) =
      ground (arith, contains-add_all (add_once set x) xs, contains-add_once set x)

-- The snapshot after `previous` is an unsafe seed that has the folder.
abbrev pub is_seed_of : Host → Text → Option Snapshot → Snapshot → Bool
is_seed_of H p previous s = unsafe_legacy_folder_seed H s previous && contains (folders_of s) p

-- Both snapshots declare their folders, a real device made the second one, and only that has the
-- folder.
abbrev pub remakes : Text → Snapshot → Snapshot → Bool
remakes p before s =
    is_some before.folders
    && is_some s.folders
    && trusted_device s
    && not (contains (folders_of before) p)
    && contains (folders_of s) p

abbrev pub is_remade : Host → Text → Option Snapshot → Snapshot → Bool
is_remade H p none s = false
is_remade H p (some before) s =
    not (unsafe_legacy_folder_seed H s (some before)) && remakes p before s

-- Some unsafe seed brought the folder in.
unfoldable pub brought_in : Host → Text → Option Snapshot → List Snapshot → Bool
unfolding unsafe_legacy_folder_seed
brought_in H p previous [] = false
brought_in H p previous (s ∷ rest) =
    let later = brought_in H p (some s) rest in is_seed_of H p previous s || later

-- A real device made it anew at some time after that; `since` says that it was brought in before.
unfoldable pub made_anew : Host → Text → (since : Bool) → Option Snapshot → List Snapshot → Bool
unfolding unsafe_legacy_folder_seed
made_anew H p since previous [] = false
made_anew H p since previous (s ∷ rest) =
    let later = made_anew H p (since || is_seed_of H p previous s) (some s) rest in
    (since && is_remade H p previous s) || later

abbrev step : Provenance → Snapshot → Bool → Provenance
step o s seed =
    if seed then taint o s else record (note_recreations o s o.previous) { previous = some s }

module _ (H : Host) (p : Text) where
  remade_now :
      (o : Provenance) (before s : Snapshot)
      → contains (recreated_folders o (folders_of before) (folders_of s)) p ≡ (
          (not (contains (folders_of before) p) && contains o.tainted p)
          && contains (folders_of s) p)
  remade_now o before s = contains-keep p _ (folders_of s)

  note_recreations-lem :
      (o : Provenance) (s : Snapshot) (previous : Option Snapshot)
      → unsafe_legacy_folder_seed H s previous ≡ false
      → ((note_recreations o s previous).tainted ≡ o.tainted)
        × (contains (note_recreations o s previous).trusted_recreations p ≡ (
            contains o.trusted_recreations p || (contains o.tainted p && is_remade H p previous s)))
  note_recreations-lem o s none u = (refl, ground arith)
  note_recreations-lem o s (some before) u =
      elim (Bool-cases (is_some before.folders && is_some s.folders && trusted_device s)) [
        | inl e ↦ rw e (
          refl,
          rw u (
              contains-add_all p o.trusted_recreations
                (recreated_folders o (folders_of before) (folders_of s))
              ∙ rw (remade_now o before s) (ground arith)),
        )
        | inr e ↦ rw e (refl, ground arith)
      ]

  is_remade-seed :
      (previous : Option Snapshot) (s : Snapshot)
      → unsafe_legacy_folder_seed H s previous ≡ true
      → is_remade H p previous s ≡ false
  is_remade-seed none s u = refl
  is_remade-seed (some before) s u = rw u refl

  regroup : (a b c : Bool) → ((a || b) || c) ≡ (a || (b || c))
  regroup a b c = ground arith

  trace-seed :
      (o : Provenance) (s : Snapshot) (rest : List Snapshot)
      → unsafe_legacy_folder_seed H s o.previous ≡ true
      → trace H o (s ∷ rest) ≡ trace H (taint o s) rest
  unfolding trace
  trace-seed o s rest u = ap (λ b. trace H (step o s b) rest) u

  trace-other :
      (o : Provenance) (s : Snapshot) (rest : List Snapshot)
      → unsafe_legacy_folder_seed H s o.previous ≡ false
      → trace H o (s ∷ rest) ≡ trace H (step o s false) rest
  unfolding trace
  trace-other o s rest u = ap (λ b. trace H (step o s b) rest) u

  abbrev Followed : Provenance → List Snapshot → Provenance → Type 0
  Followed o chain found =
      (contains found.tainted p ≡ (contains o.tainted p || brought_in H p o.previous chain))
      × (contains found.trusted_recreations p ≡ (
          contains o.trusted_recreations p
          || made_anew H p (contains o.tainted p) o.previous chain))

  or_false : (b : Bool) → (b || false) ≡ b
  or_false b = ground arith

  -- The sets that the loop over the ancestry collects, one folder at a time.
  pub trace-lem : (o : Provenance) (chain : List Snapshot) → Followed o chain (trace H o chain)
  unfolding trace brought_in made_anew
  trace-lem o [] = (ground arith, ground arith)
  trace-lem o (s ∷ rest) = elim (Bool-cases (unsafe_legacy_folder_seed H s o.previous)) [
    | inl u ↦
        let (tainted, remade) = trace-lem (taint o s) rest in
        let more = contains-add_all p o.tainted (folders_of s) in
        subst (Followed o (s ∷ rest)) (sym (trace-seed o s rest u)) (
          rw u (
            tainted
                ∙ rw more (
                    regroup (contains o.tainted p) (contains (folders_of s) p)
                      (brought_in H p (some s) rest)),
            remade ∙ rw (more, is_remade-seed o.previous s u) (ground arith),
          ))
    | inr u ↦
        let (tainted, remade) = trace-lem (step o s false) rest in
        let (same, noted) = note_recreations-lem o s o.previous u in
        subst (Followed o (s ∷ rest)) (sym (trace-other o s rest u)) (
          rw u (
            tainted ∙ rw same refl,
            remade
                ∙ rw (same, noted)
                    (rw (or_false (contains o.tainted p)) (
                      regroup (contains o.trusted_recreations p)
                        (contains o.tainted p && is_remade H p o.previous s)
                        (made_anew H p (contains o.tainted p) (some s) rest))),
          ))
  ]
