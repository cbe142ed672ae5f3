-- ===== src/Server/FolderMigration/Laws.antt =====
-- What the folder migration plans and repairs (apps/server/src/folder-migration.ts).
use gib_sync.Prelude.{
  ◌≡◌, refl, sym, ap, ◌∙◌, subst, String, Bool, true, false, ◌&&◌, ◌||◌, not, Option, none, some,
  List, ◌==◌, string_eq, option_eq, contains, keep, is_some, arith, eq_iff, Bool-cases,
  Option-cases, inl, inr,
}
use gib_sync.Prelude.Text.{Text, text_eq}
use gib_sync.Prelude.Dict.{Dict, lookup, lookup-insert_self}
use gib_sync.Prelude.Result.{ok, >>=-eq-ok, ok-injective}
use gib_sync.Protocol.Host.{Host}
use gib_sync.Server.FolderMigration.{Snapshot, LegacyFolderRepairPlan, unsafe_legacy_folder_seed}
use gib_sync.Server.FolderMigration.Chain.{current_chain}
use gib_sync.Server.FolderMigration.Lineage.{
  contains-sorted, contains-keep, brought_in, made_anew, trace-lem,
}
use gib_sync.Server.FolderMigration.Plans.{
  is_empty_list, Provenance, no_provenance, trace, contaminated, cleanup, plan_cleanup,
  head_folders, plan_legacy_folder_descendant_repair, found,
}
use gib_sync.Server.FolderMigration.Repair.{
  Vaults, rewound, rewind_to, rewind_head, rewind_found, repair_vault,
}

-- What the head's folders are split into; the folder `p` is to be retired just where it is stale.
pub record IsCleanup (fs : List Text) (is_stale : Bool) (plan : LegacyFolderRepairPlan) (p : Text)
    : Type 0 where
  pub retired : contains plan.contaminated_folders p ≡ (contains fs p && is_stale)
  pub kept : contains plan.desired_folders p ≡ (contains fs p && not is_stale)
  pub current : contains plan.current_folders p ≡ contains fs p

-- An unsafe seed of the ancestry brought the folder in, and no real device has made it anew since.
abbrev pub is_stale_folder : Host → List Snapshot → Text → Bool
is_stale_folder H chain p = brought_in H p none chain && not (made_anew H p false none chain)

cleanup-IsCleanup :
    (H : Host) (vault head : String) (chain : List Snapshot) (fs : List Text) (p : Text)
    → let origin = trace H no_provenance chain in
      IsCleanup fs
        (is_stale_folder H chain p)
        (cleanup vault head chain origin fs (contaminated origin fs))
        p
unfolding contaminated
cleanup-IsCleanup H vault head chain fs p =
    let origin = trace H no_provenance chain in
    let (tainted, remade) = trace-lem H p no_provenance chain in
    let retired =
      contains-sorted p (keep _ origin.tainted)
      ∙ contains-keep p _ origin.tainted
      ∙ rw (tainted, remade) (stale_order (contains fs p) _ _) in
    record {
      retired = retired;
      kept =
          contains-sorted p (keep _ fs)
          ∙ contains-keep p _ fs
          ∙ rw retired (left (contains fs p) _);
      current = contains-sorted p fs;
    }
  where
    stale_order : (f b a : Bool) → ((f && not a) && b) ≡ (f && (b && not a))
    stale_order f b a = ground arith

    left : (f x : Bool) → (not (f && x) && f) ≡ (f && not x)
    left f x = ground arith

plan_cleanup-some :
    (vault head : String) (chain : List Snapshot) (origin : Provenance) (o : Option (List Text))
    (plan : LegacyFolderRepairPlan)
    → plan_cleanup vault head chain origin o ≡ some plan
    → (fs : List Text) × (o ≡ some fs)
      × (plan ≡ cleanup vault head chain origin fs (contaminated origin fs))
plan_cleanup-some vault head chain origin none plan h = cc
plan_cleanup-some vault head chain origin (some fs) plan h =
    elim (Bool-cases (is_empty_list origin.origins || is_empty_list (contaminated origin fs))) [
      | inl e ↦ absurd (cc (h, e))
      | inr e ↦ (fs, refl, cc (h, e))
    ]

-- A planned repair splits the folders of the head: it retires exactly those that an unsafe seed of
-- the accepted ancestry brought in and no real device has made anew since, and it keeps the others.
pub plan_legacy_folder_descendant_repair-IsCleanup :
    (H : Host) (store : Dict String Snapshot) (vault head : String) (plan : LegacyFolderRepairPlan)
    (p : Text)
    → plan_legacy_folder_descendant_repair H store vault head ≡ ok (some plan)
    → (chain : List Snapshot) × (fs : List Text) × (current_chain store vault head ≡ ok chain)
      × (head_folders chain ≡ some fs)
      × IsCleanup fs (is_stale_folder H chain p) plan p
unfolding plan_legacy_folder_descendant_repair
plan_legacy_folder_descendant_repair-IsCleanup H store vault head plan p h =
    let (chain, walked, planned) = >>=-eq-ok (current_chain store vault head) _ h in
    let origin = trace H no_provenance chain in
    let (fs, found_folders, same) =
      plan_cleanup-some vault head chain origin (head_folders chain) plan (ok-injective planned) in
    (
      chain,
      fs,
      walked,
      found_folders,
      subst (λ q. IsCleanup fs (is_stale_folder H chain p) q p) (sym same)
          (cleanup-IsCleanup H vault head chain fs p),
    )

unsafe_seed-true :
    (H : Host) (s p : Snapshot)
    → unsafe_legacy_folder_seed H s (some p) ≡ true
    → (s.parent_id ≡ some p.id) × (is_some p.folders ≡ false)
unfolding unsafe_legacy_folder_seed
unsafe_seed-true H s p h = (option_parent s.parent_id (ground arith), ground arith)
  where
    option_parent : (o : Option String) → (o == some p.id) ≡ true → o ≡ some p.id
    option_parent none e = cc
    option_parent (some q) e = ap (λ i. some i) ((eq_iff q p.id).0 e)

some-injective :
    {a b : Snapshot × Snapshot} → ◌≡◌ {A = Option (Snapshot × Snapshot)} (some a) (some b) → a ≡ b
some-injective h = cc

rewind_to-some :
    (H : Host) (s : Snapshot) (o : Option Snapshot) (both : Snapshot × Snapshot)
    → rewind_to H s o ≡ some both
    → (o ≡ some both.1) × (unsafe_legacy_folder_seed H s (some both.1) ≡ true)
rewind_to-some H s none both h = cc
rewind_to-some H s (some p) both h = elim (Bool-cases (unsafe_legacy_folder_seed H s (some p))) [
  | inl u ↦
      let pair : (s, p) ≡ both = some-injective (sym (rw u refl) ∙ h) in
      subst
        (λ (q : Snapshot × Snapshot).
          (some p ≡ some q.1) × (unsafe_legacy_folder_seed H s (some q.1) ≡ true))
        pair (refl, u)
  | inr u ↦ absurd (cc (h, u))
]

found-lookup :
    (store : Dict String Snapshot) (o : Option String) (p : Snapshot)
    → o ≡ some p.id
    → found o store ≡ some p
    → lookup p.id store ≡ some p
found-lookup store none p e f = cc
found-lookup store (some id) p e f = elim (Bool-cases (id == "")) [
  | inl b ↦ absurd (cc (f, b))
  | inr b ↦
      let same : id ≡ p.id = cc in subst (λ k. lookup k store ≡ some p) same (sym (rw b refl) ∙ f)
]

rewound-some :
    (H : Host) (store : Dict String Snapshot) (o : Option Snapshot) (both : Snapshot × Snapshot)
    → rewound H store o ≡ some both
    → (lookup (both.1).id store ≡ some both.1) × (is_some (both.1).folders ≡ false)
rewound-some H store none both h = cc
rewound-some H store (some s) both h =
    let (parent, seed) = rewind_to-some H s (found s.parent_id store) both h in
    let (named, bare) = unsafe_seed-true H s both.1 seed in
    (found-lookup store s.parent_id both.1 named parent, bare)

-- A snapshot that declares no folders is no unsafe seed.
rewind_to-bare :
    (H : Host) (s : Snapshot) (o : Option Snapshot)
    → is_some s.folders ≡ false
    → rewind_to H s o ≡ none
unfolding unsafe_legacy_folder_seed
rewind_to-bare H s none h = refl
rewind_to-bare H s (some p) h = ground arith

head_after :
    (vault : String) (both : Snapshot × Snapshot) (v : Vaults)
    → (lookup vault v.heads == some (some (both.0).id)) ≡ true
    → lookup vault (rewind_head vault both.0 both.1 v).0.heads ≡ some (some (both.1).id)
unfolding rewind_head
head_after vault both v same = rw same (lookup-insert_self vault (some (both.1).id) v.heads)

rewind_head-stay :
    (vault : String) (both : Snapshot × Snapshot) (v : Vaults)
    → (lookup vault v.heads == some (some (both.0).id)) ≡ false
    → rewind_head vault both.0 both.1 v ≡ (v, 0)
unfolding rewind_head
rewind_head-stay vault both v other = rw other refl

repair_vault-none :
    (H : Host) (store : Dict String Snapshot) (vault id : String) (v : Vaults)
    → rewound H store (lookup id store) ≡ none
    → repair_vault H store vault (some id) v ≡ (v, 0)
unfolding repair_vault rewind_found
repair_vault-none H store vault id v e = ap (λ o. rewind_found vault o v) e

repair_vault-some :
    (H : Host) (store : Dict String Snapshot) (vault id : String) (v : Vaults)
    (both : Snapshot × Snapshot)
    → rewound H store (lookup id store) ≡ some both
    → repair_vault H store vault (some id) v ≡ rewind_head vault both.0 both.1 v
unfolding repair_vault rewind_found
repair_vault-some H store vault id v both e = ap (λ o. rewind_found vault o v) e

head-injective : {a b : Option String} → ◌≡◌ {A = Option (Option String)} (some a) (some b) → a ≡ b
head-injective h = cc

-- Repairing a vault once is enough: whatever its head is then, a second repair changes nothing.
pub repair_vault-repair_vault :
    (H : Host) (store : Dict String Snapshot) (vault : String) (head head' : Option String)
    (v : Vaults)
    → lookup vault v.heads ≡ some head
    → lookup vault (repair_vault H store vault head v).0.heads ≡ some head'
    → repair_vault H store vault head' (repair_vault H store vault head v).0
      ≡ ((repair_vault H store vault head v).0, 0)
unfolding repair_vault
repair_vault-repair_vault H store vault none head' v before after =
    let same : none ≡ head' = head-injective (sym before ∙ after) in
    subst (λ h. repair_vault H store vault h v ≡ (v, 0)) same refl
repair_vault-repair_vault H store vault (some id) head' v before after =
    elim (Option-cases (rewound H store (lookup id store))) [
      | inl e ↦ stays (repair_vault-none H store vault id v e)
      | inr (both, e) ↦ elim (Bool-cases (lookup vault v.heads == some (some (both.0).id))) [
        | inl same ↦
            let (kept, bare) = rewound-some H store (lookup id store) both e in
            let once = repair_vault-some H store vault id v both e in
            let now : some (both.1).id ≡ head' =
              head-injective (sym (rw once (head_after vault both v same)) ∙ after) in
            subst
              (λ h.
                repair_vault H store vault h (repair_vault H store vault (some id) v).0
                ≡ ((repair_vault H store vault (some id) v).0, 0))
              now
              (repair_vault-none H store vault (both.1).id _
                (rw kept (rewind_to-bare H both.1 (found (both.1).parent_id store) bare)))
        | inr other ↦
            stays
              (repair_vault-some H store vault id v both e ∙ rewind_head-stay vault both v other)
      ]
    ]
  where
    stays :
        repair_vault H store vault (some id) v ≡ (v, 0)
        → repair_vault H store vault head' (repair_vault H store vault (some id) v).0
          ≡ ((repair_vault H store vault (some id) v).0, 0)
    stays quiet =
        let now : some id ≡ head' = head-injective (sym before ∙ (sym (rw quiet refl) ∙ after)) in
        subst
          (λ h.
            repair_vault H store vault h (repair_vault H store vault (some id) v).0
            ≡ ((repair_vault H store vault (some id) v).0, 0))
          now (subst (λ r. repair_vault H store vault (some id) r.0 ≡ (r.0, 0)) (sym quiet) quiet)
