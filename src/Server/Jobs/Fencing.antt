-- ===== src/Server/Jobs/Fencing.antt =====
-- A lease is exclusive while it runs, and work that is requested meanwhile is not lost
-- (apps/server/src/jobs.ts).
use gib_sync.Prelude.{
  ℕ, ◌+◌, ◌<◌, ◌≤◌, ◌≡◌, ◌≢◌, refl, sym, subst, String, Bool, true, false, Option, none, some, List,
  [], ◌∷◌, arith, All, eq_iff, if◌then◌else◌, ◌==◌, string_eq, nat_eq, min, Option-cases, inl, inr,
}
use gib_sync.Prelude.Dict.{lookup, lookup-insert_self}
use gib_sync.Server.Jobs.{
  Job, WorkLease, Jobs, Event, requested, claimed, renewed, finished, retried, unleased, claim,
  enqueue, finish, apply, replay, actor, owns,
}
use gib_sync.Server.Jobs.Laws.{row_after, target, lookup-apply}

-- `owner` holds the row until the given time.
abbrev pub Held : String → ℕ → Option Job → Type 0
Held owner until none = ⊥
Held owner until (some j) = (j.lease_owner ≡ some owner) × (j.lease_until ≡ some until)

-- Something that happens before `until`, and that `owner` does not do itself.
abbrev pub Foreign : String → ℕ → ℕ × Event → Type 0
Foreign owner until (now, e) = (now < until) × (actor e ≢ some owner)

row_after-Held :
    (owner : String) (until now : ℕ) (e : Event) (row : Option Job)
    → Foreign owner until (now, e)
    → Held owner until row
    → Held owner until (row_after now e row)
row_after-Held owner until now (requested w d) (some j) f h = h
row_after-Held owner until now (claimed w o ms) (some j) f h = ground arith
row_after-Held owner until now (renewed l ms) (some j) f h = ground (arith, eq_iff owner l.owner)
row_after-Held owner until now (finished l) (some j) f h = ground (arith, eq_iff owner l.owner)
row_after-Held owner until now (retried l x d) (some j) f h = ground (arith, eq_iff owner l.owner)
row_after-Held owner until now e none f h = absurd h

Held-if :
    (owner : String) (until : ℕ) (b : Bool) (new old : Option Job)
    → Held owner until new
    → Held owner until old
    → Held owner until (if b then new else old)
Held-if owner until true new old n o = n
Held-if owner until false new old n o = o

apply-Held :
    (vault owner : String) (until now : ℕ) (e : Event) (jobs : Jobs)
    → Foreign owner until (now, e)
    → Held owner until (lookup vault jobs)
    → Held owner until (lookup vault (apply now e jobs))
apply-Held vault owner until now e jobs f h =
    subst (Held owner until) (sym (lookup-apply now e jobs vault)) (
      Held-if owner until (target e == vault) _ _
        (row_after-Held owner until now e (lookup vault jobs) f h) h)

replay-Held :
    (events : List (ℕ × Event)) (vault owner : String) (until : ℕ) (jobs : Jobs)
    → All (Foreign owner until) events
    → Held owner until (lookup vault jobs)
    → Held owner until (lookup vault (replay events jobs))
unfolding replay
replay-Held [] vault owner until jobs f h = h
replay-Held ((now, e) ∷ events) vault owner until jobs (f, fs) h =
    replay-Held events vault owner until (apply now e jobs) fs
      (apply-Held vault owner until now e jobs f h)

-- The lease and the table of a claim that succeeds.
record Claimed (vault owner : String) (until : ℕ) (l : WorkLease) (after : Jobs) : Type 0 where
  lease : (l.vault_id ≡ vault) × (l.owner ≡ owner)
  held : Held owner until (lookup vault after)
  row :
      (j : Job) × (lookup vault after ≡ some j)
      × (j.lease_owner ≡ some owner)
      × (j.revision ≡ l.revision)

claim-Claimed :
    (vault owner : String) (now ms : ℕ) (jobs : Jobs) {l : WorkLease}
    → (claim vault owner now ms jobs).0 ≡ some l
    → Claimed vault owner (now + ms) l (claim vault owner now ms jobs).1
unfolding claim
claim-Claimed vault owner now ms jobs h = elim (Option-cases (lookup vault jobs)) [
  | inl e ↦ ground arith
  | inr (j, e) ↦
      let j' : Job = record j { lease_owner = some owner; lease_until = some (now + ms) } in
      let stored = lookup-insert_self vault j' jobs in
      record {
        lease = ground (arith, stored);
        held = ground (arith, stored);
        row = (j', ground (arith, stored), ground arith, ground arith);
      }
]

-- What `finish` leaves of a row that its lease owns.
lookup-finish :
    (l : WorkLease) (jobs : Jobs) (j : Job)
    → lookup l.vault_id jobs ≡ some j
    → j.lease_owner ≡ some l.owner
    → lookup l.vault_id (finish l jobs)
      ≡ (if j.revision == l.revision then none else some (unleased j))
unfolding apply
lookup-finish l jobs j found owned = ground (
  arith,
  lookup-apply 0 (finished l) jobs l.vault_id,
  eq_iff l.vault_id l.vault_id,
  eq_iff l.owner l.owner,
)

-- `enqueue` counts the revision up and leaves the lease alone.
lookup-enqueue :
    (vault : String) (at delay : ℕ) (jobs : Jobs) (j : Job)
    → lookup vault jobs ≡ some j
    → lookup vault (enqueue vault at delay jobs)
      ≡ some (record j { due_at = min j.due_at (at + delay); revision = j.revision + 1 })
unfolding apply
lookup-enqueue vault at delay jobs j found =
    ground (arith, lookup-apply at (requested vault delay) jobs vault, eq_iff vault vault)

Held-owns :
    (l : WorkLease) (until now : ℕ) (jobs : Jobs)
    → now < until
    → Held l.owner until (lookup l.vault_id jobs)
    → owns l now jobs ≡ true
unfolding owns
Held-owns l until now jobs early h = ground (arith, eq_iff l.owner l.owner)

-- A worker that has claimed a vault at the time `now` owns it at every time before `now + ms`,
-- whatever others request, claim, renew, finish or retry before then.
pub claim_exclusive :
    (vault owner : String) (now ms at : ℕ) (jobs : Jobs) {l : WorkLease} (events : List (ℕ × Event))
    → (claim vault owner now ms jobs).0 ≡ some l
    → All (Foreign owner (now + ms)) events
    → at < now + ms
    → owns l at (replay events (claim vault owner now ms jobs).1) ≡ true
claim_exclusive vault owner now ms at jobs {l} events won foreign early =
    let c = claim-Claimed vault owner now ms jobs won in
    let after = replay events (claim vault owner now ms jobs).1 in
    let held = replay-Held events vault owner (now + ms) _ foreign c.held in
    Held-owns l (now + ms) at after early (rw (c.lease.0, c.lease.1) held)

-- A request that arrives between a claim and its `finish` leaves the vault in the table, free
-- for the next worker; without one, `finish` takes the vault out.
pub finish-claim :
    (vault owner : String) (now ms at delay : ℕ) (jobs : Jobs) {l : WorkLease}
    → (claim vault owner now ms jobs).0 ≡ some l
    → let claimed_jobs = (claim vault owner now ms jobs).1 in
      (lookup vault (finish l claimed_jobs) ≡ none)
      × ((j : Job) × (lookup vault (finish l (enqueue vault at delay claimed_jobs)) ≡ some j)
          × (j.lease_owner ≡ none)
          × (j.due_at ≤ at + delay))
finish-claim vault owner now ms at delay jobs {l} won =
    let c = claim-Claimed vault owner now ms jobs won in
    let after = (claim vault owner now ms jobs).1 in
    let (j, found, owned, same) = c.row in
    let queued_again = lookup-enqueue vault at delay after j found in
    let j' : Job = record j { due_at = min j.due_at (at + delay); revision = j.revision + 1 } in
    (
      ground (arith, lookup-finish l after j, c.lease),
      (
        unleased j',
        ground (arith, lookup-finish l (enqueue vault at delay after) j', c.lease, queued_again),
        refl,
        omega arith,
      ),
    )
