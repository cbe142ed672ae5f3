-- ===== src/Server/Jobs/Laws.antt =====
-- The rows of `mirror_jobs` under the operations of apps/server/src/jobs.ts.
use gib_sync.Prelude.{
  ℕ, ◌+◌, ◌≡◌, String, true, Option, none, some, arith, eq_iff, ◌==◌, string_eq, nat_eq,
  Option-cases, inl, inr, min, leb, ◌&&◌, if◌then◌else◌,
}
use gib_sync.Prelude.Dict.{lookup, lookup-insert, lookup-erase}
use gib_sync.Server.Jobs.{
  Job, WorkLease, Jobs, Event, requested, claimed, renewed, finished, retried, queued, unleased,
  is_free, owned_by, enqueue, claim, renew, finish, retry, apply,
}

-- The vault whose row the event may change.
abbrev pub target : Event → String
target (requested vault delay) = vault
target (claimed vault owner ms) = vault
target (renewed l ms) = l.vault_id
target (finished l) = l.vault_id
target (retried l error delay) = l.vault_id

-- What an event makes of that row.
abbrev pub row_after : ℕ → Event → Option Job → Option Job
row_after now (requested vault delay) none = some (queued (now + delay))
row_after now (requested vault delay) (some j) =
    some (record j { due_at = min j.due_at (now + delay); revision = j.revision + 1 })
row_after now (claimed vault owner ms) (some j) =
    if leb j.due_at now && is_free j now
    then some (record j { lease_owner = some owner; lease_until = some (now + ms) })
    else some j
row_after now (renewed l ms) (some j) =
    some (if owned_by j l.owner then record j { lease_until = some (now + ms) } else j)
row_after now (finished l) (some j) =
    if owned_by j l.owner
    then (if j.revision == l.revision then none else some (unleased j))
    else some j
row_after now (retried l error delay) (some j) =
    if owned_by j l.owner
    then some (record (unleased j) {
      due_at = now + delay;
      attempts = j.attempts + 1;
      last_error = some error;
    })
    else some j
row_after now e none = none

abbrev Pointwise : ℕ → Event → Jobs → Type 0
Pointwise now e jobs =
    (vault : String)
    → lookup vault (apply now e jobs)
      ≡ (if target e == vault then row_after now e (lookup vault jobs) else lookup vault jobs)

same_key :
    (k vault : String) (jobs : Jobs) → (k == vault) ≡ true → lookup k jobs ≡ lookup vault jobs
same_key k vault jobs h = cc ((eq_iff k vault).0 h)

apply-requested : (now : ℕ) (w : String) (d : ℕ) (jobs : Jobs) → Pointwise now (requested w d) jobs
unfolding apply
apply-requested now w d jobs vault = elim (Option-cases (lookup w jobs)) [
  | inl e ↦
      rw (e, enqueue)
        (ground (arith, lookup-insert vault w (queued (now + d)) jobs, same_key w vault jobs))
  | inr (j, e) ↦
      rw (e, enqueue)
        (ground (
          arith,
          lookup-insert vault w
              (record j { due_at = min j.due_at (now + d); revision = j.revision + 1 }) jobs,
          same_key w vault jobs,
        ))
]

apply-claimed :
    (now : ℕ) (w o : String) (ms : ℕ) (jobs : Jobs) → Pointwise now (claimed w o ms) jobs
unfolding apply
apply-claimed now w o ms jobs vault = elim (Option-cases (lookup w jobs)) [
  | inl e ↦ rw (e, apply, claim) (ground (arith, same_key w vault jobs))
  | inr (j, e) ↦
      rw (e, apply, claim)
        (ground (
          arith,
          lookup-insert vault w (record j { lease_owner = some o; lease_until = some (now + ms) })
              jobs,
          same_key w vault jobs,
        ))
]

apply-renewed : (now : ℕ) (l : WorkLease) (ms : ℕ) (jobs : Jobs) → Pointwise now (renewed l ms) jobs
unfolding apply
apply-renewed now l ms jobs vault = elim (Option-cases (lookup l.vault_id jobs)) [
  | inl e ↦ rw (e, apply, renew) (ground (arith, same_key l.vault_id vault jobs))
  | inr (j, e) ↦
      rw (e, apply, renew)
        (ground (
          arith,
          lookup-insert vault l.vault_id (record j { lease_until = some (now + ms) }) jobs,
          same_key l.vault_id vault jobs,
        ))
]

apply-finished : (now : ℕ) (l : WorkLease) (jobs : Jobs) → Pointwise now (finished l) jobs
unfolding apply
apply-finished now l jobs vault = elim (Option-cases (lookup l.vault_id jobs)) [
  | inl e ↦ rw (e, apply, finish) (ground (arith, same_key l.vault_id vault jobs))
  | inr (j, e) ↦
      rw (e, apply, finish)
        (ground (
          arith,
          lookup-insert vault l.vault_id (unleased j) jobs,
          lookup-erase vault l.vault_id jobs,
          same_key l.vault_id vault jobs,
        ))
]

apply-retried :
    (now : ℕ) (l : WorkLease) (error : String) (d : ℕ) (jobs : Jobs)
    → Pointwise now (retried l error d) jobs
unfolding apply
apply-retried now l error d jobs vault = elim (Option-cases (lookup l.vault_id jobs)) [
  | inl e ↦ rw (e, apply, retry) (ground (arith, same_key l.vault_id vault jobs))
  | inr (j, e) ↦
      rw (e, apply, retry)
        (ground (
          arith,
          lookup-insert vault l.vault_id
              (record (unleased j) {
                due_at = now + d;
                attempts = j.attempts + 1;
                last_error = some error;
              })
              jobs,
          same_key l.vault_id vault jobs,
        ))
]

-- Each operation of the table changes the row of its own vault, by `row_after`, and no other.
pub lookup-apply :
    (now : ℕ) (e : Event) (jobs : Jobs) (vault : String)
    → lookup vault (apply now e jobs)
      ≡ (if target e == vault then row_after now e (lookup vault jobs) else lookup vault jobs)
lookup-apply now (requested w d) jobs vault = apply-requested now w d jobs vault
lookup-apply now (claimed w o ms) jobs vault = apply-claimed now w o ms jobs vault
lookup-apply now (renewed l ms) jobs vault = apply-renewed now l ms jobs vault
lookup-apply now (finished l) jobs vault = apply-finished now l jobs vault
lookup-apply now (retried l error d) jobs vault = apply-retried now l error d jobs vault
