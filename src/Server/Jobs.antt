-- ===== src/Server/Jobs.antt =====
-- apps/server/src/jobs.ts: `DurableMirrorJobs`, the leases of the projection workers. The table
-- `mirror_jobs` (apps/server/src/db.ts) holds one row for each vault. `Date.now()` is the argument
-- `now`, and the owner that `randomUUID` makes is the argument `owner`.
pub mod Laws
pub mod Fencing
pub mod Tests
use gib_sync.Prelude.{
  ℕ, ◌+◌, ◌-◌, String, Bool, true, false, ◌&&◌, ◌||◌, Option, none, some, List, [], ◌∷◌, min, leb,
  ltb, is_some, if◌then◌else◌, ◌==◌, nat_eq, string_eq, option_eq,
}
use gib_sync.Prelude.Dict.{Dict, lookup, insert, erase}

-- A row of `mirror_jobs`, without its key.
pub record Job : Type 0 where
  pub due_at : ℕ
  pub revision : ℕ
  pub lease_owner : Option String
  pub lease_until : Option ℕ
  pub attempts : ℕ
  pub last_error : Option String

pub record WorkLease : Type 0 where
  pub vault_id : String
  pub owner : String
  pub revision : ℕ

abbrev pub Jobs : Type 0
Jobs = Dict String Job

abbrev pub queued : ℕ → Job
queued due = record {
  due_at = due;
  revision = 1;
  lease_owner = none;
  lease_until = none;
  attempts = 0;
  last_error = none;
}

-- A delay below 0 counts as 0, which the native numbers have already done.
unfoldable pub enqueue : String → ℕ → ℕ → Jobs → Jobs
enqueue vault now delay jobs =
    let due = now + delay in
    elim (lookup vault jobs) [
      | none ↦ insert vault (queued due) jobs
      | some j ↦
          insert vault (record j { due_at = min j.due_at due; revision = j.revision + 1 }) jobs
    ]

-- `lease_until <= now`, which SQL takes for false where the column is NULL
abbrev pub expired : Job → ℕ → Bool
expired j now = elim j.lease_until [ none ↦ false | some t ↦ leb t now ]

abbrev pub is_free : Job → ℕ → Bool
is_free j now = if is_some j.lease_owner then expired j now else true

abbrev pub owned_by : Job → String → Bool
owned_by j owner = j.lease_owner == some owner

unfoldable pub claim : String → String → ℕ → ℕ → Jobs → Option WorkLease × Jobs
claim vault owner now lease_ms jobs = elim (lookup vault jobs) [
  | none ↦ (none, jobs)
  | some j ↦
      if leb j.due_at now && is_free j now
      then (
        some (record { vault_id = vault; owner = owner; revision = j.revision }),
        insert vault (record j { lease_owner = some owner; lease_until = some (now + lease_ms) })
            jobs,
      )
      else (none, jobs)
]

unfoldable pub renew : WorkLease → ℕ → ℕ → Jobs → Bool × Jobs
renew l now lease_ms jobs = elim (lookup l.vault_id jobs) [
  | none ↦ (false, jobs)
  | some j ↦
      if owned_by j l.owner
      then (true, insert l.vault_id (record j { lease_until = some (now + lease_ms) }) jobs)
      else (false, jobs)
]

unfoldable pub owns : WorkLease → ℕ → Jobs → Bool
owns l now jobs = elim (lookup l.vault_id jobs) [
  | none ↦ false
  | some j ↦ owned_by j l.owner && elim j.lease_until [ none ↦ false | some t ↦ ltb now t ]
]

abbrev pub unleased : Job → Job
unleased j = record j { lease_owner = none; lease_until = none }

-- The DELETE wants the revision that was claimed; the UPDATE after it frees what is left.
unfoldable pub finish : WorkLease → Jobs → Jobs
finish l jobs = elim (lookup l.vault_id jobs) [
  | none ↦ jobs
  | some j ↦
      if owned_by j l.owner
      then (if j.revision == l.revision
          then erase l.vault_id jobs
          else insert l.vault_id (unleased j) jobs)
      else jobs
]

unfoldable pub retry : WorkLease → String → ℕ → ℕ → Jobs → Jobs
retry l error now delay jobs = elim (lookup l.vault_id jobs) [
  | none ↦ jobs
  | some j ↦
      if owned_by j l.owner
      then insert l.vault_id
          (record (unleased j) {
            due_at = now + delay;
            attempts = j.attempts + 1;
            last_error = some error;
          })
          jobs
      else jobs
]

unfoldable pub pending : ℕ → Jobs → List (String × ℕ)
pending now [] = []
pending now ((vault, j) ∷ jobs) =
    if is_free j now then (vault, j.due_at) ∷ pending now jobs else pending now jobs

-- What the other workers and the clients do to the table, each at a time of its own.
pub data Event : Type 0 where
  requested : String → ℕ → Event
  claimed : String → String → ℕ → Event
  renewed : WorkLease → ℕ → Event
  finished : WorkLease → Event
  retried : WorkLease → String → ℕ → Event

unfoldable pub apply : ℕ → Event → Jobs → Jobs
unfolding enqueue claim renew finish retry
apply now (requested vault delay) jobs = enqueue vault now delay jobs
apply now (claimed vault owner ms) jobs = (claim vault owner now ms jobs).1
apply now (renewed l ms) jobs = (renew l now ms jobs).1
apply now (finished l) jobs = finish l jobs
apply now (retried l error delay) jobs = retry l error now delay jobs

unfoldable pub replay : List (ℕ × Event) → Jobs → Jobs
unfolding apply
replay [] jobs = jobs
replay ((now, e) ∷ events) jobs = replay events (apply now e jobs)

-- The worker that causes the event, if it is one.
abbrev pub actor : Event → Option String
actor (requested vault delay) = none
actor (claimed vault owner ms) = some owner
actor (renewed l ms) = some l.owner
actor (finished l) = some l.owner
actor (retried l error delay) = some l.owner
