-- ===== src/Server/Jobs/Tests.antt =====
-- Runs of apps/server/src/jobs.ts, and the theorems about it at some of them.
use gib_sync.Prelude.{
  ℕ, ◌≡◌, ◌≢◌, eq_iff, ◌≤◌, refl, arith, String, true, Option, none, some, List, [], ◌∷◌, string_eq,
}
use gib_sync.Prelude.Dict.{lookup}
use gib_sync.Server.Jobs.{
  Job, WorkLease, Jobs, Event, queued, requested, claimed, finished, retried, claim, owns, replay,
  enqueue, finish,
}
use gib_sync.Server.Jobs.Fencing.{claim_exclusive, finish-claim}

abbrev jobs : Jobs
jobs = ("notes", queued 100) ∷ ("photos", queued 900) ∷ []

abbrev lease : WorkLease
lease = record { vault_id = "notes"; owner = "worker-a"; revision = 1 }

abbrev stale : WorkLease
stale = record { vault_id = "notes"; owner = "worker-b"; revision = 1 }

abbrev meanwhile : List (ℕ × Event)
meanwhile =
    (210, requested "notes" 5)
    ∷ (220, claimed "notes" "worker-b" 1000)
    ∷ (230, finished stale)
    ∷ (240, retried stale "offline" 50)
    ∷ (250, claimed "photos" "worker-b" 1000)
    ∷ []

won : (claim "notes" "worker-a" 200 1000 jobs).0 ≡ some lease
unfolding claim lookup
won = refl

other_worker : ◌≢◌ {A = Option String} (some "worker-b") (some "worker-a")
other_worker e = ground (arith, eq_iff "worker-b" "worker-a")

claim_exclusive_example :
    owns lease 1100 (replay meanwhile (claim "notes" "worker-a" 200 1000 jobs).1) ≡ true
claim_exclusive_example =
    claim_exclusive "notes" "worker-a" 200 1000 1100 jobs meanwhile won
      (
        (omega arith, λ e. cc),
        (
          (omega arith, other_worker),
          (
            (omega arith, other_worker),
            ((omega arith, other_worker), ((omega arith, other_worker), tt)),
          ),
        ),
      )
      (omega arith)

finish-claim_example :
    let claimed_jobs = (claim "notes" "worker-a" 200 1000 jobs).1 in
    (lookup "notes" (finish lease claimed_jobs) ≡ none)
    × ((j : Job) × (lookup "notes" (finish lease (enqueue "notes" 300 5 claimed_jobs)) ≡ some j)
        × (j.lease_owner ≡ none)
        × (j.due_at ≤ 305))
finish-claim_example = finish-claim "notes" "worker-a" 200 1000 300 5 jobs won
