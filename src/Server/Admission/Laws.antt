-- ===== src/Server/Admission/Laws.antt =====
-- The accounts of `BinaryAdmission` (apps/server/src/admission.ts) agree with the open leases.
use gib_sync.Prelude.{
  ℕ, zero, suc, ◌+◌, ◌≤◌, ◌<◌, ◌≡◌, Option, List, [], ◌∷◌, arith, sum_by, if◌then◌else◌,
}
use gib_sync.Server.Admission.{
  Admission, Lease, Gate, Call, ask, give_back, create, release_at, perform, run,
}

-- What an open lease counts for; a released one counts for nothing.
abbrev pub open_count : Lease → ℕ
open_count l = if l.released then 0 else 1

abbrev pub open_weight : Lease → ℕ
open_weight l = if l.released then 0 else l.weight

abbrev pub open_large : Lease → ℕ
open_large l = if l.released then 0 else if l.is_large then 1 else 0

-- The counters are the sums over the open leases.
pub record Agrees (a : Admission) (ls : List Lease) : Type 0 where
  pub count : a.count ≡ sum_by open_count ls
  pub reserved : a.reserved ≡ sum_by open_weight ls
  pub large : a.large ≡ sum_by open_large ls

-- The limits of the constructor hold, and a large body is admitted alone.
pub record IsBounded (a : Admission) : Type 0 where
  pub concurrent : a.count ≤ a.maximum_concurrent
  pub bytes : a.reserved ≤ a.maximum_bytes
  pub alone : 0 < a.large → a.count ≡ 1

pub record IsSound (g : Gate) : Type 0 where
  pub agrees : Agrees g.admission g.leases
  pub bounded : IsBounded g.admission

acquire-IsSound : (g : Gate) (e : Option ℕ) → IsSound g → IsSound (perform g (ask e))
unfolding perform
acquire-IsSound g e s = ground arith

open_large-le : (ls : List Lease) → sum_by open_large ls ≤ sum_by open_count ls
open_large-le [] = omega arith
open_large-le (l ∷ ls) = ground (arith, open_large-le ls)

-- Releasing a lease takes from each counter what the lease no longer counts for.
record Balanced (a b : Admission) (ls ms : List Lease) : Type 0 where
  count : a.count + sum_by open_count ms ≡ b.count + sum_by open_count ls
  reserved : a.reserved + sum_by open_weight ms ≡ b.reserved + sum_by open_weight ls
  large : a.large + sum_by open_large ms ≡ b.large + sum_by open_large ls
  fewer : (b.count ≤ a.count) × (b.reserved ≤ a.reserved) × (b.large ≤ a.large)
  limits : (b.maximum_bytes ≡ a.maximum_bytes) × (b.maximum_concurrent ≡ a.maximum_concurrent)

release_at-Balanced :
    (a : Admission) (ls : List Lease) (i : ℕ)
    → sum_by open_count ls ≤ a.count
    → sum_by open_weight ls ≤ a.reserved
    → sum_by open_large ls ≤ a.large
    → Balanced a (release_at a ls i).0 ls (release_at a ls i).1
unfolding release_at
release_at-Balanced a [] i c r l = ground arith
release_at-Balanced a (x ∷ ls) zero c r l = ground arith
release_at-Balanced a (x ∷ ls) (suc i) c r l = ground (arith, release_at-Balanced a ls i)

give_back-IsSound : (g : Gate) (i : ℕ) → IsSound g → IsSound (perform g (give_back i))
unfolding perform release_at
give_back-IsSound g i s =
    let b = release_at-Balanced g.admission g.leases i (omega arith) (omega arith) (omega arith) in
    let below = open_large-le (release_at g.admission g.leases i).1 in
    record {
      agrees = record { count = omega arith; reserved = omega arith; large = omega arith };
      bounded = record {
        concurrent = omega (arith, b.limits, b.fewer);
        bytes = omega (arith, b.limits, b.fewer);
        alone = λ h. omega (arith, below, b);
      };
    }

perform-IsSound : (g : Gate) (c : Call) → IsSound g → IsSound (perform g c)
perform-IsSound g (ask e) s = acquire-IsSound g e s
perform-IsSound g (give_back i) s = give_back-IsSound g i s

pub run-IsSound_from : (cs : List Call) (g : Gate) → IsSound g → IsSound (run g cs)
unfolding run
run-IsSound_from [] g s = s
run-IsSound_from (c ∷ cs) g s = run-IsSound_from cs (perform g c) (perform-IsSound g c s)

-- Whatever requests are admitted and whatever closures are called, in any order and any number
-- of times, the counters are the sums over the leases that are still open; at most
-- `maximumConcurrent` leases and `maximumBytes` bytes are open, and a large one is open alone.
pub run-IsSound :
    (bytes concurrent threshold : ℕ) (cs : List Call)
    → IsSound (run (record { admission = create bytes concurrent threshold; leases = [] }) cs)
run-IsSound bytes concurrent threshold cs =
    run-IsSound_from cs (record { admission = create bytes concurrent threshold; leases = [] })
      (record {
        agrees = omega arith;
        bounded = record {
          concurrent = omega arith;
          bytes = omega arith;
          alone = λ h. omega arith;
        };
      })
