-- ===== src/Server/Admission.antt =====
-- apps/server/src/admission.ts: `BinaryAdmission` bounds the binary work that is admitted at once.
-- The closure that `acquire` returns is a `Lease`, which keeps what the closure captured.
pub mod Laws
pub mod Tests
use gib_sync.Prelude.{
  ℕ, ◌+◌, ◌-◌, ◌*◌, Bool, true, false, ◌&&◌, ◌||◌, not, Option, none, some, List, [], ◌∷◌, ltb, leb,
  min, max, if◌then◌else◌,
}

pub record Admission : Type 0 where
  pub maximum_bytes : ℕ
  pub maximum_concurrent : ℕ
  pub large_threshold : ℕ
  pub count : ℕ
  pub reserved : ℕ
  pub large : ℕ

pub record Lease : Type 0 where
  pub weight : ℕ
  pub is_large : Bool
  pub released : Bool

-- `new BinaryAdmission(maximumBytes, maximumConcurrent, largeThreshold)`
abbrev pub create : ℕ → ℕ → ℕ → Admission
create bytes concurrent threshold = record {
  maximum_bytes = bytes;
  maximum_concurrent = concurrent;
  large_threshold = threshold;
  count = 0;
  reserved = 0;
  large = 0;
}

abbrev pub mebibyte : ℕ
mebibyte = 1024 * 1024

-- `none` for a number that is no safe integer, or is negative
abbrev requested : Admission → Option ℕ → ℕ
requested a none = a.maximum_bytes
requested a (some n) = n

unfoldable pub weight_of : Admission → Option ℕ → ℕ
weight_of a expected = max mebibyte (min a.maximum_bytes (requested a expected))

unfoldable pub acquire : Admission → Option ℕ → Option Lease × Admission
unfolding weight_of
acquire a expected =
    let weight = weight_of a expected in
    let is_large = leb a.large_threshold weight in
    if leb a.maximum_concurrent a.count
      || ltb 0 a.large
      || (is_large && ltb 0 a.count)
      || ltb a.maximum_bytes (a.reserved + weight)
    then (none, a)
    else (
      some (record { weight = weight; is_large = is_large; released = false }),
      record a {
        count = a.count + 1;
        reserved = a.reserved + weight;
        large = if is_large then a.large + 1 else a.large;
      },
    )

-- The returned closure: a second call does nothing.
unfoldable pub release : Admission → Lease → Admission × Lease
release a l = if l.released then (a, l) else (
  record a {
    count = a.count - 1;
    reserved = a.reserved - l.weight;
    large = if l.is_large then a.large - 1 else a.large;
  },
  record l { released = true },
)

-- The admission and every closure that it has given out, newest first.
pub record Gate : Type 0 where
  pub admission : Admission
  pub leases : List Lease

pub data Call : Type 0 where
  ask : Option ℕ → Call
  give_back : ℕ → Call

abbrev add_lease : List Lease → Option Lease × Admission → Gate
add_lease leases (none, a) = record { admission = a; leases = leases }
add_lease leases (some l, a) = record { admission = a; leases = l ∷ leases }

-- The closure at position `i` is called; there is nothing to call past the end.
unfoldable pub release_at : Admission → List Lease → ℕ → Admission × List Lease
unfolding release
release_at a [] i = (a, [])
release_at a (l ∷ ls) ℕ.zero = let (a', l') = release a l in (a', l' ∷ ls)
release_at a (l ∷ ls) (ℕ.suc i) = let (a', ls') = release_at a ls i in (a', l ∷ ls')

unfoldable pub perform : Gate → Call → Gate
unfolding acquire release_at
perform g (ask expected) = add_lease g.leases (acquire g.admission expected)
perform g (give_back i) =
    let (a, ls) = release_at g.admission g.leases i in record { admission = a; leases = ls }

unfoldable pub run : Gate → List Call → Gate
unfolding perform
run g [] = g
run g (c ∷ cs) = run (perform g c) cs
