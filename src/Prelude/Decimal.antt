-- ===== src/Prelude/Decimal.antt =====
-- `String(n)` of a natural number.
use gib_sync.Prelude.Tests.{if◌then◌else◌, ltb}
use gib_sync.Prelude.Text.{Text}
use mathlib.Core.List.{[], ◌∷◌, ◌++◌}
use Prim.Native.Nat.{ℕ, zero, suc, ◌+◌, ◌/◌, ◌%◌}

-- The fuel is how many digits are still allowed; a number has at most as many as it counts, and one.
unfoldable pub digits_of : ℕ → ℕ → Text
digits_of zero n = []
digits_of (suc fuel) n =
    let rest = digits_of fuel (n / 10) in
    if ltb n 10 then (48 + n) ∷ [] else rest ++ ((48 + n % 10) ∷ [])

unfoldable pub decimal : ℕ → Text
unfolding digits_of
decimal n = digits_of (suc n) n
