-- ===== src/Server/Budget/Tests.antt =====
-- Runs of apps/server/src/request-budget.ts, and the theorem about it at one of them.
use gib_sync.Prelude.{ℕ, ◌≡◌, refl, arith, List, [], ◌∷◌, length, min, ◌-◌}
use gib_sync.Server.Budget.{Row, fresh, allowed_count}
use gib_sync.Server.Budget.Laws.{allowed_count-exact, spent}

abbrev minute : ℕ
minute = 60000

-- One attempt of the same device is on record for the second minute.
abbrev rows : List Row
rows = fresh "pair" "device" minute ∷ fresh "pair" "other" minute ∷ []

abbrev times : List ℕ
times = 60001 ∷ 60002 ∷ 90000 ∷ 119999 ∷ []

two_left : allowed_count "pair" "device" 3 minute times rows ≡ 2
unfolding allowed_count
two_left = refl

allowed_count-exact_example :
    allowed_count "pair" "device" 3 minute times rows
    ≡ min (length times) (3 - spent "pair" "device" minute rows)
allowed_count-exact_example =
    allowed_count-exact "pair" "device" 3 minute minute times rows (omega arith) (omega arith)
      (refl, (refl, (refl, (refl, tt))))
