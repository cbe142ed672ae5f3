-- ===== src/Server/Budget/Laws.antt =====
-- What a budget admits in one window (apps/server/src/request-budget.ts).
use gib_sync.Prelude.{
  ℕ, ◌+◌, ◌-◌, ◌*◌, ◌/◌, ◌≤◌, ◌<◌, ◌≡◌, refl, String, List, [], ◌∷◌, arith, length, min, All,
  if◌then◌else◌, ◌==◌, nat_eq, string_eq, eq_iff,
}
use native.Mathlib.Nat.{div-add-mod, mod-lt}
use gib_sync.Server.Budget.{Row, is_key, upsert, purge, allowed_count, day_ms}

-- The attempts that the table holds for the key in one window.
abbrev pub spent : String → String → ℕ → List Row → ℕ
spent scope subject window [] = 0
spent scope subject window (r ∷ rows) =
    if is_key scope subject r
    then (if r.window_start == window then r.attempts else 0)
    else spent scope subject window rows

module _ (scope subject : String) (window : ℕ) where
  spent-upsert :
      (rows : List Row)
      → ((upsert scope subject window rows).0 ≡ spent scope subject window rows + 1)
        × (spent scope subject window (upsert scope subject window rows).1
            ≡ spent scope subject window rows + 1)
  unfolding upsert
  spent-upsert [] = ground (arith, eq_iff scope scope, eq_iff subject subject)
  spent-upsert (r ∷ rows) = ground (arith, spent-upsert rows)

  -- The rows of the running window outlive the purge.
  spent-purge :
      (now : ℕ) (rows : List Row)
      → now ≤ window + day_ms
      → 0 < spent scope subject window rows
      → spent scope subject window (purge now rows) ≡ spent scope subject window rows
  unfolding purge
  spent-purge now [] near some_spent = refl
  spent-purge now (r ∷ rows) near some_spent = ground (arith, spent-purge now rows)

-- The window that a time falls into is the multiple of its length before it.
abbrev pub window_of : ℕ → ℕ → ℕ
window_of window_ms now = (now / window_ms) * window_ms

window_of-near :
    (window_ms now : ℕ)
    → 0 < window_ms
    → window_ms ≤ day_ms
    → now ≤ window_of window_ms now + day_ms
window_of-near window_ms now pos le = grind (arith, div-add-mod, mod-lt)

-- Of the attempts of one key in one window, exactly the first ones are allowed, up to the limit
-- and counting those that the table holds already. The window is no longer than a day.
pub allowed_count-exact :
    (scope subject : String) (limit window_ms window : ℕ) (times : List ℕ) (rows : List Row)
    → 0 < window_ms
    → window_ms ≤ day_ms
    → All (λ now. window_of window_ms now ≡ window) times
    → allowed_count scope subject limit window_ms times rows
      ≡ min (length times) (limit - spent scope subject window rows)
unfolding allowed_count
allowed_count-exact scope subject limit window_ms window [] rows pos le inside = omega arith
allowed_count-exact scope subject limit window_ms window (now ∷ times) rows pos le (here, inside) =
    rw here (
      ground (
        arith,
        spent-upsert scope subject window rows,
        spent-purge scope subject window now (upsert scope subject window rows).1,
        window_of-near window_ms now pos le,
        allowed_count-exact scope subject limit window_ms window times
            (purge now (upsert scope subject window rows).1) pos le inside,
      ))
