-- ===== src/Server/Budget.antt =====
-- apps/server/src/request-budget.ts: attempts are counted by scope and subject in fixed windows.
-- The table `request_budgets` (apps/server/src/db.ts) is a list of rows in no special order.
pub mod Laws
pub mod Tests
use gib_sync.Prelude.{
  ℕ, ◌+◌, ◌-◌, ◌*◌, ◌/◌, String, Bool, true, false, ◌&&◌, List, [], ◌∷◌, keep, ltb, leb, not,
  if◌then◌else◌, ◌==◌, nat_eq, string_eq,
}

-- A row of `request_budgets`; its primary key is the scope with the subject.
pub record Row : Type 0 where
  pub scope : String
  pub subject : String
  pub window_start : ℕ
  pub attempts : ℕ

abbrev pub is_key : String → String → Row → Bool
is_key scope subject r = r.scope == scope && r.subject == subject

abbrev pub fresh : String → String → ℕ → Row
fresh scope subject window = record {
  scope = scope;
  subject = subject;
  window_start = window;
  attempts = 1;
}

abbrev pub count_up : Row → ℕ → Row
count_up r window = record r {
  window_start = window;
  attempts = if r.window_start == window then r.attempts + 1 else 1;
}

-- INSERT … ON CONFLICT DO UPDATE … RETURNING attempts
unfoldable pub upsert : String → String → ℕ → List Row → ℕ × List Row
upsert scope subject window [] = (1, fresh scope subject window ∷ [])
upsert scope subject window (r ∷ rows) =
    let (n, rest) = upsert scope subject window rows in
    if is_key scope subject r
    then ((count_up r window).attempts, count_up r window ∷ rows)
    else (n, r ∷ rest)

abbrev pub day_ms : ℕ
day_ms = 24 * 60 * 60 * 1000

-- DELETE … WHERE window_start < now - day. Where `now` is within the first day no row is older.
unfoldable pub purge : ℕ → List Row → List Row
purge now = keep (λ r. leb (now - day_ms) r.window_start)

unfoldable pub take_budget : String → String → ℕ → ℕ → ℕ → List Row → Bool × List Row
unfolding upsert purge
take_budget scope subject limit window_ms now rows =
    let window = (now / window_ms) * window_ms in
    let (attempts, updated) = upsert scope subject window rows in
    (leb attempts limit, purge now updated)

-- Attempts at the given times, and how many of them were allowed.
unfoldable pub allowed_count : String → String → ℕ → ℕ → List ℕ → List Row → ℕ
unfolding take_budget
allowed_count scope subject limit window_ms [] rows = 0
allowed_count scope subject limit window_ms (now ∷ times) rows =
    let (allowed, rows') = take_budget scope subject limit window_ms now rows in
    (if allowed then 1 else 0) + allowed_count scope subject limit window_ms times rows'
