-- ===== src/Plugin/Recovery/Laws.antt =====
-- `recoverSync` (plugin/src/sync-recovery.ts) ends, and its end has a reason.
use gib_sync.Prelude.{
  ℕ, ◌+◌, ◌≡◌, ◌⊎◌, refl, ap, subst, Bool, true, false, List, [], ◌∷◌, All, arith, length, take,
  map, Bool-cases, inl, inr,
}
use gib_sync.Prelude.Result.{Result, ok, err}
use gib_sync.Plugin.Recovery.{
  SyncError, is_transient_sync_error, Outcome, returned, thrown, cancelled, Retry, delays,
  attempts_from, recover_sync,
}

module _ {A : Type 0} (operation : ℕ → Result SyncError A) (should_continue : ℕ → Bool) where
  -- Why the loop ended at an attempt, of which `last` is the last one.
  abbrev pub Ended : ℕ → Outcome A → ℕ → Type 0
  Ended last (returned value) n = operation n ≡ ok value
  Ended last (thrown error) n =
      (operation n ≡ err error) × ((is_transient_sync_error error ≡ false) ⊎ (n ≡ last))
  Ended last cancelled n = should_continue n ≡ false

  abbrev pub Passing : Retry → Type 0
  Passing r = is_transient_sync_error r.error ≡ true

  -- An account of a run of the loop from an attempt on.
  pub record Accounted (first : ℕ) (waits : List ℕ) (r : Outcome A × List Retry) : Type 0 where
    pub ended : Ended (first + length waits) r.0 (first + length r.1)
    pub waited : map (λ x. x.delay) r.1 ≡ take (length r.1) waits
    pub passing : All Passing r.1

  same-Ended :
      {last last' n n' : ℕ} (o : Outcome A)
      → last ≡ last'
      → n ≡ n'
      → Ended last o n
      → Ended last' o n'
  same-Ended {last = last} {n' = n'} o p q h =
      subst (λ l. Ended l o n') p (subst (λ m. Ended last o m) q h)

  -- The loop ends without a retry.
  at_once :
      (first : ℕ) (waits : List ℕ) (o : Outcome A)
      → Ended (first + length waits) o first
      → Accounted first waits (o, [])
  at_once first waits o h = record {
    ended = same-Ended o refl (omega arith) h;
    waited = refl;
    passing = tt;
  }

  Result-cases : (r : Result SyncError A) → ((a : A) × (r ≡ ok a)) ⊎ ((e : SyncError) × (r ≡ err e))
  Result-cases (ok a) = inl (a, refl)
  Result-cases (err e) = inr (e, refl)

  attempts_from-Accounted :
      (first : ℕ) (waits : List ℕ)
      → Accounted first waits (attempts_from operation should_continue first waits)
  unfolding attempts_from
  attempts_from-Accounted first [] = elim (Bool-cases (should_continue first)) [
    | inr stop ↦ rw stop (at_once first [] cancelled stop)
    | inl go ↦ elim (Result-cases (operation first)) [
      | inl (a, done) ↦ rw (go, done) (at_once first [] (returned a) done)
      | inr (e, failed) ↦ rw (go, failed) (at_once first [] (thrown e) (failed, inr (omega arith)))
    ]
  ]
  attempts_from-Accounted first (wait ∷ waits) = elim (Bool-cases (should_continue first)) [
    | inr stop ↦ rw stop (at_once first (wait ∷ waits) cancelled stop)
    | inl go ↦ elim (Result-cases (operation first)) [
      | inl (a, done) ↦ rw (go, done) (at_once first (wait ∷ waits) (returned a) done)
      | inr (e, failed) ↦ elim (Bool-cases (is_transient_sync_error e)) [
        | inr lasting ↦
            rw (go, failed, lasting) (at_once first (wait ∷ waits) (thrown e) (failed, inl lasting))
        | inl passes ↦
            let ih = attempts_from-Accounted (first + 1) waits in
            rw (go, failed, passes)
              (record {
                ended = same-Ended _ (omega arith) (omega arith) ih.ended;
                waited = ap (λ ds. wait ∷ ds) ih.waited;
                passing = (passes, ih.passing);
              })
      ]
    ]
  ]

  -- `recoverSync` always ends, after three retries at most, each for a passing error and after the
  -- delay of its turn. It returns what the last attempt returned, or throws what that attempt
  -- threw, and then the error was a lasting one or no retry was left; or it was paused.
  pub recover_sync-Accounted : Accounted 0 delays (recover_sync operation should_continue)
  unfolding recover_sync
  recover_sync-Accounted = attempts_from-Accounted 0 delays
