-- ===== src/Prelude/State.antt =====
-- Code that changes a state and may throw: what it has changed before it throws stays changed.
use gib_sync.Prelude.Tests.{if◌then◌else◌}
use gib_sync.Prelude.Result.{Result, ok, err}
use mathlib.Core.Path.{◌≡◌, refl, subst}
use mathlib.Core.Bool.{Bool}

abbrev pub Act : Type 0 → Type 0 → Type 0 → Type 0
Act S E A = S → Result E A × S

module _ {S E : Type 0} where
  abbrev pub continue : {A B : Type 0} → (A → Act S E B) → Result E A × S → Result E B × S
  continue next (ok value, s) = next value s
  continue next (err thrown, s) = (err thrown, s)

  infixl 5 ◌>>=◌ ◌>>◌
  abbrev pub ◌>>=◌ : {A B : Type 0} → Act S E A → (A → Act S E B) → Act S E B
  m >>= next = λ s. continue next (m s)

  abbrev pub ◌>>◌ : {B : Type 0} → Act S E (Unit {0}) → Act S E B → Act S E B
  m >> k = m >>= λ _. k

  abbrev pub pure : {A : Type 0} → A → Act S E A
  pure value = λ s. (ok value, s)

  abbrev pub throw : {A : Type 0} → E → Act S E A
  throw thrown = λ s. (err thrown, s)

  -- `if (bad) throw e`
  abbrev pub refuse : Bool → E → Act S E (Unit {0})
  refuse bad thrown = λ s. (if bad then err thrown else ok tt, s)

  abbrev pub read : {A : Type 0} → (S → A) → Act S E A
  read get = λ s. (ok (get s), s)

  abbrev pub modify : (S → S) → Act S E (Unit {0})
  modify change = λ s. (ok tt, change s)

  -- A result that was computed already.
  abbrev pub lift : {A : Type 0} → Result E A → Act S E A
  lift result = λ s. (result, s)

  -- `try { … } finally { … }`
  abbrev pub finally : {A : Type 0} → Act S E A → (S → S) → Act S E A
  finally m last = λ s. ((m s).0, last (m s).1)

  abbrev pub commit : {A : Type 0} → S → Result E A × S → Result E A × S
  commit before (ok value, s) = (ok value, s)
  commit before (err thrown, s) = (err thrown, before)

  -- `BEGIN IMMEDIATE … COMMIT`, with ROLLBACK where the body throws
  abbrev pub transaction : {A : Type 0} → Act S E A → Act S E A
  transaction m = λ s. commit s (m s)

  abbrev pub unless_thrown : {A : Type 0} → (S → S) → Result E A × S → Result E A × S
  unless_thrown change (ok value, s) = (ok value, s)
  unless_thrown change (err thrown, s) = (err thrown, change s)

  -- `try { … } catch (error) { …; throw error }`
  abbrev pub on_throw : {A : Type 0} → Act S E A → (S → S) → Act S E A
  on_throw m change = λ s. unless_thrown change (m s)

  -- What holds of a value and its state, or of the state that a throw leaves.
  abbrev pub Post : {A : Type 0} → (A → S → Type 0) → (S → Type 0) → Result E A × S → Type 0
  Post Q R (ok value, s) = Q value s
  Post Q R (err thrown, s) = R s

  abbrev pub Triple :
      {A : Type 0} → (S → Type 0) → Act S E A → (A → S → Type 0) → (S → Type 0) → Type 0
  Triple P m Q R = (s : S) → P s → Post Q R (m s)

  pub continue-Post :
      {A B : Type 0} (Q : A → S → Type 0) (T : B → S → Type 0) (R : S → Type 0)
      (next : A → Act S E B) (outcome : Result E A × S)
      → Post Q R outcome
      → ((value : A) → Triple (Q value) (next value) T R)
      → Post T R (continue next outcome)
  continue-Post Q T R next (ok value, s) q k = k value s q
  continue-Post Q T R next (err thrown, s) r k = r

  pub >>=-Triple :
      {A B : Type 0} (P : S → Type 0) (Q : A → S → Type 0) (T : B → S → Type 0) (R : S → Type 0)
      (m : Act S E A) (next : A → Act S E B)
      → Triple P m Q R
      → ((value : A) → Triple (Q value) (next value) T R)
      → Triple P (m >>= next) T R
  >>=-Triple P Q T R m next first rest s p = continue-Post Q T R next (m s) (first s p) rest

  pub commit-Post :
      {A : Type 0} (Q : A → S → Type 0) (R : S → Type 0) (before : S) (outcome : Result E A × S)
      → R before
      → Post Q (λ s. Unit {0}) outcome
      → Post Q R (commit before outcome)
  commit-Post Q R before (ok value, s) r q = q
  commit-Post Q R before (err thrown, s) r q = r

  pub Post-finally :
      {A : Type 0} (Q T : A → S → Type 0) (R U : S → Type 0) (last : S → S)
      (outcome : Result E A × S)
      → Post Q R outcome
      → ((value : A) (s : S) → Q value s → T value (last s))
      → ((s : S) → R s → U (last s))
      → Post T U (outcome.0, last outcome.1)
  Post-finally Q T R U last (ok value, s) q f g = f value s q
  Post-finally Q T R U last (err thrown, s) r f g = g s r

  -- After a computed result: what follows it may use that it is no error.
  pub lift-next :
      {A B : Type 0} (Q : B → S → Type 0) (P : S → Type 0) (result : Result E A)
      (next : A → Act S E B) (s : S)
      → P s
      → ((value : A) → result ≡ ok value → Post Q P (next value s))
      → Post Q P (continue next (result, s))
  lift-next Q P (ok value) next s p k = k value refl
  lift-next Q P (err thrown) next s p k = p

  pub Post-on_throw :
      {A : Type 0} (Q : A → S → Type 0) (R : S → Type 0) (change : S → S) (outcome : Result E A × S)
      → Post Q R outcome
      → ((s : S) → R s → R (change s))
      → Post Q R (unless_thrown change outcome)
  Post-on_throw Q R change (ok value, s) q f = q
  Post-on_throw Q R change (err thrown, s) r f = f s r

  pub Post-ok :
      {A : Type 0} (Q : A → S → Type 0) (outcome : Result E A × S) (value : A) (s : S)
      → Post Q (λ _. Unit {0}) outcome
      → outcome ≡ (ok value, s)
      → Q value s
  Post-ok Q outcome value s p e = subst (Post Q (λ _. Unit {0})) e p
