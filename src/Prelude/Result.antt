-- ===== src/Prelude/Result.antt =====
-- Code that may throw: a value, or the error that ends it.
use gib_sync.Prelude.Tests.{if◌then◌else◌}
use gib_sync.Prelude.Lists.{All}
use mathlib.Core.Path.{◌≡◌, refl, subst}
use mathlib.Core.Bool.{Bool, true, false}
use mathlib.Core.List.{List, [], ◌∷◌}

pub data Result (E A : Type 0) : Type 0 where
  ok : A → Result E A
  err : E → Result E A

infixl 5 ◌>>=◌ ◌>>◌
abbrev pub ◌>>=◌ : {E A B : Type 0} → Result E A → (A → Result E B) → Result E B
err thrown >>= next = err thrown
ok value >>= next = next value

abbrev pub ◌>>◌ : {E B : Type 0} → Result E (Unit {0}) → Result E B → Result E B
m >> k = m >>= λ _. k

-- `if (bad) throw e`
abbrev pub refuse : {E : Type 0} → Bool → E → Result E (Unit {0})
refuse b e = if b then err e else ok tt

-- A loop whose body may throw.
unfoldable pub each : {E A S : Type 0} → (A → S → Result E S) → List A → S → Result E S
each f [] s = ok s
each f (x ∷ xs) s = f x s >>= each f xs

-- A run of `if (bad) throw e`: the first that holds ends it.
unfoldable pub guards : {E : Type 0} → List (Bool × E) → Result E (Unit {0})
guards [] = ok tt
guards ((bad, thrown) ∷ more) = let rest = guards more in if bad then err thrown else rest

pub guards-All :
    {E : Type 0} (tests : List (Bool × E)) → guards tests ≡ ok tt → All (λ t. t.0 ≡ false) tests
unfolding guards
guards-All [] h = tt
guards-All ((true, thrown) ∷ more) h = absurd (cc)
guards-All ((false, thrown) ∷ more) h = (refl, guards-All more h)

pub >>=-eq-ok :
    {E A B : Type 0} (first : Result E A) (next : A → Result E B) {result : B}
    → (first >>= next) ≡ ok result
    → (value : A) × (first ≡ ok value) × (next value ≡ ok result)
>>=-eq-ok (err thrown) next same = cc
>>=-eq-ok (ok value) next same = (value, refl, same)

pub ok-injective : {E A : Type 0} {a b : A} → ◌≡◌ {A = Result E A} (ok a) (ok b) → a ≡ b
ok-injective h = cc

subst_ok :
    {E A : Type 0} (P : A → Type 0) {a b : A} → P a → ◌≡◌ {A = Result E A} (ok a) (ok b) → P b
subst_ok P p h = subst P (ok-injective h) p

-- What every round keeps, the loop keeps; a round may use what is known of its element.
pub each-keeps :
    {E A S : Type 0} (Q : A → Type 0) (P : S → Type 0) (f : A → S → Result E S)
    → ((x : A) (s t : S) → Q x → P s → f x s ≡ ok t → P t)
    → (xs : List A) (s t : S) → All Q xs
    → P s
    → each f xs s ≡ ok t
    → P t
unfolding each
each-keeps Q P f keep [] s t q p h = subst_ok P p h
each-keeps Q P f keep (x ∷ xs) s t q p h =
    let (u, first, rest) = >>=-eq-ok (f x s) (each f xs) h in
    each-keeps Q P f keep xs u t q.1 (keep x s u q.0 p first) rest

All-Unit : {A : Type 0} (xs : List A) → All (λ x. Unit {0}) xs
All-Unit [] = tt
All-Unit (x ∷ xs) = (tt, All-Unit xs)

-- The same where nothing need be known of the elements.
pub each-keeps_any :
    {E A S : Type 0} (P : S → Type 0) (f : A → S → Result E S)
    → ((x : A) (s t : S) → P s → f x s ≡ ok t → P t)
    → (xs : List A) (s t : S) → P s
    → each f xs s ≡ ok t
    → P t
each-keeps_any P f keep xs s t =
    each-keeps (λ x. Unit) P f (λ x u v q. keep x u v) xs s t (All-Unit xs)
