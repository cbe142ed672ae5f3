-- ===== src/Prelude/Regex.antt =====
-- JavaScript's regular expressions, as far as the program uses them: `test` on code units, by
-- derivatives.
use gib_sync.Prelude.Tests.{if◌then◌else◌, leb}
use gib_sync.Prelude.Equality.{◌==◌, nat_eq}
use gib_sync.Prelude.Text.{Text, slash}
use mathlib.Core.Bool.{Bool, true, false, ◌&&◌, ◌||◌, not}
use mathlib.Core.List.{[], ◌∷◌}
use Prim.Native.Nat.{ℕ, zero, suc}

pub data Regex : Type 0 where
  never : Regex
  nothing : Regex
  one : (ℕ → Bool) → Regex
  followed : Regex → Regex → Regex
  either : Regex → Regex → Regex
  many : Regex → Regex

abbrev pub nullable : Regex → Bool
nullable never = false
nullable nothing = true
nullable (one test) = false
nullable (followed r s) = nullable r && nullable s
nullable (either r s) = nullable r || nullable s
nullable (many r) = true

unfoldable pub derive : ℕ → Regex → Regex
derive c never = never
derive c nothing = never
derive c (one test) = if test c then nothing else never
derive c (followed r s) =
    let first = followed (derive c r) s in
    let second = derive c s in if nullable r then either first second else first
derive c (either r s) = either (derive c r) (derive c s)
derive c (many r) = followed (derive c r) (many r)

-- `/^…$/.test(s)`
unfoldable pub matches : Regex → Text → Bool
unfolding derive
matches r [] = nullable r
matches r (c ∷ s) = matches (derive c r) s

abbrev pub literally : Text → Regex
literally [] = nothing
literally (c ∷ s) = followed (one (λ d. d == c)) (literally s)

abbrev pub optional : Regex → Regex
optional r = either nothing r

abbrev pub some_more : Regex → Regex
some_more r = followed r (many r)

abbrev pub times : ℕ → Regex → Regex
times zero r = nothing
times (suc n) r = followed r (times n r)

-- `\d`
abbrev pub digit : Regex
digit = one (λ c. leb 48 c && leb c 57)

-- `.`, which no line terminator matches
abbrev pub any : Regex
any = one (λ c. not (c == 10 || c == 13 || c == 8232 || c == 8233))

-- `[^/]`
abbrev pub no_slash : Regex
no_slash = one (λ c. not (c == slash))

-- Without `^` the match may start anywhere.
abbrev pub anywhere : Regex → Regex
anywhere r = followed (many (one (λ c. true))) r
