-- ===== src/Plugin/BodyCache.antt =====
-- plugin/src/body-cache.ts: `BodyCache`, a `Map` of bodies within a budget of bytes. The entries
-- stand in the order of the `Map`: the oldest first.
pub mod Laws
pub mod Tests
use gib_sync.Prelude.{
  ℕ, ◌+◌, ◌-◌, String, Bool, true, false, Option, none, some, List, [], ◌∷◌, ◌++◌, length, ltb,
  if◌then◌else◌, ◌==◌, string_eq,
}
use gib_sync.Prelude.Dict.{Dict, lookup, erase}

-- A `Uint8Array`
abbrev pub Body : Type 0
Body = List ℕ

abbrev pub Entries : Type 0
Entries = Dict String Body

pub record BodyCache : Type 0 where
  pub budget_bytes : ℕ
  pub entries : Entries
  pub retained : ℕ

abbrev pub new_cache : ℕ → BodyCache
new_cache budget = record { budget_bytes = budget; entries = []; retained = 0 }

-- A body that is read becomes the newest.
unfoldable pub get : String → BodyCache → Option Body × BodyCache
get key c = elim (lookup key c.entries) [
  | none ↦ (none, c)
  | some value ↦ (some value, record c { entries = erase key c.entries ++ ((key, value) ∷ []) })
]

unfoldable pub delete : String → BodyCache → BodyCache
delete key c = elim (lookup key c.entries) [
  | none ↦ c
  | some value ↦ record c { entries = erase key c.entries; retained = c.retained - length value }
]

-- `while(retained + need > budget)` the oldest goes. A key stands once, so deleting the oldest key
-- takes the first entry.
unfoldable pub evict : ℕ → ℕ → Entries → ℕ → Entries × ℕ
evict budget need [] retained = ([], retained)
evict budget need ((key, value) ∷ entries) retained =
    let rest = evict budget need entries (retained - length value) in
    if ltb budget (retained + need) then rest else ((key, value) ∷ entries, retained)

abbrev pub store : String → Body → ℕ → Entries × ℕ → BodyCache
store key value budget (entries, retained) = record {
  budget_bytes = budget;
  entries = entries ++ ((key, value) ∷ []);
  retained = retained + length value;
}

unfoldable pub set : String → Body → BodyCache → BodyCache
unfolding delete evict
set key value c =
    let c' = delete key c in
    if ltb c.budget_bytes (length value)
    then c'
    else store key value c.budget_bytes (evict c.budget_bytes (length value) c'.entries c'.retained)

unfoldable pub clear : BodyCache → BodyCache
clear c = record c { entries = []; retained = 0 }

pub data Request : Type 0 where
  read : String → Request
  keep_body : String → Body → Request
  forget : String → Request
  forget_all : Request

unfoldable pub serve : Request → BodyCache → BodyCache
unfolding get set delete clear
serve (read key) c = (get key c).1
serve (keep_body key value) c = set key value c
serve (forget key) c = delete key c
serve forget_all c = clear c

unfoldable pub serve_all : List Request → BodyCache → BodyCache
unfolding serve
serve_all [] c = c
serve_all (r ∷ rs) c = serve_all rs (serve r c)
