-- ===== src/Plugin/BodyCache/Laws.antt =====
-- The budget of `BodyCache` (plugin/src/body-cache.ts) holds, and its account is right.
use gib_sync.Prelude.{
  ℕ, ◌+◌, ◌-◌, ◌≤◌, ◌≡◌, refl, String, false, none, some, List, [], ◌∷◌, ◌++◌, length, sum_by,
  sum_by-append, arith, eq_iff, ltb, Option-cases, Bool-cases, inl, inr, if◌then◌else◌, ◌==◌,
  string_eq,
}
use gib_sync.Prelude.Dict.{lookup, erase, NodupKeys, erase-NodupKeys, lookup-erase}
use gib_sync.Plugin.BodyCache.{
  Body, Entries, BodyCache, new_cache, get, delete, evict, store, set, Request, read, keep_body,
  forget, forget_all, serve, serve_all,
}

abbrev pub weight : Entries → ℕ
weight = sum_by (λ x. length x.1)

-- Each key has one entry, `retained` is the sum of the bodies, and the sum is within the budget.
pub record Fits (c : BodyCache) : Type 0 where
  pub unique : NodupKeys c.entries
  pub counted : c.retained ≡ weight c.entries
  pub bounded : c.retained ≤ c.budget_bytes

weight-erase_missing :
    (k : String) (d : Entries) → lookup k d ≡ none → weight (erase k d) ≡ weight d
unfolding lookup erase
weight-erase_missing k [] h = refl
weight-erase_missing k ((j, v) ∷ d) h = ground (arith, weight-erase_missing k d)

weight-erase :
    (k : String) (d : Entries) {v : Body}
    → NodupKeys d
    → lookup k d ≡ some v
    → weight (erase k d) + length v ≡ weight d
unfolding lookup erase
weight-erase k [] u h = cc
weight-erase k ((j, w) ∷ d) {v = v} (fresh, u) h =
    ground (arith, eq_iff j k, weight-erase_missing k d, weight-erase k d {v = v} u)

lookup-append_one :
    (j k : String) (v : Body) (d : Entries)
    → lookup j d ≡ none
    → lookup j (d ++ ((k, v) ∷ [])) ≡ (if k == j then some v else none)
unfolding lookup
lookup-append_one j k v [] h = refl
lookup-append_one j k v ((i, w) ∷ d) h = ground (arith, lookup-append_one j k v d)

lookup-append_old :
    (j k : String) (v : Body) (d : Entries)
    → (k == j) ≡ false
    → lookup j (d ++ ((k, v) ∷ [])) ≡ lookup j d
unfolding lookup
lookup-append_old j k v [] h = ground arith
lookup-append_old j k v ((i, w) ∷ d) h = ground (arith, lookup-append_old j k v d)

append_one-NodupKeys :
    (k : String) (v : Body) (d : Entries)
    → lookup k d ≡ none
    → NodupKeys d
    → NodupKeys (d ++ ((k, v) ∷ []))
unfolding lookup
append_one-NodupKeys k v [] h u = (refl, tt)
append_one-NodupKeys k v ((j, w) ∷ d) h (fresh, u) = (
  ground (arith, eq_iff j k, eq_iff k j, lookup-append_old j k v d),
  append_one-NodupKeys k v d (ground arith) u,
)

-- What is left when the oldest have gone.
record Evicted (budget need : ℕ) (key : String) (r : Entries × ℕ) : Type 0 where
  unique : NodupKeys r.0
  counted : r.1 ≡ weight r.0
  bounded : r.1 + need ≤ budget
  missing : lookup key r.0 ≡ none

evict-Evicted :
    (budget need : ℕ) (key : String) (d : Entries) (retained : ℕ)
    → need ≤ budget
    → NodupKeys d
    → retained ≡ weight d
    → lookup key d ≡ none
    → Evicted budget need key (evict budget need d retained)
unfolding evict lookup
evict-Evicted budget need key [] retained le u c m = record {
  unique = tt;
  counted = c;
  bounded = omega arith;
  missing = refl;
}
evict-Evicted budget need key ((j, w) ∷ d) retained le (fresh, u) c m =
    elim (Bool-cases (ltb budget (retained + need))) [
      | inl over ↦
          rw over (
            evict-Evicted budget need key d (retained - length w) le u (omega arith) (ground arith))
      | inr fine ↦
          rw fine (record { unique = (fresh, u); counted = c; bounded = ground arith; missing = m })
    ]

delete-Fits :
    (key : String) (c : BodyCache)
    → Fits c
    → Fits (delete key c)
      × (lookup key (delete key c).entries ≡ none)
      × ((delete key c).budget_bytes ≡ c.budget_bytes)
unfolding delete
delete-Fits key c f = elim (Option-cases (lookup key c.entries)) [
  | inl e ↦ rw (e, delete) (f, e, refl)
  | inr (v, e) ↦
      let sum = weight-erase key c.entries f.unique e in
      rw (e, delete)
        (
          record {
            unique = erase-NodupKeys key c.entries f.unique;
            counted = omega (arith, f.counted, sum);
            bounded = omega (arith, f.bounded);
          },
          ground (arith, lookup-erase key key c.entries, eq_iff key key),
          refl,
        )
]

store-Fits :
    (key : String) (value : Body) (budget : ℕ) (r : Entries × ℕ)
    → Evicted budget (length value) key r
    → Fits (store key value budget r)
store-Fits key value budget r e = record {
  unique = append_one-NodupKeys key value r.0 e.missing e.unique;
  counted = omega (arith, e.counted, sum_by-append (λ x. length x.1) r.0 ((key, value) ∷ []));
  bounded = e.bounded;
}

set-Fits : (key : String) (value : Body) (c : BodyCache) → Fits c → Fits (set key value c)
unfolding set
set-Fits key value c f =
    let (g, gone, same) = delete-Fits key c f in
    elim (Bool-cases (ltb c.budget_bytes (length value))) [
      | inl large ↦ rw large g
      | inr fine ↦ rw fine (
          store-Fits key value c.budget_bytes _ (
            evict-Evicted c.budget_bytes (length value) key (delete key c).entries
              (delete key c).retained (ground arith) g.unique g.counted gone))
    ]

get-Fits : (key : String) (c : BodyCache) → Fits c → Fits (get key c).1
unfolding get
get-Fits key c f = elim (Option-cases (lookup key c.entries)) [
  | inl e ↦ rw (e, get) f
  | inr (v, e) ↦
      let sum = weight-erase key c.entries f.unique e in
      let gone : lookup key (erase key c.entries) ≡ none =
        ground (arith, lookup-erase key key c.entries, eq_iff key key) in
      rw (e, get)
        (record {
          unique =
              append_one-NodupKeys key v (erase key c.entries) gone
                (erase-NodupKeys key c.entries f.unique);
          counted = omega (
            arith,
            f.counted,
            sum,
            sum_by-append (λ x. length x.1) (erase key c.entries) ((key, v) ∷ []),
          );
          bounded = f.bounded;
        })
]

serve-Fits : (r : Request) (c : BodyCache) → Fits c → Fits (serve r c)
unfolding serve
serve-Fits (read key) c f = get-Fits key c f
serve-Fits (keep_body key value) c f = set-Fits key value c f
serve-Fits (forget key) c f = (delete-Fits key c f).0
serve-Fits forget_all c f = record { unique = tt; counted = refl; bounded = omega arith }

serve_all-Fits_from : (rs : List Request) (c : BodyCache) → Fits c → Fits (serve_all rs c)
unfolding serve_all
serve_all-Fits_from [] c f = f
serve_all-Fits_from (r ∷ rs) c f = serve_all-Fits_from rs (serve r c) (serve-Fits r c f)

-- After any requests to a new cache each key has one body, the account `retained` is the number of
-- bytes that are kept, and it is within the budget.
pub serve_all-Fits : (budget : ℕ) (rs : List Request) → Fits (serve_all rs (new_cache budget))
serve_all-Fits budget rs =
    serve_all-Fits_from rs (new_cache budget)
      (record { unique = tt; counted = refl; bounded = omega arith })

evict-missing :
    (budget need : ℕ) (key : String) (d : Entries) (retained : ℕ)
    → lookup key d ≡ none
    → lookup key (evict budget need d retained).0 ≡ none
unfolding evict lookup
evict-missing budget need key [] retained m = refl
evict-missing budget need key ((j, w) ∷ d) retained m =
    ground (arith, evict-missing budget need key d (retained - length w))

delete-missing : (key : String) (c : BodyCache) → lookup key (delete key c).entries ≡ none
unfolding delete
delete-missing key c = elim (Option-cases (lookup key c.entries)) [
  | inl e ↦ rw (e, delete) e
  | inr (v, e) ↦ rw (e, delete) (ground (arith, lookup-erase key key c.entries, eq_iff key key))
]

lookup-set :
    (key : String) (value : Body) (c : BodyCache)
    → lookup key (set key value c).entries
      ≡ (if ltb c.budget_bytes (length value) then none else some value)
unfolding set
lookup-set key value c =
    let kept =
      (evict c.budget_bytes (length value) (delete key c).entries (delete key c).retained).0 in
    ground (
      arith,
      delete-missing key c,
      lookup-append_one key key value kept (
          evict-missing c.budget_bytes (length value) key (delete key c).entries
            (delete key c).retained (delete-missing key c)),
      eq_iff key key,
    )

-- A body that was just stored is the one that is read, whatever had to go for it; one that is
-- larger than the whole budget is not kept, and neither is an older body of its key.
pub get-set :
    (key : String) (value : Body) (c : BodyCache)
    → (get key (set key value c)).0
      ≡ (if ltb c.budget_bytes (length value) then none else some value)
unfolding get
get-set key value c = ground (arith, lookup-set key value c)
