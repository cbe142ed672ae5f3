-- ===== src/Plugin/BodyCache/Tests.antt =====
-- Runs of plugin/src/body-cache.ts, and the theorems about it at some of them.
use gib_sync.Prelude.{
  ℕ, ◌≡◌, refl, Bool, true, false, Option, none, some, List, [], ◌∷◌, length, ltb, if◌then◌else◌,
  String, string_eq,
}
use gib_sync.Prelude.Dict.{keys}
use gib_sync.Plugin.BodyCache.{Request, read, keep_body, new_cache, serve_all}
use gib_sync.Plugin.BodyCache.Laws.{Fits, serve_all-Fits}

abbrev requests : List Request
requests =
    keep_body "a" (1 ∷ 2 ∷ [])
    ∷ keep_body "b" (3 ∷ [])
    ∷ read "a"
    ∷ keep_body "c" (4 ∷ 5 ∷ [])
    ∷ keep_body "d" (6 ∷ 7 ∷ 8 ∷ 9 ∷ 10 ∷ [])
    ∷ []

-- The body that was read stays, the one that was not goes.
oldest_goes : keys (serve_all requests (new_cache 4)).entries ≡ "a" ∷ "c" ∷ []
unfolding serve_all gib_sync.Prelude.Dict.lookup gib_sync.Prelude.Dict.erase
oldest_goes = refl

serve_all-Fits_example : Fits (serve_all requests (new_cache 4))
serve_all-Fits_example = serve_all-Fits 4 requests
