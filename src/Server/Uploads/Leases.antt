-- ===== src/Server/Uploads/Leases.antt =====
-- apps/server/src/content-upload.ts: the row of a session, and the lease under which one request
-- at a time works on it (`row`, `assertLease`, `exclusive` and its renewal).
use gib_sync.Prelude.{
  ℕ, ◌+◌, String, Bool, true, false, ◌&&◌, Option, none, some, leb, ltb, if◌then◌else◌, ◌==◌,
  string_eq, option_eq,
}
use gib_sync.Prelude.Dict.{lookup}
use gib_sync.Prelude.Result.{Result, ok, err}
use gib_sync.Prelude.State.{◌>>=◌, ◌>>◌, finally}
use gib_sync.Server.Uploads.{
  UploadDevice, SessionRow, Failure, fail, Uploads, Upload, belongs, update, lease_ms,
}

abbrev found_row : UploadDevice → Option SessionRow → Result Failure SessionRow
found_row d none = err (fail 404 "Upload session not found")
found_row d (some r) = if belongs d r then ok r else err (fail 404 "Upload session not found")

abbrev pub row : UploadDevice → String → Upload SessionRow
row d id = λ s. (found_row d (lookup id s.sessions), s)

-- `lease_until IS NULL OR lease_until<=now`
abbrev pub is_free : ℕ → SessionRow → Bool
is_free now r = elim r.lease_until [ none ↦ true | some until ↦ leb until now ]

abbrev pub holds : String → ℕ → SessionRow → Bool
holds owner now r =
    r.lease_owner == some owner && elim r.lease_until [ none ↦ false | some until ↦ ltb now until ]

abbrev pub owned_by : String → SessionRow → Bool
owned_by owner r = r.lease_owner == some owner

abbrev leased : String → ℕ → Uploads → Option SessionRow → Bool
leased owner now s none = false
leased owner now s (some r) = holds owner now r

abbrev pub assert_lease : String → String → ℕ → Upload (Unit {0})
assert_lease owner id now = λ s. (
  if leased owner now s (lookup id s.sessions)
      then ok tt
      else err (fail 409 "Upload ownership changed; retry the session"),
  s,
)

abbrev pub take_lease : String → ℕ → SessionRow → SessionRow
take_lease owner now r = record r { lease_owner = some owner; lease_until = some (now + lease_ms) }

abbrev pub drop_lease : SessionRow → SessionRow
drop_lease r = record r { lease_owner = none; lease_until = none }

abbrev free_row : ℕ → Option SessionRow → Bool
free_row now none = false
free_row now (some r) = is_free now r

unfoldable pub acquire : String → String → ℕ → Upload (Unit {0})
acquire owner id now = λ s.
    if free_row now (lookup id s.sessions)
    then (ok tt, update id (is_free now) (take_lease owner now) s)
    else (err (fail 409 "This upload is being processed; retry shortly"), s)

abbrev pub release : String → String → Uploads → Uploads
release owner id = update id (owned_by owner) drop_lease

-- What the interval of `exclusive` does, every third of a lease.
unfoldable pub renew : String → String → ℕ → Uploads → Uploads
renew owner id now =
    update id (holds owner now) λ r. record r { lease_until = some (now + lease_ms) }

unfoldable pub exclusive :
    {A : Type 0} → String → UploadDevice → String → ℕ → (SessionRow → Upload A) → Upload A
unfolding acquire
exclusive owner d id now operation =
    row d id >>= λ _. acquire owner id now >> finally (row d id >>= operation) (release owner id)
