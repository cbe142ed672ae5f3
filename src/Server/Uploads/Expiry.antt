-- ===== src/Server/Uploads/Expiry.antt =====
-- apps/server/src/content-upload.ts: `cleanupExpired`, which deletes the sessions that nobody has
-- touched for a week.
use gib_sync.Prelude.{
  ℕ, ◌+◌, String, Bool, ◌&&◌, not, Option, none, some, List, [], ◌∷◌, ◌++◌, ltb, if◌then◌else◌,
  ◌==◌, nat_eq, string_eq, take, drop, keep,
}
use gib_sync.Prelude.Text.{Text, text, text_eq, starts_with}
use gib_sync.Prelude.Dict.{Dict, lookup, erase, values}
use gib_sync.Prelude.State.{◌>>=◌, ◌>>◌, pure, modify, lift, finally}
use gib_sync.Server.Uploads.{SessionRow, Bytes, Uploads, Upload, session_max_age, update}
use gib_sync.Server.Uploads.Leases.{assert_lease, owned_by, row, is_free, take_lease, release}
use gib_sync.Server.Uploads.Staging.{is_id, path}

abbrev pub remove_file : Text → Uploads → Uploads
remove_file name s = record s { files = erase name s.files }

-- `/^[a-f0-9-]{36}\.[a-f0-9-]{36}\.encrypted$/`, of a name that starts with the session
abbrev pub is_attempt : Text → Text → Bool
is_attempt id name =
    starts_with name (id ++ text ".")
    && is_id (take 36 name)
    && take 1 (drop 36 name) == text "."
    && is_id (take 36 (drop 37 name))
    && drop 73 name == text ".encrypted"

unfoldable pub drop_attempts : Text → Dict Text Bytes → Dict Text Bytes
drop_attempts id [] = []
drop_attempts id ((name, bytes) ∷ files) =
    let rest = drop_attempts id files in if is_attempt id name then rest else (name, bytes) ∷ rest

-- `updated_at<now-SESSION_MAX_AGE_MS AND (lease_until IS NULL OR lease_until<=now)`
abbrev pub is_expired : ℕ → SessionRow → Bool
is_expired now r = ltb (r.updated_at + session_max_age) now && is_free now r

-- The staging file and the encrypted copies of a session.
abbrev pub drop_files : SessionRow → Text → Uploads → Uploads
drop_files r name s = record s { files = drop_attempts (text r.id) (erase name s.files) }

abbrev pub without_owned : String → String → Dict String SessionRow → Dict String SessionRow
without_owned owner id sessions = elim (lookup id sessions) [
  | none ↦ sessions
  | some row ↦ if owned_by owner row then erase id sessions else sessions
]

-- The transaction on the rows, in which nothing throws, and what the class knows of the session.
abbrev pub drop_rows : String → String → Uploads → Uploads
drop_rows owner id s = record s {
  receipts = erase id s.receipts;
  sessions = without_owned owner id s.sessions;
  verified = keep (λ v. not (v == id)) s.verified;
  failures = erase id s.failures;
}

-- The files of a session go, then its rows.
unfoldable pub delete_session : String → ℕ → SessionRow → Upload (Unit {0})
unfolding path drop_attempts
delete_session owner now r = lift (path r.id) >>= λ name.
    modify (drop_files r name) >> (assert_lease owner r.id now >> modify (drop_rows owner r.id))

-- The UPDATE claims the row again; where another worker was faster, it is passed over.
unfoldable pub clean_row : String → ℕ → SessionRow → Option SessionRow → Upload (Unit {0})
unfolding delete_session
clean_row owner now r none = pure tt
clean_row owner now r (some current) =
    if is_expired now current
    then (λ s.
        finally (delete_session owner now r) (release owner r.id)
          (update r.id (is_expired now) (take_lease owner now) s))
    else pure tt

unfoldable pub clean_one : String → ℕ → SessionRow → Upload (Unit {0})
unfolding clean_row
clean_one owner now r = λ s. clean_row owner now r (lookup r.id s.sessions) s

unfoldable pub clean_all : String → ℕ → List SessionRow → Upload (Unit {0})
unfolding clean_one
clean_all owner now [] = pure tt
clean_all owner now (r ∷ rs) = let rest = clean_all owner now rs in clean_one owner now r >> rest

unfoldable pub cleanup_expired : String → ℕ → Upload (Unit {0})
unfolding clean_all
cleanup_expired owner now =
    λ s. clean_all owner now (take 64 (keep (is_expired now) (values s.sessions))) s
