-- ===== src/Server/Canary.antt =====
-- apps/server/src/canary-scope.ts: `CanaryScope`, which limits a validation server to one account
-- and one library. The URL parser of the platform is a parameter.
pub mod Tests
use gib_sync.Prelude.{
  ℕ, String, Bool, true, false, ◌&&◌, ◌||◌, not, Option, none, some, List, [], ◌∷◌, ◌++◌, keep, leb,
  if◌then◌else◌, ◌==◌, nat_eq, option_eq,
}
use gib_sync.Prelude.Text.{Text, text, text_eq, trim}
use gib_sync.Prelude.Regex.{Regex, one, followed, matches, literally, times}
use gib_sync.Prelude.Result.{Result, ok, err, ◌>>=◌, ◌>>◌, refuse, each}
use gib_sync.Protocol.Host.{Host}
use gib_sync.Server.Safeguards.{drop_last_slashes, is_blank}

-- The parts of `new URL(value)` that are read.
pub record Url : Type 0 where
  pub origin : Text
  pub host : Text
  pub pathname : Text
  pub username : Text
  pub password : Text
  pub search : Text
  pub fragment : Text

pub data CanaryError : Type 0 where
  invalid_url url_has_state incomplete_scope invalid_scope forbidden unscoped_vault : CanaryError

pub record Config : Type 0 where
  pub canary_username : Option Text
  pub canary_library_id : Option Text
  pub canary_url : Option Text
  pub seafile_url : Text

pub record CanaryScope : Type 0 where
  pub enabled : Bool
  pub account : Option Text
  pub library_id : Option Text
  pub url : Option Text

-- A row of `vaults`.
pub record StoredVault : Type 0 where
  pub storage_url : Option Text
  pub storage_username : Option Text
  pub storage_repo_id : Option Text

-- `Boolean(value)`
abbrev pub is_set : Option Text → Bool
is_set none = false
is_set (some s) = not (is_blank s)

abbrev pub or_blank : Option Text → Text
or_blank none = []
or_blank (some s) = s

abbrev pub hex_digit : Regex
hex_digit = one (λ c. leb 48 c && leb c 57 || leb 65 c && leb c 70 || leb 97 c && leb c 102)

abbrev pub dash : Regex → Regex
dash r = followed (literally (text "-")) r

-- `^{8}-{4}-{4}-{4}-{12}$` in hexadecimal digits
abbrev pub library_form : Regex
library_form = followed (times 8 hex_digit) (
    dash (
      followed (times 4 hex_digit) (
        dash (
          followed (times 4 hex_digit)
            (dash (followed (times 4 hex_digit) (dash (times 12 hex_digit))))))))

module _ (H : Host) (parse : Text → Option Url) where
  abbrev pub normalized_account : Text → Text
  normalized_account value = H.lower (trim value)

  abbrev pub new_url : Text → Result CanaryError Url
  new_url value = elim (parse value) [ none ↦ err invalid_url | some url ↦ ok url ]

  unfoldable pub normalized_url : Text → Result CanaryError Text
  unfolding drop_last_slashes
  normalized_url value = do
    url ← new_url value
    refuse
        (not (is_blank url.username)
          || not (is_blank url.password)
          || not (is_blank url.search)
          || not (is_blank url.fragment))
        url_has_state
    ok (url.origin ++ drop_last_slashes url.pathname)

  abbrev pub wants_canary : Config → Bool
  wants_canary c = is_set c.canary_username || is_set c.canary_library_id || is_set c.canary_url

  abbrev pub canary_source : Config → Text
  canary_source c = elim c.canary_url [ none ↦ c.seafile_url | some url ↦ url ]

  abbrev pub open_scope : Config → Result CanaryError CanaryScope
  open_scope c = do
    refuse (not (is_set c.canary_username) || not (is_set c.canary_library_id)) incomplete_scope
    url ← normalized_url (canary_source c)
    refuse
        (is_blank (normalized_account (or_blank c.canary_username))
          || not (matches library_form (or_blank c.canary_library_id)))
        invalid_scope
    own ← new_url url
    storage ← new_url c.seafile_url
    refuse (not (own.host == storage.host)) invalid_scope
    ok (record {
      enabled = true;
      account = some (normalized_account (or_blank c.canary_username));
      library_id = c.canary_library_id;
      url = some url;
    })

  -- The constructor.
  unfoldable pub new_scope : Config → Result CanaryError CanaryScope
  unfolding normalized_url matches
  new_scope c =
      if wants_canary c
      then open_scope c
      else ok
          (record { enabled = false; account = none; library_id = c.canary_library_id; url = none })

  abbrev pub compare_url : CanaryScope → Text → Result CanaryError (Unit {0})
  compare_url scope url = do
    own ← normalized_url url
    refuse (not (some own == scope.url)) forbidden

  unfoldable pub assert_credentials :
      CanaryScope → (url username : Text) → Result CanaryError (Unit {0})
  unfolding normalized_url
  assert_credentials scope url username =
      if scope.enabled
      then refuse (not (some (normalized_account username) == scope.account)) forbidden
        >> compare_url scope url
      else ok tt

  abbrev pub assert_library : CanaryScope → Text → Result CanaryError (Unit {0})
  assert_library scope library_id =
      refuse (scope.enabled && not (some library_id == scope.library_id)) forbidden

  abbrev pub libraries {ℓ} : {A : Type ℓ} → (A → Text) → CanaryScope → List A → List A
  libraries id scope found =
      if scope.enabled then keep (λ library. some (id library) == scope.library_id) found else found

  abbrev pub assert_vault : CanaryScope → StoredVault → Unit {0} → Result CanaryError (Unit {0})
  assert_vault scope row done = do
    refuse
        (not (is_set row.storage_url)
          || not (is_set row.storage_username)
          || not (is_set row.storage_repo_id))
        unscoped_vault
    assert_credentials scope (or_blank row.storage_url) (or_blank row.storage_username)
    assert_library scope (or_blank row.storage_repo_id)

  unfoldable pub assert_store : CanaryScope → List StoredVault → Result CanaryError (Unit {0})
  unfolding assert_credentials each
  assert_store scope rows = if scope.enabled then each (assert_vault scope) rows tt else ok tt
