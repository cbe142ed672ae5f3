-- ===== src/Server/Canary/Tests.antt =====
-- Runs of `CanaryScope` with a parser that knows one server.
use gib_sync.Prelude.{
  ◌≡◌, refl, String, Bool, true, false, Option, none, some, List, [], ◌∷◌, ◌==◌, if◌then◌else◌,
}
use gib_sync.Prelude.Text.{Text, text, text_eq, starts_with, slice_from}
use gib_sync.Prelude.Result.{ok, err}
use gib_sync.Protocol.Host.{ascii}
use gib_sync.Server.Canary.{
  Url, Config, CanaryScope, incomplete_scope, forbidden, unscoped_vault, new_scope,
  assert_credentials, assert_store,
}

abbrev one_server : Text → Option Url
one_server value =
    if starts_with value (text "https://files.example")
    then some (record {
      origin = text "https://files.example";
      host = text "files.example";
      pathname = slice_from 21 value;
      username = [];
      password = [];
      search = [];
      fragment = [];
    })
    else none

abbrev settings : Config
settings = record {
  canary_username = some (text " Test@Example ");
  canary_library_id = some (text "01234567-89ab-cdef-0123-456789ABCDEF");
  canary_url = none;
  seafile_url = text "https://files.example/dav//";
}

abbrev scope : CanaryScope
scope = record {
  enabled = true;
  account = some (text "test@example");
  library_id = some (text "01234567-89ab-cdef-0123-456789ABCDEF");
  url = some (text "https://files.example/dav");
}

scope_is_made : new_scope ascii one_server settings ≡ ok scope
unfolding new_scope starts_with gib_sync.Prelude.Text.trim_end gib_sync.Prelude.Text.trim_start
    gib_sync.Prelude.Text.text_beq
scope_is_made = refl

half_a_scope :
    new_scope ascii one_server (record settings { canary_library_id = none }) ≡ err incomplete_scope
unfolding new_scope
half_a_scope = refl

own_account :
    assert_credentials ascii one_server scope
      (text "https://files.example/dav/")
      (text "TEST@example")
    ≡ ok tt
unfolding assert_credentials gib_sync.Prelude.Text.text_beq gib_sync.Prelude.Text.trim_end
    gib_sync.Prelude.Text.trim_start starts_with
own_account = refl

other_account :
    assert_credentials ascii one_server scope (text "https://files.example/dav/") (text "me")
    ≡ err forbidden
unfolding assert_credentials gib_sync.Prelude.Text.text_beq gib_sync.Prelude.Text.trim_end
    gib_sync.Prelude.Text.trim_start
other_account = refl

unscoped :
    assert_store ascii one_server scope
      (record { storage_url = none; storage_username = none; storage_repo_id = none } ∷ [])
    ≡ err unscoped_vault
unfolding assert_store
unscoped = refl
