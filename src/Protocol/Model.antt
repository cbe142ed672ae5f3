-- ===== src/Protocol/Model.antt =====
-- The data of packages/protocol/src/index.ts and packages/protocol/src/operations.ts that the
-- modelled code reads. Paths are texts, for the program takes them apart; identifiers, hashes and
-- names are strings. Times are milliseconds.
use gib_sync.Prelude.{ℕ, String, Bool, false, Option, none, some, not, ◌==◌, string_eq}
use gib_sync.Prelude.Text.{Text}

pub record FileRevision : Type 0 where
  pub id : String
  pub parent_id : Option String
  pub device_id : String
  pub device_name : String
  pub modified_at : ℕ

pub record ManifestEntry : Type 0 where
  pub path : Text
  pub hash : String
  pub size : ℕ
  pub mtime : ℕ
  pub file_id : Option String
  pub revision : Option FileRevision

pub record FolderEntry : Type 0 where
  pub folder_id : String
  pub path : Text
  pub revision : FileRevision

-- JavaScript takes a missing and an empty string alike for false.
abbrev pub given : Option String → Bool
given none = false
given (some s) = not (s == "")

pub data Side : Type 0 where
  local remote : Side
