-- ===== src/Server/Generation/Laws.antt =====
-- apps/server/src/mirror-generation.ts: a marker that was just written is found valid.
use gib_sync.Prelude.{
  ◌≡◌, refl, ◌∙◌, ap, String, true, Option, some, List, length, ◌==◌, nat_eq, string_eq, Eq, arith,
}
use gib_sync.Prelude.Text.{Text, text_eq}
use gib_sync.Prelude.Dict.{Dict, insert, lookup-insert_self}
use gib_sync.Prelude.Result.{ok}
use gib_sync.Protocol.Host.{Host}
use gib_sync.Server.FolderMigration.{Snapshot, StableFile}
use gib_sync.Server.Generation.{
  ReadableGeneration, generation_path, folders_for, manifest_hash_of, generation_for,
  valid_generation, read_generation, unseal_found, verified, write_generation,
}

==-refl : {K : Type 0} ⦃e : Eq K⦄ (k : K) → (k == k) ≡ true
==-refl ⦃e⦄ k = (e.equal_iff k k).1 refl

module _ (H : Host) (digest : List StableFile → List Text → String) where
  valid_generation-generation_for :
      (now : Text) (s : Snapshot)
      → valid_generation H digest (some (generation_for H digest now s)) (some s) ≡ true
  unfolding valid_generation generation_for
  valid_generation-generation_for now s = ground (
    arith,
    ==-refl s.vault_id,
    ==-refl s.id,
    ==-refl (length s.entries),
    ==-refl (length (folders_for s)),
    ==-refl (manifest_hash_of H digest s.entries (folders_for s)),
  )

  module _ (seal : ReadableGeneration → Text) (unseal : Text → Option ReadableGeneration) where
    found_again :
        (g : ReadableGeneration) (files : Dict Text Text)
        → unseal (seal g) ≡ some g
        → read_generation H digest seal unseal (insert generation_path (seal g) files) ≡ some g
    unfolding read_generation
    found_again g files opens =
        ap (unseal_found H digest seal unseal) (lookup-insert_self generation_path (seal g) files)
        ∙ opens

    found_valid :
        (now : Text) (s : Snapshot)
        → verified H digest seal unseal (some (generation_for H digest now s)) s
          ≡ ok (generation_for H digest now s)
    found_valid now s = rw (valid_generation-generation_for now s) refl

    -- Where a sealed marker can be opened again, writing one succeeds: the result is the marker of
    -- the snapshot, and the storage has it under its path.
    pub write_generation-read_generation :
        (now : Text) (s : Snapshot) (files : Dict Text Text)
        → ((g : ReadableGeneration) → unseal (seal g) ≡ some g)
        → ((write_generation H digest seal unseal now s files).0
            ≡ ok (generation_for H digest now s))
          × (read_generation H digest seal unseal
                (write_generation H digest seal unseal now s files).1
              ≡ some (generation_for H digest now s))
    unfolding write_generation read_generation
    write_generation-read_generation now s files opens =
        let found = found_again (generation_for H digest now s) files (opens _) in
        (
          ap (λ (r : Option ReadableGeneration). verified H digest seal unseal r s) found
              ∙ found_valid now s,
          found,
        )
