-- ===== src/Store/Recover.antt =====
-- `prepare`, the lock and `recover` of src/release.rs: the channel is brought to the release that the
-- latest record of a promotion names.
use nixdeploy_corbet_ch.World.{
  FilePath, FileRead, contents, no_such_file, unreadable, ◌>>=◌, pure, exit, act, or_exit, attempt,
}
use nixdeploy_corbet_ch.Release.{ReleaseDocument, PromotionRecord}
use nixdeploy_corbet_ch.Release.Sets.{digest_id}
use nixdeploy_corbet_ch.Store.{
  file, directory, failed, bytes_differ_from_record, names_differ, parents_differ, io, trust,
  lock_failed, same_text, ReleaseStore, releases_dir, promotions_dir, channels_dir, channel_path,
  release_path, lock_path, Store, call_at, read, verified, write_channel,
}
use nixdeploy_corbet_ch.Store.Records.{require}
use nixdeploy_corbet_ch.Store.Journal.{latest_record_with_key}
use nixdeploy_corbet_ch.Base.{if◌then◌else◌, ℕ, Bool, true, not, Option, none, some, List, [], ◌∷◌}
use nixdeploy_corbet_ch.Text.{Text, ◌==◌}

module _ (store : ReleaseStore) where
  open store use {os, crypto}

  unfoldable pub prepare : List Text → Store store (Unit {0})
  prepare [] = pure tt
  prepare (dir ∷ dirs) = do
    made ← call_at store (directory dir) (os.create_dir_all dir)
    prepare dirs

  abbrev pub directories : List Text
  directories = store.root ∷ releases_dir store ∷ promotions_dir store ∷ channels_dir store ∷ []

  -- `PromotionLock::acquire`
  unfoldable pub acquire : FilePath → Store store (Unit {0})
  acquire path = do
    opened ← act (os.open_lock path) (λ r. [])
    file_open ← or_exit (λ e. lock_failed path e) opened
    locked ← act (os.lock_exclusive path) (λ r. [])
    or_exit (λ e. lock_failed path e) locked

  -- The lock is released on every return.
  unfoldable pub with_lock : {A : Type 0} → FilePath → Store store A → Store store A
  unfolding acquire
  with_lock path m = do
    locked ← acquire path
    result ← attempt m
    unlocked ← act (os.unlock path) (λ r. [])
    or_exit (λ e. e) result

  -- The release must be the one that the record is about.
  unfoldable pub matches_record :
      PromotionRecord → List ℕ → crypto.SigningKey → Store store ReleaseDocument
  matches_record entry bytes key =
      let path = release_path store entry.deployment_set_id in
      do
        same ←
            or_exit (λ e. trust (file path) e)
              (require (digest_id crypto bytes == entry.release_digest) bytes_differ_from_record)
        doc ← verified store path bytes key
        named ←
            or_exit (λ e. trust (file path) e)
              (require (doc.deployment_set_id == entry.deployment_set_id) names_differ)
        continued ←
            or_exit (λ e. trust (file path) e)
              (require (same_text doc.parent_deployment_set_id entry.previous_deployment_set_id)
                parents_differ)
        pure doc

  unfoldable pub needs_repair : List ℕ → FileRead → Store store Bool
  needs_repair bytes (contents current) = pure (not (current == bytes))
  needs_repair bytes no_such_file = pure true
  needs_repair bytes (unreadable e) = exit (io (file (channel_path store)) (failed e))

  unfoldable pub repair : List ℕ → Store store (Unit {0})
  unfolding needs_repair
  repair bytes = do
    found ← act (os.read_file (channel_path store)) (λ r. [])
    needed ← needs_repair bytes found
    (if needed then write_channel store bytes else pure tt)

  unfoldable pub recover_to : crypto.SigningKey → Option PromotionRecord → Store store (Option Text)
  unfolding matches_record repair
  recover_to key none = pure none
  recover_to key (some entry) = do
    bytes ← read store (release_path store entry.deployment_set_id)
    doc ← matches_record entry bytes key
    repaired ← repair bytes
    pure (some entry.deployment_set_id)

  unfoldable pub recover_locked : crypto.SigningKey → Store store (Option Text)
  unfolding recover_to
  recover_locked key = do latest ← latest_record_with_key store key; recover_to key latest

  unfoldable pub recover : crypto.SigningKey → Store store (Option Text)
  unfolding prepare with_lock recover_locked
  recover key = do prepared ← prepare directories; with_lock (lock_path store) (recover_locked key)
