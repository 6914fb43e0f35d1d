-- ===== src/Store.antt =====
-- `ReleaseStore` of src/release.rs: requests, outcomes and errors of a promotion, the store's paths
-- and its calls on the file system. A store is a directory with the immutable releases, the signed
-- records of promotions and the channel that receivers follow.
pub mod Records
pub mod Journal
pub mod Recover
pub mod Promote
pub mod Entry
pub mod Linked
pub mod Kept
pub mod Quiet
pub mod Backed
pub mod Chain
pub mod Latest
pub mod Settled
pub mod Recovered
pub mod Locked
pub mod Outcomes
pub mod Promoted
use mathlib.Core.List.{reverse}
use nixdeploy_corbet_ch.World.{
  FilePath, FileRead, contents, no_such_file, unreadable, Os, Exec, ◌>>=◌, pure, exit, act, or_exit,
  with_error, attempt,
}
use nixdeploy_corbet_ch.Digits.{show, show_padded}
use nixdeploy_corbet_ch.AtomicFile.{write_atomic}
use nixdeploy_corbet_ch.Trust.{Crypto}
use nixdeploy_corbet_ch.Release.{ReleaseHostEntry, ReleaseDocument}
use nixdeploy_corbet_ch.Release.Sets.{SetProblem}
use nixdeploy_corbet_ch.Release.Envelope.{
  ReleaseProblem, ReleaseError, Forms, verify_release_with_key,
}
use nixdeploy_corbet_ch.Release.Selection.{SelectionProblem}
use nixdeploy_corbet_ch.Base.{
  if◌then◌else◌, length, is_empty, Result, ok, err, ℕ, zero, suc, ◌+◌, ◌%◌, Bool, true, false, ◌&&◌,
  Option, none, some, List, [], ◌∷◌, ◌++◌,
}
use nixdeploy_corbet_ch.Text.{Text, codes, ◌==◌, strip_prefix, split_once, u64_mod}
use nixdeploy_corbet_ch.Map.{BTreeMap}

pub record PromotionRequest : Type 0 where
  pub candidates : BTreeMap ReleaseHostEntry
  pub hosts : List Text
  pub planes : List Text
  -- `none`: the origin must not have a stable release yet.
  pub expected_base : Option Text
  pub published_at : Text

pub data PromotionStatus : Type 0 where
  promoted unchanged superseded rejected : PromotionStatus

pub data PromotionDetail : Type 0 where
  set_problem : SetProblem → PromotionDetail
  published_at_invalid expected_base_invalid : Text → PromotionDetail
  selection_problem : SelectionProblem → PromotionDetail
  already_stable partial_without_stable : PromotionDetail
  base_moved : Option Text → Option Text → PromotionDetail

pub record PromotionOutcome : Type 0 where
  pub status : PromotionStatus
  pub deployment_set_id : Option Text
  pub previous_deployment_set_id : Option Text
  pub generation : Option ℕ
  pub details : List PromotionDetail

pub data Place : Type 0 where
  file : FilePath → Place
  directory : Text → Place

pub data IoFault : Type 0 where
  failed : Text → IoFault
  not_found : IoFault

pub data TrustFault : Type 0 where
  release_fault : ReleaseError → TrustFault
  composed_release : List ReleaseProblem → TrustFault
  record_version : ℕ → TrustFault
  record_malformed : TrustFault
  name_required : FilePath → TrustFault
  first_not_first not_contiguous previous_not_continued : TrustFault
  bytes_differ_from_record names_differ parents_differ : TrustFault
  name_and_id_disagree : TrustFault
  id_required : Text → Text → TrustFault

pub data PromotionError : Type 0 where
  io : Place → IoFault → PromotionError
  trust : Place → TrustFault → PromotionError
  lock_failed : FilePath → Text → PromotionError

-- `s.trim_start_matches(p)`, which strips `p` again and again.
trim_matches_from : ℕ → Text → Text → Text
trim_matches_from zero p s = s
trim_matches_from (suc n) p s = elim (strip_prefix s p) [
  | none ↦ s
  | some rest ↦ trim_matches_from n p rest
]

unfoldable pub trim_start_matches : Text → Text → Text
unfolding trim_matches_from
trim_start_matches s p = trim_matches_from (length s) p s

after_last_dot : Option (Text × Text) → Option Text
after_last_dot none = none
after_last_dot (some (ext, before)) = if is_empty before then none else some (reverse ext)

-- `Path::extension` of a file name: what stands after its last dot, if anything stands before it.
unfoldable pub extension : Text → Option Text
unfolding after_last_dot
extension name = after_last_dot (split_once (reverse name) b'.')

-- A u64 after one more.
unfoldable pub successor : ℕ → ℕ
successor n = (n + 1) % u64_mod

unfoldable pub same_text : Option Text → Option Text → Bool
same_text none none = true
same_text none (some b) = false
same_text (some a) none = false
same_text (some a) (some b) = a == b

abbrev pub same_path : FilePath → FilePath → Bool
same_path p q = p.dir == q.dir && p.name == q.name

pub record ReleaseStore : Type 1 where
  pub os : Os
  pub crypto : Crypto
  pub forms : Forms
  pub root : Text

module _ (store : ReleaseStore) where
  abbrev pub releases_dir : Text
  releases_dir = store.root ++ codes "/releases"

  abbrev pub promotions_dir : Text
  promotions_dir = store.root ++ codes "/promotions"

  abbrev pub channels_dir : Text
  channels_dir = store.root ++ codes "/channels"

  unfoldable pub channel_path : FilePath
  channel_path = record { dir = channels_dir; name = codes "stable.json" }

  unfoldable pub release_path : Text → FilePath
  release_path id = record {
    dir = releases_dir;
    name = trim_start_matches id (codes "sha256:") ++ codes ".json";
  }

  unfoldable pub record_path : ℕ → Text → FilePath
  record_path generation id = record {
    dir = promotions_dir;
    name =
        show_padded 20 generation
        ++ (codes "-" ++ (trim_start_matches id (codes "sha256:") ++ codes ".json"));
  }

  abbrev pub lock_path : FilePath
  lock_path = record { dir = store.root; name = codes ".promotion.lock" }

  -- A promotion's computation.
  abbrev pub Store : Type 0 → Type 0
  Store = Exec store.os PromotionError

  -- One call on the file system, with the place that its error names.
  unfoldable pub call_at :
      {A : Type 0} → Place → (store.os.Machine → Result A Text × store.os.Machine) → Store A
  call_at place op = do r ← act op (λ r. []); or_exit (λ e. io place (failed e)) r

  unfoldable pub read_contents : FilePath → FileRead → Store (List ℕ)
  read_contents path (contents bytes) = pure bytes
  read_contents path no_such_file = exit (io (file path) not_found)
  read_contents path (unreadable e) = exit (io (file path) (failed e))

  unfoldable pub read : FilePath → Store (List ℕ)
  unfolding read_contents
  read path = do found ← act (store.os.read_file path) (λ r. []); read_contents path found

  unfoldable pub verified : FilePath → List ℕ → store.crypto.SigningKey → Store ReleaseDocument
  verified path bytes key =
      or_exit (λ e. trust (file path) (release_fault e))
        (verify_release_with_key store.crypto store.forms bytes key)

  unfoldable pub read_release_with_key : Text → store.crypto.SigningKey → Store ReleaseDocument
  unfolding read verified
  read_release_with_key id key = do
    bytes ← read (release_path id)
    doc ← verified (release_path id) bytes key
    (if doc.deployment_set_id == id
        then pure doc
        else exit (trust (file (release_path id)) (id_required id doc.deployment_set_id)))

  unfoldable pub read_optional :
      FileRead → store.crypto.SigningKey → Store (Option (List ℕ × ReleaseDocument))
  unfolding verified
  read_optional (contents bytes) key = do
    doc ← verified channel_path bytes key
    pure (some (bytes, doc))
  read_optional no_such_file key = pure none
  read_optional (unreadable e) key = exit (io (file channel_path) (failed e))

  unfoldable pub read_current_with_key :
      store.crypto.SigningKey → Store (Option (List ℕ × ReleaseDocument))
  unfolding read_optional
  read_current_with_key key = do
    found ← act (store.os.read_file channel_path) (λ r. [])
    read_optional found key

  abbrev pub id_of_current : Option (List ℕ × ReleaseDocument) → Option Text
  id_of_current none = none
  id_of_current (some (bytes, doc)) = some doc.deployment_set_id

  unfoldable pub current_id_with_key : store.crypto.SigningKey → Store (Option Text)
  unfolding read_current_with_key
  current_id_with_key key = do current ← read_current_with_key key; pure (id_of_current current)

  -- `dir.join(format!(".{}.{}.immutable.tmp", file_name, process::id()))`
  unfoldable pub immutable_temp_path : FilePath → FilePath
  immutable_temp_path path = record path {
    name = b'.' ∷ path.name ++ (b'.' ∷ show store.os.process_id ++ codes ".immutable.tmp");
  }

  -- The synced file is linked into place, which fails where something stands, and the temporary name is
  -- removed.
  unfoldable pub link_steps : FilePath → FilePath → Store (Unit {0})
  unfolding call_at
  link_steps tmp path = do
    linked ← call_at (file path) (store.os.hard_link tmp path)
    listed ← call_at (directory path.dir) (store.os.sync_dir path.dir)
    gone ← call_at (file tmp) (store.os.remove_file tmp)
    call_at (directory path.dir) (store.os.sync_dir path.dir)

  unfoldable pub immutable_steps : FilePath → FilePath → List ℕ → ℕ → Store (Unit {0})
  unfolding call_at link_steps
  immutable_steps tmp path bytes mode = do
    created ← call_at (file tmp) (store.os.create_new tmp)
    written ← call_at (file tmp) (store.os.write_all tmp bytes)
    permitted ← call_at (file tmp) (store.os.set_permissions tmp mode)
    synced ← call_at (file tmp) (store.os.sync_all tmp)
    link_steps tmp path

  unfoldable pub remove_temp : FilePath → Result (Unit {0}) PromotionError → Store (Unit {0})
  remove_temp tmp (ok a) = pure tt
  remove_temp tmp (err e) = do ignored ← act (store.os.remove_file tmp) (λ r. []); pure tt

  unfoldable pub write_immutable : FilePath → List ℕ → ℕ → Store (Unit {0})
  unfolding immutable_steps remove_temp
  write_immutable path bytes mode = do
    result ← attempt (immutable_steps (immutable_temp_path path) path bytes mode)
    gone ← remove_temp (immutable_temp_path path) result
    or_exit (λ e. e) result

  -- The channel is replaced at once.
  unfoldable pub write_channel : List ℕ → Store (Unit {0})
  unfolding call_at
  write_channel bytes = do
    written ←
        with_error (λ e. io (file channel_path) (failed e)) (write_atomic channel_path bytes 0o644)
    call_at (directory channels_dir) (store.os.sync_dir channels_dir)
