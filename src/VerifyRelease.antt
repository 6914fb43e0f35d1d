-- ===== src/VerifyRelease.antt =====
-- src/verify_release.rs: the inventory of a release that verifies, and the command's arguments.
pub mod Args
pub mod Roots
pub mod Ascending
pub mod Verified
use nixdeploy_corbet_ch.Trust.{Crypto}
use nixdeploy_corbet_ch.Publish.{path_of}
use nixdeploy_corbet_ch.Release.{
  ReleaseBootSpec, unmanaged, managed, ReleasePlaneEntry, ReleaseHostEntry, ReleaseDocument,
}
use nixdeploy_corbet_ch.Release.Envelope.{ReleaseError, Forms, verify_release}
use nixdeploy_corbet_ch.World.{
  FileRead, contents, no_such_file, unreadable, Os, Exec, ◌>>=◌, pure, exit, act, or_exit,
}
use nixdeploy_corbet_ch.Base.{ℕ, Option, none, some, List, [], ◌∷◌}
use nixdeploy_corbet_ch.Text.{Text}
use nixdeploy_corbet_ch.Map.{BTreeMap, insert_text}

pub record VerifyReleaseArgs : Type 0 where
  pub release_file : Text
  pub public_key : Text

pub record ReleaseInventory : Type 0 where
  pub version : ℕ
  pub deployment_set_id : Text
  pub parent_deployment_set_id : Option Text
  pub published_at : Text
  pub targets : List Text

pub data VerifyFlag : Type 0 where
  release_flag public_key_flag : VerifyFlag

pub data VerifyFault : Type 0 where
  value_missing flag_missing : VerifyFlag → VerifyFault
  flag_unknown : Text → VerifyFault
  public_key_empty : VerifyFault

-- A file that is not there has no message of its own.
pub data VerifyReleaseError : Type 0 where
  verify_usage : VerifyFault → VerifyReleaseError
  release_unread : Text → Option Text → VerifyReleaseError
  release_untrusted : Text → ReleaseError → VerifyReleaseError

abbrev pub boot_targets : Option ReleaseBootSpec → List Text
boot_targets none = []
boot_targets (some ReleaseBootSpec.unmanaged) = []
boot_targets (some (ReleaseBootSpec.managed roles)) =
    roles.primary_role.artifact.target
    ∷ elim roles.nixrescue_role [ none ↦ [] | some role ↦ role.artifact.target ∷ [] ]

unfoldable pub insert_all : List Text → List Text → List Text
insert_all s [] = s
insert_all s (t ∷ ts) = insert_all (insert_text s t) ts

unfoldable pub insert_planes : List Text → BTreeMap ReleasePlaneEntry → List Text
unfolding insert_all
insert_planes s [] = s
insert_planes s ((name, plane) ∷ planes) =
    insert_planes (insert_all s (plane.artifact.target ∷ boot_targets plane.boot)) planes

unfoldable pub insert_hosts : List Text → BTreeMap ReleaseHostEntry → List Text
unfolding insert_planes
insert_hosts s [] = s
insert_hosts s ((name, host) ∷ hosts) = insert_hosts (insert_planes s host.planes) hosts

unfoldable pub inventory : ReleaseDocument → ReleaseInventory
unfolding insert_hosts
inventory doc = record {
  version = 1;
  deployment_set_id = doc.deployment_set_id;
  parent_deployment_set_id = doc.parent_deployment_set_id;
  published_at = doc.published_at;
  targets = insert_hosts [] doc.deployment_set.hosts;
}

module _ (os : Os) (crypto : Crypto) (forms : Forms) where
  unfoldable pub release_bytes : Text → FileRead → Exec os VerifyReleaseError (List ℕ)
  release_bytes path (contents bytes) = pure bytes
  release_bytes path no_such_file = exit (release_unread path none)
  release_bytes path (unreadable e) = exit (release_unread path (some e))

  -- `verify` of src/verify_release.rs
  unfoldable pub verify_file : VerifyReleaseArgs → Exec os VerifyReleaseError ReleaseInventory
  unfolding release_bytes inventory
  verify_file args = do
    found ← act (os.read_file (path_of args.release_file)) (λ r. [])
    bytes ← release_bytes args.release_file found
    document ←
        or_exit (release_untrusted args.release_file)
          (verify_release crypto forms bytes args.public_key)
    pure (inventory document)
