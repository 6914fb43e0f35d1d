-- ===== src/VerifyRelease/Verified.antt =====
-- The theorem on `verify` of src/verify_release.rs.
use nixdeploy_corbet_ch.Trust.{Crypto}
use nixdeploy_corbet_ch.Publish.{path_of}
use nixdeploy_corbet_ch.Release.{ReleaseDocument}
use nixdeploy_corbet_ch.Release.Envelope.{ReleaseError, Forms, verify_release}
use nixdeploy_corbet_ch.VerifyRelease.{
  VerifyReleaseArgs, ReleaseInventory, VerifyReleaseError, release_unread, release_untrusted,
  inventory, release_bytes, verify_file,
}
use nixdeploy_corbet_ch.VerifyRelease.Roots.{NamesRoot, insert_hosts-NamesRoot}
use nixdeploy_corbet_ch.VerifyRelease.Ascending.{IsAscending, insert_hosts-IsAscending}
use nixdeploy_corbet_ch.World.{
  FileRead, contents, no_such_file, unreadable, Os, World, ◌>>=◌, pure, exit, act, or_exit,
}
use nixdeploy_corbet_ch.Base.{Result, ok, err, ℕ, ◌≡◌, refl, ◌↔◌, true, none, some, List, []}
use nixdeploy_corbet_ch.Text.{Text}
use nixdeploy_corbet_ch.Map.{contains}

-- The inventory of a release: its names, and its roots in order, each once.
pub record IsInventory (doc : ReleaseDocument) (found : ReleaseInventory) : Type 0 where
  pub same_id : found.deployment_set_id ≡ doc.deployment_set_id
  pub same_parent : found.parent_deployment_set_id ≡ doc.parent_deployment_set_id
  pub same_time : found.published_at ≡ doc.published_at
  pub roots : (t : Text) → (contains found.targets t ≡ true) ↔ NamesRoot doc.deployment_set.hosts t
  pub ascending : IsAscending found.targets

inventory-IsInventory : (doc : ReleaseDocument) → IsInventory doc (inventory doc)
unfolding inventory
inventory-IsInventory doc = record {
  same_id = refl;
  same_parent = refl;
  same_time = refl;
  roots = insert_hosts-NamesRoot doc.deployment_set.hosts;
  ascending = insert_hosts-IsAscending [] doc.deployment_set.hosts tt;
}

module _ (os : Os) (crypto : Crypto) (forms : Forms) where
  -- What the command makes of what it read.
  abbrev pub IsVerdict :
      VerifyReleaseArgs → FileRead → Result ReleaseInventory VerifyReleaseError → Type 0
  IsVerdict args (contents bytes) (ok found) =
      (doc : ReleaseDocument) × (verify_release crypto forms bytes args.public_key ≡ ok doc)
      × IsInventory doc found
  IsVerdict args (contents bytes) (err e) =
      (fault : ReleaseError) × (verify_release crypto forms bytes args.public_key ≡ err fault)
      × (e ≡ release_untrusted args.release_file fault)
  IsVerdict args no_such_file answer = answer ≡ err (release_unread args.release_file none)
  IsVerdict args (unreadable e) answer = answer ≡ err (release_unread args.release_file (some e))

  opened-IsVerdict :
      (args : VerifyReleaseArgs) (bytes : List ℕ) (r : Result ReleaseDocument ReleaseError)
      (w : World os)
      → verify_release crypto forms bytes args.public_key ≡ r
      → IsVerdict args
          (contents bytes)
          ((or_exit (release_untrusted args.release_file) r >>= (λ doc. pure (inventory doc))) w).0
  unfolding ◌>>=◌ or_exit pure
  opened-IsVerdict args bytes (ok doc) w e = (doc, e, inventory-IsInventory doc)
  opened-IsVerdict args bytes (err fault) w e = (fault, e, refl)

  read-IsVerdict :
      (args : VerifyReleaseArgs) (found : FileRead) (w : World os)
      → IsVerdict args found
          ((release_bytes os crypto forms args.release_file found >>= (λ bytes.
              or_exit
                (release_untrusted args.release_file)
                (verify_release crypto forms bytes args.public_key)
              >>= (λ doc. pure (inventory doc))))
            w).0
  unfolding ◌>>=◌ pure exit release_bytes
  read-IsVerdict args (contents bytes) w =
      opened-IsVerdict args bytes (verify_release crypto forms bytes args.public_key) w refl
  read-IsVerdict args no_such_file w = refl
  read-IsVerdict args (unreadable e) w = refl

  -- A release file that the command reads gives an inventory exactly if the release verifies under the
  -- public key: it bears the release's names, and it lists, in ascending order, exactly the targets of
  -- the release's planes and of their managed boot roles. Otherwise the error is the verification's.
  -- A file that cannot be read is an error.
  pub verify_file-IsVerdict :
      (args : VerifyReleaseArgs) (w : World os)
      → IsVerdict args
          (os.read_file (path_of args.release_file) w.machine).0
          (verify_file os crypto forms args w).0
  unfolding verify_file ◌>>=◌ act
  verify_file-IsVerdict args w = read-IsVerdict args _ _
