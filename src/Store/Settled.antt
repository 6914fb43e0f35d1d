-- ===== src/Store/Settled.antt =====
-- The channel after `recover` and `promote` of src/release.rs.

use nixdeploy_corbet_ch.World.Files.{FileLaws}
use nixdeploy_corbet_ch.Release.{ReleaseDocument, PromotionRecord}
use nixdeploy_corbet_ch.Release.Sets.{digest_id}
use nixdeploy_corbet_ch.Release.Envelope.{verify_release_with_key}
use nixdeploy_corbet_ch.Store.{
  PromotionStatus, promoted, unchanged, superseded, rejected, PromotionOutcome, ReleaseStore,
}
use nixdeploy_corbet_ch.Store.Entry.{IsOpened, IsSealed}
use nixdeploy_corbet_ch.Store.Backed.{Follows}
use nixdeploy_corbet_ch.Base.{ok, ℕ, ◌≡◌, Option, none, some, List}
use nixdeploy_corbet_ch.Text.{Text}

module _ (store : ReleaseStore) (laws : FileLaws store.os) (key : store.crypto.SigningKey) where
  open laws use {files}
  open store use {os, crypto, forms}

  -- The bytes are those of the release that the record is about.
  abbrev pub IsReleaseOf : PromotionRecord → List ℕ → ReleaseDocument → Type 0
  IsReleaseOf entry bytes doc =
      (digest_id crypto bytes ≡ entry.release_digest)
      × (verify_release_with_key crypto forms bytes key ≡ ok doc)
      × (doc.deployment_set_id ≡ entry.deployment_set_id)
      × (doc.parent_deployment_set_id ≡ entry.previous_deployment_set_id)

  -- The channel holds the verified release that a record in the journal names.
  abbrev pub IsSettled : Text → os.Machine → Type 0
  IsSettled id s =
      (found : PromotionRecord) × (bytes : List ℕ) × (doc : ReleaseDocument) × (entry : List ℕ)
      × (found.deployment_set_id ≡ id)
      × IsOpened store key found entry
      × IsReleaseOf found bytes doc
      × Follows store laws key id found.generation bytes entry s

  -- Without a record nothing has happened.
  abbrev pub Recovers : (os.Machine → Type 0) → Option Text → os.Machine → Type 0
  Recovers G none = G
  Recovers G (some id) = IsSettled id

  -- The bytes are a verified release of this ID.
  abbrev pub IsRelease : Text → List ℕ → Type 0
  IsRelease id bytes =
      (doc : ReleaseDocument) × (verify_release_with_key crypto forms bytes key ≡ ok doc)
      × (doc.deployment_set_id ≡ id)

  -- A record of the promotion that is answered, of these bytes.
  abbrev pub IsRecordOf : PromotionOutcome → List ℕ → PromotionRecord → Type 0
  IsRecordOf o bytes found =
      (o.deployment_set_id ≡ some found.deployment_set_id)
      × (o.generation ≡ some found.generation)
      × (o.previous_deployment_set_id ≡ found.previous_deployment_set_id)
      × (digest_id crypto bytes ≡ found.release_digest)

  -- The answer names the release that the channel now holds, and its signed record says the same.
  abbrev pub IsPublished : PromotionOutcome → os.Machine → Type 0
  IsPublished o s =
      (found : PromotionRecord) × (bytes : List ℕ) × (entry : List ℕ) × IsRecordOf o bytes found
      × IsSealed store key found entry
      × IsRelease found.deployment_set_id bytes
      × Follows store laws key found.deployment_set_id found.generation bytes entry s

  -- Any other answer than "promoted" leaves `G` true.
  abbrev pub Told : (os.Machine → Type 0) → PromotionStatus → PromotionOutcome → os.Machine → Type 0
  Told G promoted o s = IsPublished o s
  Told G unchanged o s = G s
  Told G superseded o s = G s
  Told G rejected o s = G s
