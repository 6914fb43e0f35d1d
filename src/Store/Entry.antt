-- ===== src/Store/Entry.antt =====
-- What a record of a promotion in the journal of src/release.rs says, by the bytes of its file.
use nixdeploy_corbet_ch.Trust.{sign_detached}
use nixdeploy_corbet_ch.Release.{SignedEnvelope, PromotionRecord, envelope_version_supported}
use nixdeploy_corbet_ch.Release.Sets.{digest_id}
use nixdeploy_corbet_ch.Release.Envelope.{parse_envelope, open_with_signing_key}
use nixdeploy_corbet_ch.Store.{ReleaseStore}
use nixdeploy_corbet_ch.Base.{ok, ℕ, ◌≡◌, ◌⊎◌, List}
use nixdeploy_corbet_ch.Text.{Text}

module _ (store : ReleaseStore) (key : store.crypto.SigningKey) where
  open store use {crypto, forms}

  -- The file's envelope verifies under the key and its payload reads as the record.
  abbrev pub IsOpened : PromotionRecord → List ℕ → Type 0
  IsOpened found entry =
      (envelope : SignedEnvelope) × (parse_envelope crypto forms entry ≡ ok envelope)
      × (open_with_signing_key crypto forms forms.records envelope key ≡ ok found)

  -- The file is an envelope of the record's form, signed with the key under some name.
  abbrev pub IsSealed : PromotionRecord → List ℕ → Type 0
  IsSealed found entry =
      (key_name : Text) × (entry
        ≡ forms.envelopes.encode (record {
          envelope_version = envelope_version_supported;
          payload = crypto.encode64 (forms.records.encode found);
          signature = sign_detached crypto key_name key (forms.records.encode found);
        }))

  -- The file is a record, which was read or written with the key, of the promotion of these bytes under
  -- this ID as this generation.
  pub record IsEntry (id : Text) (generation : ℕ) (bytes entry : List ℕ) : Type 0 where
    pub found : PromotionRecord
    pub names : found.deployment_set_id ≡ id
    pub counts : found.generation ≡ generation
    pub digests : digest_id crypto bytes ≡ found.release_digest
    pub signed : IsOpened found entry ⊎ IsSealed found entry
