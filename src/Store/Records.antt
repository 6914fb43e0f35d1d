-- ===== src/Store/Records.antt =====
-- The check of one record of a promotion in `latest_record_with_key` of src/release.rs, in its order.
use nixdeploy_corbet_ch.World.{FilePath}
use nixdeploy_corbet_ch.StorePath.{looks_like_timestamp, looks_like_id}
use nixdeploy_corbet_ch.Release.{promotion_record_version, PromotionRecord}
use nixdeploy_corbet_ch.Release.Envelope.{parse_envelope, open_with_signing_key}
use nixdeploy_corbet_ch.Store.{
  TrustFault, release_fault, record_version, record_malformed, name_required, first_not_first,
  not_contiguous, previous_not_continued, successor, same_text, same_path, ReleaseStore,
  record_path,
}
use nixdeploy_corbet_ch.Base.{
  eqb, Result, ok, err, ◌>>=◌, map_err, ℕ, Bool, true, false, ◌&&◌, Option, none, some, List,
}
use nixdeploy_corbet_ch.Text.{Text}

abbrev pub require {ℓ} : {E : Type ℓ} → Bool → E → Result (Unit {0}) E
require true e = ok tt
require false e = err e

is_absent : Option Text → Bool
is_absent none = true
is_absent (some a) = false

-- The first record is generation 1 with no previous ID, and each later one continues the one before.
unfoldable pub check_chain : Option PromotionRecord → PromotionRecord → Result (Unit {0}) TrustFault
unfolding is_absent successor same_text
check_chain none entry =
    require (eqb entry.generation 1 && is_absent entry.previous_deployment_set_id) first_not_first
check_chain (some previous) entry = do
  contiguous ← require (eqb entry.generation (successor previous.generation)) not_contiguous
  require (same_text entry.previous_deployment_set_id (some previous.deployment_set_id))
      previous_not_continued

module _ (store : ReleaseStore) where
  open store use {crypto, forms}

  -- The checks on a record whose signature verified.
  unfoldable pub accept_record :
      FilePath → Option PromotionRecord → PromotionRecord → Result PromotionRecord TrustFault
  unfolding check_chain
  accept_record path latest entry = do
    versioned ← require (eqb entry.version promotion_record_version) (record_version entry.version)
    shaped ←
        require
          (looks_like_id entry.deployment_set_id
            && looks_like_id entry.release_digest
            && looks_like_timestamp entry.promoted_at)
          record_malformed
    named ←
        require (same_path path (record_path store entry.generation entry.deployment_set_id))
          (name_required (record_path store entry.generation entry.deployment_set_id))
    chained ← check_chain latest entry
    ok entry

  unfoldable pub check_record :
      FilePath
      → Option PromotionRecord
      → List ℕ
      → crypto.SigningKey
      → Result PromotionRecord TrustFault
  unfolding accept_record
  check_record path latest bytes key = do
    envelope ← map_err release_fault (parse_envelope crypto forms bytes)
    entry ← map_err release_fault (open_with_signing_key crypto forms forms.records envelope key)
    accept_record path latest entry
