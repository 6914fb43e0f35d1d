-- ===== src/Release/Envelope.antt =====
-- Release documents under one signature: `ReleaseDocument::validate`, `SignedEnvelope`,
-- `sign_release` and `verify_release`.
use nixdeploy_corbet_ch.StorePath.{looks_like_timestamp, looks_like_id}
use nixdeploy_corbet_ch.Trust.{
  Crypto, SignatureError, parse_public_key, verify, verify_with_signing_key, sign_detached,
}
use nixdeploy_corbet_ch.Release.{
  Codec, envelope_version_supported, DeploymentSet, ReleaseDocument, SignedEnvelope,
  PromotionRecord,
}
use nixdeploy_corbet_ch.Release.Sets.{SetProblem, validate_set, set_id}
use nixdeploy_corbet_ch.Base.{
  eqb, if◌then◌else◌, push_if, Result, ok, err, ◌>>=◌, map_err, ok_or, ℕ, not, Option, none, some,
  List, [], ◌∷◌, ◌++◌, map,
}
use nixdeploy_corbet_ch.Text.{Text, ◌==◌}

pub data ReleaseProblem : Type 0 where
  in_set : SetProblem → ReleaseProblem
  id_mismatch : Text → Text → ReleaseProblem
  parent_malformed published_at_malformed : Text → ReleaseProblem

pub data ReleaseError : Type 0 where
  envelope_malformed payload_not_base64 payload_malformed : ReleaseError
  envelope_version_unsupported : ℕ → ReleaseError
  untrusted : SignatureError → ReleaseError
  invalid_release : List ReleaseProblem → ReleaseError

-- The serde_json forms of the types that are signed or stored.
pub record Forms : Type 0 where
  pub sets : Codec DeploymentSet
  pub documents : Codec ReleaseDocument
  pub envelopes : Codec SignedEnvelope
  pub records : Codec PromotionRecord

module _ (c : Crypto) (forms : Forms) where
  open c use {SigningKey, VerifyingKey, encode64, decode64}

  parent_problems : Option Text → List ReleaseProblem
  parent_problems none = []
  parent_problems (some parent) = push_if (not (looks_like_id parent)) (parent_malformed parent)

  unfoldable pub document_problems : ReleaseDocument → List ReleaseProblem
  unfolding parent_problems
  document_problems doc =
      let computed = set_id c forms.sets doc.deployment_set in
      map in_set (validate_set c doc.deployment_set)
      ++ (push_if (not (doc.deployment_set_id == computed))
            (id_mismatch doc.deployment_set_id computed)
          ++ (parent_problems doc.parent_deployment_set_id
              ++ push_if (not (looks_like_timestamp doc.published_at))
                  (published_at_malformed doc.published_at)))

  -- `SignedEnvelope::seal`
  unfoldable pub seal {ℓ} : {A : Type ℓ} → Codec A → A → Text → SigningKey → SignedEnvelope
  seal codec value key_name key =
      let payload = codec.encode value in
      record {
        envelope_version = envelope_version_supported;
        payload = encode64 payload;
        signature = sign_detached c key_name key payload;
      }

  -- `SignedEnvelope::parse`
  unfoldable pub parse_envelope : List ℕ → Result SignedEnvelope ReleaseError
  parse_envelope bytes = do
    envelope ← ok_or envelope_malformed (forms.envelopes.decode bytes)
    (if eqb envelope.envelope_version envelope_version_supported
        then ok envelope
        else err (envelope_version_unsupported envelope.envelope_version))

  -- `SignedEnvelope::open`: the payload is read only after its signature verified.
  unfoldable pub open_envelope {ℓ} :
      {A : Type ℓ} → Codec A → SignedEnvelope → Text → Result A ReleaseError
  open_envelope codec envelope public_key = do
    payload ← ok_or payload_not_base64 (decode64 envelope.payload)
    key ← map_err untrusted (parse_public_key c public_key)
    verified ← map_err untrusted (verify c key payload envelope.signature)
    ok_or payload_malformed (codec.decode payload)

  -- `SignedEnvelope::open_with_signing_key`
  unfoldable pub open_with_signing_key {ℓ} :
      {A : Type ℓ} → Codec A → SignedEnvelope → SigningKey → Result A ReleaseError
  open_with_signing_key codec envelope key = do
    payload ← ok_or payload_not_base64 (decode64 envelope.payload)
    verified ← map_err untrusted (verify_with_signing_key c key payload envelope.signature)
    ok_or payload_malformed (codec.decode payload)

  unfoldable pub sign_release :
      DeploymentSet
      → Option Text
      → Text
      → Text
      → SigningKey
      → Result SignedEnvelope (List ReleaseProblem)
  sign_release deployment_set parent published_at key_name key =
      let doc : ReleaseDocument = record {
        deployment_set_id = set_id c forms.sets deployment_set;
        parent_deployment_set_id = parent;
        published_at = published_at;
        deployment_set = deployment_set;
      } in
      elim (document_problems doc) [
        | [] ↦ ok (seal forms.documents doc key_name key)
        | p ∷ ps ↦ err (p ∷ ps)
      ]

  unfoldable pub verify_release_document : ReleaseDocument → Result ReleaseDocument ReleaseError
  verify_release_document doc = elim (document_problems doc) [
    | [] ↦ ok doc
    | p ∷ ps ↦ err (invalid_release (p ∷ ps))
  ]

  unfoldable pub verify_release : List ℕ → Text → Result ReleaseDocument ReleaseError
  unfolding parse_envelope open_envelope verify_release_document
  verify_release bytes public_key = do
    envelope ← parse_envelope bytes
    doc ← open_envelope forms.documents envelope public_key
    verify_release_document doc

  unfoldable pub verify_release_with_key : List ℕ → SigningKey → Result ReleaseDocument ReleaseError
  unfolding parse_envelope open_with_signing_key verify_release_document
  verify_release_with_key bytes key = do
    envelope ← parse_envelope bytes
    doc ← open_with_signing_key forms.documents envelope key
    verify_release_document doc
