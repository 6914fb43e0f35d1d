-- ===== src/Release/Signed.antt =====
-- What `sign_release` signs, the receivers' `verify_release` accepts.
use nixdeploy_corbet_ch.Trust.{Crypto, CryptoLaws, encoded_part, parse_public_key}
use nixdeploy_corbet_ch.Trust.Signatures.{split_once-free, verify-sign_detached}
use nixdeploy_corbet_ch.Release.{DeploymentSet, ReleaseDocument, SignedEnvelope}
use nixdeploy_corbet_ch.Release.Sets.{set_id}
use nixdeploy_corbet_ch.Release.Envelope.{
  ReleaseProblem, Forms, document_problems, seal, parse_envelope, open_envelope, sign_release,
  verify_release_document, verify_release,
}
use nixdeploy_corbet_ch.Base.{
  eqb, all, ok, err, ◌≡◌, refl, sym, subst, true, not, Option, some, List, [], ◌∷◌,
}
use nixdeploy_corbet_ch.Text.{Text}

abbrev pub release_of : (c : Crypto) → Forms → DeploymentSet → Option Text → Text → ReleaseDocument
release_of c forms deployment_set parent published_at = record {
  deployment_set_id = set_id c forms.sets deployment_set;
  parent_deployment_set_id = parent;
  published_at = published_at;
  deployment_set = deployment_set;
}

module _ (c : Crypto) (laws : CryptoLaws c) (forms : Forms) where
  -- The public key's text, without a name.
  abbrev pub public_text : c.SigningKey → Text
  public_text key = c.encode64 (c.key_bytes (c.verifying_key key))

  encoded_part-public_text : (key : c.SigningKey) → encoded_part (public_text key) ≡ public_text key
  unfolding encoded_part
  encoded_part-public_text key =
      rw
        (
          split_once-free _ b':' (laws.encode_alphabet (c.key_bytes (c.verifying_key key))),
          encoded_part,
        )
        refl

  pub parse_public_key-public_text :
      (key : c.SigningKey) → parse_public_key c (public_text key) ≡ ok (c.verifying_key key)
  unfolding parse_public_key
  parse_public_key-public_text key =
      rw (encoded_part-public_text key, parse_public_key)
        (rw (laws.decode-encode (c.key_bytes (c.verifying_key key))) (
          rw (laws.key_length (c.verifying_key key), laws.read_key-bytes (c.verifying_key key))
            refl))

  sealed :
      (set : DeploymentSet) (parent : Option Text) (published_at name : Text) (key : c.SigningKey)
      (envelope : SignedEnvelope)
      → sign_release c forms set parent published_at name key ≡ ok envelope
      → (document_problems c forms (release_of c forms set parent published_at) ≡ [])
        × (seal c forms forms.documents (release_of c forms set parent published_at) name key
            ≡ envelope)
  unfolding sign_release
  sealed set parent published_at name key envelope h =
      chosen (document_problems c forms (release_of c forms set parent published_at)) h
    where
      chosen :
          (ps : List ReleaseProblem)
          → elim ps [
            | [] ↦
                ok (
                  seal c forms forms.documents
                    (release_of c forms set parent published_at)
                    name
                    key)
            | p ∷ ps ↦ err (p ∷ ps)
          ]
            ≡ ok envelope
          → (ps ≡ [])
            × (seal c forms forms.documents (release_of c forms set parent published_at) name key
                ≡ envelope)
      chosen [] e = (refl, cc)
      chosen (p ∷ ps) e = cc

  -- If a release could be signed, then its envelope, written out, verifies under the public half of the
  -- key as the release that was put in, with the digest of its set for its ID, where the forms read back
  -- this release and this envelope, the cryptography satisfies its laws, and the key's name has no
  -- colon.
  pub verify_release-sign_release :
      (set : DeploymentSet) (parent : Option Text) (published_at name : Text) (key : c.SigningKey)
      (envelope : SignedEnvelope)
      → all (λ x. not (eqb x b':')) name ≡ true
      → sign_release c forms set parent published_at name key ≡ ok envelope
      → forms.documents.decode (forms.documents.encode (release_of c forms set parent published_at))
        ≡ some (release_of c forms set parent published_at)
      → forms.envelopes.decode (forms.envelopes.encode envelope) ≡ some envelope
      → verify_release c forms (forms.envelopes.encode envelope) (public_text key)
        ≡ ok (release_of c forms set parent published_at)
  unfolding verify_release parse_envelope open_envelope verify_release_document seal
  verify_release-sign_release set parent published_at name key envelope n h d v =
      let (valid, e) = sealed set parent published_at name key envelope h in
      let doc = release_of c forms set parent published_at in
      let written : forms.envelopes.decode
            (forms.envelopes.encode (seal c forms forms.documents doc name key))
          ≡ some (seal c forms forms.documents doc name key) =
        subst (λ z. forms.envelopes.decode (forms.envelopes.encode z) ≡ some z) (sym e) v in
      rw (← e) (
        rw written (
          rw (laws.decode-encode (forms.documents.encode doc)) (
            rw
              (
                parse_public_key-public_text key,
                verify-sign_detached c laws name key (forms.documents.encode doc) n,
                d,
              )
              (rw (valid, verify_release_document) refl))))
