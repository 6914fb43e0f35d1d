-- ===== src/Publish/Received.antt =====
-- What `publish` of src/publish.rs signs, `verify_and_select` of src/manifest.rs accepts.
use nixdeploy_corbet_ch.Trust.{Crypto, CryptoLaws, sign_detached}
use nixdeploy_corbet_ch.Trust.Signatures.{verify-sign_detached}
use nixdeploy_corbet_ch.Manifest.{supported_schema_version, PlaneEntry, ManifestDoc, validate}
use nixdeploy_corbet_ch.Release.Signed.{public_text, parse_public_key-public_text}
use nixdeploy_corbet_ch.Release.Selection.{plane_of, leaf}
use nixdeploy_corbet_ch.Release.Selection.Laws.{leaf-compose_hosts}
use nixdeploy_corbet_ch.Select.{
  target_of_plane, Wire, check_version, no_problems, verify_and_select,
}
use nixdeploy_corbet_ch.Publish.{PublishArgs}
use nixdeploy_corbet_ch.Publish.Run.{Prepared}
use nixdeploy_corbet_ch.Publish.Written.{IsPrepared}
use nixdeploy_corbet_ch.Base.{
  eqb, Option-cases, all, ok, ◌≡◌, refl, ap, subst, ◌∙◌, inl, inr, true, not, some, [],
}
use nixdeploy_corbet_ch.Text.{Text, as_bytes}
use nixdeploy_corbet_ch.Map.{get, Leaf, contains_pair}

selected_leaf :
    {K : Type 0} (args : PublishArgs) (built_at : Text) (p : Prepared K)
    (prepared : IsPrepared args built_at p) (q : Leaf) (entry : PlaneEntry)
    → contains_pair p.selected q ≡ true
    → leaf prepared.candidates q ≡ some entry
    → leaf p.document.hosts q ≡ some entry
selected_leaf args built_at p prepared q entry m e =
    ap (λ (doc : ManifestDoc). leaf doc.hosts q) prepared.merged
    ∙ rw (leaf-compose_hosts prepared.base prepared.candidates p.selected q) (rw (m, e) refl)

module _ (c : Crypto) (laws : CryptoLaws c) (wire : Wire) where
  -- The selection of a document that the signature covers.
  select_signed :
      (body name : Text) (key : c.SigningKey) (doc : ManifestDoc) (host plane : Text)
      (entry : PlaneEntry)
      → all (λ x. not (eqb x b':')) name ≡ true
      → wire.manifests.decode (as_bytes body) ≡ some doc
      → doc.version ≡ supported_schema_version
      → validate doc ≡ []
      → leaf doc.hosts (host, plane) ≡ some entry
      → verify_and_select c wire body
          (sign_detached c name key (as_bytes body))
          (public_text c laws wire.releases key)
          host
          plane
        ≡ ok (target_of_plane plane entry)
  unfolding verify_and_select check_version no_problems leaf
  select_signed body name key doc host plane entry n d v valid e =
      rw
        (
          parse_public_key-public_text c laws wire.releases key,
          verify-sign_detached c laws name key (as_bytes body) n,
        )
        (rw d (
          rw valid (
            rw v (elim (Option-cases (get doc.hosts host)) [
              | inl g ↦
                  absurd (let none_there = subst (λ o. plane_of o plane ≡ some entry) g e in cc)
              | inr (found, g) ↦
                  rw g (let there = subst (λ o. plane_of o plane ≡ some entry) g e in rw there refl)
            ]))))

  -- If a publication's document is read back from its text, then a receiver that is given the text, the
  -- signature and the public half of the key selects, for each host and plane that was selected for
  -- publication, the candidates' entry of it, where the key's name has no colon and the cryptography
  -- satisfies its laws.
  pub verify_and_select-published :
      (args : PublishArgs) (built_at : Text) (p : Prepared c.SigningKey)
      (prepared : IsPrepared args built_at p) (body : Text) (host plane : Text) (entry : PlaneEntry)
      → all (λ x. not (eqb x b':')) p.key_name ≡ true
      → wire.manifests.decode (as_bytes body) ≡ some p.document
      → contains_pair p.selected (host, plane) ≡ true
      → leaf prepared.candidates (host, plane) ≡ some entry
      → verify_and_select c wire body
          (sign_detached c p.key_name p.key (as_bytes body))
          (public_text c laws wire.releases p.key)
          host
          plane
        ≡ ok (target_of_plane plane entry)
  verify_and_select-published args built_at p prepared body host plane entry n d m e =
      select_signed body p.key_name p.key p.document host plane entry n d
        (ap (λ (doc : ManifestDoc). doc.version) prepared.merged) prepared.valid
        (selected_leaf args built_at p prepared (host, plane) entry m e)
