-- ===== src/Select.antt =====
-- From fetched bytes to this receiver's target, of src/manifest.rs:
-- `verify_and_select` and `verify_release_and_select`.
pub mod Trusted
use nixdeploy_corbet_ch.Backend.{Backend}
use nixdeploy_corbet_ch.Artifact.{Artifact}
use nixdeploy_corbet_ch.Trust.{Crypto, parse_public_key, verify}
use nixdeploy_corbet_ch.Manifest.{
  supported_schema_version, BootArtifact, BootSpec, unmanaged, managed, PlaneEntry, ManifestDoc,
  Problem, validate,
}
use nixdeploy_corbet_ch.Release.{
  Codec, ReleaseBootArtifact, ReleaseBootSpec, ReleasePlaneEntry, ReleaseDocument,
}
use nixdeploy_corbet_ch.Release.Envelope.{Forms, verify_release}
use nixdeploy_corbet_ch.Outcome.{
  ManifestError, bad_signature, bad_release, unsupported_schema, unparsable, host_not_found,
  plane_not_found, invalid,
}
use nixdeploy_corbet_ch.Base.{
  eqb, if◌then◌else◌, Result, ok, err, ◌>>=◌, map_err, ok_or, Bool, Option, none, some, List, [],
  ◌∷◌,
}
use nixdeploy_corbet_ch.Text.{Text, as_bytes}
use nixdeploy_corbet_ch.Map.{get}

-- `Target`: the verified target of one plane.
pub record Target : Type 0 where
  pub deployment_set_id : Option Text
  pub plane : Text
  pub backend : Backend
  pub identity : Option Text
  pub store_path : Text
  pub boot : Option BootSpec
  pub artifact : Option Artifact

unfoldable pub target_of_plane : Text → PlaneEntry → Target
target_of_plane plane entry = record {
  deployment_set_id = none;
  plane = plane;
  backend = entry.backend;
  identity = entry.identity;
  store_path = entry.target;
  boot = entry.boot;
  artifact = none;
}

boot_of_artifact : ReleaseBootArtifact → BootArtifact
boot_of_artifact a = record { artifact = a.artifact.target; image = a.image }

rescue_of : Option ReleaseBootArtifact → Option BootArtifact
unfolding boot_of_artifact
rescue_of none = none
rescue_of (some a) = some (boot_of_artifact a)

boot_of : Option ReleaseBootSpec → Option BootSpec
unfolding rescue_of
boot_of none = none
boot_of (some ReleaseBootSpec.unmanaged) = some BootSpec.unmanaged
boot_of (some (ReleaseBootSpec.managed roles)) = some (
    BootSpec.managed (record {
      primary_role = boot_of_artifact roles.primary_role;
      nixrescue_role = rescue_of roles.nixrescue_role;
    }))

unfoldable pub target_of_release : ReleaseDocument → Text → ReleasePlaneEntry → Target
unfolding boot_of
target_of_release doc plane entry = record {
  deployment_set_id = some doc.deployment_set_id;
  plane = plane;
  backend = entry.backend;
  identity = entry.identity;
  store_path = entry.artifact.target;
  boot = boot_of entry.boot;
  artifact = some entry.artifact;
}

-- The forms that serde_json reads: both documents, and whether a text is a JSON object with the key
-- "envelopeVersion".
pub record Wire : Type 0 where
  pub manifests : Codec ManifestDoc
  pub releases : Forms
  pub has_envelope_version : Text → Bool

unfoldable pub check_version : ManifestDoc → Result (Unit {0}) ManifestError
check_version doc =
    if eqb doc.version supported_schema_version then ok tt else err (unsupported_schema doc.version)

unfoldable pub no_problems : List Problem → Result (Unit {0}) ManifestError
no_problems [] = ok tt
no_problems (p ∷ ps) = err (invalid (p ∷ ps))

module _ (c : Crypto) (wire : Wire) where
  -- The signature over the exact bytes is checked before anything is read from them.
  unfoldable pub verify_and_select : Text → Text → Text → Text → Text → Result Target ManifestError
  unfolding target_of_plane no_problems check_version
  verify_and_select body signature_text public_key hostname plane = do
    key ← map_err bad_signature (parse_public_key c public_key)
    verified ← map_err bad_signature (verify c key (as_bytes body) signature_text)
    doc ← ok_or unparsable (wire.manifests.decode (as_bytes body))
    version ← check_version doc
    checked ← no_problems (validate doc)
    host ← ok_or (host_not_found hostname) (get doc.hosts hostname)
    entry ← ok_or (plane_not_found hostname plane) (get host.planes plane)
    ok (target_of_plane plane entry)

  unfoldable pub verify_release_and_select : Text → Text → Text → Text → Result Target ManifestError
  unfolding target_of_release
  verify_release_and_select body public_key hostname plane = do
    doc ← map_err bad_release (verify_release c wire.releases (as_bytes body) public_key)
    host ← ok_or (host_not_found hostname) (get doc.deployment_set.hosts hostname)
    entry ← ok_or (plane_not_found hostname plane) (get host.planes plane)
    ok (target_of_release doc plane entry)
