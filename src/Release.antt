-- ===== src/Release.antt =====
-- Deployment sets, release documents and signed envelopes of src/release.rs. Serialization by
-- serde_json is a `Codec` for each type.
pub mod Sets
pub mod Envelope
pub mod Selection
pub mod Signed
use nixdeploy_corbet_ch.Backend.{Backend}
use nixdeploy_corbet_ch.Artifact.{Artifact}
use nixdeploy_corbet_ch.Base.{ℕ, Option, List, ℕ_discrete}
use nixdeploy_corbet_ch.Text.{Text}
use nixdeploy_corbet_ch.Map.{BTreeMap, HostOf}

pub record Codec {ℓ} (A : Type ℓ) : Type ℓ where
  pub encode : A → List ℕ
  pub decode : List ℕ → Option A

abbrev pub deployment_set_version : ℕ
deployment_set_version = 4

abbrev pub envelope_version_supported : ℕ
envelope_version_supported = 1

abbrev pub promotion_record_version : ℕ
promotion_record_version = 1

pub record ReleaseBootArtifact : Type 0 where
  pub artifact : Artifact
  pub image : Option Text

pub record ReleaseBootRoles : Type 0 where
  pub primary_role : ReleaseBootArtifact
  pub nixrescue_role : Option ReleaseBootArtifact

-- `ReleaseBootSpec::None` is `unmanaged`.
pub data ReleaseBootSpec : Type 0 where
  unmanaged : ReleaseBootSpec
  managed : ReleaseBootRoles → ReleaseBootSpec

pub record ReleasePlaneEntry : Type 0 where
  pub backend : Backend
  pub identity : Option Text
  pub artifact : Artifact
  pub boot : Option ReleaseBootSpec

abbrev pub ReleaseHostEntry : Type 0
ReleaseHostEntry = HostOf ReleasePlaneEntry

pub record DeploymentSet : Type 0 where
  pub schema_version : ℕ
  pub hosts : BTreeMap ReleaseHostEntry

pub record ReleaseDocument : Type 0 where
  pub deployment_set_id : Text
  pub parent_deployment_set_id : Option Text
  pub published_at : Text
  pub deployment_set : DeploymentSet

pub record SignedEnvelope : Type 0 where
  pub envelope_version : ℕ
  pub payload : Text
  pub signature : Text

pub record PromotionRecord : Type 0 where
  pub version : ℕ
  pub generation : ℕ
  pub deployment_set_id : Text
  pub previous_deployment_set_id : Option Text
  pub release_digest : Text
  pub promoted_at : Text

-- `DeploymentSet::new`
abbrev pub new_set : BTreeMap ReleaseHostEntry → DeploymentSet
new_set hosts = record { schema_version = deployment_set_version; hosts = hosts }

-- Derived equality.
pub ReleasePlaneEntry-discrete : Discrete ReleasePlaneEntry
ReleasePlaneEntry-discrete = hlevel ℕ_discrete

pub DeploymentSet-discrete : Discrete DeploymentSet
DeploymentSet-discrete = hlevel (ℕ_discrete, ReleasePlaneEntry-discrete)
