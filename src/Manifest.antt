-- ===== src/Manifest.antt =====
-- The manifest of src/manifest.rs: its shape and `validate`. A message of the source is a
-- constructor with the values that the message names.
pub mod Valid
pub mod Documents
use nixdeploy_corbet_ch.Backend.{
  Backend, nixos, system_manager, home_manager, nix_darwin, as_str, is_system, BootRole, primary,
  nixrescue,
}
use nixdeploy_corbet_ch.StorePath.{looks_like_store_path, looks_like_timestamp}
use nixdeploy_corbet_ch.Artifact.{blank}
use nixdeploy_corbet_ch.Base.{
  if◌then◌else◌, is_empty, push_if, ℕ, Bool, false, not, Option, none, some, List, [], ◌∷◌, ◌++◌,
  map,
}
use nixdeploy_corbet_ch.Text.{Text, ◌==◌}
use nixdeploy_corbet_ch.Map.{BTreeMap, HostOf}

-- "currentVersion" of lib/schema.json
abbrev pub supported_schema_version : ℕ
supported_schema_version = 3

pub record BootArtifact : Type 0 where
  pub artifact : Text
  pub image : Option Text

pub record BootRoles : Type 0 where
  pub primary_role : BootArtifact
  pub nixrescue_role : Option BootArtifact

-- `BootSpec::None` is `unmanaged`.
pub data BootSpec : Type 0 where
  unmanaged : BootSpec
  managed : BootRoles → BootSpec

-- `BootSpec::artifact`
unfoldable pub boot_artifact : BootSpec → BootRole → Option BootArtifact
boot_artifact (managed roles) primary = some roles.primary_role
boot_artifact (managed roles) nixrescue = roles.nixrescue_role
boot_artifact unmanaged role = none

pub record PlaneEntry : Type 0 where
  pub backend : Backend
  pub identity : Option Text
  pub target : Text
  pub boot : Option BootSpec

abbrev pub HostEntry : Type 0
HostEntry = HostOf PlaneEntry

pub record ManifestDoc : Type 0 where
  pub version : ℕ
  pub revision : Text
  pub built_at : Text
  pub hosts : BTreeMap HostEntry

pub data PlaneProblem : Type 0 where
  name_not_backend target_malformed : PlaneProblem
  identity_required identity_meaningless : PlaneProblem
  boot_required boot_forbidden : PlaneProblem
  boot_artifact_malformed boot_image_empty : BootRole → PlaneProblem

pub data Problem : Type 0 where
  revision_empty hosts_empty host_name_empty : Problem
  built_at_malformed planes_empty : Text → Problem
  at : Text → Text → PlaneProblem → Problem

-- `plane.identity` against `plane.backend`
unfoldable pub identity_problems : Backend → Option Text → List PlaneProblem
identity_problems home_manager none = identity_required ∷ []
identity_problems home_manager (some identity) = push_if (blank identity) identity_required
identity_problems nixos none = []
identity_problems nixos (some identity) = identity_meaningless ∷ []
identity_problems system_manager none = []
identity_problems system_manager (some identity) = identity_meaningless ∷ []
identity_problems nix_darwin none = []
identity_problems nix_darwin (some identity) = identity_meaningless ∷ []

-- `image.as_deref() == Some("")`
abbrev pub image_empty : Option Text → Bool
image_empty none = false
image_empty (some image) = is_empty image

unfoldable pub artifact_problems : BootRole → BootArtifact → List PlaneProblem
artifact_problems role a =
    push_if (not (looks_like_store_path a.artifact)) (boot_artifact_malformed role)
    ++ push_if (image_empty a.image) (boot_image_empty role)

rescue_problems : Option BootArtifact → List PlaneProblem
unfolding artifact_problems
rescue_problems none = []
rescue_problems (some a) = artifact_problems nixrescue a

unfoldable pub managed_problems : BootSpec → List PlaneProblem
unfolding rescue_problems
managed_problems unmanaged = []
managed_problems (managed roles) =
    artifact_problems primary roles.primary_role ++ rescue_problems roles.nixrescue_role

unfoldable pub boot_problems : Option BootSpec → Backend → List PlaneProblem
unfolding managed_problems
boot_problems none nixos = boot_required ∷ []
boot_problems none backend = []
boot_problems (some spec) backend =
    if is_system backend then managed_problems spec else boot_forbidden ∷ []

unfoldable pub plane_problems : Text → PlaneEntry → List PlaneProblem
plane_problems plane_name plane =
    push_if (not (plane_name == as_str plane.backend)) name_not_backend
    ++ (push_if (not (looks_like_store_path plane.target)) target_malformed
        ++ (identity_problems plane.backend plane.identity
            ++ boot_problems plane.boot plane.backend))

unfoldable pub planes_problems : Text → BTreeMap PlaneEntry → List Problem
planes_problems host_name [] = []
planes_problems host_name ((plane_name, plane) ∷ planes) =
    map (at host_name plane_name) (plane_problems plane_name plane)
    ++ planes_problems host_name planes

unfoldable pub host_problems : Text → HostEntry → List Problem
host_problems host_name host =
    push_if (blank host_name) host_name_empty
    ++ (push_if (is_empty host.planes) (planes_empty host_name)
        ++ planes_problems host_name host.planes)

unfoldable pub hosts_problems : BTreeMap HostEntry → List Problem
hosts_problems [] = []
hosts_problems ((host_name, host) ∷ hosts) = host_problems host_name host ++ hosts_problems hosts

unfoldable pub validate : ManifestDoc → List Problem
validate doc =
    push_if (blank doc.revision) revision_empty
    ++ (push_if (not (looks_like_timestamp doc.built_at)) (built_at_malformed doc.built_at)
        ++ (push_if (is_empty doc.hosts) hosts_empty ++ hosts_problems doc.hosts))
