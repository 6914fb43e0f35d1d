-- ===== src/Release/Sets.antt =====
-- `validate_set` and the content address of a deployment set.
use nixdeploy_corbet_ch.Backend.{
  Backend, nixos, system_manager, home_manager, nix_darwin, as_str, is_system, BootRole, primary,
  nixrescue,
}
use nixdeploy_corbet_ch.Artifact.{ArtifactFault, blank, validate_artifact}
use nixdeploy_corbet_ch.Trust.{Crypto}
use nixdeploy_corbet_ch.Release.{
  Codec, deployment_set_version, ReleaseBootArtifact, ReleaseBootSpec, unmanaged, managed,
  ReleasePlaneEntry, ReleaseHostEntry, DeploymentSet,
}
use nixdeploy_corbet_ch.Base.{
  eqb, if◌then◌else◌, is_empty, push_if, ℕ, Bool, true, false, not, Option, none, some, List, [],
  ◌∷◌, ◌++◌, map,
}
use nixdeploy_corbet_ch.Text.{Text, codes, ◌==◌}
use nixdeploy_corbet_ch.Map.{BTreeMap}

-- Which artifact of a plane a fault is about: the prefix of its message.
pub data Part : Type 0 where
  plane_artifact : Part
  boot_role : BootRole → Part

pub data PlaneFault : Type 0 where
  name_not_backend identity_required identity_only_home_manager : PlaneFault
  boot_required boot_forbidden : PlaneFault
  image_empty_fault : BootRole → PlaneFault
  artifact_fault : Part → ArtifactFault → PlaneFault

pub data SetProblem : Type 0 where
  schema_version_wrong : ℕ → SetProblem
  no_hosts host_unnamed : SetProblem
  no_planes : Text → SetProblem
  in_plane : Text → Text → PlaneFault → SetProblem

-- `identity.map(trim).unwrap_or("").is_empty()`
unfoldable pub identity_blank : Option Text → Bool
identity_blank none = true
identity_blank (some identity) = blank identity

abbrev is_some {ℓ} : {A : Type ℓ} → Option A → Bool
is_some none = false
is_some (some a) = true

unfoldable pub identity_faults : Backend → Option Text → List PlaneFault
unfolding identity_blank
identity_faults home_manager identity = push_if (identity_blank identity) identity_required
identity_faults nixos identity = push_if (is_some identity) identity_only_home_manager
identity_faults system_manager identity = push_if (is_some identity) identity_only_home_manager
identity_faults nix_darwin identity = push_if (is_some identity) identity_only_home_manager

abbrev is_empty_image : Option Text → Bool
is_empty_image none = false
is_empty_image (some image) = is_empty image

module _ (c : Crypto) where
  -- `validate_boot_artifact`
  unfoldable pub boot_artifact_faults : BootRole → ReleaseBootArtifact → List PlaneFault
  boot_artifact_faults role a =
      map (artifact_fault (boot_role role)) (validate_artifact c.decode64 a.artifact)
      ++ push_if (is_empty_image a.image) (image_empty_fault role)

  rescue_faults : Option ReleaseBootArtifact → List PlaneFault
  unfolding boot_artifact_faults
  rescue_faults none = []
  rescue_faults (some a) = boot_artifact_faults nixrescue a

  unfoldable pub managed_faults : ReleaseBootSpec → List PlaneFault
  unfolding rescue_faults
  managed_faults unmanaged = []
  managed_faults (managed roles) =
      boot_artifact_faults primary roles.primary_role ++ rescue_faults roles.nixrescue_role

  unfoldable pub boot_faults : Option ReleaseBootSpec → Backend → List PlaneFault
  unfolding managed_faults
  boot_faults none nixos = boot_required ∷ []
  boot_faults none backend = []
  boot_faults (some spec) backend =
      if is_system backend then managed_faults spec else boot_forbidden ∷ []

  unfoldable pub plane_faults : Text → ReleasePlaneEntry → List PlaneFault
  unfolding identity_faults boot_faults
  plane_faults plane_name plane =
      push_if (not (plane_name == as_str plane.backend)) name_not_backend
      ++ (identity_faults plane.backend plane.identity
          ++ (map (artifact_fault plane_artifact) (validate_artifact c.decode64 plane.artifact)
              ++ boot_faults plane.boot plane.backend))

  unfoldable pub planes_faults : Text → BTreeMap ReleasePlaneEntry → List SetProblem
  unfolding plane_faults
  planes_faults host_name [] = []
  planes_faults host_name ((plane_name, plane) ∷ planes) =
      map (in_plane host_name plane_name) (plane_faults plane_name plane)
      ++ planes_faults host_name planes

  unfoldable pub hosts_faults : BTreeMap ReleaseHostEntry → List SetProblem
  unfolding planes_faults
  hosts_faults [] = []
  hosts_faults ((host_name, host) ∷ hosts) =
      push_if (blank host_name) host_unnamed
      ++ (push_if (is_empty host.planes) (no_planes host_name)
          ++ (planes_faults host_name host.planes ++ hosts_faults hosts))

  unfoldable pub validate_set : DeploymentSet → List SetProblem
  unfolding hosts_faults
  validate_set set =
      push_if (not (eqb set.schema_version deployment_set_version))
        (schema_version_wrong set.schema_version)
      ++ (push_if (is_empty set.hosts) no_hosts ++ hosts_faults set.hosts)

  unfoldable pub digest_id : List ℕ → Text
  digest_id bytes = codes "sha256:" ++ c.sha256 bytes

  -- `DeploymentSet::id`: the digest of the canonical bytes.
  unfoldable pub set_id : Codec DeploymentSet → DeploymentSet → Text
  unfolding digest_id
  set_id codec set = digest_id (codec.encode set)
