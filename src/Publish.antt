-- ===== src/Publish.antt =====
-- src/publish.rs: what a publication is asked for, what it answers, and its errors.
pub mod Calendar
pub mod Args
pub mod Run
pub mod Paths
pub mod Written
pub mod Files
pub mod Received
use mathlib.Core.List.{reverse}
use nixdeploy_corbet_ch.World.{FilePath}
use nixdeploy_corbet_ch.Trust.{SignatureError, KeyError}
use nixdeploy_corbet_ch.Manifest.{Problem}
use nixdeploy_corbet_ch.Release.Selection.{SelectionProblem}
use nixdeploy_corbet_ch.Base.{ℕ, Option, none, some, List, [], ◌∷◌, ◌++◌}
use nixdeploy_corbet_ch.Text.{Text, codes, split_once}

pub record PublishArgs : Type 0 where
  pub targets_file : Text
  pub base_manifest : Option Text
  pub hosts : List Text
  pub planes : List Text
  pub revision : Text
  pub built_at : Option Text
  pub signing_key_file : Text
  pub out : Text

pub data PublishFlag : Type 0 where
  targets_flag base_manifest_flag host_flag plane_flag : PublishFlag
  revision_flag built_at_flag signing_key_file_flag out_flag : PublishFlag

pub data UsageFault : Type 0 where
  needs_value required : PublishFlag → UsageFault
  plane_unknown unknown_flag : Text → UsageFault
  key_on_command_line : UsageFault
  base_required base_meaningless : UsageFault

pub data PublishProblem : Type 0 where
  selection_problem : SelectionProblem → PublishProblem
  document_problem base_problem : Problem → PublishProblem
  base_signature : SignatureError → PublishProblem
  base_version : ℕ → PublishProblem

pub data PublishError : Type 0 where
  usage : UsageFault → PublishError
  read_failed write_failed : Text → Text → PublishError
  parse_failed : Text → PublishError
  invalid_manifest : List PublishProblem → PublishError
  key_failed : Text → KeyError → PublishError

pub record PublishedTarget : Type 0 where
  pub host : Text
  pub plane : Text
  pub target : Text

-- The permission bits of a signing key that others can read.
pub data PublishWarning : Type 0 where
  key_readable : Text → ℕ → PublishWarning

pub record Published : Type 0 where
  pub manifest : Text
  pub signature : Text
  pub revision : Text
  pub built_at : Text
  pub updated : List PublishedTarget
  pub total_targets : ℕ
  pub warnings : List PublishWarning

-- `<out>.sig`
abbrev pub signature_path : Text → Text
signature_path out = out ++ codes ".sig"

path_parts : Option (Text × Text) → Text → FilePath
path_parts none path = record { dir = codes "."; name = path }
path_parts (some (name, [])) path = record { dir = codes "/"; name = reverse name }
path_parts (some (name, c ∷ parent)) path = record {
  dir = reverse (c ∷ parent);
  name = reverse name;
}

-- The directory and the name of a path, cut at its last slash; "." is the directory of a bare name.
-- Paths that end in a slash or in ".." are left out.
unfoldable pub path_of : Text → FilePath
unfolding path_parts
path_of path = path_parts (split_once (reverse path) b'/') path
