-- ===== src/Outcome.antt =====
-- src/outcome.rs: the one value that a receiver's run produces, with what the messages of its
-- failures name: a constructor for each message of src/receive.rs.
pub mod Codes
use nixdeploy_corbet_ch.Backend.{Backend, BootRole}
use nixdeploy_corbet_ch.Artifact.{CompatibilityError}
use nixdeploy_corbet_ch.Trust.{SignatureError}
use nixdeploy_corbet_ch.Manifest.{Problem}
use nixdeploy_corbet_ch.Release.Envelope.{ReleaseError}
use nixdeploy_corbet_ch.Command.{AdapterError, RawCommandResult, ActivationError, RollbackAttempt}
use nixdeploy_corbet_ch.Delta.{DeltaError}
use nixdeploy_corbet_ch.Base.{ℕ, Bool, true, false, Option, List, [], ◌∷◌}
use nixdeploy_corbet_ch.Text.{Text, codes}

-- `ManifestError` of src/manifest.rs.
pub data ManifestError : Type 0 where
  fetch_failed : Text → Text → ManifestError
  bad_signature : SignatureError → ManifestError
  bad_release : ReleaseError → ManifestError
  unsupported_schema : ℕ → ManifestError
  unparsable : ManifestError
  host_not_found : Text → ManifestError
  plane_not_found : Text → Text → ManifestError
  invalid : List Problem → ManifestError

-- What reading or writing a state file can meet.
pub data StateError : Type 0 where
  prepare_failed read_failed write_failed remove_failed : Text → StateError
  state_unparsable : StateError
  state_version : ℕ → StateError
  other_plane : Text → StateError

pub data Stage : Type 0 where
  config manifest compatibility state rejected_target delta reimage activate : Stage
  health_check_unavailable health_check_failed boot_reconcile rollback : Stage

pub data Detail : Type 0 where
  config_unreadable : Text → Detail
  hostname_unknown : Text → Detail
  manifest_error : ManifestError → Detail
  backend_mismatch : Backend → Backend → Detail
  identity_mismatch : Option Text → Option Text → Detail
  facts_unknown : Option Text → Text → Detail
  incompatible : Option Text → Text → CompatibilityError → Detail
  current_path_unread : AdapterError → Detail
  state_error : StateError → Detail
  target_pinned : Text → ℕ → Bool → Detail
  gate_unavailable_current : Text → Text → AdapterError → Detail
  gate_failed_current : Text → Text → RawCommandResult → Detail
  no_boot_authority no_boot_artifact : BootRole → Detail
  reconciler_not_run : BootRole → AdapterError → Detail
  reconciler_failed : BootRole → RawCommandResult → Text → Detail
  sources_unknown : Text → Detail
  walk_unfinished : ℕ → Detail
  current_reads_absent : Text → Detail
  delta_error : DeltaError → Detail
  observation_failed : RawCommandResult → AdapterError → Detail
  activate_not_run : ActivationError → Detail
  activation_incomplete : RawCommandResult → Text → Text → Detail
  pin_not_cleared : Text → Text → StateError → Detail
  gate_unavailable_after : Text → AdapterError → Text → Detail
  gate_failed_after : Text → RawCommandResult → Detail
  rolled_back : Detail → RollbackAttempt → Text → Detail
  rolled_back_unpinned : Detail → RollbackAttempt → Text → StateError → Detail
  rollback_incomplete : Detail → RollbackAttempt → Text → Option StateError → Detail
  rollback_missing : Detail → Text → Option StateError → Detail
  rollback_not_run : Detail → AdapterError → Option StateError → Detail
  debt_not_durable : ℕ → ℕ → StateError → Detail
  role_not_implemented : BootRole → Detail
  no_boot_object : Detail
  no_role_artifact : Text → BootRole → Detail
  no_image : ℕ → ℕ → BootRole → Detail
  reimage_not_run : ℕ → ℕ → AdapterError → Detail
  reimage_rejected : ℕ → ℕ → RawCommandResult → Detail

pub data RefusedReason : Type 0 where
  delta_exceeds_ceiling : RefusedReason

pub data Outcome : Type 0 where
  converged : Text → Text → Outcome
  already_current : Text → Outcome
  refused : RefusedReason → ℕ → ℕ → Outcome
  reimaged : BootRole → Text → Text → Outcome
  failed : Stage → Detail → Outcome

abbrev pub outcome_labels : List Text
outcome_labels =
    codes "converged"
    ∷ codes "alreadyCurrent"
    ∷ codes "refused"
    ∷ codes "reimaged"
    ∷ codes "failed"
    ∷ []

unfoldable pub label : Outcome → Text
label (converged from to) = codes "converged"
label (already_current rev) = codes "alreadyCurrent"
label (refused reason bytes ceiling) = codes "refused"
label (reimaged role artifact image) = codes "reimaged"
label (failed at_stage detail) = codes "failed"

unfoldable pub exit_code : Outcome → ℕ
exit_code (converged from to) = 0
exit_code (already_current rev) = 1
exit_code (reimaged role artifact image) = 2
exit_code (refused reason bytes ceiling) = 3
exit_code (failed at_stage detail) = 4

unfoldable pub is_error : Outcome → Bool
is_error (failed at_stage detail) = true
is_error (converged from to) = false
is_error (already_current rev) = false
is_error (refused reason bytes ceiling) = false
is_error (reimaged role artifact image) = false
