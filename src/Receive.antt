-- ===== src/Receive.antt =====
-- src/receive.rs: the configuration, the persistent state, and what all its functions are given.
pub mod State
pub mod Resolve
pub mod Recover
pub mod Reimage
pub mod Converge
pub mod Log
pub mod Frame
pub mod Silent
pub mod Permits
pub mod Executes
pub mod Outcomes
pub mod Order
pub mod Changed
pub mod Whole
pub mod Guards
pub mod Before
pub mod Evidence
pub mod Shows
pub mod Converged
pub mod Failing
pub mod Reached
pub mod Grounds
pub mod Run
use nixdeploy_corbet_ch.Backend.{Backend, BootRole}
use nixdeploy_corbet_ch.Trust.{Crypto}
use nixdeploy_corbet_ch.Release.{Codec}
use nixdeploy_corbet_ch.Command.{ActivationAdapter}
use nixdeploy_corbet_ch.Select.{Wire}
use nixdeploy_corbet_ch.World.{Os, Exec, exit}
use nixdeploy_corbet_ch.Outcome.{Stage, Detail, Outcome, failed}
use nixdeploy_corbet_ch.Base.{ℕ, Option, List}
use nixdeploy_corbet_ch.Text.{Text}

pub record ReceiverPlane : Type 0 where
  pub name : Text
  pub backend : Backend
  pub identity : Option Text

-- `ReimageConfig` and `BootRoleReconcileConfig`.
pub record RoleCommand : Type 0 where
  pub command : Text
  pub role : BootRole

-- The metrics sinks are not modelled: a report is an event of the log.
pub record ReceiverConfig : Type 0 where
  pub url : Text
  pub public_key : Text
  pub plane : ReceiverPlane
  pub state_directory : Text
  pub max_inplace_delta_bytes : Option ℕ
  pub activation : ActivationAdapter
  pub health_gate : List Text
  pub reimage : Option RoleCommand
  pub boot_role_reconcile : Option RoleCommand

pub record RejectedTargetState : Type 0 where
  pub version : ℕ
  pub plane : Text
  pub target : Text
  pub rejected_at : ℕ

pub record ReimageOwedState : Type 0 where
  pub version : ℕ
  pub plane : Text
  pub role : BootRole
  pub target : Text
  pub artifact : Option Text
  pub image : Option Text
  pub recorded_at : ℕ

-- The operating system, the cryptography and the wire forms that a receiver runs with, and the rounds
-- that the walk over a closure is given, which the source does not bound.
pub record Setting : Type 1 where
  pub os : Os
  pub crypto : Crypto
  pub wire : Wire
  pub rejected_form : Codec RejectedTargetState
  pub owed_form : Codec ReimageOwedState
  pub rounds : ℕ

unfoldable pub fail : {os : Os} {A : Type 0} → Stage → Detail → Exec os Outcome A
unfolding exit
fail at_stage detail = exit (failed at_stage detail)
