-- ===== src/Receive/Reimage.antt =====
-- `report` and `route_over_ceiling` of src/receive.rs.
use nixdeploy_corbet_ch.Text.{Text, codes}
use nixdeploy_corbet_ch.Backend.{BootRole, primary, nixrescue, role_str}
use nixdeploy_corbet_ch.Manifest.{BootArtifact, BootSpec, unmanaged, managed, boot_artifact}
use nixdeploy_corbet_ch.Command.{RawCommandResult, succeeded}
use nixdeploy_corbet_ch.Outcome.{
  Stage, Detail, debt_not_durable, role_not_implemented, no_boot_object, no_role_artifact, no_image,
  reimage_not_run, reimage_rejected, delta_exceeds_ceiling, Outcome, refused, reimaged, failed,
}
use nixdeploy_corbet_ch.Select.{Target}
use nixdeploy_corbet_ch.World.{
  to_reimage, reported, Exec, ◌>>=◌, pure, ask, measure, measured_now, or_exit, note, with_error,
}
use nixdeploy_corbet_ch.Activate.{run_with_arguments}
use nixdeploy_corbet_ch.Receive.{RoleCommand, ReceiverConfig, Setting}
use nixdeploy_corbet_ch.Receive.State.{persist_reimage_owed}
use nixdeploy_corbet_ch.Base.{if◌then◌else◌, Result, ok, err, ℕ, true, Option, none, some, [], ◌∷◌}

abbrev pub role_of : Option RoleCommand → BootRole
role_of none = primary
role_of (some request) = request.role

abbrev pub signed_artifact : Option BootSpec → BootRole → Option BootArtifact
signed_artifact none role = none
signed_artifact (some boot) role = boot_artifact boot role

abbrev pub artifact_path : Option BootArtifact → Option Text
artifact_path none = none
artifact_path (some a) = some a.artifact

abbrev pub image_of : Option BootArtifact → Option Text
image_of none = none
image_of (some a) = a.image

abbrev pub mode : BootSpec → Text
mode unmanaged = codes "none"
mode (managed roles) = codes "managed"

-- Only the primary role can be asked for.
unfoldable pub require_primary : BootRole → Result (Unit {0}) Detail
require_primary primary = ok tt
require_primary nixrescue = err (role_not_implemented nixrescue)

unfoldable pub require_image : ℕ → ℕ → BootRole → Option BootSpec → Result (Text × Text) Detail
require_image bytes ceiling role none = err no_boot_object
require_image bytes ceiling role (some boot) = elim (boot_artifact boot role) [
  | none ↦ err (no_role_artifact (mode boot) role)
  | some a ↦ elim a.image [
    | none ↦ err (no_image bytes ceiling role)
    | some image ↦ ok (a.artifact, image)
  ]
]

module _ (s : Setting) where
  -- The report takes what was measured so far.
  unfoldable pub report : Outcome → Exec s.os Outcome (Unit {0})
  report outcome = do
    now ← ask s.os.now_unix
    m ← measured_now
    note (
        reported (record {
          outcome = outcome;
          delta_bytes = m.delta_bytes;
          ceiling = m.ceiling;
          reimage_owed = m.reimage_owed;
          timestamp = now;
        })
        ∷ [])

  unfoldable pub reimage_verdict : ℕ → ℕ → BootRole → Text → Text → RawCommandResult → Outcome
  reimage_verdict bytes ceiling role artifact image raw =
      if succeeded raw
      then reimaged role artifact image
      else failed Stage.reimage (reimage_rejected bytes ceiling raw)

  -- With a command configured: everything that it needs is looked up, the refusal is reported, and
  -- only then does the command run.
  unfoldable pub ask_provider : Target → ℕ → ℕ → RoleCommand → Exec s.os Outcome Outcome
  unfolding require_primary require_image report reimage_verdict
  ask_provider target bytes ceiling request = do
    allowed ← or_exit (λ d. failed Stage.reimage d) (require_primary request.role)
    found ←
        or_exit (λ d. failed Stage.reimage d) (require_image bytes ceiling request.role target.boot)
    told ← report (refused delta_exceeds_ceiling bytes ceiling)
    raw ←
        with_error (λ e. failed Stage.reimage (reimage_not_run bytes ceiling e))
          (run_with_arguments to_reimage request.command
            (role_str request.role ∷ found.0 ∷ found.1 ∷ []))
    pure (reimage_verdict bytes ceiling request.role found.0 found.1 raw)

  unfoldable pub route_over_ceiling : ReceiverConfig → Target → ℕ → ℕ → Exec s.os Outcome Outcome
  unfolding ask_provider
  route_over_ceiling cfg target bytes ceiling = do
    owes ← measure (λ m. record m { reimage_owed = true })
    now ← ask s.os.now_unix
    durable ←
        with_error (λ e. failed Stage.state (debt_not_durable bytes ceiling e))
          (persist_reimage_owed s cfg (role_of cfg.reimage) target.store_path
            (artifact_path (signed_artifact target.boot (role_of cfg.reimage)))
            (image_of (signed_artifact target.boot (role_of cfg.reimage))) now)
    elim cfg.reimage [
      | none ↦ pure (refused delta_exceeds_ceiling bytes ceiling)
      | some request ↦ ask_provider target bytes ceiling request
    ]
