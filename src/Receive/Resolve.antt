-- ===== src/Receive/Resolve.antt =====
-- The first part of `converge` of src/receive.rs: the target, its cross-checks, and what is current.
use nixdeploy_corbet_ch.Text.{Text, codes, trim}
use nixdeploy_corbet_ch.Backend.{backend_eq, option_eq}
use nixdeploy_corbet_ch.Artifact.{Artifact, check}
use nixdeploy_corbet_ch.Outcome.{
  ManifestError, fetch_failed, Stage, hostname_unknown, manifest_error, backend_mismatch,
  identity_mismatch, facts_unknown, incompatible, Outcome, failed,
}
use nixdeploy_corbet_ch.Select.{Target, verify_and_select, verify_release_and_select}
use nixdeploy_corbet_ch.World.{fetched, Exec, ◌>>=◌, pure, act, ask, or_exit, with_error}
use nixdeploy_corbet_ch.Receive.{ReceiverConfig, Setting, fail}
use nixdeploy_corbet_ch.Base.{if◌then◌else◌, not, Option, none, some, [], ◌∷◌, ◌++◌}

module _ (s : Setting) where
  unfoldable pub fetch : Text → Exec s.os ManifestError Text
  fetch url = do
    body ← act (s.os.get_url url) (λ r. fetched url ∷ [])
    or_exit (fetch_failed url) body

  -- A detached signature stands in a second file.
  unfoldable pub fetch_detached : Text → Text → Text → Text → Text → Exec s.os ManifestError Target
  fetch_detached body url public_key hostname plane = do
    signature_text ← fetch (url ++ codes ".sig")
    or_exit (λ e. e)
        (verify_and_select s.crypto s.wire body (trim signature_text) public_key hostname plane)

  unfoldable pub fetch_and_verify : Text → Text → Text → Text → Exec s.os ManifestError Target
  unfolding fetch fetch_detached
  fetch_and_verify url public_key hostname plane = do
    body ← fetch url
    (if s.wire.has_envelope_version body
        then or_exit (λ e. e)
            (verify_release_and_select s.crypto s.wire body public_key hostname plane)
        else fetch_detached body url public_key hostname plane)

  -- The signed target is for the backend and the identity that this receiver is configured for.
  unfoldable pub check_target : ReceiverConfig → Target → Exec s.os Outcome (Unit {0})
  unfolding fail
  check_target cfg target =
      if not (backend_eq target.backend cfg.plane.backend)
      then fail Stage.manifest (backend_mismatch target.backend cfg.plane.backend)
      else if not (option_eq target.identity cfg.plane.identity)
      then fail Stage.manifest (identity_mismatch target.identity cfg.plane.identity)
      else pure tt

  unfoldable pub check_artifact : Target → Option Artifact → Exec s.os Outcome (Unit {0})
  check_artifact target none = pure tt
  check_artifact target (some artifact) = do
    known ← ask s.os.compatibility_facts
    facts ←
        or_exit (λ e. failed Stage.compatibility (facts_unknown target.deployment_set_id e)) known
    or_exit
        (λ e.
          failed Stage.compatibility (incompatible target.deployment_set_id target.store_path e))
        (check artifact.requirements facts.0 facts.1)

  unfoldable pub check_compatibility : Target → Exec s.os Outcome (Unit {0})
  unfolding check_artifact
  check_compatibility target = check_artifact target target.artifact

  -- From the host name to a target that this receiver may become.
  unfoldable pub resolve : ReceiverConfig → Exec s.os Outcome Target
  resolve cfg = do
    known ← ask s.os.hostname
    hostname ← or_exit (λ e. failed Stage.manifest (hostname_unknown e)) known
    target ←
        with_error (λ e. failed Stage.manifest (manifest_error e))
          (fetch_and_verify cfg.url cfg.public_key hostname cfg.plane.name)
    fits ← check_target cfg target
    compatible ← check_compatibility target
    pure target
