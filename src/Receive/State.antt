-- ===== src/Receive/State.antt =====
-- The rejection pin and the reimage debt: two files of the state directory, of src/receive.rs.
use nixdeploy_corbet_ch.Text.{Text, codes, ◌==◌}
use nixdeploy_corbet_ch.Backend.{BootRole}
use nixdeploy_corbet_ch.Outcome.{
  StateError, prepare_failed, read_failed, write_failed, remove_failed, state_unparsable,
  state_version, other_plane,
}
use nixdeploy_corbet_ch.World.{
  FilePath, FileRead, contents, no_such_file, unreadable, removed, Exec, ◌>>=◌, pure, act, or_exit,
  with_error,
}
use nixdeploy_corbet_ch.AtomicFile.{write_atomic}
use nixdeploy_corbet_ch.Receive.{ReceiverConfig, RejectedTargetState, ReimageOwedState, Setting}
use nixdeploy_corbet_ch.Base.{
  eqb, if◌then◌else◌, Result, ok, err, ℕ, not, Option, none, some, List, [], ◌∷◌, ◌++◌,
}

abbrev pub state_version_supported : ℕ
state_version_supported = 1

unfoldable pub rejected_target_path : ReceiverConfig → FilePath
rejected_target_path cfg = record {
  dir = cfg.state_directory;
  name = codes "rejected-target-" ++ (cfg.plane.name ++ codes ".json");
}

unfoldable pub reimage_owed_path : ReceiverConfig → FilePath
reimage_owed_path cfg = record {
  dir = cfg.state_directory;
  name = codes "reimage-owed-" ++ (cfg.plane.name ++ codes ".json");
}

-- The checks on a state that was read: its version, and whose plane it is.
unfoldable pub state_for :
    {A : Type 0} → ReceiverConfig → A → ℕ → Text → Result (Option A) StateError
state_for cfg state version plane =
    if not (eqb version state_version_supported)
    then err (state_version version)
    else if not (plane == cfg.plane.name)
    then err (other_plane plane)
    else ok (some state)

unfoldable pub rejected_of :
    Setting → ReceiverConfig → FileRead → Result (Option RejectedTargetState) StateError
unfolding state_for
rejected_of s cfg no_such_file = ok none
rejected_of s cfg (unreadable e) = err (read_failed e)
rejected_of s cfg (contents bytes) = elim (s.rejected_form.decode bytes) [
  | none ↦ err state_unparsable
  | some state ↦ state_for cfg state state.version state.plane
]

unfoldable pub owed_of :
    Setting → ReceiverConfig → FileRead → Result (Option ReimageOwedState) StateError
unfolding state_for
owed_of s cfg no_such_file = ok none
owed_of s cfg (unreadable e) = err (read_failed e)
owed_of s cfg (contents bytes) = elim (s.owed_form.decode bytes) [
  | none ↦ err state_unparsable
  | some state ↦ state_for cfg state state.version state.plane
]

module _ (s : Setting) where
  -- The directory is made first, then the file is read.
  unfoldable pub read_state : ReceiverConfig → FilePath → Exec s.os StateError FileRead
  read_state cfg path = do
    made ← act (s.os.create_dir_all cfg.state_directory) (λ r. [])
    prepared ← or_exit prepare_failed made
    act (s.os.read_file path) (λ r. [])

  unfoldable pub load_rejected_target :
      ReceiverConfig → Exec s.os StateError (Option RejectedTargetState)
  unfolding read_state
  load_rejected_target cfg = do
    file ← read_state cfg (rejected_target_path cfg)
    or_exit (λ e. e) (rejected_of s cfg file)

  unfoldable pub load_reimage_owed : ReceiverConfig → Exec s.os StateError (Option ReimageOwedState)
  unfolding read_state
  load_reimage_owed cfg = do
    file ← read_state cfg (reimage_owed_path cfg)
    or_exit (λ e. e) (owed_of s cfg file)

  unfoldable pub rejected_bytes : ReceiverConfig → Text → ℕ → List ℕ
  rejected_bytes cfg target rejected_at =
      s.rejected_form.encode (record {
        version = state_version_supported;
        plane = cfg.plane.name;
        target = target;
        rejected_at = rejected_at;
      })
      ++ 10 ∷ []

  unfoldable pub persist_rejected_target :
      ReceiverConfig → Text → ℕ → Exec s.os StateError (Unit {0})
  persist_rejected_target cfg target rejected_at =
      with_error write_failed
        (write_atomic (rejected_target_path cfg) (rejected_bytes cfg target rejected_at) 0o600)

  unfoldable pub owed_bytes :
      ReceiverConfig → BootRole → Text → Option Text → Option Text → ℕ → List ℕ
  owed_bytes cfg role target artifact image recorded_at =
      s.owed_form.encode (record {
        version = state_version_supported;
        plane = cfg.plane.name;
        role = role;
        target = target;
        artifact = artifact;
        image = image;
        recorded_at = recorded_at;
      })
      ++ 10 ∷ []

  unfoldable pub persist_reimage_owed :
      ReceiverConfig
      → BootRole
      → Text
      → Option Text
      → Option Text
      → ℕ
      → Exec s.os StateError (Unit {0})
  persist_reimage_owed cfg role target artifact image recorded_at = with_error write_failed (
      write_atomic (reimage_owed_path cfg) (owed_bytes cfg role target artifact image recorded_at)
        0o600)

  -- A file that is not there counts as removed.
  unfoldable pub clear_state : FilePath → Exec s.os StateError (Unit {0})
  clear_state path = do
    gone ← act (s.os.remove_file path) (λ r. removed path ∷ [])
    was_there ← or_exit remove_failed gone
    pure tt

  unfoldable pub clear_rejected_target : ReceiverConfig → Exec s.os StateError (Unit {0})
  unfolding clear_state
  clear_rejected_target cfg = clear_state (rejected_target_path cfg)

  unfoldable pub clear_reimage_owed : ReceiverConfig → Exec s.os StateError (Unit {0})
  unfolding clear_state
  clear_reimage_owed cfg = clear_state (reimage_owed_path cfg)
