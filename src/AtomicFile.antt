-- ===== src/AtomicFile.antt =====
-- src/atomicfile.rs: a file is written beside its place and renamed into it. A path is its directory
-- and its name, so the refusal of a path without either has no counterpart.
pub mod Whole
use nixdeploy_corbet_ch.Text.{Text, codes}
use nixdeploy_corbet_ch.World.{FilePath, Os, wrote, Exec, ◌>>=◌, pure, act, or_exit, note, attempt}
use nixdeploy_corbet_ch.Digits.{show}
use nixdeploy_corbet_ch.Base.{Result, ok, err, ℕ, Bool, true, false, List, [], ◌∷◌, ◌++◌}

-- `dir.join(format!(".{}.{}.tmp", file_name, process::id()))`
unfoldable pub temp_path : ℕ → FilePath → FilePath
unfolding show
temp_path pid path = record path { name = b'.' ∷ path.name ++ (b'.' ∷ show pid ++ codes ".tmp") }

abbrev pub succeeds : Result (Unit {0}) Text → Bool
succeeds (ok a) = true
succeeds (err e) = false

module _ {os : Os} where
  -- One call on the file system, whose error ends the write.
  unfoldable pub call : {A : Type 0} → (os.Machine → Result A Text × os.Machine) → Exec os Text A
  call op = do r ← act op (λ r. []); or_exit (λ e. e) r

  unfoldable pub write_steps : FilePath → FilePath → List ℕ → ℕ → Exec os Text (Unit {0})
  unfolding call
  write_steps tmp path bytes mode = do
    created ← call (os.create_file tmp)
    written ← call (os.write_all tmp bytes)
    permitted ← call (os.set_permissions tmp mode)
    synced ← call (os.sync_all tmp)
    call (os.rename tmp path)

  unfoldable pub clean_up : FilePath → Result (Unit {0}) Text → Exec os Text (Unit {0})
  clean_up tmp (ok a) = pure tt
  clean_up tmp (err e) = do ignored ← act (os.remove_file tmp) (λ r. []); pure tt

  unfoldable pub write_atomic : FilePath → List ℕ → ℕ → Exec os Text (Unit {0})
  unfolding write_steps clean_up
  write_atomic path bytes mode = do
    result ← attempt (write_steps (temp_path os.process_id path) path bytes mode)
    cleaned ← clean_up (temp_path os.process_id path) result
    logged ← note (wrote path bytes (succeeds result) ∷ [])
    or_exit (λ e. e) result
