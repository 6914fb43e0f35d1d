-- ===== src/AtomicFile/Whole.antt =====
-- `write_atomic` of src/atomicfile.rs over files: all or nothing.
use nixdeploy_corbet_ch.World.{FilePath, Os, World, Exec, ◌>>=◌, act, or_exit}
use nixdeploy_corbet_ch.World.Triple.{
  Ends, Triple, Triple-pure, Triple-act, Triple-note, Triple-answer, Triple-bind, Triple-attempt,
}
use nixdeploy_corbet_ch.World.Files.{
  Contents, Same, Apart, Becomes, Either, Either-Ends, Same-Apart, Apart-trans, Apart-Becomes,
  Becomes-Same, FileLaws,
}
use nixdeploy_corbet_ch.AtomicFile.{temp_path, call, write_steps, clean_up, write_atomic}
use nixdeploy_corbet_ch.Base.{
  length, length-append, Result, ok, err, ℕ, ◌≡◌, refl, ap, ◌∙◌, ◌≢◌, Bool, Option, none, some,
  List, [], ◌∷◌, ◌++◌, arith,
}
use nixdeploy_corbet_ch.Text.{Text}

pub temp_longer : (name rest : Text) (c : ℕ) → c ∷ name ++ rest ≢ name
temp_longer name rest c e =
    absurd (omega (arith, length-append name rest, ap (λ (t : Text). length t) e))

pub temp_path_apart : (pid : ℕ) (path : FilePath) → temp_path pid path ≢ path
unfolding temp_path
temp_path_apart pid path e = temp_longer path.name _ b'.' (ap (λ (p : FilePath). p.name) e)

-- `path` holds the bytes, and nothing else but the temporary file has changed.
pub record IsWhole (before : Contents) (tmp path : FilePath) (bytes : List ℕ) (after : Contents)
    : Type 0 where
  pub written : after path ≡ some bytes
  pub others : (q : FilePath) → q ≢ tmp → q ≢ path → after q ≡ before q

module _ {os : Os} (laws : FileLaws os) where
  open laws use {files}

  Triple-call :
      {A : Type 0} {P : os.Machine → Type 0} {Q : A → os.Machine → Type 0}
      {X : Text → os.Machine → Type 0} (op : os.Machine → Result A Text × os.Machine)
      → ((s : os.Machine) → P s → Ends Q X (op s).0 (op s).1)
      → Triple {os = os} P (call op) Q X
  unfolding call
  Triple-call {Q = Q} {X = X} op h =
      Triple-bind (λ r s. Ends Q X r s) (act op (λ r. [])) (λ r. or_exit (λ e. e) r)
        (Triple-act op (λ r. []) h) (λ r. Triple-answer (λ e. e) r (λ s q. q) (λ d s x. x))

  module _ (before : Contents) (tmp path : FilePath) (bytes : List ℕ) (mode : ℕ)
      (differ : tmp ≢ path) where
    At : Option (List ℕ) → os.Machine → Type 0
    At c s = Becomes tmp c before (files s)

    Loose : os.Machine → Type 0
    Loose s = Apart tmp before (files s)

    -- A call that leaves the files as they are, and what follows it.
    kept_then :
        {A B : Type 0} {Q : B → os.Machine → Type 0} (op : os.Machine → Result A Text × os.Machine)
        {f : A → Exec os Text B}
        → ((s : os.Machine) → Same (files s) (files (op s).1))
        → ((a : A) → Triple (At (some bytes)) (f a) Q (λ e. Loose))
        → Triple (At (some bytes)) (call op >>= f) Q (λ e. Loose)
    unfolding At Loose
    kept_then {A = A} op {f} same h =
        Triple-bind (λ a. At (some bytes)) _ f
          (Triple-call op (λ s p. ends (op s).0 (op s).1 (Becomes-Same tmp p (same s)))) h
      where
        ends :
            (r : Result A Text) (s : os.Machine)
            → At (some bytes) s
            → Ends (λ a. At (some bytes)) (λ e. Loose) r s
        ends (ok a) s p = p
        ends (err e) s p = p.1

    write_steps-Triple :
        Triple {os = os}
          (λ s. Same before (files s))
          (write_steps tmp path bytes mode)
          (λ a s. IsWhole before tmp path bytes (files s))
          (λ e. Loose)
    unfolding write_steps At Loose
    write_steps-Triple =
        Triple-bind (λ a. At (some [])) _ _
          (Triple-call (os.create_file tmp) (λ s p.
            Either-Ends (λ a. At (some [])) (λ e. Loose) (os.create_file tmp s).0
              (os.create_file tmp s).1 (laws.create_file_law tmp s)
              (λ a h. Apart-Becomes tmp (Same-Apart tmp p) h)
              (λ e h. Apart-trans tmp (Same-Apart tmp p) (Same-Apart tmp h))))
          (λ a.
            Triple-bind (λ a. At (some bytes)) _ _
              (Triple-call (os.write_all tmp bytes) (λ s p.
                Either-Ends (λ a. At (some bytes)) (λ e. Loose) (os.write_all tmp bytes s).0
                  (os.write_all tmp bytes s).1 (laws.write_all_law tmp bytes s)
                  (λ a h. Apart-Becomes tmp p.1 (h p.0)) (λ e h. Apart-trans tmp p.1 h)))
              (λ a.
                kept_then (os.set_permissions tmp mode) (laws.set_permissions_same tmp mode) (λ a.
                  kept_then (os.sync_all tmp) (laws.sync_all_same tmp) (λ a.
                    Triple-call (os.rename tmp path) (λ s p.
                      Either-Ends (λ a s. IsWhole before tmp path bytes (files s)) (λ e. Loose)
                        (os.rename tmp path s).0 (os.rename tmp path s).1
                        (laws.rename_law tmp path s differ)
                        (λ a h. record {
                          written = h.0 ∙ p.0;
                          others = λ q n m. h.2 q n m ∙ p.1 q n;
                        })
                        (λ e h. Apart-trans tmp p.1 (Same-Apart tmp h)))))))

    clean_up-Triple :
        (r : Result (Unit {0}) Text)
        → Triple {os = os} {E = Text}
            (Ends (λ a s. IsWhole before tmp path bytes (files s)) (λ e. Loose) r)
            (clean_up tmp r)
            (λ a. Ends (λ a s. IsWhole before tmp path bytes (files s)) (λ e. Loose) r)
            (λ e. Loose)
    unfolding clean_up Loose
    clean_up-Triple (ok a) = Triple-pure tt (λ s p. p)
    clean_up-Triple (err e) =
        Triple-bind (λ a. Loose) _ _
          (Triple-act (os.remove_file tmp) (λ r. [])
            (λ s p.
              gone (os.remove_file tmp s).0 (os.remove_file tmp s).1 p
                (laws.remove_file_law tmp s)))
          (λ a. Triple-pure tt (λ s p. p))
      where
        gone :
            {s : os.Machine} (r : Result Bool Text) (t : os.Machine)
            → Loose s
            → Either r (Becomes tmp none (files s) (files t)) (Same (files s) (files t))
            → Loose t
        gone (ok a) t p h = Apart-trans tmp p h.1
        gone (err e) t p h = Apart-trans tmp p (Same-Apart tmp h)

  -- all or nothing
  pub write_atomic-IsWhole :
      (before : Contents) (path : FilePath) (bytes : List ℕ) (mode : ℕ)
      → Triple {os = os}
          (λ s. Same before (files s))
          (write_atomic path bytes mode)
          (λ a s. IsWhole before (temp_path os.process_id path) path bytes (files s))
          (λ e s. Apart (temp_path os.process_id path) before (files s))
  unfolding write_atomic Loose
  write_atomic-IsWhole before path bytes mode =
      let tmp = temp_path os.process_id path in
      let differ = temp_path_apart os.process_id path in
      let Done : Unit {0} → os.Machine → Type 0 = λ a s. IsWhole before tmp path bytes (files s) in
      let Undone : Text → os.Machine → Type 0 = λ e s. Apart tmp before (files s) in
      Triple-bind (Ends Done Undone) _ _
        (Triple-attempt _ (write_steps-Triple before tmp path bytes mode differ))
        (λ r.
          Triple-bind (λ a. Ends Done Undone r) _ _
            (clean_up-Triple before tmp path bytes mode differ r)
            (λ a.
              Triple-bind (λ a. Ends Done Undone r) _ _ (Triple-note _ (λ s p. p))
                (λ a. Triple-answer (λ e. e) r (λ s p. p) (λ d s p. p))))

  -- From what holds before to what holds after a write, and after one that failed.
  pub write_atomic-Triple :
      {P Q X : os.Machine → Type 0} (path : FilePath) (bytes : List ℕ) (mode : ℕ)
      → ((s t : os.Machine)
          → P s
          → IsWhole (files s) (temp_path os.process_id path) path bytes (files t)
          → Q t)
      → ((s t : os.Machine) → P s → Apart (temp_path os.process_id path) (files s) (files t) → X t)
      → Triple {os = os} P (write_atomic path bytes mode) (λ a. Q) (λ e. X)
  write_atomic-Triple {P} {Q} {X} path bytes mode whole undone = record {
    at = λ w p.
        ends (write_atomic path bytes mode w).0 (write_atomic path bytes mode w).1.machine w.machine
          p ((write_atomic-IsWhole (files w.machine) path bytes mode).at w (λ q. refl));
  }
    where
      ends :
          (r : Result (Unit {0}) Text) (t s : os.Machine)
          → P s
          → Ends
              (λ a u. IsWhole (files s) (temp_path os.process_id path) path bytes (files u))
              (λ e u. Apart (temp_path os.process_id path) (files s) (files u))
              r
              t
          → Ends (λ a. Q) (λ e. X) r t
      ends (ok a) t s p h = whole s t p h
      ends (err e) t s p h = undone s t p h

  -- After `write_atomic` succeeds, the path holds exactly the bytes; after it fails, whatever it was
  -- doing, the path holds what it held before. No other file than the temporary one has changed, where
  -- the operations on files satisfy their laws.
  pub write_atomic-Ends :
      (path : FilePath) (bytes : List ℕ) (mode : ℕ) (w : World os)
      → Ends
          (λ a s. IsWhole (files w.machine) (temp_path os.process_id path) path bytes (files s))
          (λ e s. Apart (temp_path os.process_id path) (files w.machine) (files s))
          (write_atomic path bytes mode w).0
          (write_atomic path bytes mode w).1.machine
  write_atomic-Ends path bytes mode w =
      (write_atomic-IsWhole (files w.machine) path bytes mode).at w (λ q. refl)
