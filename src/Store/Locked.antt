-- ===== src/Store/Locked.antt =====
-- `prepare` and the lock of src/release.rs leave the store's files alone.
use nixdeploy_corbet_ch.World.{act}
use nixdeploy_corbet_ch.World.Triple.{
  Ends, Triple, Triple-pure, Triple-act, Triple-or_exit, Triple-answer, Triple-bind, Triple-attempt,
  Triple-weaken,
}
use nixdeploy_corbet_ch.World.Files.{FileLaws}
use nixdeploy_corbet_ch.Store.{directory, PromotionError, ReleaseStore, lock_path, Store}
use nixdeploy_corbet_ch.Store.Recover.{prepare, acquire, with_lock}
use nixdeploy_corbet_ch.Store.Kept.{lock_path_other, IsQuiet, Same-IsQuiet, Apart-IsQuiet}
use nixdeploy_corbet_ch.Store.Quiet.{IsStable, Triple-quiet}
use nixdeploy_corbet_ch.Base.{Result, ok, err, List, [], ◌∷◌}
use nixdeploy_corbet_ch.Text.{Text}

module _ (store : ReleaseStore) (laws : FileLaws store.os) where
  open laws use {files}
  open store use {os}

  module _ (G : os.Machine → Type 0) (stable : IsStable store laws G) where
    pub prepare-Triple : (dirs : List Text) → Triple G (prepare store dirs) (λ a. G) (λ e. G)
    unfolding prepare
    prepare-Triple [] = Triple-pure tt (λ s g. g)
    prepare-Triple (dir ∷ dirs) =
        Triple-bind (λ a. G) _ _
          (Triple-quiet store laws G stable (directory dir) (os.create_dir_all dir)
            (λ s. Same-IsQuiet store (laws.create_dir_all_same dir s)))
          (λ a. prepare-Triple dirs)

    quiet_act :
        {A : Type 0} {X : PromotionError → os.Machine → Type 0} (op : os.Machine → A × os.Machine)
        → ((s : os.Machine) → IsQuiet store (files s) (files (op s).1))
        → Triple {os = os} G (act op (λ r. [])) (λ a. G) X
    quiet_act op quiet = Triple-act op (λ r. []) (λ s g. stable _ _ (quiet s) g)

    acquire-Triple : Triple G (acquire store (lock_path store)) (λ a. G) (λ e. G)
    unfolding acquire
    acquire-Triple =
        Triple-bind (λ r. G) _ _
          (quiet_act (os.open_lock (lock_path store)) (λ s.
            Apart-IsQuiet store (lock_path store) (lock_path_other store)
              (laws.open_lock_apart (lock_path store) s)))
          (λ r.
            Triple-bind (λ a. G) _ _ (Triple-or_exit _ r (λ a e s g. g) (λ d e s g. g))
              (λ a.
                Triple-bind (λ r. G) _ _
                  (quiet_act (os.lock_exclusive (lock_path store))
                    (λ s. Same-IsQuiet store (laws.lock_exclusive_same (lock_path store) s)))
                  (λ r. Triple-or_exit _ r (λ a e s g. g) (λ d e s g. g))))

  -- What holds at the end of the locked part holds after the lock is released.
  pub with_lock-Triple :
      {A : Type 0} (G : os.Machine → Type 0) (stable : IsStable store laws G)
      (Q : A → os.Machine → Type 0) (X : os.Machine → Type 0) (m : Store store A)
      → ((a : A) → IsStable store laws (Q a))
      → IsStable store laws X
      → ((s : os.Machine) → G s → X s)
      → Triple G m Q (λ e. X)
      → Triple G (with_lock store (lock_path store) m) Q (λ e. X)
  unfolding with_lock
  with_lock-Triple {A = A} G stable Q X m keep_value keep_error weak h =
      Triple-bind (λ a. G) _ _
        (Triple-weaken (λ a. G) (λ e. G) _ (acquire-Triple G stable) (λ s g. g) (λ a s g. g)
          (λ e. weak))
        (λ a. Triple-bind (Ends Q (λ e. X)) _ _ (Triple-attempt m h) (λ r.
          Triple-bind (λ a. Ends Q (λ e. X) r) _ _
            (quiet_act (Ends Q (λ e. X) r) (ends_stable r) (os.unlock (lock_path store))
              (λ s. Same-IsQuiet store (laws.unlock_same (lock_path store) s)))
            (λ a. Triple-answer (λ e. e) r (λ s p. p) (λ d s p. p))))
    where
      ends_stable : (r : Result A PromotionError) → IsStable store laws (Ends Q (λ e. X) r)
      ends_stable (ok a) = keep_value a
      ends_stable (err e) = keep_error
