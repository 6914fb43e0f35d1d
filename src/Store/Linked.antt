-- ===== src/Store/Linked.antt =====
-- `write_immutable` of src/release.rs over files: a file is put in place whole, once.
use nixdeploy_corbet_ch.World.{FilePath, ◌>>=◌}
use nixdeploy_corbet_ch.World.Triple.{
  Ends, Triple, Triple-pure, Triple-act, Triple-answer, Triple-bind, Triple-attempt,
}
use nixdeploy_corbet_ch.World.Files.{
  Contents, Same, Apart, Becomes, Either, Either-Ends, Same-Apart, Apart-trans, Apart-Becomes,
  Becomes-Same, FileLaws,
}
use nixdeploy_corbet_ch.AtomicFile.Whole.{temp_longer}
use nixdeploy_corbet_ch.Store.{
  Place, file, directory, failed, PromotionError, io, ReleaseStore, Store, call_at,
  immutable_temp_path, link_steps, immutable_steps, remove_temp, write_immutable,
}
use nixdeploy_corbet_ch.Base.{
  Result, ok, err, ℕ, ◌≡◌, sym, ap, ◌∙◌, ◌≢◌, ◌⊎◌, inl, inr, Bool, Option, none, some, List, [],
}
use nixdeploy_corbet_ch.Text.{Text}

-- Nothing but the temporary file and `path` has changed, and `path` only from nothing to the bytes.
abbrev pub AddedAtMost : Contents → FilePath → FilePath → List ℕ → Contents → Type 0
AddedAtMost before tmp path bytes after =
    ((q : FilePath) → q ≢ tmp → q ≢ path → after q ≡ before q)
    × ((after path ≡ before path) ⊎ ((before path ≡ none) × (after path ≡ some bytes)))

abbrev pub Added : Contents → FilePath → FilePath → List ℕ → Contents → Type 0
Added before tmp path bytes after =
    ((q : FilePath) → q ≢ tmp → q ≢ path → after q ≡ before q)
    × (before path ≡ none)
    × (after path ≡ some bytes)

immutable_temp_path_apart :
    (store : ReleaseStore) (path : FilePath) → immutable_temp_path store path ≢ path
unfolding immutable_temp_path
immutable_temp_path_apart store path e =
    temp_longer path.name _ b'.' (ap (λ (p : FilePath). p.name) e)

module _ (store : ReleaseStore) (laws : FileLaws store.os) where
  open laws use {files}
  open store use {os}

  pub Triple-call_at :
      {A : Type 0} {P : os.Machine → Type 0} {Q : A → os.Machine → Type 0}
      {X : PromotionError → os.Machine → Type 0} (place : Place)
      (op : os.Machine → Result A Text × os.Machine)
      → ((s : os.Machine) → P s → Ends Q (λ e. X (io place (failed e))) (op s).0 (op s).1)
      → Triple P (call_at store place op) Q X
  unfolding call_at
  Triple-call_at {Q = Q} {X = X} place op h =
      Triple-bind (λ r s. Ends Q (λ e. X (io place (failed e))) r s) _ _ (Triple-act op (λ r. []) h)
        (λ r. Triple-answer (λ e. io place (failed e)) r (λ s q. q) (λ d s x. x))

  -- A call of which the answer does not matter, and what follows it.
  pub kept_at :
      {A B : Type 0} {P : os.Machine → Type 0} {Q : B → os.Machine → Type 0}
      {X : PromotionError → os.Machine → Type 0} (R : os.Machine → Type 0) (place : Place)
      (op : os.Machine → Result A Text × os.Machine) (f : A → Store store B)
      → ((s : os.Machine) → P s → R (op s).1)
      → ((e : PromotionError) (s : os.Machine) → R s → X e s)
      → ((a : A) → Triple R (f a) Q X)
      → Triple P (call_at store place op >>= f) Q X
  kept_at {A = A} {X = X} R place op f step fail h =
      Triple-bind (λ a. R) _ f (Triple-call_at place op (λ s p. ends (op s).0 (op s).1 (step s p)))
        h
    where
      ends :
          (r : Result A Text) (s : os.Machine)
          → R s
          → Ends (λ a. R) (λ e. X (io place (failed e))) r s
      ends (ok a) s p = p
      ends (err e) s p = fail (io place (failed e)) s p

  module _ (before : Contents) (tmp path : FilePath) (bytes : List ℕ) (differ : tmp ≢ path) where
    At : Option (List ℕ) → os.Machine → Type 0
    At c s = Becomes tmp c before (files s)

    In : os.Machine → Type 0
    In s = Added before tmp path bytes (files s)

    AtMost : os.Machine → Type 0
    AtMost s = AddedAtMost before tmp path bytes (files s)

    Apart-AtMost : {s : os.Machine} → Apart tmp before (files s) → AtMost s
    unfolding AtMost
    Apart-AtMost p = (λ q n m. p q n, inl (p path (λ e. differ (sym e))))

    In-AtMost : (s : os.Machine) → In s → AtMost s
    unfolding AtMost In
    In-AtMost s p = (p.0, inr (p.1, p.2))

    In-Apart : {s t : os.Machine} → In s → Apart tmp (files s) (files t) → In t
    unfolding In
    In-Apart p h = (λ q n m. h q n ∙ p.0 q n m, p.1, h path (λ e. differ (sym e)) ∙ p.2)

    removed-Apart :
        {s t : os.Machine} (r : Result Bool Text)
        → Either r (Becomes tmp none (files s) (files t)) (Same (files s) (files t))
        → Apart tmp (files s) (files t)
    removed-Apart (ok a) h = h.1
    removed-Apart (err e) h = Same-Apart tmp h

    link_steps-Triple : Triple (At (some bytes)) (link_steps store tmp path) (λ a. In) (λ e. AtMost)
    unfolding link_steps At In
    link_steps-Triple =
        Triple-bind (λ a. In) _ _
          (Triple-call_at (file path) (os.hard_link tmp path) (λ s p.
            Either-Ends (λ a. In) (λ e. AtMost) (os.hard_link tmp path s).0
              (os.hard_link tmp path s).1 (laws.hard_link_law tmp path s)
              (λ a h. (
                λ q n m. h.1.1 q m ∙ p.1 q n,
                sym (p.1 path (λ e. differ (sym e))) ∙ h.0,
                h.1.0 ∙ p.0,
              ))
              (λ e h. Apart-AtMost (Apart-trans tmp p.1 (Same-Apart tmp h)))))
          (λ a.
            kept_at In (directory path.dir) (os.sync_dir path.dir) _
              (λ s p. In-Apart p (Same-Apart tmp (laws.sync_dir_same path.dir s))) (λ e. In-AtMost)
              (λ a.
                kept_at In (file tmp) (os.remove_file tmp) _
                  (λ s p.
                    In-Apart p
                      (removed-Apart (os.remove_file tmp s).0 (laws.remove_file_law tmp s)))
                  (λ e. In-AtMost)
                  (λ a. Triple-call_at (directory path.dir) (os.sync_dir path.dir) (λ s p.
                    done (os.sync_dir path.dir s).0 (os.sync_dir path.dir s).1
                      (In-Apart p (Same-Apart tmp (laws.sync_dir_same path.dir s)))))))
      where
        done :
            (r : Result (Unit {0}) Text) (s : os.Machine) → In s → Ends (λ a. In) (λ e. AtMost) r s
        done (ok a) s p = p
        done (err e) s p = In-AtMost s p

    immutable_steps-Triple :
        (mode : ℕ)
        → Triple
            (λ s. Same before (files s))
            (immutable_steps store tmp path bytes mode)
            (λ a. In)
            (λ e. AtMost)
    unfolding immutable_steps At In
    immutable_steps-Triple mode =
        Triple-bind (λ a. At (some [])) _ _
          (Triple-call_at (file tmp) (os.create_new tmp) (λ s p.
            Either-Ends (λ a. At (some [])) (λ e. AtMost) (os.create_new tmp s).0
              (os.create_new tmp s).1 (laws.create_new_law tmp s)
              (λ a h. Apart-Becomes tmp (Same-Apart tmp p) h.1)
              (λ e h. Apart-AtMost (Apart-trans tmp (Same-Apart tmp p) (Same-Apart tmp h)))))
          (λ a.
            Triple-bind (λ a. At (some bytes)) _ _
              (Triple-call_at (file tmp) (os.write_all tmp bytes) (λ s p.
                Either-Ends (λ a. At (some bytes)) (λ e. AtMost) (os.write_all tmp bytes s).0
                  (os.write_all tmp bytes s).1 (laws.write_all_law tmp bytes s)
                  (λ a h. Apart-Becomes tmp p.1 (h p.0))
                  (λ e h. Apart-AtMost (Apart-trans tmp p.1 h))))
              (λ a.
                kept_at (At (some bytes)) (file tmp) (os.set_permissions tmp mode) _
                  (λ s p. Becomes-Same tmp p (laws.set_permissions_same tmp mode s))
                  (λ e s p. Apart-AtMost p.1)
                  (λ a.
                    kept_at (At (some bytes)) (file tmp) (os.sync_all tmp) _
                      (λ s p. Becomes-Same tmp p (laws.sync_all_same tmp s))
                      (λ e s p. Apart-AtMost p.1) (λ a. link_steps-Triple))))

    place :
        {a b : Option (List ℕ)}
        → (a ≡ before path) ⊎ ((before path ≡ none) × (a ≡ some bytes))
        → b ≡ a
        → (b ≡ before path) ⊎ ((before path ≡ none) × (b ≡ some bytes))
    place (inl e) h = inl (h ∙ e)
    place (inr (n, e)) h = inr (n, h ∙ e)

    remove_temp-Triple :
        (r : Result (Unit {0}) PromotionError)
        → Triple
            (Ends (λ a. In) (λ e. AtMost) r)
            (remove_temp store tmp r)
            (λ a. Ends (λ a. In) (λ e. AtMost) r)
            (λ e. AtMost)
    unfolding remove_temp AtMost
    remove_temp-Triple (ok a) = Triple-pure tt (λ s p. p)
    remove_temp-Triple (err e) =
        Triple-bind (λ a. AtMost) _ _
          (Triple-act (os.remove_file tmp) (λ r. [])
            (λ s p.
              at_most_apart p
                (removed-Apart (os.remove_file tmp s).0 (laws.remove_file_law tmp s))))
          (λ a. Triple-pure tt (λ s p. p))
      where
        at_most_apart : {s t : os.Machine} → AtMost s → Apart tmp (files s) (files t) → AtMost t
        at_most_apart p h = (λ q n m. h q n ∙ p.0 q n m, place p.1 (h path (λ e. differ (sym e))))

  pub write_immutable-Added :
      (before : Contents) (path : FilePath) (bytes : List ℕ) (mode : ℕ)
      → Triple
          (λ s. Same before (files s))
          (write_immutable store path bytes mode)
          (λ a s. Added before (immutable_temp_path store path) path bytes (files s))
          (λ e s. AddedAtMost before (immutable_temp_path store path) path bytes (files s))
  unfolding write_immutable In AtMost
  write_immutable-Added before path bytes mode =
      let tmp = immutable_temp_path store path in
      let differ = immutable_temp_path_apart store path in
      let Done : Unit {0} → os.Machine → Type 0 = λ a s. Added before tmp path bytes (files s) in
      let Undone : PromotionError → os.Machine → Type 0 =
        λ e s. AddedAtMost before tmp path bytes (files s) in
      Triple-bind (Ends Done Undone) _ _
        (Triple-attempt _ (immutable_steps-Triple before tmp path bytes differ mode))
        (λ r.
          Triple-bind (λ a. Ends Done Undone r) _ _
            (remove_temp-Triple before tmp path bytes differ r)
            (λ a. Triple-answer (λ e. e) r (λ s p. p) (λ d s p. p)))
