-- ===== src/Store/Quiet.antt =====
-- The operations of the store that leave its JSON files and the channel alone, with what they find.
use nixdeploy_corbet_ch.World.{
  FilePath, FileRead, contents, no_such_file, unreadable, pure, exit, act,
}
use nixdeploy_corbet_ch.World.Triple.{
  Ends, Triple, Triple-pure, Triple-exit, Triple-act, Triple-or_exit, Triple-if, Triple-bind,
}
use nixdeploy_corbet_ch.World.Files.{Reads, FileLaws}
use nixdeploy_corbet_ch.Release.Envelope.{verify_release_with_key}
use nixdeploy_corbet_ch.Store.{
  Place, ReleaseStore, channel_path, release_path, call_at, read_contents, read, verified,
  read_release_with_key, read_optional, read_current_with_key,
}
use nixdeploy_corbet_ch.Store.Linked.{Triple-call_at}
use nixdeploy_corbet_ch.Store.Kept.{IsJson, IsQuiet, Same-IsQuiet}
use nixdeploy_corbet_ch.Base.{Result, ok, err, ℕ, ◌≡◌, ◌∙◌, ◌≢◌, Option, none, some, List, []}
use nixdeploy_corbet_ch.Text.{Text, ◌==◌}

module _ (store : ReleaseStore) (laws : FileLaws store.os) where
  open laws use {files}
  open store use {os, crypto, forms}

  -- A fact about the machine that quiet operations leave true.
  abbrev pub IsStable : (os.Machine → Type 0) → Type 0
  IsStable G = (s t : os.Machine) → IsQuiet store (files s) (files t) → G s → G t

  abbrev pub Holds : FilePath → List ℕ → os.Machine → Type 0
  Holds path bytes s = files s path ≡ some bytes

  pub Holds-IsStable :
      (path : FilePath) (bytes : List ℕ)
      → IsJson path
      → path ≢ channel_path store
      → IsStable (Holds path bytes)
  Holds-IsStable path bytes j n = λ s t q e. q.0 path j n bytes e

  pub both-IsStable :
      {G H : os.Machine → Type 0} → IsStable G → IsStable H → IsStable (λ s. G s × H s)
  both-IsStable g h = λ s t q p. (g s t q p.0, h s t q p.1)

  module _ (G : os.Machine → Type 0) (stable : IsStable G) where
    -- A call with a quiet effect.
    pub Triple-quiet :
        {A : Type 0} (place : Place) (op : os.Machine → Result A Text × os.Machine)
        → ((s : os.Machine) → IsQuiet store (files s) (files (op s).1))
        → Triple G (call_at store place op) (λ a. G) (λ e. G)
    Triple-quiet {A} place op quiet =
        Triple-call_at store laws place op (λ s g. ends (op s).0 (op s).1 (stable _ _ (quiet s) g))
      where
        ends : (r : Result A Text) (s : os.Machine) → G s → Ends (λ a. G) (λ e. G) r s
        ends (ok a) s g = g
        ends (err e) s g = g

    pub read_act :
        {E : Type 0} {X : E → os.Machine → Type 0} (path : FilePath)
        → Triple {os = os} G
            (act (os.read_file path) (λ r. []))
            (λ r s. G s × Reads r (files s path))
            X
    read_act path =
        Triple-act (os.read_file path) (λ r. [])
          (λ s g. (
            stable _ _ (Same-IsQuiet store (laws.read_file_same path s)) g,
            reads_same (os.read_file path s).0 (laws.read_file_same path s path)
                (laws.read_file_reads path s),
          ))
      where
        reads_same : (r : FileRead) {c d : Option (List ℕ)} → d ≡ c → Reads r c → Reads r d
        reads_same (contents b) e h = e ∙ h
        reads_same no_such_file e h = e ∙ h
        reads_same (unreadable x) e h = tt

    read_contents-Triple :
        (path : FilePath) (r : FileRead)
        → Triple
            (λ s. G s × Reads r (files s path))
            (read_contents store path r)
            (λ bytes s. G s × Holds path bytes s)
            (λ e. G)
    unfolding read_contents
    read_contents-Triple path (contents bytes) = Triple-pure bytes (λ s p. p)
    read_contents-Triple path no_such_file = Triple-exit _ (λ s p. p.0)
    read_contents-Triple path (unreadable e) = Triple-exit _ (λ s p. p.0)

    pub read-Triple :
        (path : FilePath)
        → Triple G (read store path) (λ bytes s. G s × Holds path bytes s) (λ e. G)
    unfolding read
    read-Triple path =
        Triple-bind (λ r s. G s × Reads r (files s path)) _ _ (read_act path)
          (read_contents-Triple path)

    read_optional-Triple :
        (r : FileRead) (key : crypto.SigningKey)
        → Triple
            (λ s. G s × Reads r (files s (channel_path store)))
            (read_optional store r key)
            (λ current. G)
            (λ e. G)
    unfolding read_optional verified
    read_optional-Triple (contents bytes) key =
        Triple-bind (λ doc. G) _ _ (Triple-or_exit _ _ (λ a e s p. p.0) (λ d e s p. p.0))
          (λ doc. Triple-pure _ (λ s g. g))
    read_optional-Triple no_such_file key = Triple-pure none (λ s p. p.0)
    read_optional-Triple (unreadable e) key = Triple-exit _ (λ s p. p.0)

    pub read_current-Triple :
        (key : crypto.SigningKey)
        → Triple G (read_current_with_key store key) (λ current. G) (λ e. G)
    unfolding read_current_with_key
    read_current-Triple key =
        Triple-bind (λ r s. G s × Reads r (files s (channel_path store))) _ _
          (read_act (channel_path store)) (λ r. read_optional-Triple r key)

    pub verified-Triple :
        {H : os.Machine → Type 0} (path : FilePath) (bytes : List ℕ) (key : crypto.SigningKey)
        → ((s : os.Machine) → H s → G s)
        → Triple H
            (verified store path bytes key)
            (λ doc s. H s × (verify_release_with_key crypto forms bytes key ≡ ok doc))
            (λ e. G)
    unfolding verified
    verified-Triple path bytes key weak =
        Triple-or_exit _ (verify_release_with_key crypto forms bytes key) (λ a e s h. (h, e))
          (λ d e s h. weak s h)

    pub read_release-Triple :
        (id : Text) (key : crypto.SigningKey)
        → Triple G (read_release_with_key store id key) (λ doc. G) (λ e. G)
    unfolding read_release_with_key verified
    read_release-Triple id key =
        Triple-bind (λ bytes s. G s × Holds (release_path store id) bytes s) _ _
          (read-Triple (release_path store id))
          (λ bytes.
            Triple-bind (λ doc. G) _ _ (Triple-or_exit _ _ (λ a e s p. p.0) (λ d e s p. p.0))
              (λ doc.
                Triple-if (doc.deployment_set_id == id) (pure doc) (exit _)
                  (λ e. Triple-pure doc (λ s g. g)) (λ e. Triple-exit _ (λ s g. g))))
