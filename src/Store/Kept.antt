-- ===== src/Store/Kept.antt =====
-- What the store's operations leave alone: the JSON files but for the channel, and the channel.
use mathlib.Core.List.{append_cancel_left, append_assoc}
use nixdeploy_corbet_ch.World.{FilePath}
use nixdeploy_corbet_ch.World.Files.{Contents, Same, Apart}
use nixdeploy_corbet_ch.AtomicFile.{temp_path}
use nixdeploy_corbet_ch.Digits.{show, show_padded}
use nixdeploy_corbet_ch.Text.Laws.{final, final-append}
use nixdeploy_corbet_ch.Store.{
  trim_start_matches, ReleaseStore, channel_path, release_path, record_path, lock_path,
  immutable_temp_path,
}
use nixdeploy_corbet_ch.Base.{ℕ, ◌≡◌, refl, sym, ap, ◌∙◌, ◌≢◌, some, List, [], ◌∷◌, ◌++◌, arith}
use nixdeploy_corbet_ch.Text.{Text, codes}

-- The name ends in ".json".
abbrev pub IsJson : FilePath → Type 0
IsJson p = (stem : Text) × (p.name ≡ stem ++ codes ".json")

-- A file whose name ends otherwise.
other_end : (p q : FilePath) → IsJson p → final q.name ≢ b'n' → p ≢ q
other_end p q (stem, e) h same = h (
    ap final (ap (λ (r : FilePath). r.name) (sym same))
    ∙ ap final e
    ∙ final-append stem b'.' (codes "json"))

suffix_ends :
    (name pid : Text) (c : ℕ) (ending : Text)
    → final (c ∷ ending) ≢ b'n'
    → final (b'.' ∷ (name ++ (b'.' ∷ (pid ++ c ∷ ending)))) ≢ b'n'
suffix_ends name pid c ending h e = h (
    sym (final-append (b'.' ∷ name) b'.' (pid ++ c ∷ ending) ∙ final-append (b'.' ∷ pid) c ending)
    ∙ e)

abbrev second : Text → ℕ
second [] = 0
second (c ∷ []) = 0
second (c ∷ d ∷ s) = d

module _ (store : ReleaseStore) where
  -- The temporary files and the lock are no JSON files.
  pub temp_path_other : (p path : FilePath) → IsJson p → p ≢ temp_path store.os.process_id path
  unfolding temp_path
  temp_path_other p path j =
      other_end p (temp_path store.os.process_id path) j (
        suffix_ends path.name (show store.os.process_id) b'.' (codes "tmp") (λ e. omega (arith, e)))

  pub immutable_temp_path_other :
      (p path : FilePath) → IsJson p → p ≢ immutable_temp_path store path
  unfolding immutable_temp_path
  immutable_temp_path_other p path j = other_end p (immutable_temp_path store path) j (
      suffix_ends path.name (show store.os.process_id) b'.' (codes "immutable.tmp")
        (λ e. omega (arith, e)))

  pub lock_path_other : (p : FilePath) → IsJson p → p ≢ lock_path store
  lock_path_other p j = other_end p (lock_path store) j (λ e. omega (arith, e))

  pub channel_path-IsJson : IsJson (channel_path store)
  unfolding channel_path
  channel_path-IsJson = (codes "stable", refl)

  pub release_path-IsJson : (id : Text) → IsJson (release_path store id)
  unfolding release_path
  release_path-IsJson id = (trim_start_matches id (codes "sha256:"), refl)

  pub record_path-IsJson : (generation : ℕ) (id : Text) → IsJson (record_path store generation id)
  unfolding record_path
  record_path-IsJson generation id = (
    show_padded 20 generation ++ (codes "-" ++ trim_start_matches id (codes "sha256:")),
    sym (
        append_assoc (show_padded 20 generation) (b'-' ∷ trim_start_matches id (codes "sha256:"))
          (codes ".json")),
  )

  pub release_path_apart : (id : Text) → release_path store id ≢ channel_path store
  unfolding release_path channel_path
  release_path_apart id e =
      other_dir (append_cancel_left store.root _ _ (ap (λ (p : FilePath). p.dir) e))
    where
      other_dir : codes "/releases" ≢ codes "/channels"
      other_dir e = absurd (omega (arith, ap second e))

  pub record_path_apart :
      (generation : ℕ) (id : Text) → record_path store generation id ≢ channel_path store
  unfolding record_path channel_path
  record_path_apart generation id e =
      other_dir (append_cancel_left store.root _ _ (ap (λ (p : FilePath). p.dir) e))
    where
      other_dir : codes "/promotions" ≢ codes "/channels"
      other_dir e = absurd (omega (arith, ap second e))

  -- JSON files but for the channel keep their contents.
  abbrev pub Keeps : Contents → Contents → Type 0
  Keeps before after =
      (q : FilePath)
      → IsJson q
      → q ≢ channel_path store
      → (b : List ℕ) → before q ≡ some b
      → after q ≡ some b

  -- So does the channel.
  abbrev pub IsQuiet : Contents → Contents → Type 0
  IsQuiet before after =
      Keeps before after × (after (channel_path store) ≡ before (channel_path store))

  pub Keeps-trans : {a b c : Contents} → Keeps a b → Keeps b c → Keeps a c
  Keeps-trans f g q j n x e = g q j n x (f q j n x e)

  pub Same-IsQuiet : {a b : Contents} → Same a b → IsQuiet a b
  Same-IsQuiet h = (λ q j n x e. h q ∙ e, h (channel_path store))

  pub Apart-IsQuiet :
      (p : FilePath)
      → ((q : FilePath) → IsJson q → q ≢ p)
      → {a b : Contents} → Apart p a b
      → IsQuiet a b
  Apart-IsQuiet p other h = (
    λ q j n x e. h q (other q j) ∙ e,
    h (channel_path store) (other (channel_path store) channel_path-IsJson),
  )
