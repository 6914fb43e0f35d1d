-- ===== src/Store/Backed.antt =====
-- Writes of the store that keep its invariant: what the channel holds stands as a release, and a
-- record of its promotion stands in the journal.
use nixdeploy_corbet_ch.World.{FilePath}
use nixdeploy_corbet_ch.World.Triple.{Ends, Triple, Triple-bind, Triple-with_error, Triple-weaken}
use nixdeploy_corbet_ch.World.Files.{Contents, Apart, FilePath-discrete, FileLaws}
use nixdeploy_corbet_ch.AtomicFile.{temp_path, write_atomic}
use nixdeploy_corbet_ch.AtomicFile.Whole.{IsWhole, write_atomic-IsWhole}
use nixdeploy_corbet_ch.Store.Quiet.{IsStable, Holds, both-IsStable, Triple-quiet}
use nixdeploy_corbet_ch.Store.Kept.{
  IsJson, temp_path_other, immutable_temp_path_other, channel_path-IsJson, release_path-IsJson,
  record_path-IsJson, release_path_apart, record_path_apart, Keeps, IsQuiet, Keeps-trans,
  Same-IsQuiet, Apart-IsQuiet,
}
use nixdeploy_corbet_ch.Store.Entry.{IsEntry}
use nixdeploy_corbet_ch.Store.{
  PromotionError, ReleaseStore, channels_dir, channel_path, release_path, record_path,
  immutable_temp_path, write_immutable, write_channel,
}
use nixdeploy_corbet_ch.Store.Linked.{AddedAtMost, Added, write_immutable-Added}
use nixdeploy_corbet_ch.Base.{
  Result, ok, err, ℕ, ◌≡◌, refl, sym, subst, ◌∙◌, ◌≢◌, ◌⊎◌, inl, inr, none, some, List,
}
use nixdeploy_corbet_ch.Text.{Text}

AddedAtMost-IsQuiet :
    (store : ReleaseStore) (path : FilePath) (bytes : List ℕ)
    → path ≢ channel_path store
    → {a b : Contents} → AddedAtMost a (immutable_temp_path store path) path bytes b
    → IsQuiet store a b
AddedAtMost-IsQuiet store path bytes n {a} {b} (others, here) = (
  λ q j m x e. elim (FilePath-discrete q path) [
    | yes same ↦ subst (λ r. b r ≡ some x) (sym same) (kept x (subst (λ r. a r ≡ some x) same e))
    | no differ ↦ others q (immutable_temp_path_other store q path j) differ ∙ e
  ],
  others (channel_path store)
      (immutable_temp_path_other store (channel_path store) path (channel_path-IsJson store))
      (λ e. n (sym e)),
)
  where
    kept : (x : List ℕ) → a path ≡ some x → b path ≡ some x
    kept x e = elim here [ inl same ↦ same ∙ e | inr (fresh, now) ↦ absurd cc ]

module _ (store : ReleaseStore) (laws : FileLaws store.os) (key : store.crypto.SigningKey) where
  open laws use {files}
  open store use {os, crypto, forms}

  -- The release `id` is in place with the bytes, and so is the record of its promotion.
  abbrev pub Stands : Text → ℕ → List ℕ → List ℕ → os.Machine → Type 0
  Stands id generation bytes entry s =
      Holds store laws (release_path store id) bytes s
      × Holds store laws (record_path store generation id) entry s
      × IsEntry store key id generation bytes entry

  abbrev pub IsJournaled : os.Machine → Type 0
  IsJournaled s =
      (files s (channel_path store) ≡ none)
      ⊎ ((id : Text) × (generation : ℕ) × (bytes : List ℕ) × (entry : List ℕ) × Holds store laws
            (channel_path store) bytes s
          × Stands id generation bytes entry s)

  Holds-Keeps :
      (path : FilePath) (bytes : List ℕ) (s t : os.Machine)
      → IsJson path
      → path ≢ channel_path store
      → Keeps store (files s) (files t)
      → Holds store laws path bytes s
      → Holds store laws path bytes t
  Holds-Keeps path bytes s t j n k h = k path j n bytes h

  pub Stands-Keeps :
      (id : Text) (generation : ℕ) (bytes entry : List ℕ) (s t : os.Machine)
      → Keeps store (files s) (files t)
      → Stands id generation bytes entry s
      → Stands id generation bytes entry t
  Stands-Keeps id generation bytes entry s t k h = (
    k (release_path store id) (release_path-IsJson store id) (release_path_apart store id) bytes
        h.0,
    k (record_path store generation id) (record_path-IsJson store generation id)
        (record_path_apart store generation id) entry h.1,
    h.2,
  )

  pub IsJournaled-IsStable : IsStable store laws IsJournaled
  IsJournaled-IsStable s t q (inl e) = inl (q.1 ∙ e)
  IsJournaled-IsStable s t q (inr (id, generation, bytes, entry, c, h)) =
      inr (id, generation, bytes, entry, q.1 ∙ c, Stands-Keeps id generation bytes entry s t q.0 h)

  -- A file put in place once.
  pub write_immutable-Triple :
      (G : os.Machine → Type 0) (stable : IsStable store laws G) (path : FilePath) (bytes : List ℕ)
      (mode : ℕ)
      → IsJson path
      → path ≢ channel_path store
      → Triple G
          (write_immutable store path bytes mode)
          (λ a s. G s × Holds store laws path bytes s)
          (λ e. G)
  write_immutable-Triple G stable path bytes mode j n = record {
    at = λ w g.
        ends (write_immutable store path bytes mode w).0
          (write_immutable store path bytes mode w).1.machine w.machine g
          ((write_immutable-Added store laws (files w.machine) path bytes mode).at w (λ q. refl));
  }
    where
      ends :
          (r : Result (Unit {0}) PromotionError) (t s : os.Machine)
          → G s
          → Ends
              (λ a u. Added (files s) (immutable_temp_path store path) path bytes (files u))
              (λ e u. AddedAtMost (files s) (immutable_temp_path store path) path bytes (files u))
              r
              t
          → Ends (λ a u. G u × Holds store laws path bytes u) (λ e. G) r t
      ends (ok a) t s g p =
          (stable s t (AddedAtMost-IsQuiet store path bytes n (p.0, inr (p.1, p.2))) g, p.2)
      ends (err e) t s g p = stable s t (AddedAtMost-IsQuiet store path bytes n p) g

  -- The channel takes the new bytes or stays as it was.
  abbrev pub Moved : List ℕ → os.Machine → os.Machine → Type 0
  Moved bytes s t = Keeps store (files s) (files t) × Holds store laws (channel_path store) bytes t

  write_atomic-Moved :
      (bytes : List ℕ) (s t : os.Machine)
      → IsWhole
          (files s)
          (temp_path os.process_id (channel_path store))
          (channel_path store)
          bytes
          (files t)
      → Moved bytes s t
  write_atomic-Moved bytes s t h =
      (λ q j n x e. h.others q (temp_path_other store q (channel_path store) j) n ∙ e, h.written)

  write_atomic-IsQuiet :
      (s t : os.Machine)
      → Apart (temp_path os.process_id (channel_path store)) (files s) (files t)
      → IsQuiet store (files s) (files t)
  write_atomic-IsQuiet s t h =
      Apart-IsQuiet store (temp_path os.process_id (channel_path store))
        (λ q j. temp_path_other store q (channel_path store) j) h

  -- The channel holds a release that stands and is recorded.
  abbrev pub Follows : Text → ℕ → List ℕ → List ℕ → os.Machine → Type 0
  Follows id generation bytes entry s =
      Stands id generation bytes entry s × Holds store laws (channel_path store) bytes s

  pub Follows-IsJournaled :
      (id : Text) (generation : ℕ) (bytes entry : List ℕ) (s : os.Machine)
      → Follows id generation bytes entry s
      → IsJournaled s
  Follows-IsJournaled id generation bytes entry s h = inr (id, generation, bytes, entry, h.1, h.0)

  -- The invariant, with the JSON files that stood before.
  abbrev pub IsSound : Contents → os.Machine → Type 0
  IsSound before s = IsJournaled s × Keeps store before (files s)

  pub IsSound-IsStable : (before : Contents) → IsStable store laws (IsSound before)
  IsSound-IsStable before s t q p = (IsJournaled-IsStable s t q p.0, Keeps-trans store p.1 q.0)

  pub Follows-IsStable :
      (id : Text) (generation : ℕ) (bytes entry : List ℕ)
      → IsStable store laws (Follows id generation bytes entry)
  Follows-IsStable id generation bytes entry s t q h =
      (Stands-Keeps id generation bytes entry s t q.0 h.0, q.1 ∙ h.1)

  module _ (before : Contents) (id : Text) (generation : ℕ) (bytes entry : List ℕ) where
    Ready : os.Machine → Type 0
    Ready s = IsSound before s × Stands id generation bytes entry s

    settled :
        (t : os.Machine)
        → Keeps store before (files t)
        → Follows id generation bytes entry t
        → IsSound before t × Follows id generation bytes entry t
    settled t k f = ((Follows-IsJournaled id generation bytes entry t f, k), f)

    written :
        Triple {os = os} Ready
          (write_atomic (channel_path store) bytes 0o644)
          (λ a s. IsSound before s × Follows id generation bytes entry s)
          (λ e. IsSound before)
    unfolding Ready
    written = record {
      at = λ w g.
          ends (write_atomic (channel_path store) bytes 0o644 w).0
            (write_atomic (channel_path store) bytes 0o644 w).1.machine w.machine g
            ((write_atomic-IsWhole laws (files w.machine) (channel_path store) bytes 0o644).at w
              (λ q. refl));
    }
      where
        ends :
            (r : Result (Unit {0}) Text) (t s : os.Machine)
            → Ready s
            → Ends
                (λ a u.
                  IsWhole
                    (files s)
                    (temp_path os.process_id (channel_path store))
                    (channel_path store)
                    bytes
                    (files u))
                (λ e u. Apart (temp_path os.process_id (channel_path store)) (files s) (files u))
                r
                t
            → Ends
                (λ a s. IsSound before s × Follows id generation bytes entry s)
                (λ e. IsSound before)
                r
                t
        ends (ok a) t s g h =
            let (k, now) = write_atomic-Moved bytes s t h in
            settled t (Keeps-trans store g.0.1 k)
              (Stands-Keeps id generation bytes entry s t k g.1, now)
        ends (err e) t s g h = IsSound-IsStable before s t (write_atomic-IsQuiet s t h) g.0

    -- The channel moves to a release that stands and is recorded.
    pub write_channel-Triple :
        Triple
          (λ s. IsSound before s × Stands id generation bytes entry s)
          (write_channel store bytes)
          (λ a s. IsSound before s × Follows id generation bytes entry s)
          (λ e. IsSound before)
    unfolding write_channel Ready
    write_channel-Triple =
        Triple-bind (λ a s. IsSound before s × Follows id generation bytes entry s) _ _
          (Triple-with_error _ _ written)
          (λ a.
            Triple-weaken Done (λ e. Done tt) _
              (Triple-quiet store laws (Done tt)
                (both-IsStable store laws (IsSound-IsStable before)
                  (Follows-IsStable id generation bytes entry))
                _ (os.sync_dir (channels_dir store))
                (λ s. Same-IsQuiet store (laws.sync_dir_same (channels_dir store) s)))
              (λ s p. p) (λ a s p. p) (λ e s p. p.0))
      where
        Done : Unit {0} → os.Machine → Type 0
        Done a s = IsSound before s × Follows id generation bytes entry s
