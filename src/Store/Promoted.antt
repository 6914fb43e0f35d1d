-- ===== src/Store/Promoted.antt =====
-- The theorems on `ReleaseStore::promote` and `ReleaseStore::recover` of src/release.rs.
use nixdeploy_corbet_ch.World.Triple.{Ends-value, Ends-always, Triple, Triple-bind, Triple-weaken}
use nixdeploy_corbet_ch.World.Files.{Contents, FileLaws}
use nixdeploy_corbet_ch.World.{World}
use nixdeploy_corbet_ch.Store.Settled.{IsSettled, Recovers, Told}
use nixdeploy_corbet_ch.Store.Kept.{Keeps}
use nixdeploy_corbet_ch.Store.{
  PromotionRequest, PromotionStatus, promoted, unchanged, superseded, rejected, PromotionOutcome,
  ReleaseStore, channel_path,
}
use nixdeploy_corbet_ch.Store.Recover.{directories, recover}
use nixdeploy_corbet_ch.Store.Promote.{request_problems, promote_locked, promote}
use nixdeploy_corbet_ch.Store.Quiet.{IsStable, both-IsStable}
use nixdeploy_corbet_ch.Store.Backed.{IsJournaled, IsSound, IsSound-IsStable, Follows-IsStable}
use nixdeploy_corbet_ch.Store.Locked.{prepare-Triple, with_lock-Triple}
use nixdeploy_corbet_ch.Store.Recovered.{recover_locked-Triple}
use nixdeploy_corbet_ch.Store.Outcomes.{answer-Triple}
use nixdeploy_corbet_ch.Base.{ok, ℕ, ◌≡◌, refl, ◌∙◌, ◌⊎◌, inl, inr, Option, none, some, List}
use nixdeploy_corbet_ch.Text.{Text}

module _ (store : ReleaseStore) (laws : FileLaws store.os) (key : store.crypto.SigningKey) where
  open laws use {files}
  open store use {os, crypto, forms}

  abbrev pub ChannelIs : Option (List ℕ) → os.Machine → Type 0
  ChannelIs c s = files s (channel_path store) ≡ c

  ChannelIs-IsStable : (c : Option (List ℕ)) → IsStable store laws (ChannelIs c)
  ChannelIs-IsStable c s t q e = q.1 ∙ e

  IsSettled-IsStable : (id : Text) → IsStable store laws (IsSettled store laws key id)
  IsSettled-IsStable id s t q (found, bytes, doc, entry, e, opened, r, f) = (
    found,
    bytes,
    doc,
    entry,
    e,
    opened,
    r,
    Follows-IsStable store laws key id found.generation bytes entry s t q f,
  )

  Recovers-IsStable :
      (G : os.Machine → Type 0)
      → IsStable store laws G
      → (o : Option Text) → IsStable store laws (Recovers store laws key G o)
  Recovers-IsStable G stable none = stable
  Recovers-IsStable G stable (some id) = IsSettled-IsStable id

  -- The channel holds what it held, or the release that the journal names.
  abbrev pub IsIdle : Option (List ℕ) → os.Machine → Type 0
  IsIdle c s = ChannelIs c s ⊎ ((id : Text) × IsSettled store laws key id s)

  Recovers-IsIdle :
      (c : Option (List ℕ)) (o : Option Text) (s : os.Machine)
      → Recovers store laws key (ChannelIs c) o s
      → IsIdle c s
  Recovers-IsIdle c none s h = inl h
  Recovers-IsIdle c (some id) s h = inr (id, h)

  IsIdle-IsStable : (c : Option (List ℕ)) → IsStable store laws (IsIdle c)
  IsIdle-IsStable c s t q (inl h) = inl (ChannelIs-IsStable c s t q h)
  IsIdle-IsStable c s t q (inr (id, h)) = inr (id, IsSettled-IsStable id s t q h)

  module _ (before : Contents) (c : Option (List ℕ)) where
    Start : os.Machine → Type 0
    Start s = IsSound store laws key before s × ChannelIs c s

    Answered : PromotionOutcome → os.Machine → Type 0
    Answered o s = IsSound store laws key before s × Told store laws key (IsIdle c) o.status o s

    Told-IsStable :
        (status : PromotionStatus) (o : PromotionOutcome)
        → IsStable store laws (Told store laws key (IsIdle c) status o)
    Told-IsStable promoted o s t q (found, bytes, entry, told, sealed, r, f) = (
      found,
      bytes,
      entry,
      told,
      sealed,
      r,
      Follows-IsStable store laws key found.deployment_set_id found.generation bytes entry s t q f,
    )
    Told-IsStable unchanged o s t q h = IsIdle-IsStable c s t q h
    Told-IsStable superseded o s t q h = IsIdle-IsStable c s t q h
    Told-IsStable rejected o s t q h = IsIdle-IsStable c s t q h

    Start-IsStable : IsStable store laws Start
    unfolding Start
    Start-IsStable =
        both-IsStable store laws (IsSound-IsStable store laws key before) (ChannelIs-IsStable c)

    promote_locked-Triple :
        (request : PromotionRequest) (key_name : Text)
        → Triple Start
            (promote_locked store request key_name key)
            Answered
            (λ e. IsSound store laws key before)
    unfolding promote_locked Start Answered
    promote_locked-Triple request key_name =
        Triple-bind (λ o s. IsSound store laws key before s × IsIdle c s) _ _
          (Triple-weaken _ (λ e. IsSound store laws key before) _
            (recover_locked-Triple store laws before key (ChannelIs c) (ChannelIs-IsStable c))
            (λ s p. p) (λ o s p. (p.0, Recovers-IsIdle c o s p.1)) (λ e s p. p))
          (λ o.
            answer-Triple store laws before key (IsIdle c) (IsIdle-IsStable c) request key_name
              (request_problems crypto request))

    promote-Triple :
        (request : PromotionRequest) (key_name : Text)
        → Triple Start
            (promote store request key_name key)
            Answered
            (λ e. IsSound store laws key before)
    unfolding promote Start Answered
    promote-Triple request key_name =
        Triple-bind (λ a. Start) _ _
          (Triple-weaken _ (λ e. Start) _
            (prepare-Triple store laws Start Start-IsStable (directories store)) (λ s p. p)
            (λ a s p. p) (λ e s p. p.0))
          (λ a.
            with_lock-Triple store laws Start Start-IsStable Answered
              (IsSound store laws key before) _
              (λ o.
                both-IsStable store laws (IsSound-IsStable store laws key before)
                  (Told-IsStable o.status o))
              (IsSound-IsStable store laws key before) (λ s p. p.0)
              (promote_locked-Triple request key_name))

    -- A promotion as a step of a longer run.
    pub promote_keeps :
        (request : PromotionRequest) (key_name : Text)
        → Triple
            (λ s. IsSound store laws key before s × ChannelIs c s)
            (promote store request key_name key)
            (λ o s. IsSound store laws key before s × Told store laws key (IsIdle c) o.status o s)
            (λ e. IsSound store laws key before)
    unfolding Start Answered
    promote_keeps request key_name = promote-Triple request key_name

    recover-Triple :
        Triple Start
          (recover store key)
          (λ o s. IsSound store laws key before s × Recovers store laws key (ChannelIs c) o s)
          (λ e. IsSound store laws key before)
    unfolding recover Start
    recover-Triple =
        Triple-bind (λ a. Start) _ _
          (Triple-weaken _ (λ e. Start) _
            (prepare-Triple store laws Start Start-IsStable (directories store)) (λ s p. p)
            (λ a s p. p) (λ e s p. p.0))
          (λ a.
            with_lock-Triple store laws Start Start-IsStable
              (λ o s. IsSound store laws key before s × Recovers store laws key (ChannelIs c) o s)
              (IsSound store laws key before) _
              (λ o.
                both-IsStable store laws (IsSound-IsStable store laws key before)
                  (Recovers-IsStable (ChannelIs c) (ChannelIs-IsStable c) o))
              (IsSound-IsStable store laws key before) (λ s p. p.0)
              (recover_locked-Triple store laws before key (ChannelIs c) (ChannelIs-IsStable c)))

  start :
      (w : World os)
      → IsJournaled store laws key w.machine
      → Start (files w.machine) (files w.machine (channel_path store)) w.machine
  unfolding Start
  start w h = ((h, λ q j n b e. e), refl)

  -- Whatever a promotion answers, and wherever it fails, what the channel then holds stands as a
  -- release whose promotion is in the journal, if that was so before: the file of the record is an
  -- envelope that was signed with the key or opens under it, and its record names the release's ID, its
  -- generation and the digest of its bytes. A run in which every operation after some point fails is one
  -- that was cut off there. No release and no record has changed: each JSON file but the channel keeps
  -- its contents.
  pub promote-IsJournaled :
      (request : PromotionRequest) (key_name : Text) (w : World os)
      → IsJournaled store laws key w.machine
      → IsJournaled store laws key (promote store request key_name key w).1.machine
        × Keeps store (files w.machine) (files (promote store request key_name key w).1.machine)
  unfolding Start Answered
  promote-IsJournaled request key_name w h =
      let c = files w.machine (channel_path store) in
      Ends-always _ (IsSound store laws key (files w.machine))
        (promote store request key_name key w).0 (promote store request key_name key w).1.machine
        ((promote-Triple (files w.machine) c request key_name).at w (start w h))

  -- A promotion that answers "promoted" names the release that the channel now holds: its bytes verify
  -- under the key as the release of that ID, they stand as that release, and the file of the answered
  -- generation in the journal is the envelope, signed with the key, of a record with the answer's ID,
  -- generation and previous ID and with the digest of these bytes. With any other answer the channel
  -- holds what it held before, or the verified release that a record in the journal names.
  pub promote-Told :
      (request : PromotionRequest) (key_name : Text) (w : World os) (o : PromotionOutcome)
      → IsJournaled store laws key w.machine
      → (promote store request key_name key w).0 ≡ ok o
      → Told store laws key
          (IsIdle (files w.machine (channel_path store)))
          o.status
          o
          (promote store request key_name key w).1.machine
  unfolding Start Answered
  promote-Told request key_name w o h e =
      let c = files w.machine (channel_path store) in
      (Ends-value _ _ (promote store request key_name key w).0
        (promote store request key_name key w).1.machine o
        ((promote-Triple (files w.machine) c request key_name).at w (start w h)) e).1

  -- A recovery that answers an ID has made the channel hold the release that a record in the journal
  -- names: the file of the record is an envelope that opens under the key as a record with that ID, and
  -- the channel's bytes have the recorded digest, verify under the key, and name the recorded ID and
  -- parent. A recovery that answers none has left the channel alone.
  pub recover-Recovers :
      (w : World os) (o : Option Text)
      → IsJournaled store laws key w.machine
      → (recover store key w).0 ≡ ok o
      → Recovers store laws key
          (ChannelIs (files w.machine (channel_path store)))
          o
          (recover store key w).1.machine
  unfolding Start
  recover-Recovers w o h e =
      let c = files w.machine (channel_path store) in
      (Ends-value _ _ (recover store key w).0 (recover store key w).1.machine o
        ((recover-Triple (files w.machine) c).at w (start w h)) e).1
