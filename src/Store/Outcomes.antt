-- ===== src/Store/Outcomes.antt =====
-- What a promotion brings about, branch by branch: `ReleaseStore::promote` of src/release.rs.
use nixdeploy_corbet_ch.World.{◌>>=◌, pure, exit}
use nixdeploy_corbet_ch.World.Triple.{
  Triple, Triple-pure, Triple-exit, Triple-ask, Triple-or_exit, Triple-if, Triple-bind,
  Triple-weaken, Triple-option, Triple-given,
}
use nixdeploy_corbet_ch.World.Files.{Contents, FileLaws}
use nixdeploy_corbet_ch.Release.{DeploymentSet, ReleaseDocument}
use nixdeploy_corbet_ch.Store.Entry.{IsEntry}
use nixdeploy_corbet_ch.Release.Envelope.{seal, verify_release_with_key}
use nixdeploy_corbet_ch.Store.Latest.{latest_record-Triple}
use nixdeploy_corbet_ch.Store.Settled.{IsRelease, IsPublished, Told}
use nixdeploy_corbet_ch.Store.{
  PromotionRequest, promoted, PromotionDetail, PromotionOutcome, same_text, ReleaseStore,
  release_path, record_path, id_of_current, current_id_with_key,
}
use nixdeploy_corbet_ch.Store.Promote.{
  is_full, Current, rejected_with, unchanged_at, promoted_to, composed_set, next_generation,
  may_rebase, base_accepted, place_release, record_of, record_bytes, record_and_move, publish_set,
  promote_from, promote_valid,
}
use nixdeploy_corbet_ch.Store.Kept.{
  release_path-IsJson, record_path-IsJson, release_path_apart, record_path_apart,
}
use nixdeploy_corbet_ch.Store.Quiet.{
  IsStable, Holds, Holds-IsStable, both-IsStable, read-Triple, read_current-Triple, verified-Triple,
  read_release-Triple,
}
use nixdeploy_corbet_ch.Store.Backed.{
  write_immutable-Triple, Follows, IsSound, IsSound-IsStable, write_channel-Triple,
}
use nixdeploy_corbet_ch.Base.{
  ok, ℕ, ◌≡◌, refl, sym, subst, inr, true, false, Option, none, some, List, [], ◌∷◌,
}
use nixdeploy_corbet_ch.Text.{Text, ◌==◌}
use nixdeploy_corbet_ch.Text.Laws.{eq_sound}

module _ (store : ReleaseStore) (laws : FileLaws store.os) (before : Contents)
    (key : store.crypto.SigningKey) where
  open laws use {files}
  open store use {os, crypto, forms}

  abbrev Sound : os.Machine → Type 0
  Sound = IsSound store laws key before

  module _ (G : os.Machine → Type 0) (stable : IsStable store laws G) where
    place_release-Triple :
        (proposed : ReleaseDocument) (proposed_bytes : List ℕ)
        → IsRelease store laws key proposed.deployment_set_id proposed_bytes
        → Triple G
            (place_release store proposed proposed_bytes key)
            (λ bytes s.
              (G s × Holds store laws (release_path store proposed.deployment_set_id) bytes s)
              × IsRelease store laws key proposed.deployment_set_id bytes)
            (λ e. G)
    unfolding place_release
    place_release-Triple proposed proposed_bytes valid =
        let id = proposed.deployment_set_id in
        let path = release_path store id in
        Triple-bind (λ exists. G) _ _ (Triple-ask (os.file_exists path) (λ s g. g))
          (λ exists.
            Triple-if exists _ _
              (λ e.
                Triple-bind (λ existing s. G s × Holds store laws path existing s) _ _
                  (read-Triple store laws G stable path)
                  (λ existing.
                    Triple-bind
                      (λ doc s.
                        (G s × Holds store laws path existing s)
                        × (verify_release_with_key crypto forms existing key ≡ ok doc))
                      _ _
                      (Triple-weaken _ (λ e. G) _
                        (verified-Triple store laws G stable
                          {H = λ s. G s × Holds store laws path existing s} path existing key
                          (λ s p. p.0))
                        (λ s p. p) (λ a s p. p) (λ e s p. p))
                      (λ doc.
                        Triple-if (doc.deployment_set_id == id) (pure existing) (exit _)
                          (λ e.
                            Triple-pure existing
                              (λ s p. (p.0, (doc, p.1, eq_sound doc.deployment_set_id id e))))
                          (λ e. Triple-exit _ (λ s p. p.0.0)))))
              (λ e.
                Triple-bind (λ a s. G s × Holds store laws path proposed_bytes s) _ _
                  (write_immutable-Triple store laws key G stable path proposed_bytes 0o644
                    (release_path-IsJson store id) (release_path_apart store id))
                  (λ a. Triple-pure proposed_bytes (λ s p. (p, valid)))))

  -- The record, then the channel.
  record_and_move-Triple :
      (request : PromotionRequest) (current_id : Option Text) (id : Text) (bytes : List ℕ)
      (key_name : Text)
      → IsRelease store laws key id bytes
      → Triple
          (λ s. Sound s × Holds store laws (release_path store id) bytes s)
          (record_and_move store request current_id id bytes key_name key)
          (λ o s. Sound s × (o.status ≡ promoted) × IsPublished store laws key o s)
          (λ e. Sound)
  unfolding record_and_move record_bytes seal
  record_and_move-Triple request current_id id bytes key_name valid =
      let Placed : os.Machine → Type 0 =
        λ s. Sound s × Holds store laws (release_path store id) bytes s in
      let placed_stable : IsStable store laws Placed =
        both-IsStable store laws (IsSound-IsStable store laws key before) (
          Holds-IsStable store laws (release_path store id) bytes (release_path-IsJson store id)
            (release_path_apart store id)) in
      Triple-bind (λ latest s. Placed s) _ _
        (Triple-weaken _ (λ e. Placed) _ (latest_record-Triple store laws Placed placed_stable key)
          (λ s p. p) (λ a s p. p.0) (λ e s p. p.0))
        (λ latest.
          let generation = next_generation latest in
          let found = record_of store id current_id bytes request.published_at generation in
          let entry = record_bytes store found key_name key in
          let written : IsEntry store key id generation bytes entry = record {
            found = found;
            names = refl;
            counts = refl;
            digests = refl;
            signed = inr (key_name, refl);
          } in
          Triple-bind (λ a s. Placed s × Holds store laws (record_path store generation id) entry s)
            _ _
            (Triple-weaken _ (λ e. Placed) _
              (write_immutable-Triple store laws key Placed placed_stable
                (record_path store generation id) entry 0o644
                (record_path-IsJson store generation id) (record_path_apart store generation id))
              (λ s p. p) (λ a s p. p) (λ e s p. p.0))
            (λ a.
              Triple-bind (λ a s. Sound s × Follows store laws key id generation bytes entry s) _ _
                (Triple-weaken _ _ _
                  (write_channel-Triple store laws key before id generation bytes entry)
                  (λ s p. (p.0.0, (p.0.1, p.1, written))) (λ a s p. p) (λ e s p. p))
                (λ a. Triple-pure (promoted_to id current_id generation) (λ s p. (
                  p.0,
                  refl,
                  (found, bytes, entry, (refl, refl, refl, refl), (key_name, refl), valid, p.1),
                )))))

  -- The release, its record and the channel.
  publish_set-Triple :
      (request : PromotionRequest) (current_id : Option Text) (set : DeploymentSet)
      (key_name : Text)
      → Triple Sound
          (publish_set store request current_id set key_name key)
          (λ o s. Sound s × (o.status ≡ promoted) × IsPublished store laws key o s)
          (λ e. Sound)
  unfolding publish_set
  publish_set-Triple request current_id set key_name =
      Triple-bind (λ envelope. Sound) _ _ (Triple-or_exit _ _ (λ a e s p. p) (λ d e s p. p))
        (λ envelope.
          Triple-bind
            (λ proposed s.
              Sound s
              × (verify_release_with_key crypto forms (forms.envelopes.encode envelope) key
                  ≡ ok proposed))
            _ _ (Triple-or_exit _ _ (λ a e s p. (p, e)) (λ d e s p. p))
            (λ proposed. Triple-given _ (λ valid.
              Triple-bind
                (λ bytes s.
                  (Sound s
                    × Holds store laws (release_path store proposed.deployment_set_id) bytes s)
                  × IsRelease store laws key proposed.deployment_set_id bytes)
                _ _
                (place_release-Triple Sound (IsSound-IsStable store laws key before) proposed
                  (forms.envelopes.encode envelope) (proposed, valid, refl))
                (λ bytes. Triple-given _ (λ release.
                  record_and_move-Triple request current_id proposed.deployment_set_id bytes
                    key_name release)))))

  module _ (G : os.Machine → Type 0) (stable : IsStable store laws G) where
    Quiet : os.Machine → Type 0
    Quiet s = Sound s × G s

    Answers : PromotionOutcome → os.Machine → Type 0
    Answers o s = Sound s × Told store laws key G o.status o s

    Quiet-IsStable : IsStable store laws Quiet
    unfolding Quiet
    Quiet-IsStable = both-IsStable store laws (IsSound-IsStable store laws key before) stable

    base_accepted-Triple :
        (request : PromotionRequest) (current : Current)
        → Triple Quiet (base_accepted store request current key) (λ b. Quiet) (λ e. Quiet)
    unfolding base_accepted may_rebase
    base_accepted-Triple request current =
        Triple-if (same_text (id_of_current store current) request.expected_base) (pure true)
          (may_rebase store request current key) (λ e. Triple-pure true (λ s p. p))
          (λ e. rebase current)
      where
        rebase :
            (current : Current)
            → Triple Quiet (may_rebase store request current key) (λ b. Quiet) (λ e. Quiet)
        rebase none = Triple-pure false (λ s p. p)
        rebase (some (bytes, doc)) =
            Triple-if (is_full request) (pure false) _ (λ e. Triple-pure false (λ s p. p))
              (λ e.
                Triple-option request.expected_base (pure false) _
                  (λ e. Triple-pure false (λ s p. p))
                  (λ expected_id e.
                    Triple-bind (λ doc. Quiet) _ _
                      (read_release-Triple store laws Quiet Quiet-IsStable expected_id key)
                      (λ doc. Triple-pure _ (λ s p. p))))

    promote_from-Triple :
        (request : PromotionRequest) (current : Current) (key_name : Text)
        → Triple Quiet (promote_from store request current key_name key) Answers (λ e. Sound)
    unfolding promote_from Quiet Answers
    promote_from-Triple request current key_name =
        Triple-bind (λ accepted. Quiet) _ _
          (Triple-weaken _ (λ e. Quiet) _ (base_accepted-Triple request current) (λ s p. p)
            (λ a s p. p) (λ e s p. p.0))
          (λ accepted.
            Triple-if accepted _ _
              (λ e.
                Triple-option (composed_set request current) _ _ (λ e. Triple-pure _ (λ s p. p))
                  (λ set e.
                    Triple-weaken _ (λ e. Sound) _
                      (publish_set-Triple request (id_of_current store current) set key_name)
                      (λ s p. p.0)
                      (λ o s p.
                        (p.0, subst (λ status. Told store laws key G status o s) (sym p.1) p.2))
                      (λ e s p. p)))
              (λ e. Triple-pure _ (λ s p. p)))

    promote_valid-Triple :
        (request : PromotionRequest) (key_name : Text)
        → Triple Quiet (promote_valid store request key_name key) Answers (λ e. Sound)
    unfolding promote_valid Quiet Answers
    promote_valid-Triple request key_name =
        Triple-bind (λ current. Quiet) _ _
          (Triple-weaken _ (λ e. Quiet) _ (read_current-Triple store laws Quiet Quiet-IsStable key)
            (λ s p. p) (λ a s p. p) (λ e s p. p.0))
          (λ current.
            Triple-if _ _ _
              (λ e.
                Triple-bind (λ latest. Quiet) _ _
                  (Triple-weaken _ (λ e. Quiet) _
                    (latest_record-Triple store laws Quiet Quiet-IsStable key) (λ s p. p)
                    (λ a s p. p.0) (λ e s p. p.0))
                  (λ latest.
                    Triple-pure (unchanged_at (id_of_current store current) latest) (λ s p. p)))
              (λ e. promote_from-Triple request current key_name))

    current_id-Triple : Triple Quiet (current_id_with_key store key) (λ current. Quiet) (λ e. Quiet)
    unfolding current_id_with_key
    current_id-Triple =
        Triple-bind (λ current. Quiet) _ _ (read_current-Triple store laws Quiet Quiet-IsStable key)
          (λ current. Triple-pure (id_of_current store current) (λ s p. p))

    -- After recovery.
    pub answer-Triple :
        (request : PromotionRequest) (key_name : Text) (problems : List PromotionDetail)
        → Triple
            (λ s. Sound s × G s)
            (elim problems [
              | [] ↦ promote_valid store request key_name key
              | p ∷ ps ↦ current_id_with_key store key >>= λ current_id.
                  pure (rejected_with current_id (p ∷ ps))
            ])
            (λ o s. Sound s × Told store laws key G o.status o s)
            (λ e. Sound)
    unfolding Quiet Answers
    answer-Triple request key_name [] = promote_valid-Triple request key_name
    answer-Triple request key_name (p ∷ ps) =
        Triple-bind (λ current_id. Quiet) _ _
          (Triple-weaken _ (λ e. Quiet) _ current_id-Triple (λ s p. p) (λ a s p. p) (λ e s p. p.0))
          (λ current_id. Triple-pure (rejected_with current_id (p ∷ ps)) (λ s p. p))
