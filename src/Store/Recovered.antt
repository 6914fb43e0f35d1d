-- ===== src/Store/Recovered.antt =====
-- `recover_locked` of src/release.rs as a computation.
use nixdeploy_corbet_ch.World.{
  FilePath, FileRead, contents, no_such_file, unreadable, ◌>>=◌, pure, or_exit,
}
use nixdeploy_corbet_ch.World.Triple.{
  Triple, Triple-pure, Triple-exit, Triple-or_exit, Triple-if, Triple-bind, Triple-weaken,
  Triple-given,
}
use nixdeploy_corbet_ch.World.Files.{Contents, Reads, FileLaws}
use nixdeploy_corbet_ch.Release.{ReleaseDocument, PromotionRecord}
use nixdeploy_corbet_ch.Release.Sets.{digest_id}
use nixdeploy_corbet_ch.Release.Envelope.{verify_release_with_key}
use nixdeploy_corbet_ch.Store.{
  file, TrustFault, trust, same_text, ReleaseStore, channel_path, release_path, verified,
  write_channel,
}
use nixdeploy_corbet_ch.Store.Records.{require}
use nixdeploy_corbet_ch.Store.Recover.{
  matches_record, needs_repair, repair, recover_to, recover_locked,
}
use nixdeploy_corbet_ch.Store.Quiet.{IsStable, Holds, both-IsStable, read_act, read-Triple}
use nixdeploy_corbet_ch.Store.Chain.{require_ok}
use nixdeploy_corbet_ch.Store.Latest.{Recorded, Recorded-IsStable, latest_record-Triple}
use nixdeploy_corbet_ch.Store.Backed.{
  Stands, Stands-Keeps, Follows, IsSound, IsSound-IsStable, write_channel-Triple,
}
use nixdeploy_corbet_ch.Store.Settled.{IsReleaseOf, Recovers}
use nixdeploy_corbet_ch.Base.{
  ok, ℕ, ◌≡◌, refl, ap, ◌∙◌, inl, Bool, true, false, not, Option, none, some, List, arith,
}
use nixdeploy_corbet_ch.Text.{Text, ◌==◌}
use nixdeploy_corbet_ch.Text.Laws.{eq_sound}

same_text-eq : (a b : Option Text) → same_text a b ≡ true → a ≡ b
unfolding same_text
same_text-eq none none h = refl
same_text-eq none (some b) h = cc
same_text-eq (some a) none h = cc
same_text-eq (some a) (some b) h = ap (λ t. some t) (eq_sound a b h)

module _ (store : ReleaseStore) (laws : FileLaws store.os) (before : Contents)
    (key : store.crypto.SigningKey) where
  open laws use {files}
  open store use {os, crypto, forms}

  checked :
      {P : os.Machine → Type 0} (path : FilePath) (b : Bool) (fault : TrustFault)
      → Triple {os = os} P
          (or_exit (λ e. trust (file path) e) (require b fault))
          (λ a s. P s × (b ≡ true))
          (λ e. P)
  checked path b fault = Triple-or_exit _ _ (λ a e s p. (p, require_ok b fault e)) (λ d e s p. p)

  matches_record-Triple :
      {P : os.Machine → Type 0} (entry : PromotionRecord) (bytes : List ℕ)
      → Triple P
          (matches_record store entry bytes key)
          (λ doc s. P s × IsReleaseOf store laws key entry bytes doc)
          (λ e. P)
  unfolding matches_record verified
  matches_record-Triple {P} entry bytes =
      let path = release_path store entry.deployment_set_id in
      Triple-bind (λ a s. P s × _) _ _ (checked path _ _)
        (λ a. Triple-given _ (λ same.
          Triple-bind (λ doc s. P s × (verify_release_with_key crypto forms bytes key ≡ ok doc)) _ _
            (Triple-or_exit _ _ (λ doc e s p. (p, e)) (λ d e s p. p))
            (λ doc. Triple-given _ (λ read_as.
              Triple-bind (λ a s. P s × _) _ _ (checked path _ _)
                (λ a. Triple-given _ (λ named.
                  Triple-bind (λ a s. P s × _) _ _ (checked path _ _)
                    (λ a. Triple-given _ (λ continued. Triple-pure doc (λ s p. (
                      p,
                      (
                        eq_sound (digest_id crypto bytes) entry.release_digest same,
                        read_as,
                        eq_sound doc.deployment_set_id entry.deployment_set_id named,
                        same_text-eq doc.parent_deployment_set_id entry.previous_deployment_set_id
                            continued,
                      ),
                    ))))))))))

  needs_repair-Triple :
      {P : os.Machine → Type 0} (bytes : List ℕ) (r : FileRead)
      → Triple
          (λ s. P s × Reads r (files s (channel_path store)))
          (needs_repair store bytes r)
          (λ needed s. P s × (needed ≡ false → Holds store laws (channel_path store) bytes s))
          (λ e. P)
  unfolding needs_repair
  needs_repair-Triple bytes (contents current) =
      Triple-pure (not (current == bytes))
        (λ s p. (p.0, λ e. p.1 ∙ ap (λ b. some b) (eq_sound current bytes (ground arith))))
  needs_repair-Triple bytes no_such_file = Triple-pure true (λ s p. (p.0, λ e. absurd cc))
  needs_repair-Triple bytes (unreadable e) = Triple-exit _ (λ s p. p.0)

  -- The channel is made to follow a release that stands and is recorded.
  repair-Triple :
      (id : Text) (generation : ℕ) (bytes entry : List ℕ)
      → Triple
          (λ s. IsSound store laws key before s × Stands store laws key id generation bytes entry s)
          (repair store bytes)
          (λ a s.
            IsSound store laws key before s × Follows store laws key id generation bytes entry s)
          (λ e. IsSound store laws key before)
  unfolding repair
  repair-Triple id generation bytes entry =
      let Ready : os.Machine → Type 0 =
        λ s. IsSound store laws key before s × Stands store laws key id generation bytes entry s in
      Triple-bind (λ r s. Ready s × Reads r (files s (channel_path store))) _ _
        (read_act store laws Ready ready_stable (channel_path store))
        (λ r.
          Triple-bind
            (λ needed s. Ready s × (needed ≡ false → Holds store laws (channel_path store) bytes s))
            _ _
            (Triple-weaken _ (λ e. Ready) _ (needs_repair-Triple bytes r) (λ s p. p) (λ a s p. p)
              (λ e s p. p.0))
            (λ needed.
              Triple-if needed (write_channel store bytes) (pure tt)
                (λ e.
                  Triple-weaken
                    (λ a s.
                      IsSound store laws key before s
                      × Follows store laws key id generation bytes entry s)
                    (λ e. IsSound store laws key before) _
                    (write_channel-Triple store laws key before id generation bytes entry)
                    (λ s p. p.0) (λ a s p. p) (λ e s p. p))
                (λ e. Triple-pure tt (λ s p. (p.0.0, (p.0.1, p.1 e))))))
    where
      ready_stable :
          IsStable store laws (λ s.
            IsSound store laws key before s × Stands store laws key id generation bytes entry s)
      ready_stable s t q p = (
        IsSound-IsStable store laws key before s t q p.0,
        Stands-Keeps store laws key id generation bytes entry s t q.0 p.1,
      )

  recover_to-Triple :
      (G : os.Machine → Type 0) (stable : IsStable store laws G) (latest : Option PromotionRecord)
      → Triple
          (λ s. (IsSound store laws key before s × G s) × Recorded store laws key latest s)
          (recover_to store key latest)
          (λ o s. IsSound store laws key before s × Recovers store laws key G o s)
          (λ e. IsSound store laws key before)
  unfolding recover_to
  recover_to-Triple G stable none = Triple-pure none (λ s p. p.0)
  recover_to-Triple G stable (some found) =
      Triple-bind
        (λ bytes s.
          (IsSound store laws key before s × Recorded store laws key (some found) s)
          × Holds store laws (release_path store found.deployment_set_id) bytes s)
        _ _
        (Triple-weaken _
          (λ e s. IsSound store laws key before s × Recorded store laws key (some found) s) _
          (read-Triple store laws
            (λ s. IsSound store laws key before s × Recorded store laws key (some found) s)
            (both-IsStable store laws (IsSound-IsStable store laws key before)
              (Recorded-IsStable store laws key (some found)))
            (release_path store found.deployment_set_id))
          (λ s p. (p.0.0, p.1)) (λ a s p. p) (λ e s p. p.0))
        (λ bytes.
          Triple-bind
            (λ doc s.
              ((IsSound store laws key before s × Recorded store laws key (some found) s)
                × Holds store laws (release_path store found.deployment_set_id) bytes s)
              × IsReleaseOf store laws key found bytes doc)
            _ _
            (Triple-weaken _ _ _ (matches_record-Triple found bytes) (λ s p. p) (λ a s p. p)
              (λ e s p. p.0.0))
            (λ doc. Triple-given _ (λ matching. settle bytes doc matching)))
    where
      settle :
          (bytes : List ℕ) (doc : ReleaseDocument)
          → IsReleaseOf store laws key found bytes doc
          → Triple
              (λ s.
                (IsSound store laws key before s × Recorded store laws key (some found) s)
                × Holds store laws (release_path store found.deployment_set_id) bytes s)
              (repair store bytes >>= λ repaired. pure (some found.deployment_set_id))
              (λ o s. IsSound store laws key before s × Recovers store laws key G o s)
              (λ e. IsSound store laws key before)
      settle bytes doc matching = record {
        at = λ w p.
            (Triple-bind
                (λ a s.
                  IsSound store laws key before s
                  × Follows store laws key found.deployment_set_id found.generation bytes p.0.1.0 s)
                (repair store bytes) (λ repaired. pure (some found.deployment_set_id))
                (repair-Triple found.deployment_set_id found.generation bytes p.0.1.0)
                (λ a.
                  Triple-pure (some found.deployment_set_id)
                    (λ s f. (f.0, (found, bytes, doc, p.0.1.0, refl, p.0.1.2, matching, f.1))))).at
              w
              (
                p.0.0,
                (
                  p.1,
                  p.0.1.1,
                  record {
                    found = found;
                    names = refl;
                    counts = refl;
                    digests = matching.0;
                    signed = inl p.0.1.2;
                  },
                ),
              );
      }

  pub recover_locked-Triple :
      (G : os.Machine → Type 0) (stable : IsStable store laws G)
      → Triple
          (λ s. IsSound store laws key before s × G s)
          (recover_locked store key)
          (λ o s. IsSound store laws key before s × Recovers store laws key G o s)
          (λ e. IsSound store laws key before)
  unfolding recover_locked
  recover_locked-Triple G stable =
      Triple-bind (λ o s. (IsSound store laws key before s × G s) × Recorded store laws key o s) _ _
        (Triple-weaken _ (λ e s. IsSound store laws key before s × G s) _
          (latest_record-Triple store laws (λ s. IsSound store laws key before s × G s)
            (both-IsStable store laws (IsSound-IsStable store laws key before) stable) key)
          (λ s p. p) (λ a s p. p) (λ e s p. p.0))
        (recover_to-Triple G stable)
