-- ===== src/PromoteCommand/Terminal.antt =====
-- The theorem on `promote` of src/promote.rs.
use nixdeploy_corbet_ch.World.Triple.{
  Ends, Triple, Triple-pure, Triple-act, Triple-or_exit, Triple-bind, Triple-with_error,
  Triple-weaken, Triple-given,
}
use nixdeploy_corbet_ch.World.Files.{Contents, Same, Apart, FileLaws, IsRead}
use nixdeploy_corbet_ch.World.{FilePath, World, with_error}
use nixdeploy_corbet_ch.Store.Promote.{promote}
use nixdeploy_corbet_ch.AtomicFile.{temp_path}
use nixdeploy_corbet_ch.AtomicFile.Whole.{IsWhole, write_atomic-Triple}
use nixdeploy_corbet_ch.Store.{PromotionRequest, PromotionOutcome, ReleaseStore, channel_path}
use nixdeploy_corbet_ch.Store.Kept.{Same-IsQuiet}
use nixdeploy_corbet_ch.Store.Backed.{IsJournaled, IsSound, IsSound-IsStable}
use nixdeploy_corbet_ch.Store.Settled.{Told}
use nixdeploy_corbet_ch.Store.Promoted.{IsIdle, promote_keeps}
use nixdeploy_corbet_ch.Publish.{path_of}
use nixdeploy_corbet_ch.PromoteCommand.{
  PromoteArgs, PromotionResult, not_promoted, Promoter, Promote, store_at, input_text, read_key,
  result_of, result_bytes, write_result, promote_command,
}
use nixdeploy_corbet_ch.Trust.{parse_signing_key}
use nixdeploy_corbet_ch.Base.{ok, ℕ, ◌≡◌, refl, sym, subst, ◌∙◌, ◌⊎◌, inl, inr, []}
use nixdeploy_corbet_ch.Text.{Text}

module _ (promoter : Promoter) (laws : FileLaws promoter.os) where
  open laws use {files}
  open promoter use {os, crypto}

  module _ (before : Contents) where
    abbrev Unchanged : os.Machine → Type 0
    Unchanged s = Same before (files s)

    input_text-Triple :
        (path : Text)
        → Triple Unchanged
            (input_text promoter path)
            (λ text s. Unchanged s × IsRead laws before (path_of path) text)
            (λ e. Unchanged)
    unfolding input_text
    input_text-Triple path =
        Triple-bind
          (λ r s.
            Unchanged s
            × ((u : os.Machine) × Unchanged u × ((os.read_to_string (path_of path) u).0 ≡ r)))
          _ _
          (Triple-act (os.read_to_string (path_of path)) (λ r. [])
            (λ s g. (λ q. laws.read_to_string_same (path_of path) s q ∙ g q, (s, g, refl))))
          (λ r. Triple-or_exit _ r (λ a e s g. (g.0, (g.1.0, g.1.1, g.1.2 ∙ e))) (λ d e s g. g.0))

    -- The file's text, as it was read, is this key with its name.
    abbrev pub IsKey : Text → Text → crypto.SigningKey → Type 0
    IsKey path name key =
        (text : Text) × IsRead laws before (path_of path) text
        × (parse_signing_key crypto text ≡ ok (name, key))

    read_key-Triple :
        (path : Text)
        → Triple Unchanged
            (read_key promoter path)
            (λ named s. Unchanged s × IsKey path named.0 named.1)
            (λ e. Unchanged)
    unfolding read_key
    read_key-Triple path =
        Triple-bind (λ text s. Unchanged s × IsRead laws before (path_of path) text) _ _
          (input_text-Triple path)
          (λ text. Triple-or_exit _ _ (λ a e s g. (g.0, (text, g.1, e))) (λ d e s g. g.0))

  module _ (args : PromoteArgs) (m : os.Machine) where
    abbrev store : ReleaseStore
    store = store_at promoter args.origin

    abbrev result_path : FilePath
    result_path = path_of args.result_file

    -- The journal, the releases and the channel are in order for the key of the key file.
    abbrev IsKept : Text → crypto.SigningKey → os.Machine → Type 0
    IsKept name key t =
        IsKey (files m) args.signing_key_file name key × IsSound store laws key (files m) t

    -- What a promotion left behind, by its answer.
    abbrev pub IsPromotion : PromotionOutcome → os.Machine → Type 0
    IsPromotion outcome t =
        (name : Text) × (key : crypto.SigningKey) × IsKept name key t
        × Told store laws key (IsIdle store laws key (files m (channel_path store))) outcome.status
            outcome t

    -- The result of that promotion, in the result file: no other file has changed since but for the
    -- temporary one.
    abbrev pub IsTerminal : PromotionResult → os.Machine → Type 0
    IsTerminal result s =
        (result.request_id ≡ args.request_id)
        × ((t : os.Machine) × IsPromotion result.outcome t
            × IsWhole (files t) (temp_path os.process_id result_path) result_path
                (result_bytes promoter result) (files s))

    -- No file has changed, or the store is in order, but for what the temporary file of the result may
    -- have done.
    abbrev pub IsUndone : os.Machine → Type 0
    IsUndone s =
        (t : os.Machine) × Apart (temp_path os.process_id result_path) (files t) (files s)
        × (Same (files m) (files t)
            ⊎ ((name : Text) × (key : crypto.SigningKey) × IsKept name key t))

    -- What is asked of the store that the command begins on.
    abbrev pub IsStart : Type 0
    IsStart =
        (name : Text) (key : crypto.SigningKey)
        → IsKey (files m) args.signing_key_file name key
        → IsJournaled store laws key m

    write_result-Triple :
        (result : PromotionResult)
        → Triple
            (IsPromotion result.outcome)
            (write_result promoter args result)
            (λ r s.
              (r ≡ result)
              × ((t : os.Machine) × IsPromotion result.outcome t
                  × IsWhole
                      (files t)
                      (temp_path os.process_id result_path)
                      result_path
                      (result_bytes promoter result)
                      (files s)))
            (λ e. IsUndone)
    unfolding write_result
    write_result-Triple result =
        Triple-bind
          (λ a s.
            (t : os.Machine) × IsPromotion result.outcome t
            × IsWhole (files t) (temp_path os.process_id result_path) result_path
                (result_bytes promoter result) (files s))
          _ _
          (Triple-with_error _ _ (
            write_atomic-Triple laws result_path (result_bytes promoter result) 0o644
              (λ s t h w. (s, h, w)) (λ s t h a. (s, a, inr (h.0, h.1, h.2)))))
          (λ a. Triple-pure result (λ s h. (refl, h)))

    Unchanged-IsUndone : (s : os.Machine) → Same (files m) (files s) → IsUndone s
    Unchanged-IsUndone s h = (s, λ q n. refl, inl h)

    promoted-Triple :
        (request : PromotionRequest) (key_name : Text) (key : crypto.SigningKey)
        → IsStart
        → IsKey (files m) args.signing_key_file key_name key
        → Triple
            (Unchanged (files m))
            (with_error not_promoted (promote store request key_name key))
            IsPromotion
            (λ e. IsUndone)
    promoted-Triple request key_name key begun known = Triple-with_error _ _ (
        Triple-weaken _ _ _
          (promote_keeps store laws key (files m) (files m (channel_path store)) request key_name)
          (λ s p. (
            IsSound-IsStable store laws key (files m) m s (Same-IsQuiet store p)
                (begun key_name key known, λ q j n b e. e),
            p (channel_path store),
          ))
          (λ o s p. (key_name, key, (known, p.0), p.1))
          (λ e s p. (s, λ q n. refl, inr (key_name, key, (known, p)))))

    reading-IsUndone :
        {A : Type 0} (Q : A → os.Machine → Type 0) (c : Promote promoter A)
        → Triple (Unchanged (files m)) c Q (λ e. Unchanged (files m))
        → Triple (Unchanged (files m)) c Q (λ e. IsUndone)
    reading-IsUndone Q c h =
        Triple-weaken _ _ c h (λ s p. p) (λ a s p. p) (λ e s p. Unchanged-IsUndone s p)

    promote_command-Triple :
        (now_unix : ℕ)
        → IsStart
        → Triple
            (Unchanged (files m))
            (promote_command promoter args now_unix)
            IsTerminal
            (λ e. IsUndone)
    unfolding promote_command
    promote_command-Triple now_unix begun =
        Triple-bind (λ a s. Unchanged (files m) s × _) _ _
          (reading-IsUndone _ _ (input_text-Triple (files m) args.targets_file))
          (λ targets_text.
            Triple-bind (λ a. Unchanged (files m)) _ _
              (Triple-or_exit _ _ (λ a e s p. p.0) (λ d e s p. Unchanged-IsUndone s p.0))
              (λ candidates.
                Triple-bind
                  (λ named s.
                    Unchanged (files m) s × IsKey (files m) args.signing_key_file named.0 named.1)
                  _ _ (reading-IsUndone _ _ (read_key-Triple (files m) args.signing_key_file))
                  (λ named_key. Triple-given _ (λ known.
                    Triple-bind IsPromotion _ _
                      (promoted-Triple _ named_key.0 named_key.1 begun known)
                      (λ outcome.
                        Triple-weaken _ (λ e. IsUndone) _
                          (write_result-Triple (result_of promoter args outcome)) (λ s p. p)
                          (λ r s p. subst (λ x. IsTerminal x s) (sym p.0) (refl, p.1))
                          (λ e s p. p))))))

  -- A promotion command on a store that is in order for the key of its key file, and that succeeds, has
  -- put the result that it answers, with a line feed, into the result file, after a promotion with the
  -- key read from that file that left the store as the result's outcome tells, and has changed no other
  -- file since but the temporary one. One that fails has changed no file, or leaves the journal, the
  -- releases and the channel in order for that key, up to that temporary file, wherever it was cut off.
  pub promote_command-IsTerminal :
      (args : PromoteArgs) (now_unix : ℕ) (w : World os)
      → IsStart args w.machine
      → Ends
          (λ result s. IsTerminal args w.machine result s)
          (λ e s. IsUndone args w.machine s)
          (promote_command promoter args now_unix w).0
          (promote_command promoter args now_unix w).1.machine
  promote_command-IsTerminal args now_unix w h =
      (promote_command-Triple args w.machine now_unix h).at w (λ q. refl)
