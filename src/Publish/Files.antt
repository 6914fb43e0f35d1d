-- ===== src/Publish/Files.antt =====
-- The theorem on `publish` of src/publish.rs.

use nixdeploy_corbet_ch.World.Triple.{
  Ends, Triple, Triple-pure, Triple-bind, Triple-with_error, Triple-weaken, Triple-given,
}
use nixdeploy_corbet_ch.World.Files.{Contents, Same, FileLaws}
use nixdeploy_corbet_ch.AtomicFile.Whole.{temp_path_apart, write_atomic-Triple}
use nixdeploy_corbet_ch.Trust.{sign_detached}
use nixdeploy_corbet_ch.World.{World}
use nixdeploy_corbet_ch.Publish.{PublishArgs, Published, signature_path, path_of}
use nixdeploy_corbet_ch.Publish.Run.{
  Publisher, Prepared, write_manifest, published, built_at_or, publish,
}
use nixdeploy_corbet_ch.Publish.Paths.{signature_apart, signature_temp_apart, manifest_temp_apart}
use nixdeploy_corbet_ch.Publish.Written.{IsComposed, prepare_document-Triple}
use nixdeploy_corbet_ch.Base.{ℕ, ◌≡◌, refl, sym, ◌∙◌, Option, some, List, ◌++◌}
use nixdeploy_corbet_ch.Text.{Text, codes, as_bytes}

module _ (publisher : Publisher) (laws : FileLaws publisher.os) where
  open laws use {files}
  open publisher use {os, crypto}

  abbrev pub Out : Text → Option (List ℕ) → os.Machine → Type 0
  Out out c s = files s (path_of out) ≡ c

  -- Both files are in place.
  abbrev pub Both : Text → List ℕ → Text → os.Machine → Type 0
  Both out body signature s =
      Out out (some body) s × Out (signature_path out) (some (as_bytes (signature ++ codes "\n"))) s

  write_manifest-Triple :
      (out : Text) (body : List ℕ) (signature : Text) (c : Option (List ℕ))
      → Triple
          (Out out c)
          (write_manifest publisher out body signature)
          (λ a. Both out body signature)
          (λ e. Out out c)
  unfolding write_manifest
  write_manifest-Triple out body signature c =
      let sig = signature_path out in
      let signed = as_bytes (signature ++ codes "\n") in
      Triple-bind (λ a s. Out out c s × Out sig (some signed) s) _ _
        (Triple-with_error _ _ (
          write_atomic-Triple laws (path_of sig) signed 0o644
            (λ s t p h. (
              h.others (path_of out) (λ e. signature_temp_apart os.process_id out (sym e))
                    (λ e. signature_apart out (sym e))
                  ∙ p,
              h.written,
            ))
            (λ s t p h. h (path_of out) (λ e. signature_temp_apart os.process_id out (sym e)) ∙ p)))
        (λ a. Triple-with_error _ _ (
          write_atomic-Triple laws (path_of out) body 0o644
            (λ s t p h. (
              h.written,
              h.others (path_of sig) (λ e. manifest_temp_apart os.process_id out (sym e))
                    (signature_apart out)
                  ∙ p.1,
            ))
            (λ s t p h.
              h (path_of out) (λ e. temp_path_apart os.process_id (path_of out) (sym e)) ∙ p.0)))

  -- What a publication that begins on these files answers and has written.
  abbrev pub IsPublication : Contents → PublishArgs → ℕ → Published → os.Machine → Type 0
  IsPublication before args now_unix answer s =
      (p : Prepared crypto.SigningKey) × IsComposed publisher laws before args
        (built_at_or publisher args.built_at now_unix) p
      × (answer ≡ published publisher args p)
      × Both args.out (publisher.manifests.encode p.document)
          (sign_detached crypto p.key_name p.key (publisher.manifests.encode p.document)) s

  publish-Triple :
      (before : Contents) (args : PublishArgs) (now_unix : ℕ)
      → Triple
          (λ s. Same before (files s))
          (publish publisher args now_unix)
          (λ answer. IsPublication before args now_unix answer)
          (λ e. Out args.out (before (path_of args.out)))
  unfolding publish
  publish-Triple before args now_unix =
      let built_at = built_at_or publisher args.built_at now_unix in
      Triple-bind (λ p s. Same before (files s) × IsComposed publisher laws before args built_at p)
        _ _
        (Triple-weaken _ _ _ (prepare_document-Triple publisher laws before args built_at)
          (λ s h. h) (λ p s h. h) (λ e s h. h (path_of args.out)))
        (λ p. Triple-given _ (λ composed.
          let body = publisher.manifests.encode p.document in
          let signature = sign_detached crypto p.key_name p.key body in
          Triple-bind (λ a. Both args.out body signature) _ _
            (Triple-weaken _ _ _
              (write_manifest-Triple args.out body signature (before (path_of args.out)))
              (λ s h. h (path_of args.out)) (λ a s h. h) (λ e s h. h))
            (λ a. Triple-pure (published publisher args p) (λ s both. (p, composed, refl, both)))))

  -- A publication that succeeds has put a valid document, signed with the key that was read from the key
  -- file, into the manifest's file, and its detached signature, with a line feed, beside it, and answers
  -- what it wrote. The document is the selected leaves of the candidates that were read from the targets
  -- file, put into a base: nothing without a base manifest, else the hosts of the valid document that
  -- was read from it and that verifies, with the signature read from beside it, under the same key. A
  -- publication that fails, wherever that is, leaves the manifest's file as it was.
  pub publish-IsPublication :
      (args : PublishArgs) (now_unix : ℕ) (w : World os)
      → Ends
          (λ answer. IsPublication (files w.machine) args now_unix answer)
          (λ e. Out args.out (files w.machine (path_of args.out)))
          (publish publisher args now_unix w).0
          (publish publisher args now_unix w).1.machine
  publish-IsPublication args now_unix w =
      (publish-Triple (files w.machine) args now_unix).at w (λ q. refl)
