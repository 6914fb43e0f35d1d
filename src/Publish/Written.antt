-- ===== src/Publish/Written.antt =====
-- What `publish` of src/publish.rs leaves in its two files.
use nixdeploy_corbet_ch.World.{or_exit}
use nixdeploy_corbet_ch.World.Triple.{
  Triple, Triple-pure, Triple-act, Triple-ask, Triple-or_exit, Triple-bind, Triple-given,
}
use nixdeploy_corbet_ch.World.Files.{Contents, Same, FileLaws, IsRead}
use nixdeploy_corbet_ch.Manifest.{
  supported_schema_version, HostEntry, ManifestDoc, Problem, validate,
}
use nixdeploy_corbet_ch.Release.Selection.{SelectionProblem, select_targets, compose_hosts}
use nixdeploy_corbet_ch.Publish.{
  PublishArgs, PublishProblem, selection_problem, document_problem, base_problem, PublishError,
  invalid_manifest, PublishWarning, signature_path, path_of,
}
use nixdeploy_corbet_ch.Publish.Run.{
  Publisher, new_document, refuse_problems, select_for, Prepared, read_text, check_base_version,
  read_base, merge_base, finish_document, prepare_document,
}
use nixdeploy_corbet_ch.Base.{
  Result, ok, err, map_err, ok_or, ◌≡◌, refl, ap, ◌∙◌, Option, none, some, List, [], ◌∷◌, map,
  arith,
}
use nixdeploy_corbet_ch.Text.{Text, as_bytes, trim}
use nixdeploy_corbet_ch.Trust.{verify_with_signing_key, parse_signing_key}
use nixdeploy_corbet_ch.Map.{BTreeMap, PairSet}

refuse_problems-none :
    (tag : Problem → PublishProblem) (ps : List Problem) (a : Unit {0})
    → refuse_problems tag ps ≡ ok a
    → ps ≡ []
unfolding refuse_problems
refuse_problems-none tag [] a e = refl
refuse_problems-none tag (p ∷ ps) a e = absurd cc

select_for-selected :
    (args : PublishArgs) (candidates : BTreeMap HostEntry) (selected : PairSet)
    → select_for args candidates ≡ ok selected
    → select_targets candidates args.hosts args.planes ≡ ok selected
unfolding select_for
select_for-selected args candidates selected e =
    kept (select_targets candidates args.hosts args.planes) e
  where
    kept :
        (r : Result PairSet (List SelectionProblem))
        → map_err (λ problems. invalid_manifest (map selection_problem problems)) r ≡ ok selected
        → r ≡ ok selected
    kept (ok s) e = cc
    kept (err d) e = absurd cc

ok_or-some : {A D : Type 0} (d : D) (o : Option A) (a : A) → ok_or d o ≡ ok a → o ≡ some a
ok_or-some d none a e = absurd cc
ok_or-some d (some b) a e = cc

check_base_version-ok :
    (publisher : Publisher) (base : ManifestDoc) (a : Unit {0})
    → check_base_version publisher base ≡ ok a
    → base.version ≡ supported_schema_version
unfolding check_base_version
check_base_version-ok publisher base a e = ground (arith, e)

-- The document is valid, and it is the candidates' selected leaves put into a base, which
-- is empty where there is no base manifest.
pub record IsPrepared {K : Type 0} (args : PublishArgs) (built_at : Text) (p : Prepared K)
    : Type 0 where
  pub candidates : BTreeMap HostEntry
  pub base : BTreeMap HostEntry
  pub selected_by : select_targets candidates args.hosts args.planes ≡ ok p.selected
  pub merged :
      p.document ≡ new_document args.revision built_at (compose_hosts base candidates p.selected)
  pub from_nothing : args.base_manifest ≡ none → base ≡ []
  pub valid : validate p.document ≡ []

module _ (publisher : Publisher) (laws : FileLaws publisher.os) where
  open laws use {files}
  open publisher use {os, crypto}

  module _ (before : Contents) where
    abbrev Unchanged : os.Machine → Type 0
    Unchanged s = Same before (files s)

    -- The base that the document is put into: nothing without a base manifest, else the hosts of the
    -- document that was read, whose signature beside it verifies with the key.
    abbrev pub IsBase : Option Text → crypto.SigningKey → BTreeMap HostEntry → Type 0
    IsBase none key hosts = hosts ≡ []
    IsBase (some path) key hosts =
        (text : Text) × (signature : Text) × (base : ManifestDoc) × IsRead laws before
          (path_of path) text
        × IsRead laws before (path_of (signature_path path)) signature
        × (verify_with_signing_key crypto key (as_bytes text) (trim signature) ≡ ok tt)
        × (publisher.manifests.decode (as_bytes text) ≡ some base)
        × (base.version ≡ supported_schema_version)
        × (validate base ≡ [])
        × (hosts ≡ base.hosts)

    -- The candidates are those of the targets file, the key that of the key file, and the base that of
    -- the base manifest.
    pub record IsSourced (args : PublishArgs) (key_name : Text) (key : crypto.SigningKey)
        (candidates base : BTreeMap HostEntry) : Type 0 where
      pub targets_text : Text
      pub targets_read : IsRead laws before (path_of args.targets_file) targets_text
      pub decoded : publisher.candidates.decode (as_bytes targets_text) ≡ some candidates
      pub key_text : Text
      pub key_read : IsRead laws before (path_of args.signing_key_file) key_text
      pub key_parsed : parse_signing_key crypto key_text ≡ ok (key_name, key)
      pub based : IsBase args.base_manifest key base

    -- The document is valid, and it is the candidates' selected leaves put into the base.
    abbrev pub IsComposed : PublishArgs → Text → Prepared crypto.SigningKey → Type 0
    IsComposed args built_at p =
        (prepared : IsPrepared args built_at p) × IsSourced args p.key_name p.key
          prepared.candidates prepared.base

    read_text-Triple :
        (path : Text)
        → Triple Unchanged
            (read_text publisher path)
            (λ text s. Unchanged s × IsRead laws before (path_of path) text)
            (λ e. Unchanged)
    unfolding read_text
    read_text-Triple path =
        Triple-bind
          (λ r s.
            Unchanged s
            × ((u : os.Machine) × Unchanged u × ((os.read_to_string (path_of path) u).0 ≡ r)))
          _ _
          (Triple-act (os.read_to_string (path_of path)) (λ r. [])
            (λ s g. (λ q. laws.read_to_string_same (path_of path) s q ∙ g q, (s, g, refl))))
          (λ r. Triple-or_exit _ r (λ a e s g. (g.0, (g.1.0, g.1.1, g.1.2 ∙ e))) (λ d e s g. g.0))

    passes_through :
        {A D : Type 0} (f : D → PublishError) (r : Result A D)
        → Triple {os = os} Unchanged
            (or_exit f r)
            (λ a s. Unchanged s × (r ≡ ok a))
            (λ e. Unchanged)
    passes_through f r = Triple-or_exit _ r (λ a e s g. (g, e)) (λ d e s g. g)

    read_base-Triple :
        (path : Text) (key : crypto.SigningKey)
        → Triple Unchanged
            (read_base publisher path key)
            (λ base s. Unchanged s × IsBase (some path) key base.hosts)
            (λ e. Unchanged)
    unfolding read_base
    read_base-Triple path key =
        Triple-bind (λ a s. Unchanged s × _) _ _ (read_text-Triple path)
          (λ base_text. Triple-given _ (λ text_read.
            Triple-bind (λ a s. Unchanged s × _) _ _ (read_text-Triple (signature_path path))
              (λ signature_text. Triple-given _ (λ signature_read.
                Triple-bind (λ a s. Unchanged s × _) _ _ (passes_through _ _)
                  (λ a. Triple-given _ (λ verified.
                    Triple-bind (λ a s. Unchanged s × _) _ _ (passes_through _ _)
                      (λ base. Triple-given _ (λ decoded.
                        Triple-bind (λ a s. Unchanged s × _) _ _ (passes_through _ _)
                          (λ b. Triple-given _ (λ versioned.
                            Triple-bind (λ a s. Unchanged s × _) _ _ (passes_through _ _)
                              (λ c. Triple-pure base (λ s p. (
                                p.0,
                                (
                                  base_text,
                                  signature_text,
                                  base,
                                  text_read,
                                  signature_read,
                                  verified,
                                  ok_or-some _ _ base decoded,
                                  check_base_version-ok publisher base b versioned,
                                  refuse_problems-none base_problem (validate base) c p.1,
                                  refl,
                                ),
                              )))))))))))))

    merge_base-Triple :
        (base_path : Option Text) (candidates : BTreeMap HostEntry) (selected : PairSet)
        (key : crypto.SigningKey)
        → Triple Unchanged
            (merge_base publisher base_path candidates selected key)
            (λ hosts s.
              Unchanged s
              × ((base : BTreeMap HostEntry) × (hosts ≡ compose_hosts base candidates selected)
                  × IsBase base_path key base))
            (λ e. Unchanged)
    unfolding merge_base
    merge_base-Triple none candidates selected key = Triple-pure _ (λ s g. (g, ([], refl, refl)))
    merge_base-Triple (some path) candidates selected key =
        Triple-bind (λ base s. Unchanged s × IsBase (some path) key base.hosts) _ _
          (read_base-Triple path key)
          (λ base. Triple-pure _ (λ s g. (g.0, (base.hosts, refl, g.1))))

    from_nothing_lem :
        (path : Option Text) (key : crypto.SigningKey) (base : BTreeMap HostEntry)
        → IsBase path key base
        → path ≡ none
        → base ≡ []
    from_nothing_lem none key base h e = h
    from_nothing_lem (some path) key base h e = absurd cc

    finish_document-Triple :
        (args : PublishArgs) (built_at : Text) (candidates : BTreeMap HostEntry)
        (selected : PairSet) (named_key : Text × crypto.SigningKey) (warnings : List PublishWarning)
        → select_targets candidates args.hosts args.planes ≡ ok selected
        → ((base : BTreeMap HostEntry)
            → IsBase args.base_manifest named_key.1 base
            → IsSourced args named_key.0 named_key.1 candidates base)
        → Triple Unchanged
            (finish_document publisher args built_at candidates selected named_key warnings)
            (λ p s. Unchanged s × IsComposed args built_at p)
            (λ e. Unchanged)
    unfolding finish_document
    finish_document-Triple args built_at candidates selected named_key warnings chosen sourced =
        Triple-bind
          (λ hosts s.
            Unchanged s
            × ((base : BTreeMap HostEntry) × (hosts ≡ compose_hosts base candidates selected)
                × IsBase args.base_manifest named_key.1 base))
          _ _ (merge_base-Triple args.base_manifest candidates selected named_key.1)
          (λ hosts. Triple-given _ (λ merging.
            Triple-bind
              (λ a s.
                Unchanged s
                × (refuse_problems document_problem
                      (validate (new_document args.revision built_at hosts))
                    ≡ ok a))
              _ _ (passes_through _ _)
              (λ a. Triple-pure _ (λ s p. (
                p.0,
                (
                  record {
                    candidates = candidates;
                    base = merging.0;
                    selected_by = chosen;
                    merged = ap (new_document args.revision built_at) merging.1;
                    from_nothing =
                        from_nothing_lem args.base_manifest named_key.1 merging.0 merging.2;
                    valid =
                        refuse_problems-none document_problem
                          (validate (new_document args.revision built_at hosts)) a p.1;
                  },
                  sourced merging.0 merging.2,
                ),
              )))))

    pub prepare_document-Triple :
        (args : PublishArgs) (built_at : Text)
        → Triple
            (λ s. Same before (files s))
            (prepare_document publisher args built_at)
            (λ p s. Same before (files s) × IsComposed args built_at p)
            (λ e s. Same before (files s))
    unfolding prepare_document
    prepare_document-Triple args built_at =
        Triple-bind (λ a s. Unchanged s × _) _ _ (read_text-Triple args.targets_file)
          (λ targets_text. Triple-given _ (λ targets_read.
            Triple-bind (λ a s. Unchanged s × _) _ _ (passes_through _ _)
              (λ candidates. Triple-given _ (λ decoded.
                Triple-bind (λ a s. Unchanged s × _) _ _ (passes_through _ _)
                  (λ used. Triple-given _ (λ used_ok.
                    Triple-bind (λ a s. Unchanged s × _) _ _ (passes_through _ _)
                      (λ selected. Triple-given _ (λ chosen.
                        Triple-bind (λ a s. Unchanged s × _) _ _ (passes_through _ _)
                          (λ a. Triple-given _ (λ selected_ok.
                            Triple-bind (λ a s. Unchanged s × _) _ _
                              (read_text-Triple args.signing_key_file)
                              (λ key_text. Triple-given _ (λ key_read.
                                Triple-bind (λ a s. Unchanged s × _) _ _ (passes_through _ _)
                                  (λ named_key. Triple-given _ (λ key_parsed.
                                    Triple-bind (λ a. Unchanged) _ _ (Triple-ask _ (λ s g. g))
                                      (λ warnings.
                                        finish_document-Triple args built_at candidates selected
                                          named_key warnings
                                          (select_for-selected args candidates selected chosen)
                                          (λ base based. record {
                                            targets_text = targets_text;
                                            targets_read = targets_read;
                                            decoded = ok_or-some _ _ candidates decoded;
                                            key_text = key_text;
                                            key_read = key_read;
                                            key_parsed = key_parsed;
                                            based = based;
                                          }))))))))))))))))
