-- ===== src/Publish/Run.antt =====
-- `publish` of src/publish.rs: candidates and selectors, the document, its signature and the two
-- files.
use nixdeploy_corbet_ch.World.{Os, Exec, ◌>>=◌, pure, act, ask, or_exit, with_error}
use nixdeploy_corbet_ch.AtomicFile.{write_atomic}
use nixdeploy_corbet_ch.Trust.{Crypto, verify_with_signing_key, parse_signing_key, sign_detached}
use nixdeploy_corbet_ch.Manifest.{
  supported_schema_version, HostEntry, ManifestDoc, Problem, validate,
}
use nixdeploy_corbet_ch.Release.{Codec}
use nixdeploy_corbet_ch.Release.Selection.{leaf, select_targets, compose_hosts}
use nixdeploy_corbet_ch.Publish.Calendar.{iso8601_utc}
use nixdeploy_corbet_ch.Publish.{
  PublishArgs, base_required, base_meaningless, PublishProblem, selection_problem, document_problem,
  base_problem, base_signature, base_version, PublishError, usage, read_failed, write_failed,
  parse_failed, invalid_manifest, key_failed, PublishedTarget, PublishWarning, key_readable,
  Published, signature_path, path_of,
}
use nixdeploy_corbet_ch.Base.{
  eqb, if◌then◌else◌, length, is_empty, Result, ok, err, map_err, ok_or, ℕ, ◌+◌, ◌%◌, Bool, true,
  false, not, ◌||◌, Option, none, some, List, [], ◌∷◌, ◌++◌, map,
}
use nixdeploy_corbet_ch.Text.{Text, codes, as_bytes, trim}
use nixdeploy_corbet_ch.Map.{BTreeMap, Leaf, PairSet}

pub record Publisher : Type 1 where
  pub os : Os
  pub crypto : Crypto
  -- The serde_json forms of the candidates and of the document.
  pub candidates : Codec (BTreeMap HostEntry)
  pub manifests : Codec ManifestDoc

abbrev pub is_partial : PublishArgs → Bool
is_partial args = not (is_empty args.hosts) || not (is_empty args.planes)

-- Selectors go with a base manifest, and a base manifest with selectors.
unfoldable pub check_usage : Bool → Option Text → Result (Unit {0}) PublishError
check_usage true none = err (usage base_required)
check_usage true (some base) = ok tt
check_usage false none = ok tt
check_usage false (some base) = err (usage base_meaningless)

-- `hosts_from_selection`
abbrev pub hosts_from_selection : BTreeMap HostEntry → PairSet → BTreeMap HostEntry
hosts_from_selection candidates selected = compose_hosts [] candidates selected

abbrev pub new_document : Text → Text → BTreeMap HostEntry → ManifestDoc
new_document revision built_at hosts = record {
  version = supported_schema_version;
  revision = revision;
  built_at = built_at;
  hosts = hosts;
}

unfoldable pub refuse_problems :
    (Problem → PublishProblem) → List Problem → Result (Unit {0}) PublishError
refuse_problems tag [] = ok tt
refuse_problems tag (p ∷ ps) = err (invalid_manifest (map tag (p ∷ ps)))

abbrev target_at : BTreeMap HostEntry → Leaf → List PublishedTarget
target_at hosts p = elim (leaf hosts p) [
  | none ↦ []
  | some entry ↦ record { host = p.0; plane = p.1; target = entry.target } ∷ []
]

-- The selected targets; a missing key, on which the source panics, gives none.
unfoldable pub published_targets : BTreeMap HostEntry → PairSet → List PublishedTarget
published_targets hosts [] = []
published_targets hosts (p ∷ selected) = target_at hosts p ++ published_targets hosts selected

unfoldable pub count_targets : BTreeMap HostEntry → ℕ
count_targets [] = 0
count_targets ((name, host) ∷ hosts) = length host.planes + count_targets hosts

unfoldable pub select_for : PublishArgs → BTreeMap HostEntry → Result PairSet PublishError
select_for args candidates =
    map_err (λ problems. invalid_manifest (map selection_problem problems))
      (select_targets candidates args.hosts args.planes)

-- The document that is published, what it updates, and the key that signs it.
pub record Prepared (SigningKey : Type 0) : Type 0 where
  pub document : ManifestDoc
  pub selected : PairSet
  pub key_name : Text
  pub key : SigningKey
  pub warnings : List PublishWarning

module _ (publisher : Publisher) where
  open publisher use {os, crypto}

  abbrev pub Publish : Type 0 → Type 0
  Publish = Exec os PublishError

  unfoldable pub read_text : Text → Publish Text
  read_text path = do
    found ← act (os.read_to_string (path_of path)) (λ r. [])
    or_exit (λ e. read_failed path e) found

  abbrev warning_of : Text → Option ℕ → List PublishWarning
  warning_of path none = []
  warning_of path (some mode) =
      if eqb (mode % 64) 0 then [] else key_readable path (mode % 4096) ∷ []

  -- `key_permission_warning`: the low six bits are those of the group and of the others.
  unfoldable pub key_permission_warning : Text → Publish (List PublishWarning)
  key_permission_warning path = ask (λ m. warning_of path (os.file_mode (path_of path) m))

  unfoldable pub check_base_version : ManifestDoc → Result (Unit {0}) PublishError
  check_base_version base =
      if eqb base.version supported_schema_version
      then ok tt
      else err (invalid_manifest (base_version base.version ∷ []))

  -- The base must verify under the same key.
  unfoldable pub read_base : Text → crypto.SigningKey → Publish ManifestDoc
  unfolding read_text check_base_version refuse_problems
  read_base base_path key = do
    base_text ← read_text base_path
    base_signature_text ← read_text (signature_path base_path)
    verified ←
        or_exit (λ e. invalid_manifest (base_signature e ∷ []))
          (verify_with_signing_key crypto key (as_bytes base_text) (trim base_signature_text))
    base ←
        or_exit (λ e. e)
          (ok_or (parse_failed base_path) (publisher.manifests.decode (as_bytes base_text)))
    versioned ← or_exit (λ e. e) (check_base_version base)
    checked ← or_exit (λ e. e) (refuse_problems base_problem (validate base))
    pure base

  unfoldable pub merge_base :
      Option Text → BTreeMap HostEntry → PairSet → crypto.SigningKey → Publish (BTreeMap HostEntry)
  unfolding read_base
  merge_base none candidates selected key = pure (hosts_from_selection candidates selected)
  merge_base (some base_path) candidates selected key = do
    base ← read_base base_path key
    pure (compose_hosts base.hosts candidates selected)

  -- `canonical_bytes` writes the text whose bytes are the form's.
  unfoldable pub write_manifest : Text → List ℕ → Text → Publish (Unit {0})
  write_manifest out body signature = do
    signed ←
        with_error (λ e. write_failed (signature_path out) e)
          (write_atomic (path_of (signature_path out)) (as_bytes (signature ++ codes "\n")) 0o644)
    with_error (λ e. write_failed out e) (write_atomic (path_of out) body 0o644)

  -- The document, once its parts and the key are there.
  unfoldable pub finish_document :
      PublishArgs
      → Text
      → BTreeMap HostEntry
      → PairSet
      → Text × crypto.SigningKey
      → List PublishWarning
      → Publish (Prepared crypto.SigningKey)
  unfolding refuse_problems merge_base
  finish_document args built_at candidates selected named_key warnings = do
    hosts ← merge_base args.base_manifest candidates selected named_key.1
    let doc = new_document args.revision built_at hosts
    document_ok ← or_exit (λ e. e) (refuse_problems document_problem (validate doc))
    pure (record {
      document = doc;
      selected = selected;
      key_name = named_key.0;
      key = named_key.1;
      warnings = warnings;
    })

  unfoldable pub prepare_document : PublishArgs → Text → Publish (Prepared crypto.SigningKey)
  unfolding read_text check_usage select_for refuse_problems key_permission_warning finish_document
  prepare_document args built_at = do
    targets_text ← read_text args.targets_file
    candidates ←
        or_exit (λ e. e)
          (ok_or (parse_failed args.targets_file)
            (publisher.candidates.decode (as_bytes targets_text)))
    used ← or_exit (λ e. e) (check_usage (is_partial args) args.base_manifest)
    selected ← or_exit (λ e. e) (select_for args candidates)
    selected_ok ←
        or_exit (λ e. e)
          (refuse_problems document_problem (
            validate
              (new_document args.revision built_at (hosts_from_selection candidates selected))))
    key_text ← read_text args.signing_key_file
    named_key ←
        or_exit (λ e. key_failed args.signing_key_file e) (parse_signing_key crypto key_text)
    warnings ← key_permission_warning args.signing_key_file
    finish_document args built_at candidates selected named_key warnings

  abbrev pub published : PublishArgs → Prepared crypto.SigningKey → Published
  published args p = record {
    manifest = args.out;
    signature = signature_path args.out;
    revision = p.document.revision;
    built_at = p.document.built_at;
    updated = published_targets p.document.hosts p.selected;
    total_targets = count_targets p.document.hosts;
    warnings = p.warnings;
  }

  abbrev pub built_at_or : Option Text → ℕ → Text
  built_at_or none now_unix = iso8601_utc now_unix
  built_at_or (some built_at) now_unix = built_at

  unfoldable pub publish : PublishArgs → ℕ → Publish Published
  unfolding prepare_document write_manifest
  publish args now_unix = do
    prepared ← prepare_document args (built_at_or args.built_at now_unix)
    let body = publisher.manifests.encode prepared.document
    written ←
        write_manifest args.out body (sign_detached crypto prepared.key_name prepared.key body)
    pure (published args prepared)
