-- ===== src/Store/Promote.antt =====
-- `ReleaseStore::promote` of src/release.rs.
use nixdeploy_corbet_ch.World.{◌>>=◌, pure, exit, ask, or_exit}
use nixdeploy_corbet_ch.StorePath.{looks_like_timestamp, looks_like_id}
use nixdeploy_corbet_ch.Trust.{Crypto}
use nixdeploy_corbet_ch.Release.{
  promotion_record_version, DeploymentSet, ReleaseDocument, PromotionRecord, new_set,
}
use nixdeploy_corbet_ch.Release.Sets.{validate_set, digest_id}
use nixdeploy_corbet_ch.Release.Envelope.{seal, sign_release, verify_release_with_key}
use nixdeploy_corbet_ch.Release.Selection.{
  SelectionProblem, select_targets, compose_selected, selection_already_present,
  selected_leaves_unchanged,
}
use nixdeploy_corbet_ch.Store.{
  PromotionRequest, promoted, unchanged, superseded, rejected, PromotionDetail, set_problem,
  published_at_invalid, expected_base_invalid, selection_problem, already_stable,
  partial_without_stable, base_moved, PromotionOutcome, file, directory, release_fault,
  composed_release, name_and_id_disagree, trust, successor, same_text, ReleaseStore, release_path,
  record_path, lock_path, Store, read, verified, read_release_with_key, read_current_with_key,
  id_of_current, current_id_with_key, write_immutable, write_channel,
}
use nixdeploy_corbet_ch.Store.Journal.{latest_record_with_key}
use nixdeploy_corbet_ch.Store.Recover.{prepare, directories, with_lock, recover_locked}
use nixdeploy_corbet_ch.Base.{
  if◌then◌else◌, is_empty, push_if, Result, ok, err, ℕ, Bool, true, false, not, ◌&&◌, Option, none,
  some, List, [], ◌∷◌, ◌++◌, map,
}
use nixdeploy_corbet_ch.Text.{Text, ◌==◌}
use nixdeploy_corbet_ch.Map.{PairSet}

base_problems : Option Text → List PromotionDetail
base_problems none = []
base_problems (some expected) =
    push_if (not (looks_like_id expected)) (expected_base_invalid expected)

abbrev pub Selected : Type 0
Selected = Result PairSet (List SelectionProblem)

selection_problems : Selected → List PromotionDetail
selection_problems (ok selected) = []
selection_problems (err problems) = map selection_problem problems

abbrev pub leaves_of : Selected → PairSet
leaves_of (ok selected) = selected
leaves_of (err problems) = []

unfoldable pub request_problems : Crypto → PromotionRequest → List PromotionDetail
unfolding base_problems selection_problems
request_problems crypto request =
    map set_problem (validate_set crypto (new_set request.candidates))
    ++ (push_if (not (looks_like_timestamp request.published_at))
          (published_at_invalid request.published_at)
        ++ (base_problems request.expected_base
            ++ selection_problems (select_targets request.candidates request.hosts request.planes)))

abbrev pub selected_leaves : PromotionRequest → PairSet
selected_leaves request = leaves_of (select_targets request.candidates request.hosts request.planes)

abbrev pub is_full : PromotionRequest → Bool
is_full request = is_empty request.hosts && is_empty request.planes

abbrev pub Current : Type 0
Current = Option (List ℕ × ReleaseDocument)

abbrev pub set_of_current : Current → Option DeploymentSet
set_of_current none = none
set_of_current (some (bytes, doc)) = some doc.deployment_set

abbrev pub rejected_with : Option Text → List PromotionDetail → PromotionOutcome
rejected_with current_id problems = record {
  status = rejected;
  deployment_set_id = none;
  previous_deployment_set_id = current_id;
  generation = none;
  details = problems;
}

abbrev pub superseded_by : Option Text → Option Text → PromotionOutcome
superseded_by expected current_id = record {
  status = superseded;
  deployment_set_id = none;
  previous_deployment_set_id = current_id;
  generation = none;
  details = base_moved expected current_id ∷ [];
}

abbrev pub unchanged_at : Option Text → Option PromotionRecord → PromotionOutcome
unchanged_at current_id latest = record {
  status = unchanged;
  deployment_set_id = current_id;
  previous_deployment_set_id = current_id;
  generation = elim latest [ none ↦ none | some entry ↦ some entry.generation ];
  details = already_stable ∷ [];
}

abbrev pub promoted_to : Text → Option Text → ℕ → PromotionOutcome
promoted_to id current_id generation = record {
  status = promoted;
  deployment_set_id = some id;
  previous_deployment_set_id = current_id;
  generation = some generation;
  details = [];
}

-- A partial request replaces its leaves in the stable set; without one there is none.
unfoldable pub composed_set : PromotionRequest → Current → Option DeploymentSet
composed_set request current =
    if is_full request then some (new_set request.candidates) else elim current [
      | none ↦ none
      | some (bytes, doc) ↦ some (
          compose_selected doc.deployment_set (new_set request.candidates)
            (selected_leaves request))
    ]

-- The generation after the latest record's.
unfoldable pub next_generation : Option PromotionRecord → ℕ
unfolding successor
next_generation none = 1
next_generation (some entry) = successor entry.generation

module _ (store : ReleaseStore) where
  open store use {os, crypto, forms}

  -- A partial request may go on from a newer stable release if its leaves are those of its base.
  unfoldable pub may_rebase : PromotionRequest → Current → crypto.SigningKey → Store store Bool
  may_rebase request none key = pure false
  may_rebase request (some (bytes, doc)) key =
      if is_full request then pure false else elim request.expected_base [
        | none ↦ pure false
        | some expected_id ↦ do
          expected_doc ← read_release_with_key store expected_id key
          pure (
              selected_leaves_unchanged expected_doc.deployment_set doc.deployment_set
                (selected_leaves request))
      ]

  unfoldable pub base_accepted : PromotionRequest → Current → crypto.SigningKey → Store store Bool
  unfolding may_rebase
  base_accepted request current key =
      if same_text (id_of_current store current) request.expected_base
      then pure true
      else may_rebase request current key

  -- A release that stands is kept, if it is the one of its name.
  unfoldable pub place_release : ReleaseDocument → List ℕ → crypto.SigningKey → Store store (List ℕ)
  place_release proposed proposed_bytes key =
      let path = release_path store proposed.deployment_set_id in
      do
        exists ← ask (os.file_exists path)
        (if exists
            then (do
              existing ← read store path
              existing_doc ← verified store path existing key
              (if existing_doc.deployment_set_id == proposed.deployment_set_id
                  then pure existing
                  else exit (trust (file path) name_and_id_disagree)))
            else (do
              written ← write_immutable store path proposed_bytes 0o644
              pure proposed_bytes))

  abbrev pub record_of : Text → Option Text → List ℕ → Text → ℕ → PromotionRecord
  record_of id current_id release_bytes promoted_at generation = record {
    version = promotion_record_version;
    generation = generation;
    deployment_set_id = id;
    previous_deployment_set_id = current_id;
    release_digest = digest_id crypto release_bytes;
    promoted_at = promoted_at;
  }

  unfoldable pub record_bytes : PromotionRecord → Text → crypto.SigningKey → List ℕ
  record_bytes entry key_name key =
      forms.envelopes.encode (seal crypto forms forms.records entry key_name key)

  -- The record of the promotion is put in place before the channel moves.
  unfoldable pub record_and_move :
      PromotionRequest
      → Option Text
      → Text
      → List ℕ
      → Text
      → crypto.SigningKey
      → Store store PromotionOutcome
  unfolding record_bytes next_generation
  record_and_move request current_id id release_bytes key_name key = do
    latest ← latest_record_with_key store key
    let generation = next_generation latest
    recorded ←
        write_immutable store (record_path store generation id)
          (record_bytes (record_of id current_id release_bytes request.published_at generation)
            key_name key)
          0o644
    moved ← write_channel store release_bytes
    pure (promoted_to id current_id generation)

  unfoldable pub publish_set :
      PromotionRequest
      → Option Text
      → DeploymentSet
      → Text
      → crypto.SigningKey
      → Store store PromotionOutcome
  unfolding place_release record_and_move
  publish_set request current_id deployment_set key_name key = do
    envelope ←
        or_exit (λ ps. trust (directory store.root) (composed_release ps))
          (sign_release crypto forms deployment_set current_id request.published_at key_name key)
    proposed ←
        or_exit (λ e. trust (directory store.root) (release_fault e))
          (verify_release_with_key crypto forms (forms.envelopes.encode envelope) key)
    release_bytes ← place_release proposed (forms.envelopes.encode envelope) key
    record_and_move request current_id proposed.deployment_set_id release_bytes key_name key

  unfoldable pub promote_from :
      PromotionRequest → Current → Text → crypto.SigningKey → Store store PromotionOutcome
  unfolding base_accepted composed_set publish_set
  promote_from request current key_name key = do
    accepted ← base_accepted request current key
    (if accepted
        then elim (composed_set request current) [
          | none ↦ pure (rejected_with none (partial_without_stable ∷ []))
          | some deployment_set ↦
              publish_set request (id_of_current store current) deployment_set key_name key
        ]
        else pure (superseded_by request.expected_base (id_of_current store current)))

  unfoldable pub promote_valid :
      PromotionRequest → Text → crypto.SigningKey → Store store PromotionOutcome
  unfolding promote_from
  promote_valid request key_name key = do
    current ← read_current_with_key store key
    (if selection_already_present (set_of_current current) (new_set request.candidates)
          (selected_leaves request) (is_full request)
        then (do
          latest ← latest_record_with_key store key
          pure (unchanged_at (id_of_current store current) latest))
        else promote_from request current key_name key)

  unfoldable pub promote_locked :
      PromotionRequest → Text → crypto.SigningKey → Store store PromotionOutcome
  unfolding promote_valid
  promote_locked request key_name key = do
    recovered ← recover_locked store key
    elim (request_problems crypto request) [
      | [] ↦ promote_valid request key_name key
      | p ∷ ps ↦ do
        current_id ← current_id_with_key store key
        pure (rejected_with current_id (p ∷ ps))
    ]

  unfoldable pub promote :
      PromotionRequest → Text → crypto.SigningKey → Store store PromotionOutcome
  unfolding promote_locked
  promote request key_name key = do
    prepared ← prepare store (directories store)
    with_lock store (lock_path store) (promote_locked request key_name key)
