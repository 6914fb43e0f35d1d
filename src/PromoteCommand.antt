-- ===== src/PromoteCommand.antt =====
-- src/promote.rs: the commands `promote` and `recover`, over the release store.
pub mod Args
pub mod Recovery
pub mod Terminal
use nixdeploy_corbet_ch.World.{Os, Exec, ◌>>=◌, pure, act, or_exit, with_error}
use nixdeploy_corbet_ch.AtomicFile.{write_atomic}
use nixdeploy_corbet_ch.Trust.{Crypto, KeyError, parse_signing_key}
use nixdeploy_corbet_ch.Release.{Codec, ReleaseHostEntry}
use nixdeploy_corbet_ch.Release.Envelope.{Forms}
use nixdeploy_corbet_ch.Store.{PromotionRequest, PromotionOutcome, PromotionError, ReleaseStore}
use nixdeploy_corbet_ch.Store.Promote.{promote}
use nixdeploy_corbet_ch.Store.Recover.{recover}
use nixdeploy_corbet_ch.Publish.{path_of}
use nixdeploy_corbet_ch.Publish.Calendar.{iso8601_utc}
use nixdeploy_corbet_ch.Base.{ok_or, ℕ, Option, none, some, List, [], ◌++◌}
use nixdeploy_corbet_ch.Text.{Text, codes, as_bytes}
use nixdeploy_corbet_ch.Map.{BTreeMap}

pub record PromoteArgs : Type 0 where
  pub targets_file : Text
  pub origin : Text
  pub expected_base : Option Text
  pub hosts : List Text
  pub planes : List Text
  pub signing_key_file : Text
  pub published_at : Option Text
  pub request_id : Text
  pub result_file : Text

pub record RecoverArgs : Type 0 where
  pub origin : Text
  pub signing_key_file : Text

pub data PromoteFlag : Type 0 where
  targets_option origin_option expected_base_option host_option plane_option : PromoteFlag
  key_file_option published_at_option request_id_option result_option : PromoteFlag

pub data RequestFault : Type 0 where
  option_needs_value option_required : PromoteFlag → RequestFault
  request_plane_unknown option_unknown : Text → RequestFault
  key_given request_id_empty : RequestFault

pub record Recovered : Type 0 where
  pub recovered_deployment_set_id : Option Text

pub record PromotionResult : Type 0 where
  pub version : ℕ
  pub request_id : Text
  pub outcome : PromotionOutcome

pub data PromoteError : Type 0 where
  request_usage : RequestFault → PromoteError
  input_unread result_unwritten : Text → Text → PromoteError
  targets_malformed : Text → PromoteError
  key_refused : Text → KeyError → PromoteError
  not_promoted : PromotionError → PromoteError

-- What the commands run with: `results` is the indented form of a result.
pub record Promoter : Type 1 where
  pub os : Os
  pub crypto : Crypto
  pub forms : Forms
  pub candidates : Codec (BTreeMap ReleaseHostEntry)
  pub results : Codec PromotionResult

module _ (promoter : Promoter) where
  open promoter use {os, crypto}

  abbrev pub Promote : Type 0 → Type 0
  Promote = Exec os PromoteError

  -- `ReleaseStore::new`
  abbrev pub store_at : Text → ReleaseStore
  store_at origin = record { os = os; crypto = crypto; forms = promoter.forms; root = origin }

  unfoldable pub input_text : Text → Promote Text
  input_text path = do
    found ← act (os.read_to_string (path_of path)) (λ r. [])
    or_exit (input_unread path) found

  unfoldable pub read_key : Text → Promote (Text × crypto.SigningKey)
  unfolding input_text
  read_key path = do
    key_text ← input_text path
    or_exit (key_refused path) (parse_signing_key crypto key_text)

  abbrev pub published_at_or : Option Text → ℕ → Text
  published_at_or none now_unix = iso8601_utc now_unix
  published_at_or (some published_at) now_unix = published_at

  abbrev pub request_of : PromoteArgs → ℕ → BTreeMap ReleaseHostEntry → PromotionRequest
  request_of args now_unix candidates = record {
    candidates = candidates;
    hosts = args.hosts;
    planes = args.planes;
    expected_base = args.expected_base;
    published_at = published_at_or args.published_at now_unix;
  }

  abbrev pub result_of : PromoteArgs → PromotionOutcome → PromotionResult
  result_of args outcome = record { version = 1; request_id = args.request_id; outcome = outcome }

  abbrev pub result_bytes : PromotionResult → List ℕ
  result_bytes result = promoter.results.encode result ++ codes "\n"

  unfoldable pub write_result : PromoteArgs → PromotionResult → Promote PromotionResult
  write_result args result = do
    written ←
        with_error (result_unwritten args.result_file)
          (write_atomic (path_of args.result_file) (result_bytes result) 0o644)
    pure result

  -- `promote` of src/promote.rs
  unfoldable pub promote_command : PromoteArgs → ℕ → Promote PromotionResult
  unfolding input_text read_key write_result
  promote_command args now_unix = do
    targets_text ← input_text args.targets_file
    candidates ←
        or_exit (λ e. e)
          (ok_or (targets_malformed args.targets_file)
            (promoter.candidates.decode (as_bytes targets_text)))
    named_key ← read_key args.signing_key_file
    outcome ← with_error not_promoted (
        promote (store_at args.origin) (request_of args now_unix candidates) named_key.0
          named_key.1)
    write_result args (result_of args outcome)

  -- `recover` of src/promote.rs
  unfoldable pub recover_command : RecoverArgs → Promote Recovered
  unfolding read_key
  recover_command args = do
    named_key ← read_key args.signing_key_file
    id ← with_error not_promoted (recover (store_at args.origin) named_key.1)
    pure (record { recovered_deployment_set_id = id })
