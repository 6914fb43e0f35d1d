-- ===== src/Examples/Promotions.antt =====
-- A promotion into an empty store, and a recovery of a channel that was lost.
use nixdeploy_corbet_ch.Examples.Releases.{digest, set, published_at, envelope}
use nixdeploy_corbet_ch.Examples.{toy_crypto}
use nixdeploy_corbet_ch.Examples.Disk.{disk_os, disk_laws}
use nixdeploy_corbet_ch.Text.{
  Text, codes, ◌==◌, compare_text, utf8, as_bytes, is_whitespace, trim_start, trim, strip_prefix,
  split_once, split, take_while, u64_mod,
}
use nixdeploy_corbet_ch.Store.Chain.{generation_of}
use nixdeploy_corbet_ch.Store.Settled.{Recovers, Told}
use nixdeploy_corbet_ch.Store.Backed.{IsJournaled}
use nixdeploy_corbet_ch.Store.Latest.{read_records-counts}
use nixdeploy_corbet_ch.Store.Promoted.{
  ChannelIs, IsIdle, promote-IsJournaled, promote-Told, recover-Recovers,
}
use nixdeploy_corbet_ch.Store.Kept.{Keeps}
use nixdeploy_corbet_ch.World.Triple.{Ends}
use nixdeploy_corbet_ch.World.Files.{Contents, Apart}
use nixdeploy_corbet_ch.AtomicFile.Whole.{IsWhole, write_atomic-Ends}
use nixdeploy_corbet_ch.Map.{insert_pair}
use nixdeploy_corbet_ch.Store.Records.{check_chain, accept_record, check_record}
use nixdeploy_corbet_ch.Store.{
  PromotionRequest, promoted, trim_start_matches, extension, same_text, ReleaseStore, channel_path,
  release_path, record_path, call_at, read_contents, read, verified, read_optional,
  read_current_with_key, immutable_temp_path, link_steps, immutable_steps, remove_temp,
  write_immutable, write_channel,
}
use nixdeploy_corbet_ch.Store.Journal.{
  insert_name, sort_names, is_json, json_names, read_records, latest_record_with_key,
}
use nixdeploy_corbet_ch.Store.Recover.{
  prepare, acquire, with_lock, matches_record, needs_repair, repair, recover_to, recover_locked,
  recover,
}
use nixdeploy_corbet_ch.Store.Promote.{
  request_problems, promoted_to, composed_set, next_generation, may_rebase, base_accepted,
  place_release, record_bytes, record_and_move, publish_set, promote_from, promote_valid,
  promote_locked, promote,
}
use nixdeploy_corbet_ch.Release.{ReleaseDocument, PromotionRecord}
use nixdeploy_corbet_ch.Release.Envelope.{
  Forms, document_problems, seal, parse_envelope, open_with_signing_key, sign_release,
  verify_release_with_key,
}
use nixdeploy_corbet_ch.Release.Sets.{
  identity_blank, identity_faults, managed_faults, boot_faults, plane_faults, planes_faults,
  hosts_faults, validate_set, digest_id, set_id,
}
use nixdeploy_corbet_ch.Release.Selection.{select_targets, selection_already_present}
use nixdeploy_corbet_ch.AtomicFile.{temp_path, call, write_steps, clean_up, write_atomic}
use nixdeploy_corbet_ch.Digits.{show, show_padded}
use nixdeploy_corbet_ch.World.{
  World, ◌>>=◌, pure, exit, act, ask, or_exit, note, with_error, attempt,
}
use nixdeploy_corbet_ch.Trust.{encoded_part, verify_with_signing_key, sign_detached}
use nixdeploy_corbet_ch.StorePath.{
  hash_and_name, base_name_ok, looks_like_store_path, is_timestamp_bytes, looks_like_timestamp,
  looks_like_id, looks_like_git_revision,
}
use nixdeploy_corbet_ch.Backend.{as_str}
use nixdeploy_corbet_ch.Artifact.{looks_like_nar_hash, blank, validate_artifact}
use nixdeploy_corbet_ch.Version.{
  decimal, parse_u64, parse_component, parse_components, parse_version,
}
use nixdeploy_corbet_ch.Base.{
  if◌then◌else◌, length, ok, ◌%◌, ◌≡◌, refl, inl, false, ◌||◌, none, some, List, [], ◌∷◌, ◌++◌,
}

abbrev hex : Text
hex = codes "0123456789abcdef0123456789abcdef0123456789abcdef0123456789abcdef"

abbrev first_release : ReleaseDocument
first_release = record {
  deployment_set_id = digest;
  parent_deployment_set_id = none;
  published_at = published_at;
  deployment_set = set;
}

abbrev first_record : PromotionRecord
first_record = record {
  version = 1;
  generation = 1;
  deployment_set_id = digest;
  previous_deployment_set_id = none;
  release_digest = digest;
  promoted_at = published_at;
}

abbrev pub store_forms : Forms
store_forms = record {
  sets = record { encode = λ a. hex; decode = λ b. none };
  documents = record { encode = λ a. 1 ∷ 2 ∷ []; decode = λ b. some first_release };
  envelopes = record { encode = λ a. hex; decode = λ b. some envelope };
  records = record { encode = λ a. 1 ∷ 2 ∷ []; decode = λ b. some first_record };
}

abbrev store_on : List Text → ReleaseStore
store_on names = record {
  os = disk_os names;
  crypto = toy_crypto;
  forms = store_forms;
  root = codes "/srv";
}

abbrev on_disk : (names : List Text) → Contents → World (disk_os names)
on_disk names m = record {
  machine = m;
  events = [];
  measured = record { delta_bytes = none; ceiling = none; reimage_owed = false };
}

abbrev request : PromotionRequest
request = record {
  candidates = set.hosts;
  hosts = [];
  planes = [];
  expected_base = none;
  published_at = published_at;
}

abbrev empty_store : World (disk_os [])
empty_store = on_disk [] (λ p. none)

first_promotion :
    (promote (store_on []) request (codes "k") 7 empty_store).0 ≡ ok (promoted_to digest none 1)
unfolding promote promote_locked promote_valid promote_from publish_set record_and_move record_bytes
    place_release base_accepted may_rebase composed_set next_generation request_problems prepare
    with_lock acquire recover_locked recover_to latest_record_with_key read_records json_names
    sort_names read_current_with_key read_optional write_immutable immutable_steps link_steps
    remove_temp write_channel write_atomic write_steps clean_up call call_at same_text verified
    selection_already_present select_targets sign_release document_problems set_id digest_id
    validate_set hosts_faults planes_faults plane_faults identity_faults identity_blank boot_faults
    managed_faults validate_artifact looks_like_nar_hash looks_like_id looks_like_git_revision
    looks_like_store_path base_name_ok hash_and_name looks_like_timestamp is_timestamp_bytes blank
    parse_version parse_components parse_component parse_u64 decimal as_bytes utf8 strip_prefix
    split_once split take_while trim trim_start is_whitespace ◌==◌ as_str seal sign_detached pure
    exit act ask or_exit note with_error attempt ◌>>=◌ show insert_pair channel_path
    verify_release_with_key verify_with_signing_key encoded_part release_path immutable_temp_path
    trim_start_matches record_path show_padded
first_promotion = refl

abbrev record_name : Text
record_name = codes "00000000000000000001-" ++ hex ++ codes ".json"

abbrev release_name : Text
release_name = hex ++ codes ".json"

abbrev one_record : List Text
one_record = record_name ∷ []

-- A store whose channel is lost, with one release and its record.
abbrev lost_channel : World (disk_os one_record)
lost_channel =
    on_disk one_record
      (λ p. if p.name == record_name || p.name == release_name then some hex else none)

lost :
    IsJournaled
      (store_on one_record)
      (disk_laws one_record)
      7
      (λ p. if p.name == record_name || p.name == release_name then some hex else none)
unfolding channel_path ◌==◌
lost = inl refl

recovered : (recover (store_on one_record) 7 lost_channel).0 ≡ ok (some digest)
unfolding recover prepare with_lock acquire recover_locked recover_to matches_record repair
    needs_repair latest_record_with_key read_records read read_contents json_names is_json extension
    sort_names insert_name compare_text check_record accept_record check_chain parse_envelope
    open_with_signing_key write_channel write_atomic write_steps clean_up call call_at same_text
    verified document_problems set_id digest_id validate_set hosts_faults planes_faults plane_faults
    identity_faults identity_blank boot_faults managed_faults validate_artifact looks_like_nar_hash
    looks_like_id looks_like_git_revision looks_like_store_path base_name_ok hash_and_name
    looks_like_timestamp is_timestamp_bytes blank parse_version parse_components parse_component
    parse_u64 decimal as_bytes utf8 strip_prefix split_once split take_while trim trim_start
    is_whitespace ◌==◌ as_str pure exit act ask or_exit note with_error attempt ◌>>=◌ show
    channel_path verify_release_with_key verify_with_signing_key encoded_part release_path
    trim_start_matches record_path show_padded
recovered = refl

recover-Recovers_example :
    Recovers
      (store_on one_record)
      (disk_laws one_record)
      7
      (ChannelIs
        (store_on one_record)
        (disk_laws one_record)
        7
        (lost_channel.machine (channel_path (store_on one_record))))
      (some digest)
      (recover (store_on one_record) 7 lost_channel).1.machine
recover-Recovers_example =
    recover-Recovers (store_on one_record) (disk_laws one_record) 7 lost_channel (some digest) lost
      recovered

promote-IsJournaled_example :
    IsJournaled
      (store_on [])
      (disk_laws [])
      7
      (promote (store_on []) request (codes "k") 7 empty_store).1.machine
    × Keeps
        (store_on [])
        (λ p. none)
        (promote (store_on []) request (codes "k") 7 empty_store).1.machine
promote-IsJournaled_example =
    promote-IsJournaled (store_on []) (disk_laws []) 7 request (codes "k") empty_store (inl refl)

promote-Told_example :
    Told
      (store_on [])
      (disk_laws [])
      7
      (IsIdle (store_on []) (disk_laws []) 7 none)
      promoted
      (promoted_to digest none 1)
      (promote (store_on []) request (codes "k") 7 empty_store).1.machine
promote-Told_example =
    promote-Told (store_on []) (disk_laws []) 7 request (codes "k") empty_store
      (promoted_to digest none 1) (inl refl) first_promotion

read_once :
    (read_records
      (store_on [])
      7
      one_record
      none
      (on_disk [] (λ p. if p.name == record_name then some hex else none))).0
    ≡ ok (some first_record)
unfolding read_records read read_contents check_record accept_record check_chain parse_envelope
    open_with_signing_key verify_with_signing_key encoded_part looks_like_id looks_like_timestamp
    is_timestamp_bytes as_bytes utf8 strip_prefix split_once ◌==◌ pure act or_exit ◌>>=◌ record_path
    trim_start_matches show_padded show
read_once = refl

read_records-counts_example : generation_of (some first_record) ≡ length one_record % u64_mod
read_records-counts_example =
    read_records-counts (store_on []) (disk_laws []) 7 one_record
      (on_disk [] (λ p. if p.name == record_name then some hex else none)) (some first_record)
      read_once

write_atomic-Ends_example :
    Ends
      (λ a s.
        IsWhole
          (λ p. none)
          (temp_path 42 (channel_path (store_on [])))
          (channel_path (store_on []))
          hex
          s)
      (λ e s. Apart (temp_path 42 (channel_path (store_on []))) (λ p. none) s)
      (write_atomic {os = disk_os []} (channel_path (store_on [])) hex 0o644 empty_store).0
      (write_atomic {os = disk_os []} (channel_path (store_on [])) hex 0o644 empty_store).1.machine
write_atomic-Ends_example =
    write_atomic-Ends (disk_laws []) (channel_path (store_on [])) hex 0o644 empty_store
