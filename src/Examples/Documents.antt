-- ===== src/Examples/Documents.antt =====
-- The theorems on documents, at concrete ones.
use nixdeploy_corbet_ch.Examples.{
  toy_crypto, toy_crypto-CryptoLaws, old_system, new_system, toy_plane, toy_document, toy_artifact,
  host_with, toy_wire, toy_body, toy_key, toy_signature,
}
use nixdeploy_corbet_ch.Backend.{as_str}
use nixdeploy_corbet_ch.Trust.{encoded_part, parse_public_key, verify, sign_detached}
use nixdeploy_corbet_ch.Trust.Signatures.{verify-sign_detached, verify-verifies}
use nixdeploy_corbet_ch.Manifest.{
  identity_problems, managed_problems, boot_problems, plane_problems, planes_problems,
  host_problems, hosts_problems, validate,
}
use nixdeploy_corbet_ch.Manifest.Documents.{IsManifest, validate_iff}
use nixdeploy_corbet_ch.Release.{ReleaseHostEntry}
use nixdeploy_corbet_ch.Release.Selection.{
  leaf, absent_hosts, absent_planes, select_planes, select_hosts, select_targets, compose_hosts,
  leaves_equal,
}
use nixdeploy_corbet_ch.Release.Selection.Laws.{or_else, leaf-compose_hosts, leaves_equal_iff}
use nixdeploy_corbet_ch.Release.Selection.Selected.{has_leaf, is_selected, select_targets-contains}
use nixdeploy_corbet_ch.Select.{target_of_plane, check_version, no_problems, verify_and_select}
use nixdeploy_corbet_ch.Select.Trusted.{IsBacked, verify_and_select-IsBacked}
use nixdeploy_corbet_ch.Artifact.{check, blank}
use nixdeploy_corbet_ch.Artifact.Compatible.{IsCompatible, check_iff}
use nixdeploy_corbet_ch.StorePath.{
  is_hash_char, hash_and_name, base_name_ok, looks_like_store_path, is_timestamp_bytes,
  looks_like_timestamp, store_hash,
}
use nixdeploy_corbet_ch.StorePath.Accepts.{
  IsStorePath, looks_like_store_path_iff, looks_like_store_path-store_hash,
}
use nixdeploy_corbet_ch.Version.{version_less_than}
use nixdeploy_corbet_ch.Version.Order.{below, version_less_than-below}
use nixdeploy_corbet_ch.Command.{tokenize}
use nixdeploy_corbet_ch.Command.Tokens.{
  Word, bare, quoted, word, command_line, tokenize-command_line,
}
use nixdeploy_corbet_ch.Outcome.{
  converged, already_current, outcome_labels, label, exit_code, is_error,
}
use nixdeploy_corbet_ch.Outcome.Codes.{exit_code-label, count_label, count_label-outcome_labels}
use nixdeploy_corbet_ch.Base.{
  if◌then◌else◌, length, all, ok, ℕ, ◌≤◌, ◌≡◌, refl, ◌↔◌, true, ◌&&◌, some, List, [], ◌∷◌, map,
}
use nixdeploy_corbet_ch.Text.{
  Text, codes, ◌==◌, compare_text, utf8, as_bytes, trim, strip_prefix, split_once,
}
use nixdeploy_corbet_ch.Map.{BTreeMap, get, contains_key, Leaf, insert_pair, contains_pair}

pub toy_document-valid : validate toy_document ≡ []
unfolding validate looks_like_timestamp is_timestamp_bytes as_bytes utf8 hosts_problems
    host_problems planes_problems plane_problems ◌==◌ as_str looks_like_store_path base_name_ok
    hash_and_name strip_prefix split_once identity_problems boot_problems managed_problems blank
    trim
toy_document-valid = refl

pub toy_selects :
    verify_and_select toy_crypto toy_wire toy_body toy_signature toy_key
      (codes "web")
      (codes "nixos")
    ≡ ok (target_of_plane (codes "nixos") toy_plane)
unfolding verify_and_select parse_public_key verify encoded_part split_once check_version
    no_problems target_of_plane get ◌==◌ as_bytes utf8
toy_selects = rw toy_document-valid refl

verify_and_select-IsBacked_example :
    IsBacked toy_crypto toy_wire toy_body toy_signature toy_key
      (codes "web")
      (codes "nixos")
      (target_of_plane (codes "nixos") toy_plane)
verify_and_select-IsBacked_example =
    verify_and_select-IsBacked toy_crypto toy_wire toy_body toy_signature toy_key (codes "web")
      (codes "nixos") (target_of_plane (codes "nixos") toy_plane) toy_selects

validate_iff_example : (validate toy_document ≡ []) ↔ IsManifest toy_document
validate_iff_example = validate_iff toy_document

verify-sign_detached_example :
    verify toy_crypto 7 toy_body (sign_detached toy_crypto (codes "k") 7 toy_body) ≡ ok tt
verify-sign_detached_example =
    verify-sign_detached toy_crypto toy_crypto-CryptoLaws (codes "k") 7 toy_body refl

verifies_toy : verify toy_crypto 7 toy_body toy_signature ≡ ok tt
unfolding verify encoded_part split_once ◌==◌
verifies_toy = refl

verify-verifies_example :
    (signature : List ℕ) × (toy_crypto.decode64 (encoded_part toy_signature) ≡ some signature)
    × (length signature ≡ 64)
    × (toy_crypto.verifies 7 toy_body signature ≡ true)
verify-verifies_example =
    verify-verifies toy_crypto toy_crypto-CryptoLaws 7 toy_body toy_signature verifies_toy

abbrev base_hosts : BTreeMap ReleaseHostEntry
base_hosts = host_with (codes "db") old_system ∷ host_with (codes "web") old_system ∷ []

abbrev candidate_hosts : BTreeMap ReleaseHostEntry
candidate_hosts = host_with (codes "db") new_system ∷ host_with (codes "web") new_system ∷ []

abbrev pub web : Leaf
web = (codes "web", codes "nixos")

leaf-compose_hosts_example : leaf (compose_hosts base_hosts candidate_hosts (web ∷ [])) web ≡ (
    if contains_pair (web ∷ []) web
    then or_else (leaf candidate_hosts web) (leaf base_hosts web)
    else leaf base_hosts web)
leaf-compose_hosts_example = leaf-compose_hosts base_hosts candidate_hosts (web ∷ []) web

leaves_equal_iff_example :
    (leaves_equal base_hosts candidate_hosts (web ∷ []) ≡ true)
    ↔ ((q : Leaf) → contains_pair (web ∷ []) q ≡ true → leaf base_hosts q ≡ leaf candidate_hosts q)
leaves_equal_iff_example = leaves_equal_iff base_hosts candidate_hosts (web ∷ [])

web_selected : select_targets candidate_hosts (codes "web" ∷ []) [] ≡ ok (web ∷ [])
unfolding select_targets absent_hosts absent_planes select_hosts select_planes insert_pair
    contains_key ◌==◌ compare_text
web_selected = refl

select_targets-contains_example :
    contains_pair (web ∷ []) web
    ≡ (is_selected (codes "web" ∷ []) [] web && has_leaf candidate_hosts web)
select_targets-contains_example =
    select_targets-contains candidate_hosts (codes "web" ∷ []) [] (web ∷ []) web web_selected

check_iff_example :
    (check (toy_artifact new_system).requirements (codes "x86_64-linux") (codes "2.24.1") ≡ ok tt)
    ↔ IsCompatible (toy_artifact new_system).requirements (codes "x86_64-linux") (codes "2.24.1")
check_iff_example =
    check_iff (toy_artifact new_system).requirements (codes "x86_64-linux") (codes "2.24.1")

version_less_than-below_example :
    version_less_than (2 ∷ 18 ∷ []) (2 ∷ 18 ∷ 1 ∷ []) ≡ below (2 ∷ 18 ∷ []) (2 ∷ 18 ∷ 1 ∷ [])
version_less_than-below_example = version_less_than-below (2 ∷ 18 ∷ []) (2 ∷ 18 ∷ 1 ∷ [])

looks_like_store_path_iff_example :
    (looks_like_store_path new_system ≡ true)
    ↔ ((hash : Text) × (name : Text) × IsStorePath new_system hash name)
looks_like_store_path_iff_example = looks_like_store_path_iff new_system

new_system-accepted : looks_like_store_path new_system ≡ true
unfolding looks_like_store_path base_name_ok hash_and_name strip_prefix split_once as_bytes utf8
    ◌==◌
new_system-accepted = refl

looks_like_store_path-store_hash_example :
    (hash : Text) × (store_hash new_system (codes "/nix/store") ≡ some hash)
    × (length (as_bytes hash) ≡ 32)
    × (all is_hash_char hash ≡ true)
looks_like_store_path-store_hash_example =
    looks_like_store_path-store_hash new_system new_system-accepted

abbrev words : List Word
words = bare (codes "sh") ∷ bare (codes "-c") ∷ quoted (codes "echo \"a b\"") ∷ []

tokenize-command_line_example : tokenize (command_line words) ≡ some (map word words)
tokenize-command_line_example = tokenize-command_line words refl

exit_code-label_example :
    ((exit_code (already_current new_system) ≡ exit_code (converged old_system new_system))
      ↔ (label (already_current new_system) ≡ label (converged old_system new_system)))
    × (exit_code (already_current new_system) ≤ 4)
    × ((exit_code (already_current new_system) ≡ 4)
        ↔ (is_error (already_current new_system) ≡ true))
exit_code-label_example =
    exit_code-label (already_current new_system) (converged old_system new_system)

count_label-outcome_labels_example :
    count_label (converged old_system new_system) outcome_labels ≡ 1
count_label-outcome_labels_example = count_label-outcome_labels (converged old_system new_system)
