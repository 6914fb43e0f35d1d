-- ===== src/Examples/Publications.antt =====
-- A publication of one host from an empty disk but for its inputs, its times and its arguments.
use nixdeploy_corbet_ch.Examples.{
  toy_crypto, toy_crypto-CryptoLaws, toy_plane, toy_document, toy_wire, toy_body,
}
use nixdeploy_corbet_ch.Examples.Documents.{toy_document-valid, web}
use nixdeploy_corbet_ch.Examples.Disk.{disk_os, disk_laws}
use nixdeploy_corbet_ch.World.{World}
use nixdeploy_corbet_ch.World.Triple.{Ends}
use nixdeploy_corbet_ch.Select.{target_of_plane, verify_and_select}
use nixdeploy_corbet_ch.Trust.{sign_detached}
use nixdeploy_corbet_ch.Release.Signed.{public_text}
use nixdeploy_corbet_ch.Release.Selection.{
  leaf, absent_hosts, absent_planes, select_planes, select_hosts, select_targets, compose_hosts,
}
use nixdeploy_corbet_ch.StorePath.{looks_like_timestamp}
use nixdeploy_corbet_ch.Map.{get, contains_key, insert, insert_pair, contains_pair}
use nixdeploy_corbet_ch.Publish.{PublishArgs, PublishFlag, host_flag, plane_flag, path_of}
use nixdeploy_corbet_ch.Publish.Run.{Publisher, new_document, Prepared, publish}
use nixdeploy_corbet_ch.Publish.Written.{IsPrepared}
use nixdeploy_corbet_ch.Publish.Files.{Out, IsPublication, publish-IsPublication}
use nixdeploy_corbet_ch.Publish.Received.{verify_and_select-published}
use nixdeploy_corbet_ch.Publish.Args.{no_args, publish_options, parse_args}
use nixdeploy_corbet_ch.Publish.Args.Rendered.{parse_args-arguments}
use nixdeploy_corbet_ch.CommandLine.Written.{Written, arguments, take_all}
use nixdeploy_corbet_ch.Publish.Calendar.{civil_from_days, iso8601_utc}
use nixdeploy_corbet_ch.Publish.Calendar.Gregorian.{IsDate, day_number}
use nixdeploy_corbet_ch.Publish.Calendar.Exact.{day_number-civil_from_days}
use nixdeploy_corbet_ch.Publish.Calendar.Stamps.{looks_like_timestamp-iso8601_utc}
use nixdeploy_corbet_ch.Base.{
  if◌then◌else◌, ok, ℕ, ◌+◌, ◌≡◌, refl, sym, ap, true, false, none, some, List, [], ◌∷◌, arith,
}
use nixdeploy_corbet_ch.Text.{codes, ◌==◌, compare_text, as_bytes}

abbrev args : PublishArgs
args = record {
  targets_file = codes "targets.json";
  base_manifest = none;
  hosts = [];
  planes = [];
  revision = codes "r1";
  built_at = some (codes "2026-01-02T03:04:05Z");
  signing_key_file = codes "key";
  out = codes "www/manifest.json";
}

abbrev publisher : Publisher
publisher = record {
  os = disk_os [];
  crypto = toy_crypto;
  candidates = record { encode = λ a. []; decode = λ b. some toy_document.hosts };
  manifests = record { encode = λ a. codes "{}"; decode = λ b. some toy_document };
}

-- A disk that holds a key and the candidates.
abbrev inputs : World (disk_os [])
inputs = record {
  machine = λ p.
      if p.name == codes "key"
      then some (codes "k:;")
      else if p.name == codes "targets.json"
      then some (codes "{}")
      else none;
  events = [];
  measured = record { delta_bytes = none; ceiling = none; reimage_owed = false };
}

publish-IsPublication_example :
    Ends
      (λ answer. IsPublication publisher (disk_laws []) inputs.machine args 5 answer)
      (λ e. Out publisher (disk_laws []) args.out (inputs.machine (path_of args.out)))
      (publish publisher args 5 inputs).0
      (publish publisher args 5 inputs).1.machine
publish-IsPublication_example = publish-IsPublication publisher (disk_laws []) args 5 inputs

abbrev prepared : Prepared ℕ
prepared = record {
  document = toy_document;
  selected = web ∷ [];
  key_name = codes "k";
  key = 7;
  warnings = [];
}

all_selected : select_targets toy_document.hosts [] [] ≡ ok (web ∷ [])
unfolding select_targets absent_hosts absent_planes select_hosts select_planes insert_pair
    contains_key ◌==◌ compare_text
all_selected = refl

composed : compose_hosts [] toy_document.hosts (web ∷ []) ≡ toy_document.hosts
unfolding compose_hosts leaf get insert ◌==◌ compare_text
composed = refl

web_contained : contains_pair (web ∷ []) web ≡ true
unfolding contains_pair ◌==◌
web_contained = refl

abbrev prepared-IsPrepared : IsPrepared args (codes "2026-01-02T03:04:05Z") prepared
prepared-IsPrepared = record {
  candidates = toy_document.hosts;
  base = [];
  selected_by = all_selected;
  merged = ap (new_document (codes "r1") (codes "2026-01-02T03:04:05Z")) (sym composed);
  from_nothing = λ e. refl;
  valid = toy_document-valid;
}

web_published : leaf toy_document.hosts web ≡ some toy_plane
unfolding leaf get ◌==◌
web_published = refl

verify_and_select-published_example :
    verify_and_select toy_crypto toy_wire toy_body
      (sign_detached toy_crypto (codes "k") 7 (as_bytes toy_body))
      (public_text toy_crypto toy_crypto-CryptoLaws toy_wire.releases 7)
      (codes "web")
      (codes "nixos")
    ≡ ok (target_of_plane (codes "nixos") toy_plane)
verify_and_select-published_example =
    verify_and_select-published toy_crypto toy_crypto-CryptoLaws toy_wire args
      (codes "2026-01-02T03:04:05Z") prepared prepared-IsPrepared toy_body (codes "web")
      (codes "nixos") toy_plane refl refl web_contained web_published

day_number-civil_from_days_example :
    IsDate (civil_from_days 20000) × (day_number (civil_from_days 20000) ≡ 20000 + 719162)
day_number-civil_from_days_example = day_number-civil_from_days 20000

looks_like_timestamp-iso8601_utc_example : looks_like_timestamp (iso8601_utc 1700000000) ≡ true
looks_like_timestamp-iso8601_utc_example = looks_like_timestamp-iso8601_utc 1700000000 (omega arith)

abbrev options : List (Written PublishFlag)
options =
    record { flag = host_flag; value = codes "a=b"; is_inline = true }
    ∷ record { flag = plane_flag; value = codes "nixos"; is_inline = false }
    ∷ []

parse_args-arguments_example :
    parse_args (arguments publish_options options) ≡ take_all publish_options options no_args
parse_args-arguments_example = parse_args-arguments options
