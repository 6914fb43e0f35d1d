-- ===== src/Examples/Requests.antt =====
-- The commands of a release service on small disks: a promotion and the inventory of a release.
use nixdeploy_corbet_ch.Examples.{toy_crypto}
use nixdeploy_corbet_ch.Examples.Releases.{set, published_at, forms}
use nixdeploy_corbet_ch.Examples.Promotions.{store_forms}
use nixdeploy_corbet_ch.Examples.Disk.{disk_os, disk_laws}
use nixdeploy_corbet_ch.World.{World}
use nixdeploy_corbet_ch.World.Triple.{Ends}
use nixdeploy_corbet_ch.Publish.{path_of}
use nixdeploy_corbet_ch.VerifyRelease.{VerifyReleaseArgs, verify_file}
use nixdeploy_corbet_ch.VerifyRelease.Verified.{IsVerdict, verify_file-IsVerdict}
use nixdeploy_corbet_ch.PromoteCommand.{PromoteArgs, Promoter, promote_command}
use nixdeploy_corbet_ch.PromoteCommand.Terminal.{
  IsTerminal, IsUndone, IsStart, promote_command-IsTerminal,
}
use nixdeploy_corbet_ch.Store.{channel_path}
use nixdeploy_corbet_ch.Base.{if◌then◌else◌, refl, inl, false, none, some, []}
use nixdeploy_corbet_ch.Text.{codes, ◌==◌}

-- The files of a promotion's request.
abbrev request_files : World (disk_os [])
request_files = record {
  machine = λ p.
      if p.name == codes "key"
      then some (codes "k:;")
      else if p.name == codes "targets.json"
      then some (codes "{}")
      else none;
  events = [];
  measured = record { delta_bytes = none; ceiling = none; reimage_owed = false };
}

abbrev promoter : Promoter
promoter = record {
  os = disk_os [];
  crypto = toy_crypto;
  forms = store_forms;
  candidates = record { encode = λ a. []; decode = λ b. some set.hosts };
  results = record { encode = λ a. codes "done"; decode = λ b. none };
}

abbrev promote_args : PromoteArgs
promote_args = record {
  targets_file = codes "targets.json";
  origin = codes "/srv";
  expected_base = none;
  hosts = [];
  planes = [];
  signing_key_file = codes "key";
  published_at = some published_at;
  request_id = codes "7";
  result_file = codes "results/7.json";
}

no_channel : IsStart promoter (disk_laws []) promote_args request_files.machine
unfolding channel_path ◌==◌
no_channel name key known = inl refl

promote_command-IsTerminal_example :
    Ends
      (λ result s. IsTerminal promoter (disk_laws []) promote_args request_files.machine result s)
      (λ e s. IsUndone promoter (disk_laws []) promote_args request_files.machine s)
      (promote_command promoter promote_args 5 request_files).0
      (promote_command promoter promote_args 5 request_files).1.machine
promote_command-IsTerminal_example =
    promote_command-IsTerminal promoter (disk_laws []) promote_args 5 request_files no_channel

-- A disk that holds a release.
abbrev release_file : World (disk_os [])
release_file = record request_files { machine = λ p. some [] }

abbrev verify_args : VerifyReleaseArgs
verify_args = record {
  release_file = codes "release.json";
  public_key = toy_crypto.encode64 (toy_crypto.key_bytes 7);
}

verify_file-IsVerdict_example :
    IsVerdict
      (disk_os [])
      toy_crypto
      forms
      verify_args
      ((disk_os []).read_file (path_of verify_args.release_file) release_file.machine).0
      (verify_file (disk_os []) toy_crypto forms verify_args release_file).0
verify_file-IsVerdict_example =
    verify_file-IsVerdict (disk_os []) toy_crypto forms verify_args release_file
