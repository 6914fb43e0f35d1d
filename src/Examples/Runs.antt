-- ===== src/Examples/Runs.antt =====
-- The theorems on runs, at a machine whose state is its current system.
use nixdeploy_corbet_ch.Examples.{
  toy_crypto, old_system, new_system, toy_plane, toy_wire, toy_body, toy_key, toy_signature,
}
use nixdeploy_corbet_ch.Backend.{nixos, backend_eq, primary, option_eq}
use nixdeploy_corbet_ch.Release.{Codec}
use nixdeploy_corbet_ch.Command.{ran, attempt_succeeded, split_command}
use nixdeploy_corbet_ch.Delta.{
  DeltaSources, enqueue, enqueue_all, visit, walk, compute, exceeds_ceiling,
}
use nixdeploy_corbet_ch.World.{
  printed, no_such_file, Os, to_roll_back, to_reimage, fetched, World, ◌>>=◌, pure, act, ask,
  measure, measured_now, or_exit, note, with_error, attempt,
}
use nixdeploy_corbet_ch.Activate.{
  captured_text, gate_verdict, run_raw, run_capturing, current_path, activate, gate_command,
  run_health_gate,
}
use nixdeploy_corbet_ch.Outcome.{converged}
use nixdeploy_corbet_ch.Receive.{ReceiverConfig, Setting}
use nixdeploy_corbet_ch.Receive.Converge.{
  store_query_is_unreliable, outcome_of, refuse_pinned, size, clear_pin, judge, after_attempt,
  become, within_ceiling, change, converge, settle_debt, run_configured, run_with,
}
use nixdeploy_corbet_ch.Receive.Log.{within}
use nixdeploy_corbet_ch.Select.{Target, target_of_plane}
use nixdeploy_corbet_ch.Receive.Reimage.{report}
use nixdeploy_corbet_ch.Receive.State.{
  rejected_of, owed_of, read_state, load_rejected_target, load_reimage_owed,
}
use nixdeploy_corbet_ch.Receive.Resolve.{
  fetch, fetch_detached, fetch_and_verify, check_target, check_artifact, check_compatibility,
  resolve,
}
use nixdeploy_corbet_ch.Receive.Grounds.{IsReached}
use nixdeploy_corbet_ch.Examples.Documents.{toy_selects}
use nixdeploy_corbet_ch.Receive.Order.{Ordered}
use nixdeploy_corbet_ch.Receive.Before.{Moment}
use nixdeploy_corbet_ch.Receive.Permits.{permits}
use nixdeploy_corbet_ch.Receive.Guards.{writes_pin, writes_debt, activates, reports_refusal}
use nixdeploy_corbet_ch.Receive.Run.{
  run_with-permits, run_with-debt_first, run_with-pin_first, run_with-IsReached,
}
use nixdeploy_corbet_ch.Base.{
  if◌then◌else◌, Result, ok, err, ℕ, ◌≡◌, refl, true, false, not, Option, none, some, List, [], ◌∷◌,
}
use nixdeploy_corbet_ch.Text.{Text, codes, ◌==◌, trim, strip_prefix, starts_with}

abbrev done : Text → Result (Unit {0}) Text × Text
done m = (ok tt, m)

abbrev last_or : Text → List Text → Text
last_or m [] = m
last_or m (a ∷ args) = last_or a args

abbrev toy_sources : DeltaSources
toy_sources = record {
  is_present = λ p. ok (p == old_system);
  fetch = λ p. ok (record { nar_size = 100; references = [] });
}

-- "switch" makes its last argument the current system, "false" fails, and the manifest is at "u".
abbrev pub toy_os : Os
toy_os = record {
  Machine = Text;
  status = λ bin args m.
      if bin == codes "switch"
      then (ran (some 0) true, last_or m args)
      else (ran (some 0) (not (bin == codes "false")), m);
  output = λ bin args m. (printed true m, m);
  get_url = λ url m. (ok (if url == codes "u" then toy_body else toy_signature), m);
  hostname = λ m. ok (codes "web");
  now_unix = λ m. 5;
  process_id = 42;
  create_dir_all = λ d m. done m;
  read_file = λ p m. (no_such_file, m);
  create_file = λ p m. done m;
  write_all = λ p b m. done m;
  set_permissions = λ p n m. done m;
  sync_all = λ p m. done m;
  rename = λ a b m. done m;
  delta_sources = λ m. ok toy_sources;
  compatibility_facts = λ m. ok (codes "x86_64-linux", codes "2.24");
  remove_file = λ p m. (ok false, m);
  create_new = λ p m. done m;
  hard_link = λ a b m. done m;
  sync_dir = λ d m. done m;
  file_exists = λ p m. false;
  read_dir = λ d m. (ok [], m);
  open_lock = λ p m. done m;
  lock_exclusive = λ p m. done m;
  unlock = λ p m. (tt, m);
  read_to_string = λ p m. (err [], m);
  file_mode = λ p m. none;
}

abbrev pub unread {ℓ} : {A : Type ℓ} → Codec A
unread = record { encode = λ a. []; decode = λ b. none }

abbrev pub toy_setting : Setting
toy_setting = record {
  os = toy_os;
  crypto = toy_crypto;
  wire = toy_wire;
  rejected_form = unread;
  owed_form = unread;
  rounds = 8;
}

abbrev pub toy_config : Option ℕ → Text → ReceiverConfig
toy_config ceiling gate = record {
  url = codes "u";
  public_key = toy_key;
  plane = record { name = codes "nixos"; backend = nixos; identity = none };
  state_directory = codes "/var/lib/nixdeploy";
  max_inplace_delta_bytes = ceiling;
  activation = record {
    activate = codes "switch";
    current_path = codes "current";
    rollback = some (codes "switch");
  };
  health_gate = gate ∷ [];
  reimage = some (record { command = codes "reimage"; role = primary });
  boot_role_reconcile = none;
}

abbrev pub toy_world : World toy_os
toy_world = record {
  machine = old_system;
  events = [];
  measured = record { delta_bytes = none; ceiling = none; reimage_owed = false };
}

run_with-permits_example :
    within
      (permits
        (outcome_of (run_with toy_setting (ok (toy_config none (codes "true"))) toy_world).0))
      (run_with toy_setting (ok (toy_config none (codes "true"))) toy_world).1.events
    ≡ true
run_with-permits_example =
    run_with-permits toy_setting (ok (toy_config none (codes "true"))) toy_world refl

run_with-debt_first_example :
    Ordered {I = Moment toy_setting (toy_config (some 50) (codes "true"))} to_reimage
      (λ i. reports_refusal)
      (λ i. writes_debt toy_setting (toy_config (some 50) (codes "true")) i.0 i.2)
      (run_with toy_setting (ok (toy_config (some 50) (codes "true"))) toy_world).1.events
run_with-debt_first_example =
    run_with-debt_first toy_setting (toy_config (some 50) (codes "true")) toy_world refl

run_with-pin_first_example :
    Ordered {I = Moment toy_setting (toy_config none (codes "false"))} to_roll_back
      (λ i. writes_pin toy_setting (toy_config none (codes "false")) i.0.store_path i.2)
      (λ i. activates i.0.store_path)
      (run_with toy_setting (ok (toy_config none (codes "false"))) toy_world).1.events
run_with-pin_first_example =
    run_with-pin_first toy_setting (toy_config none (codes "false")) toy_world refl

trimmed : trim toy_signature ≡ toy_signature
unfolding trim
trimmed = refl

abbrev published_target : Target
published_target = target_of_plane (codes "nixos") toy_plane

-- The manifest and its signature were fetched.
abbrev resolved : World toy_setting.os
resolved = record toy_world { events = fetched (codes "u.sig") ∷ fetched (codes "u") ∷ [] }

new_resolved :
    resolve toy_setting (toy_config none (codes "true")) toy_world ≡ (ok published_target, resolved)
unfolding resolve ◌>>=◌ ask or_exit with_error fetch_and_verify fetch fetch_detached act ◌==◌
    check_target check_compatibility check_artifact pure target_of_plane backend_eq option_eq
new_resolved = rw trimmed (rw toy_selects refl)

reaches_new :
    outcome_of (run_with toy_setting (ok (toy_config none (codes "true"))) toy_world).0
    ≡ converged old_system new_system
unfolding run_with run_configured settle_debt converge change within_ceiling size refuse_pinned
    become after_attempt judge clear_pin store_query_is_unreliable load_rejected_target
    load_reimage_owed read_state rejected_of owed_of report compute walk visit enqueue_all enqueue
    strip_prefix starts_with target_of_plane activate current_path run_capturing run_raw
    run_health_gate gate_command gate_verdict split_command captured_text trim attempt_succeeded
    exceeds_ceiling ◌==◌ ◌>>=◌ pure act ask or_exit with_error attempt measure measured_now note
reaches_new = rw new_resolved refl

run_with-IsReached_example :
    IsReached toy_setting
      (toy_config none (codes "true"))
      old_system
      new_system
      (run_with toy_setting (ok (toy_config none (codes "true"))) toy_world).1.events
run_with-IsReached_example =
    run_with-IsReached toy_setting (toy_config none (codes "true")) toy_world old_system new_system
      refl reaches_new
