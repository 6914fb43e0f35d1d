-- ===== src/Publish/Args.antt =====
-- The options of `parse_args` of src/publish.rs.
pub mod Rendered
use nixdeploy_corbet_ch.CommandLine.{Options, parse}
use nixdeploy_corbet_ch.Publish.{
  PublishArgs, PublishFlag, targets_flag, base_manifest_flag, host_flag, plane_flag, revision_flag,
  built_at_flag, signing_key_file_flag, out_flag, UsageFault, needs_value, required, plane_unknown,
  unknown_flag, key_on_command_line,
}
use nixdeploy_corbet_ch.Base.{
  if◌then◌else◌, Result, ok, err, ◌>>=◌, ok_or, ◌||◌, Option, none, some, List, [], ◌∷◌,
}
use nixdeploy_corbet_ch.Text.{Text, codes, ◌==◌}
use nixdeploy_corbet_ch.Map.{contains, insert_text}

-- The variables of `parse_args`.
pub record ArgsSoFar : Type 0 where
  pub targets_file : Option Text
  pub base_manifest : Option Text
  pub hosts : List Text
  pub planes : List Text
  pub revision : Option Text
  pub built_at : Option Text
  pub signing_key_file : Option Text
  pub out : Option Text

abbrev pub no_args : ArgsSoFar
no_args = record {
  targets_file = none;
  base_manifest = none;
  hosts = [];
  planes = [];
  revision = none;
  built_at = none;
  signing_key_file = none;
  out = none;
}

abbrev pub flag_text : PublishFlag → Text
flag_text targets_flag = codes "--targets"
flag_text base_manifest_flag = codes "--base-manifest"
flag_text host_flag = codes "--host"
flag_text plane_flag = codes "--plane"
flag_text revision_flag = codes "--revision"
flag_text built_at_flag = codes "--built-at"
flag_text signing_key_file_flag = codes "--signing-key-file"
flag_text out_flag = codes "--out"

unfoldable pub flag_of : Text → Result PublishFlag UsageFault
flag_of flag =
    if flag == codes "--targets"
    then ok targets_flag
    else if flag == codes "--base-manifest"
    then ok base_manifest_flag
    else if flag == codes "--host"
    then ok host_flag
    else if flag == codes "--plane"
    then ok plane_flag
    else if flag == codes "--revision"
    then ok revision_flag
    else if flag == codes "--built-at"
    then ok built_at_flag
    else if flag == codes "--signing-key-file"
    then ok signing_key_file_flag
    else if flag == codes "--out"
    then ok out_flag
    else if flag == codes "--signing-key" || flag == codes "--key"
    then err key_on_command_line
    else err (unknown_flag flag)

abbrev pub plane_names : List Text
plane_names =
    codes "nixos" ∷ codes "system-manager" ∷ codes "home-manager" ∷ codes "nix-darwin" ∷ []

-- A flag with its value.
unfoldable pub set_flag : PublishFlag → Text → ArgsSoFar → Result ArgsSoFar UsageFault
set_flag targets_flag v so_far = ok (record so_far { targets_file = some v })
set_flag base_manifest_flag v so_far = ok (record so_far { base_manifest = some v })
set_flag host_flag v so_far = ok (record so_far { hosts = insert_text so_far.hosts v })
set_flag plane_flag v so_far =
    if contains plane_names v
    then ok (record so_far { planes = insert_text so_far.planes v })
    else err (plane_unknown v)
set_flag revision_flag v so_far = ok (record so_far { revision = some v })
set_flag built_at_flag v so_far = ok (record so_far { built_at = some v })
set_flag signing_key_file_flag v so_far = ok (record so_far { signing_key_file = some v })
set_flag out_flag v so_far = ok (record so_far { out = some v })

unfoldable pub finish_args : ArgsSoFar → Result PublishArgs UsageFault
finish_args so_far = do
  targets_file ← ok_or (required targets_flag) so_far.targets_file
  revision ← ok_or (required revision_flag) so_far.revision
  signing_key_file ← ok_or (required signing_key_file_flag) so_far.signing_key_file
  out ← ok_or (required out_flag) so_far.out
  ok (record {
    targets_file = targets_file;
    base_manifest = so_far.base_manifest;
    hosts = so_far.hosts;
    planes = so_far.planes;
    revision = revision;
    built_at = so_far.built_at;
    signing_key_file = signing_key_file;
    out = out;
  })

-- The flags of `publish`.
abbrev pub publish_options : Options
publish_options = record {
  Flag = PublishFlag;
  Variables = ArgsSoFar;
  Fault = UsageFault;
  Answer = PublishArgs;
  flag_text = flag_text;
  flag_of = flag_of;
  needs_value = needs_value;
  start = no_args;
  set_flag = set_flag;
  finish = finish_args;
}

unfoldable pub parse_args : List Text → Result PublishArgs UsageFault
parse_args args = parse publish_options args
