-- ===== src/PromoteCommand/Recovery.antt =====
-- `parse_recover_args` of src/promote.rs.
use nixdeploy_corbet_ch.CommandLine.{Options, parse}
use nixdeploy_corbet_ch.PromoteCommand.{RecoverArgs}
use nixdeploy_corbet_ch.Base.{
  if◌then◌else◌, Result, ok, err, ◌>>=◌, ok_or, ◌||◌, Option, none, some, List,
}
use nixdeploy_corbet_ch.Text.{Text, codes, ◌==◌}

pub data RecoverFlag : Type 0 where
  recover_origin recover_key_file : RecoverFlag

pub data RecoverFault : Type 0 where
  recover_value_missing recover_flag_missing : RecoverFlag → RecoverFault
  recover_flag_unknown : Text → RecoverFault
  recover_key_given : RecoverFault

-- The variables of `parse_recover_args`.
pub record RecoverySoFar : Type 0 where
  pub origin : Option Text
  pub signing_key_file : Option Text

abbrev pub recover_flag_text : RecoverFlag → Text
recover_flag_text recover_origin = codes "--origin"
recover_flag_text recover_key_file = codes "--signing-key-file"

unfoldable pub recover_flag_of : Text → Result RecoverFlag RecoverFault
recover_flag_of flag =
    if flag == codes "--origin"
    then ok recover_origin
    else if flag == codes "--signing-key-file"
    then ok recover_key_file
    else if flag == codes "--signing-key" || flag == codes "--key"
    then err recover_key_given
    else err (recover_flag_unknown flag)

abbrev pub set_recover_flag : RecoverFlag → Text → RecoverySoFar → Result RecoverySoFar RecoverFault
set_recover_flag recover_origin v so_far = ok (record so_far { origin = some v })
set_recover_flag recover_key_file v so_far = ok (record so_far { signing_key_file = some v })

unfoldable pub finish_recovery : RecoverySoFar → Result RecoverArgs RecoverFault
finish_recovery so_far = do
  origin ← ok_or (recover_flag_missing recover_origin) so_far.origin
  signing_key_file ← ok_or (recover_flag_missing recover_key_file) so_far.signing_key_file
  ok (record { origin = origin; signing_key_file = signing_key_file })

abbrev pub recover_options : Options
recover_options = record {
  Flag = RecoverFlag;
  Variables = RecoverySoFar;
  Fault = RecoverFault;
  Answer = RecoverArgs;
  flag_text = recover_flag_text;
  flag_of = recover_flag_of;
  needs_value = recover_value_missing;
  start = record { origin = none; signing_key_file = none };
  set_flag = set_recover_flag;
  finish = finish_recovery;
}

unfoldable pub parse_recover_args : List Text → Result RecoverArgs RecoverFault
parse_recover_args args = parse recover_options args
