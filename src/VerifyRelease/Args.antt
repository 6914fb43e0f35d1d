-- ===== src/VerifyRelease/Args.antt =====
-- `parse_args` of src/verify_release.rs.
use nixdeploy_corbet_ch.CommandLine.{Options, parse}
use nixdeploy_corbet_ch.VerifyRelease.{
  VerifyReleaseArgs, VerifyFlag, release_flag, public_key_flag, VerifyFault, value_missing,
  flag_missing, flag_unknown, public_key_empty,
}
use nixdeploy_corbet_ch.Base.{
  if◌then◌else◌, is_empty, Result, ok, err, ◌>>=◌, ok_or, Option, none, some, List,
}
use nixdeploy_corbet_ch.Text.{Text, codes, ◌==◌, trim}

-- The variables of `parse_args`.
pub record VerifyArgsSoFar : Type 0 where
  pub release_file : Option Text
  pub public_key : Option Text

abbrev pub verify_flag_text : VerifyFlag → Text
verify_flag_text release_flag = codes "--release"
verify_flag_text public_key_flag = codes "--public-key"

unfoldable pub verify_flag_of : Text → Result VerifyFlag VerifyFault
verify_flag_of flag =
    if flag == codes "--release"
    then ok release_flag
    else if flag == codes "--public-key"
    then ok public_key_flag
    else err (flag_unknown flag)

abbrev pub set_verify_flag :
    VerifyFlag → Text → VerifyArgsSoFar → Result VerifyArgsSoFar VerifyFault
set_verify_flag release_flag v so_far = ok (record so_far { release_file = some v })
set_verify_flag public_key_flag v so_far = ok (record so_far { public_key = some v })

unfoldable pub check_key : Text → Result (Unit {0}) VerifyFault
check_key public_key = if is_empty (trim public_key) then err public_key_empty else ok tt

unfoldable pub finish_verify_args : VerifyArgsSoFar → Result VerifyReleaseArgs VerifyFault
unfolding check_key
finish_verify_args so_far = do
  public_key ← ok_or (flag_missing public_key_flag) so_far.public_key
  key_there ← check_key public_key
  release_file ← ok_or (flag_missing release_flag) so_far.release_file
  ok (record { release_file = release_file; public_key = public_key })

abbrev pub verify_options : Options
verify_options = record {
  Flag = VerifyFlag;
  Variables = VerifyArgsSoFar;
  Fault = VerifyFault;
  Answer = VerifyReleaseArgs;
  flag_text = verify_flag_text;
  flag_of = verify_flag_of;
  needs_value = value_missing;
  start = record { release_file = none; public_key = none };
  set_flag = set_verify_flag;
  finish = finish_verify_args;
}

unfoldable pub parse_verify_args : List Text → Result VerifyReleaseArgs VerifyFault
parse_verify_args args = parse verify_options args
