-- ===== src/CommandLine/Commands.antt =====
-- The arguments of the commands of src/promote.rs and src/verify_release.rs.

use nixdeploy_corbet_ch.CommandLine.Written.{Written, arguments, take_all, parse-arguments}
use nixdeploy_corbet_ch.PromoteCommand.{
  PromoteFlag, targets_option, origin_option, expected_base_option, host_option, plane_option,
  key_file_option, published_at_option, request_id_option, result_option,
}
use nixdeploy_corbet_ch.PromoteCommand.Args.{
  no_request, request_flag_text, request_flag_of, promote_options, parse_promote_args,
}
use nixdeploy_corbet_ch.PromoteCommand.Recovery.{
  RecoverFlag, recover_origin, recover_key_file, recover_flag_text, recover_flag_of,
  recover_options, parse_recover_args,
}
use nixdeploy_corbet_ch.VerifyRelease.{VerifyFlag, release_flag, public_key_flag}
use nixdeploy_corbet_ch.VerifyRelease.Args.{
  verify_flag_text, verify_flag_of, verify_options, parse_verify_args,
}
use nixdeploy_corbet_ch.Base.{eqb, all, ok, ◌≡◌, refl, true, not, List}
use nixdeploy_corbet_ch.Text.{◌==◌}

promote_flag_known : (flag : PromoteFlag) → request_flag_of (request_flag_text flag) ≡ ok flag
unfolding request_flag_of ◌==◌
promote_flag_known targets_option = refl
promote_flag_known origin_option = refl
promote_flag_known expected_base_option = refl
promote_flag_known host_option = refl
promote_flag_known plane_option = refl
promote_flag_known key_file_option = refl
promote_flag_known published_at_option = refl
promote_flag_known request_id_option = refl
promote_flag_known result_option = refl

promote_flag_plain :
    (flag : PromoteFlag) → all (λ c. not (eqb c b'=')) (request_flag_text flag) ≡ true
promote_flag_plain targets_option = refl
promote_flag_plain origin_option = refl
promote_flag_plain expected_base_option = refl
promote_flag_plain host_option = refl
promote_flag_plain plane_option = refl
promote_flag_plain key_file_option = refl
promote_flag_plain published_at_option = refl
promote_flag_plain request_id_option = refl
promote_flag_plain result_option = refl

recover_flag_known : (flag : RecoverFlag) → recover_flag_of (recover_flag_text flag) ≡ ok flag
unfolding recover_flag_of ◌==◌
recover_flag_known recover_origin = refl
recover_flag_known recover_key_file = refl

recover_flag_plain :
    (flag : RecoverFlag) → all (λ c. not (eqb c b'=')) (recover_flag_text flag) ≡ true
recover_flag_plain recover_origin = refl
recover_flag_plain recover_key_file = refl

verify_flag_known : (flag : VerifyFlag) → verify_flag_of (verify_flag_text flag) ≡ ok flag
unfolding verify_flag_of ◌==◌
verify_flag_known release_flag = refl
verify_flag_known public_key_flag = refl

verify_flag_plain : (flag : VerifyFlag) → all (λ c. not (eqb c b'=')) (verify_flag_text flag) ≡ true
verify_flag_plain release_flag = refl
verify_flag_plain public_key_flag = refl

-- The command lines of `promote`, `recover` and `verify-release`: known options, each written as one
-- argument with "=" or as two, whatever its value is, are understood as the options taken one after
-- the other.
pub commands-arguments :
    ((ws : List (Written PromoteFlag))
      → parse_promote_args (arguments promote_options ws) ≡ take_all promote_options ws no_request)
    × ((ws : List (Written RecoverFlag))
        → parse_recover_args (arguments recover_options ws)
          ≡ take_all recover_options ws recover_options.start)
    × ((ws : List (Written VerifyFlag))
        → parse_verify_args (arguments verify_options ws)
          ≡ take_all verify_options ws verify_options.start)
unfolding parse_promote_args parse_recover_args parse_verify_args
commands-arguments = (
  parse-arguments promote_options
      (record { known = promote_flag_known; plain = promote_flag_plain }),
  parse-arguments recover_options
      (record { known = recover_flag_known; plain = recover_flag_plain }),
  parse-arguments verify_options (record { known = verify_flag_known; plain = verify_flag_plain }),
)
