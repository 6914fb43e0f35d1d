-- ===== src/PromoteCommand/Args.antt =====
-- `parse_args` and `parse_recover_args` of src/promote.rs.
use nixdeploy_corbet_ch.CommandLine.{Options, parse}
use nixdeploy_corbet_ch.PromoteCommand.{
  PromoteArgs, PromoteFlag, targets_option, origin_option, expected_base_option, host_option,
  plane_option, key_file_option, published_at_option, request_id_option, result_option,
  RequestFault, option_needs_value, option_required, request_plane_unknown, option_unknown,
  key_given, request_id_empty,
}
use nixdeploy_corbet_ch.Publish.Args.{plane_names}
use nixdeploy_corbet_ch.Base.{
  if◌then◌else◌, is_empty, Result, ok, err, ◌>>=◌, ok_or, ◌||◌, Option, none, some, List, [],
}
use nixdeploy_corbet_ch.Text.{Text, codes, ◌==◌, trim}
use nixdeploy_corbet_ch.Map.{contains, insert_text}

-- The variables of `parse_args`.
pub record RequestSoFar : Type 0 where
  pub targets_file : Option Text
  pub origin : Option Text
  pub expected_base : Option (Option Text)
  pub hosts : List Text
  pub planes : List Text
  pub signing_key_file : Option Text
  pub published_at : Option Text
  pub request_id : Option Text
  pub result_file : Option Text

abbrev pub no_request : RequestSoFar
no_request = record {
  targets_file = none;
  origin = none;
  expected_base = none;
  hosts = [];
  planes = [];
  signing_key_file = none;
  published_at = none;
  request_id = none;
  result_file = none;
}

abbrev pub request_flag_text : PromoteFlag → Text
request_flag_text targets_option = codes "--targets"
request_flag_text origin_option = codes "--origin"
request_flag_text expected_base_option = codes "--expected-base"
request_flag_text host_option = codes "--host"
request_flag_text plane_option = codes "--plane"
request_flag_text key_file_option = codes "--signing-key-file"
request_flag_text published_at_option = codes "--published-at"
request_flag_text request_id_option = codes "--request-id"
request_flag_text result_option = codes "--result"

unfoldable pub request_flag_of : Text → Result PromoteFlag RequestFault
request_flag_of flag =
    if flag == codes "--targets"
    then ok targets_option
    else if flag == codes "--origin"
    then ok origin_option
    else if flag == codes "--expected-base"
    then ok expected_base_option
    else if flag == codes "--host"
    then ok host_option
    else if flag == codes "--plane"
    then ok plane_option
    else if flag == codes "--signing-key-file"
    then ok key_file_option
    else if flag == codes "--published-at"
    then ok published_at_option
    else if flag == codes "--request-id"
    then ok request_id_option
    else if flag == codes "--result"
    then ok result_option
    else if flag == codes "--signing-key" || flag == codes "--key"
    then err key_given
    else err (option_unknown flag)

-- The word "none" asks for an origin without a stable release.
abbrev pub base_of : Text → Option Text
base_of v = if v == codes "none" then none else some v

-- A flag with its value.
unfoldable pub set_request_flag :
    PromoteFlag → Text → RequestSoFar → Result RequestSoFar RequestFault
set_request_flag targets_option v so_far = ok (record so_far { targets_file = some v })
set_request_flag origin_option v so_far = ok (record so_far { origin = some v })
set_request_flag expected_base_option v so_far =
    ok (record so_far { expected_base = some (base_of v) })
set_request_flag host_option v so_far = ok (record so_far { hosts = insert_text so_far.hosts v })
set_request_flag plane_option v so_far =
    if contains plane_names v
    then ok (record so_far { planes = insert_text so_far.planes v })
    else err (request_plane_unknown v)
set_request_flag key_file_option v so_far = ok (record so_far { signing_key_file = some v })
set_request_flag published_at_option v so_far = ok (record so_far { published_at = some v })
set_request_flag request_id_option v so_far = ok (record so_far { request_id = some v })
set_request_flag result_option v so_far = ok (record so_far { result_file = some v })

unfoldable pub check_request_id : Text → Result (Unit {0}) RequestFault
check_request_id request_id = if is_empty (trim request_id) then err request_id_empty else ok tt

unfoldable pub finish_request : RequestSoFar → Result PromoteArgs RequestFault
unfolding check_request_id
finish_request so_far = do
  request_id ← ok_or (option_required request_id_option) so_far.request_id
  id_there ← check_request_id request_id
  targets_file ← ok_or (option_required targets_option) so_far.targets_file
  origin ← ok_or (option_required origin_option) so_far.origin
  expected_base ← ok_or (option_required expected_base_option) so_far.expected_base
  signing_key_file ← ok_or (option_required key_file_option) so_far.signing_key_file
  result_file ← ok_or (option_required result_option) so_far.result_file
  ok (record {
    targets_file = targets_file;
    origin = origin;
    expected_base = expected_base;
    hosts = so_far.hosts;
    planes = so_far.planes;
    signing_key_file = signing_key_file;
    published_at = so_far.published_at;
    request_id = request_id;
    result_file = result_file;
  })

abbrev pub promote_options : Options
promote_options = record {
  Flag = PromoteFlag;
  Variables = RequestSoFar;
  Fault = RequestFault;
  Answer = PromoteArgs;
  flag_text = request_flag_text;
  flag_of = request_flag_of;
  needs_value = option_needs_value;
  start = no_request;
  set_flag = set_request_flag;
  finish = finish_request;
}

unfoldable pub parse_promote_args : List Text → Result PromoteArgs RequestFault
parse_promote_args args = parse promote_options args
