-- ===== src/Publish/Args/Rendered.antt =====
-- `parse_args` of src/publish.rs understands every way to write a list of options.
use nixdeploy_corbet_ch.CommandLine.Written.{IsNamed, Written, arguments, take_all, parse-arguments}
use nixdeploy_corbet_ch.Publish.{
  PublishFlag, targets_flag, base_manifest_flag, host_flag, plane_flag, revision_flag,
  built_at_flag, signing_key_file_flag, out_flag,
}
use nixdeploy_corbet_ch.Publish.Args.{no_args, flag_text, flag_of, publish_options, parse_args}
use nixdeploy_corbet_ch.Base.{eqb, all, ok, ◌≡◌, refl, true, not, List}
use nixdeploy_corbet_ch.Text.{◌==◌}

flag_of-flag_text : (flag : PublishFlag) → flag_of (flag_text flag) ≡ ok flag
unfolding flag_of ◌==◌
flag_of-flag_text targets_flag = refl
flag_of-flag_text base_manifest_flag = refl
flag_of-flag_text host_flag = refl
flag_of-flag_text plane_flag = refl
flag_of-flag_text revision_flag = refl
flag_of-flag_text built_at_flag = refl
flag_of-flag_text signing_key_file_flag = refl
flag_of-flag_text out_flag = refl

flag_text_plain : (flag : PublishFlag) → all (λ c. not (eqb c b'=')) (flag_text flag) ≡ true
flag_text_plain targets_flag = refl
flag_text_plain base_manifest_flag = refl
flag_text_plain host_flag = refl
flag_text_plain plane_flag = refl
flag_text_plain revision_flag = refl
flag_text_plain built_at_flag = refl
flag_text_plain signing_key_file_flag = refl
flag_text_plain out_flag = refl

publish_options-IsNamed : IsNamed publish_options
publish_options-IsNamed = record { known = flag_of-flag_text; plain = flag_text_plain }

-- A command line of known options, each written as one argument with "=" or as two, whatever its
-- value is, is understood as the options taken one after the other.
pub parse_args-arguments :
    (ws : List (Written PublishFlag))
    → parse_args (arguments publish_options ws) ≡ take_all publish_options ws no_args
unfolding parse_args
parse_args-arguments ws = parse-arguments publish_options publish_options-IsNamed ws
