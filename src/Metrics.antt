-- ===== src/Metrics.antt =====
-- src/metrics.rs: the exposition text of one run's report.
pub mod Samples
use nixdeploy_corbet_ch.Digits.{show}
use nixdeploy_corbet_ch.Outcome.{Outcome, outcome_labels, label}
use nixdeploy_corbet_ch.World.{RunReport}
use nixdeploy_corbet_ch.Base.{
  if◌then◌else◌, all, ℕ, Bool, not, Option, none, some, List, [], ◌∷◌, ◌++◌,
}
use nixdeploy_corbet_ch.Text.{Text, codes, ◌==◌}

-- `writeln!`, before the lines that follow.
abbrev pub line : Text → Text → Text
line l rest = l ++ b'\n' ∷ rest

-- The comments before a metric.
unfoldable pub headed : Text → Text → Text → Text
headed name help rest =
    line (codes "# HELP " ++ (name ++ b' ' ∷ help))
      (line (codes "# TYPE " ++ (name ++ codes " gauge")) rest)

-- One series of a metric.
unfoldable pub series : Text → Text → Text → Text
series name value rest = line (name ++ b' ' ∷ value) rest

unfoldable pub gauge : Text → Text → Text → Text → Text
unfolding headed series
gauge name help value rest = headed name help (series name value rest)

-- `u8::from`
abbrev pub bit : Bool → Text
bit b = if b then codes "1" else codes "0"

abbrev pub timestamp_name : Text
timestamp_name = codes "nixdeploy_run_timestamp_seconds"

abbrev pub outcome_name : Text
outcome_name = codes "nixdeploy_run_outcome"

abbrev pub delta_name : Text
delta_name = codes "nixdeploy_delta_bytes"

abbrev pub ceiling_name : Text
ceiling_name = codes "nixdeploy_delta_ceiling_bytes"

abbrev pub owed_name : Text
owed_name = codes "nixdeploy_reimage_owed"

abbrev pub timestamp_help : Text
timestamp_help =
    codes
      "UNIX time of the most recent nixdeploy run on this machine. Always emitted, whatever the outcome: a machine that stops reporting this is the failure mode an outcome-only metric cannot express."

abbrev pub outcome_help : Text
outcome_help =
    codes
      "The outcome of the most recent run: 1 on the outcome that happened, 0 on every other, so a previous run's answer is retired rather than left standing on a sink that never expires a series."

abbrev pub delta_help : Text
delta_help =
    codes
      "Bytes of new store paths this run measured against this machine's own store. Absent when the run ended before measuring; 0 means measured and nothing to fetch."

abbrev pub ceiling_help : Text
ceiling_help =
    codes
      "The in-place ceiling in force on this machine. Absent when no ceiling is configured, which is a deliberate setting and not an unknown value."

abbrev pub owed_help : Text
owed_help =
    codes
      "1 when this machine's delta exceeded its ceiling and it therefore cannot converge in place. Stays 1 after a reimage has been requested, because the request is all the receiver can observe; only a later run that converges clears it."

-- `nixdeploy_run_outcome{outcome="<label>"}`
abbrev pub outcome_series : Text → Text
outcome_series l = outcome_name ++ (codes "{outcome=\"" ++ (l ++ codes "\"}"))

unfoldable pub outcome_lines : Outcome → List Text → Text → Text
unfolding series
outcome_lines outcome [] rest = rest
outcome_lines outcome (l ∷ ls) rest =
    series (outcome_series l) (bit (l == label outcome)) (outcome_lines outcome ls rest)

-- A metric that is there only if it was measured.
unfoldable pub measured_gauge : Text → Text → Option ℕ → Text → Text
unfolding gauge
measured_gauge name help none rest = rest
measured_gauge name help (some n) rest = gauge name help (show n) rest

unfoldable pub render : RunReport → Text
unfolding gauge headed outcome_lines measured_gauge
render report = gauge timestamp_name timestamp_help (show report.timestamp) (
    headed outcome_name outcome_help (
      outcome_lines report.outcome outcome_labels (
        measured_gauge delta_name delta_help report.delta_bytes (
          measured_gauge ceiling_name ceiling_help report.ceiling
            (gauge owed_name owed_help (bit report.reimage_owed) [])))))
