-- ===== src/Metrics/Samples.antt =====
-- What a scraper reads from the text of `render` of src/metrics.rs.

use nixdeploy_corbet_ch.Metrics.{
  line, headed, series, gauge, bit, timestamp_name, outcome_name, delta_name, ceiling_name,
  owed_name, timestamp_help, outcome_help, delta_help, ceiling_help, owed_help, outcome_series,
  outcome_lines, measured_gauge, render,
}
use nixdeploy_corbet_ch.Digits.{digits_of, show}
use nixdeploy_corbet_ch.Outcome.{Outcome, outcome_labels, label}
use nixdeploy_corbet_ch.World.{RunReport}
use nixdeploy_corbet_ch.Base.{
  ltb, eqb, if◌then◌else◌, Bool-cases, all, All, ℕ, zero, suc, ◌+◌, ◌/◌, ◌%◌, ◌≡◌, refl, ap, ◌∙◌,
  inl, inr, Bool, true, false, not, Option, none, some, List, [], ◌∷◌, ◌++◌, arith,
}
use nixdeploy_corbet_ch.Text.{Text, codes, ◌==◌, strip_prefix, starts_with, split_once, split}
use nixdeploy_corbet_ch.Text.Laws.{split_once-append_self}

-- A line that is no comment is a series and its value, cut at the first blank.
unfoldable pub sample_of : Text → List (Text × Text)
sample_of l =
    if starts_with l (codes "#")
    then []
    else elim (split_once l b' ') [ none ↦ [] | some p ↦ p ∷ [] ]

unfoldable pub samples_of : List Text → List (Text × Text)
unfolding sample_of
samples_of [] = []
samples_of (l ∷ ls) = sample_of l ++ samples_of ls

-- The samples of an exposition text.
unfoldable pub samples : Text → List (Text × Text)
unfolding samples_of
samples text = samples_of (split text b'\n')

abbrev pub one_line : Text → Bool
one_line l = all (λ c. not (eqb c b'\n')) l

split-line : (l rest : Text) → one_line l ≡ true → split (line l rest) b'\n' ≡ l ∷ split rest b'\n'
unfolding split
split-line [] rest h = refl
split-line (c ∷ l) rest h = elim (Bool-cases (eqb c b'\n')) [
  | inl e ↦ absurd (ground (arith, e, h))
  | inr e ↦
      rw e
        (let later : one_line l ≡ true = ground (arith, e, h) in rw (split-line l rest later) refl)
]

samples-line :
    (l rest : Text) → one_line l ≡ true → samples (line l rest) ≡ sample_of l ++ samples rest
unfolding samples samples_of
samples-line l rest h = rw (split-line l rest h) refl

all-append : (p : ℕ → Bool) (s t : Text) → all p s ≡ true → all p t ≡ true → all p (s ++ t) ≡ true
all-append p [] t h k = k
all-append p (c ∷ s) t h k = ground (arith, all-append p s t, h, k)

digits_of-one_line : (fuel n : ℕ) → one_line (digits_of fuel n) ≡ true
unfolding digits_of
digits_of-one_line zero n = refl
digits_of-one_line (suc fuel) n =
    all-append _ (if ltb n 10 then [] else digits_of fuel (n / 10)) ((b'0' + n % 10) ∷ [])
      (ground (arith, digits_of-one_line fuel (n / 10))) (ground arith)

-- The name of a series.
record IsName (name : Text) : Type 0 where
  short : one_line name ≡ true
  no_blank : all (λ c. not (eqb c b' ')) name ≡ true
  no_comment : (value : Text) → starts_with (name ++ b' ' ∷ value) (codes "#") ≡ false

samples-series :
    (name value rest : Text)
    → IsName name
    → one_line value ≡ true
    → samples (series name value rest) ≡ (name, value) ∷ samples rest
unfolding series sample_of
samples-series name value rest n v =
    samples-line (name ++ b' ' ∷ value) rest (all-append _ name (b' ' ∷ value) n.short v)
    ∙ rw (n.no_comment value) (rw (split_once-append_self name b' ' value n.no_blank) refl)

samples-comment :
    (l rest : Text) → one_line l ≡ true → samples (line (b'#' ∷ l) rest) ≡ samples rest
unfolding sample_of starts_with strip_prefix
samples-comment l rest h = samples-line (b'#' ∷ l) rest h

samples-headed :
    (name help rest : Text)
    → one_line name ≡ true
    → one_line help ≡ true
    → samples (headed name help rest) ≡ samples rest
unfolding headed
samples-headed name help rest n h =
    samples-comment (codes " HELP " ++ (name ++ b' ' ∷ help))
      (line (codes "# TYPE " ++ (name ++ codes " gauge")) rest)
      (all-append _ name (b' ' ∷ help) n h)
    ∙ samples-comment (codes " TYPE " ++ (name ++ codes " gauge")) rest
        (all-append _ name (codes " gauge") n refl)

samples-gauge :
    (name help value rest : Text)
    → IsName name
    → one_line help ≡ true
    → one_line value ≡ true
    → samples (gauge name help value rest) ≡ (name, value) ∷ samples rest
unfolding gauge
samples-gauge name help value rest n h v =
    samples-headed name help (series name value rest) n.short h ∙ samples-series name value rest n v

bit-one_line : (b : Bool) → one_line (bit b) ≡ true
bit-one_line true = refl
bit-one_line false = refl

-- The sample of a measurement, if there is one.
abbrev pub measured_sample : Text → Option ℕ → List (Text × Text)
measured_sample name none = []
measured_sample name (some n) = (name, show n) ∷ []

samples-measured_gauge :
    (name help : Text) (o : Option ℕ) (rest : Text)
    → IsName name
    → one_line help ≡ true
    → samples (measured_gauge name help o rest) ≡ measured_sample name o ++ samples rest
unfolding measured_gauge show
samples-measured_gauge name help none rest n h = refl
samples-measured_gauge name help (some k) rest n h =
    samples-gauge name help (show k) rest n h (digits_of-one_line 20 k)

-- One series for each label, which is 1 for the outcome's own label and 0 for the others.
abbrev pub outcome_samples : Outcome → List Text → List (Text × Text)
outcome_samples o [] = []
outcome_samples o (l ∷ ls) = (outcome_series l, bit (l == label o)) ∷ outcome_samples o ls

samples-outcome_lines :
    (o : Outcome) (ls : List Text) (rest : Text)
    → All (λ l. IsName (outcome_series l)) ls
    → samples (outcome_lines o ls rest) ≡ outcome_samples o ls ++ samples rest
unfolding outcome_lines
samples-outcome_lines o [] rest n = refl
samples-outcome_lines o (l ∷ ls) rest n =
    samples-series (outcome_series l) (bit (l == label o)) (outcome_lines o ls rest) n.0
      (bit-one_line (l == label o))
    ∙ rw (samples-outcome_lines o ls rest n.1) refl

timestamp_name-IsName : IsName timestamp_name
unfolding starts_with strip_prefix
timestamp_name-IsName = record { short = refl; no_blank = refl; no_comment = λ v. refl }

delta_name-IsName : IsName delta_name
unfolding starts_with strip_prefix
delta_name-IsName = record { short = refl; no_blank = refl; no_comment = λ v. refl }

ceiling_name-IsName : IsName ceiling_name
unfolding starts_with strip_prefix
ceiling_name-IsName = record { short = refl; no_blank = refl; no_comment = λ v. refl }

owed_name-IsName : IsName owed_name
unfolding starts_with strip_prefix
owed_name-IsName = record { short = refl; no_blank = refl; no_comment = λ v. refl }

outcome_series-IsName : All (λ l. IsName (outcome_series l)) outcome_labels
unfolding starts_with strip_prefix
outcome_series-IsName = (
  record { short = refl; no_blank = refl; no_comment = λ v. refl },
  (
    record { short = refl; no_blank = refl; no_comment = λ v. refl },
    (
      record { short = refl; no_blank = refl; no_comment = λ v. refl },
      (
        record { short = refl; no_blank = refl; no_comment = λ v. refl },
        (record { short = refl; no_blank = refl; no_comment = λ v. refl }, tt),
      ),
    ),
  ),
)

samples_empty : samples [] ≡ []
unfolding samples samples_of sample_of split starts_with strip_prefix split_once
samples_empty = refl

samples-owed :
    (owed : Bool) → samples (gauge owed_name owed_help (bit owed) []) ≡ (owed_name, bit owed) ∷ []
samples-owed owed =
    samples-gauge owed_name owed_help (bit owed) [] owed_name-IsName refl (bit-one_line owed)
    ∙ ap (λ rest. (owed_name, bit owed) ∷ rest) samples_empty

-- A scraper reads exactly these samples from a report's text: the time, a series for each of the
-- outcome labels that is 1 for the run's own and 0 for the others, the measured bytes and the ceiling
-- if there are any, and whether a replacement is owed.
pub samples-render :
    (report : RunReport)
    → samples (render report)
      ≡ (timestamp_name, show report.timestamp)
        ∷ (outcome_samples report.outcome outcome_labels
            ++ (measured_sample delta_name report.delta_bytes
                ++ (measured_sample ceiling_name report.ceiling
                    ++ (owed_name, bit report.reimage_owed) ∷ [])))
unfolding render show
samples-render report =
    samples-gauge timestamp_name timestamp_help (show report.timestamp) _ timestamp_name-IsName refl
      (digits_of-one_line 20 report.timestamp)
    ∙ ap (λ rest. (timestamp_name, show report.timestamp) ∷ rest)
        (samples-headed outcome_name outcome_help _ refl refl
          ∙ samples-outcome_lines report.outcome outcome_labels _ outcome_series-IsName
          ∙ ap (λ rest. outcome_samples report.outcome outcome_labels ++ rest)
              (samples-measured_gauge delta_name delta_help report.delta_bytes _ delta_name-IsName
                  refl
                ∙ ap (λ rest. measured_sample delta_name report.delta_bytes ++ rest)
                    (samples-measured_gauge ceiling_name ceiling_help report.ceiling _
                        ceiling_name-IsName refl
                      ∙ ap (λ rest. measured_sample ceiling_name report.ceiling ++ rest)
                          (samples-owed report.reimage_owed))))
