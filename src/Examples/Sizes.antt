-- ===== src/Examples/Sizes.antt =====
-- The theorems on sizes, at a store that has one of three paths, two of which refer to each other.
use nixdeploy_corbet_ch.Metrics.{timestamp_name, delta_name, owed_name, render}
use nixdeploy_corbet_ch.Metrics.Samples.{samples, outcome_samples, samples-render}
use nixdeploy_corbet_ch.Digits.{show}
use nixdeploy_corbet_ch.World.{RunReport}
use nixdeploy_corbet_ch.Outcome.{already_current, outcome_labels}
use nixdeploy_corbet_ch.Delta.{
  Narinfo, Delta, DeltaError, DeltaSources, enqueue, enqueue_all, visit, walk, compute,
}
use nixdeploy_corbet_ch.Delta.Fuel.{ok-injective, compute-ends}
use nixdeploy_corbet_ch.Delta.Closure.{IsClosure}
use nixdeploy_corbet_ch.Delta.Sized.{compute-IsClosure}
use nixdeploy_corbet_ch.Base.{
  if◌then◌else◌, Bool-cases, all, Result, ok, ◌≡◌, refl, subst, inl, inr, true, false, none, some,
  List, [], ◌∷◌, ◌++◌, arith,
}
use nixdeploy_corbet_ch.Text.{Text, codes, ◌==◌}
use nixdeploy_corbet_ch.Map.{contains}

abbrev system : Text
system = codes "system"

abbrev library : Text
library = codes "library"

abbrev shell : Text
shell = codes "shell"

abbrev paths : List Text
paths = system ∷ library ∷ shell ∷ []

abbrev system_info : Narinfo
system_info = record { nar_size = 100; references = library ∷ shell ∷ [] }

abbrev library_info : Narinfo
library_info = record { nar_size = 20; references = system ∷ library ∷ [] }

abbrev half_present : DeltaSources
half_present = record {
  is_present = λ p. ok (p == shell);
  fetch = λ p. ok (if p == system then system_info else library_info);
}

half_present-named :
    (path : Text) (info : Narinfo)
    → half_present.fetch path ≡ ok info
    → all (contains paths) info.references ≡ true
unfolding ◌==◌
half_present-named path info h = elim (Bool-cases (path == system)) [
  | inl e ↦
      subst (λ (i : Narinfo). all (contains paths) i.references ≡ true) (ok-injective (rw e at h))
        refl
  | inr e ↦
      subst (λ (i : Narinfo). all (contains paths) i.references ≡ true) (ok-injective (rw e at h))
        refl
]

compute-ends_example : (r : Result Delta DeltaError) × (compute half_present 3 system ≡ some r)
unfolding ◌==◌
compute-ends_example =
    compute-ends half_present paths half_present-named 3 system refl (omega arith)

half_present-sized :
    compute half_present 3 system
    ≡ some (ok (record { bytes = 120; missing = system ∷ library ∷ [] }))
unfolding compute walk visit enqueue_all enqueue ◌==◌
half_present-sized = refl

compute-IsClosure_example :
    IsClosure half_present system (record { bytes = 120; missing = system ∷ library ∷ [] })
compute-IsClosure_example =
    compute-IsClosure half_present 3 system
      (record { bytes = 120; missing = system ∷ library ∷ [] }) half_present-sized

abbrev sized_report : RunReport
sized_report = record {
  outcome = already_current (codes "/nix/store/0123456789abcdfghijklmnpqrsvwxyz-new");
  delta_bytes = some 0;
  ceiling = none;
  reimage_owed = false;
  timestamp = 1700000000;
}

samples-render_example :
    samples (render sized_report)
    ≡ (timestamp_name, show 1700000000)
      ∷ (outcome_samples sized_report.outcome outcome_labels
          ++ ((delta_name, show 0) ∷ (owed_name, codes "0") ∷ []))
samples-render_example = samples-render sized_report
