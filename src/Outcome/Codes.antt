-- ===== src/Outcome/Codes.antt =====
-- Exit codes, labels and the error test tell the same five cases apart.
use nixdeploy_corbet_ch.Outcome.{
  Outcome, converged, already_current, refused, reimaged, failed, outcome_labels, label, exit_code,
  is_error,
}
use nixdeploy_corbet_ch.Base.{
  if◌then◌else◌, ℕ, suc, ◌≤◌, ◌≡◌, refl, ◌↔◌, true, List, [], ◌∷◌, arith,
}
use nixdeploy_corbet_ch.Text.{Text, ◌==◌}

-- Exit codes are distinct as the labels are, lie in 0 to 4, and 4 is the errors' one.
pub exit_code-label :
    (a b : Outcome)
    → ((exit_code a ≡ exit_code b) ↔ (label a ≡ label b))
      × (exit_code a ≤ 4)
      × ((exit_code a ≡ 4) ↔ (is_error a ≡ true))
unfolding exit_code label is_error
exit_code-label a b = ground arith

unfoldable pub count_label : Outcome → List Text → ℕ
count_label o [] = 0
count_label o (l ∷ ls) = let rest = count_label o ls in if l == label o then suc rest else rest

-- Each outcome has exactly one of the labels that the metrics enumerate.
pub count_label-outcome_labels : (o : Outcome) → count_label o outcome_labels ≡ 1
unfolding count_label label ◌==◌
count_label-outcome_labels (converged from to) = refl
count_label-outcome_labels (already_current rev) = refl
count_label-outcome_labels (refused reason bytes ceiling) = refl
count_label-outcome_labels (reimaged role artifact image) = refl
count_label-outcome_labels (failed at_stage detail) = refl
