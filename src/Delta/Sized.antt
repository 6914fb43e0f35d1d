-- ===== src/Delta/Sized.antt =====
-- The size that `compute` answers.
use mathlib.Core.Option.{some-injective}
use nixdeploy_corbet_ch.Delta.{Delta, DeltaSources, Walk, visit, walk, compute}
use nixdeploy_corbet_ch.Delta.Fuel.{ok-injective, result_cases, visit-eq_ok}
use nixdeploy_corbet_ch.Base.{
  ok, ℕ, zero, suc, ◌≡◌, refl, subst, inl, inr, some, List, [], ◌∷◌, arith,
}
use nixdeploy_corbet_ch.Text.{Text}
use nixdeploy_corbet_ch.Text.Laws.{eq_sound, eq_refl}
use nixdeploy_corbet_ch.Delta.Closure.{Reaches, here, IsClosure}
use nixdeploy_corbet_ch.Delta.Invariant.{IsWalk, IsWalk-IsClosure, present_step}
use nixdeploy_corbet_ch.Delta.Absent.{absent_step}

module _ (sources : DeltaSources) (target : Text) where
  walk-IsClosure :
      (fuel : ℕ) (w : Walk) (queue : List Text) (d : Delta)
      → IsWalk sources target (record w { queue = queue })
      → walk sources fuel w queue ≡ some (ok d)
      → IsClosure sources target d
  unfolding walk
  walk-IsClosure fuel w [] d h e =
      subst (λ x. IsClosure sources target x) (ok-injective (some-injective _ _ e))
        (IsWalk-IsClosure sources target (record w { queue = [] }) h refl)
  walk-IsClosure zero w (path ∷ queue) d h e = cc
  walk-IsClosure (suc fuel) w (path ∷ queue) d h e =
      elim (result_cases (visit sources (record w { queue = queue }) path)) [
        | inr (x, v) ↦ cc (rw (v, walk) at e)
        | inl (w', v) ↦ walk-IsClosure fuel w' w'.queue d (next w' v) (rw (v, walk) at e)
      ]
    where
      next :
          (w' : Walk)
          → visit sources (record w { queue = queue }) path ≡ ok w'
          → IsWalk sources target w'
      next w' v = elim (visit-eq_ok sources (record w { queue = queue }) w' path v) [
        | inl (p, q) ↦
            subst (IsWalk sources target) q (present_step sources target w path queue h p)
        | inr (p, info, g, q) ↦
            subst (IsWalk sources target) q (absent_step sources target w path queue info h p g)
      ]

abbrev begin : Text → Walk
begin target = record { total = 0; missing = []; seen = target ∷ []; queue = target ∷ [] }

-- When the walk from a target ends with a size, its missing paths are absent from the local store,
-- reachable from the target over absent paths and listed once; the target, and whatever a missing
-- path refers to, is present or missing itself; and the bytes are the sum of the sizes that the
-- narinfos of the missing paths state, or 2^64 - 1 if that is less.
pub compute-IsClosure :
    (sources : DeltaSources) (fuel : ℕ) (target : Text) (d : Delta)
    → compute sources fuel target ≡ some (ok d)
    → IsClosure sources target d
unfolding compute
compute-IsClosure sources fuel target d e =
    walk-IsClosure sources target fuel (begin target) (target ∷ []) d
      (record {
        begun = ground (arith, eq_refl target);
        settled = λ p m. inr m;
        absent = λ p m. cc;
        followed = λ p r info m g q. cc;
        reached =
            λ p m. subst (Reaches sources target) (eq_sound target p (ground (arith, m))) here;
        queued = record { listed = λ p m. m; once = refl };
        size = refl;
      })
      e
