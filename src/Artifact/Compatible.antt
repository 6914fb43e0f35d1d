-- ===== src/Artifact/Compatible.antt =====
-- What the compatibility check promises, and which of its errors a validated artifact can meet.
use nixdeploy_corbet_ch.Artifact.{ArtifactRequirements, check}
use nixdeploy_corbet_ch.Version.{parse_version}
use nixdeploy_corbet_ch.Version.Order.{below, version_less_than-below}
use nixdeploy_corbet_ch.Base.{Option-cases, ok, ℕ, ◌≡◌, ◌↔◌, inl, inr, false, some, List, arith}
use nixdeploy_corbet_ch.Text.{Text}
use nixdeploy_corbet_ch.Text.Laws.{eq_iff}

-- The receiver runs the required system, both versions can be read, and its version is not below
-- the required one in the padded order.
pub record IsCompatible (r : ArtifactRequirements) (system store_version : Text) : Type 0 where
  pub same_system : r.system ≡ system
  pub required : List ℕ
  pub required_read : parse_version r.minimum_store_version ≡ some required
  pub actual : List ℕ
  pub actual_read : parse_version store_version ≡ some actual
  pub recent : below actual required ≡ false

pub check-IsCompatible :
    (r : ArtifactRequirements) (system store_version : Text)
    → check r system store_version ≡ ok tt
    → IsCompatible r system store_version
unfolding check
check-IsCompatible r system store_version h =
    elim (Option-cases (parse_version r.minimum_store_version)) [
      | inl e ↦ ground (arith, e)
      | inr (required, e) ↦ elim (Option-cases (parse_version store_version)) [
        | inl f ↦ ground (arith, e, f)
        | inr (actual, f) ↦ record {
          same_system = ground (arith, eq_iff r.system system);
          required = required;
          required_read = e;
          actual = actual;
          actual_read = f;
          recent = rw (← version_less_than-below actual required) (ground (arith, e, f));
        }
      ]
    ]

pub IsCompatible-check :
    (r : ArtifactRequirements) (system store_version : Text)
    → IsCompatible r system store_version
    → check r system store_version ≡ ok tt
unfolding check
IsCompatible-check r system store_version v = ground (
  arith,
  eq_iff r.system system,
  v.same_system,
  v.required_read,
  v.actual_read,
  v.recent,
  version_less_than-below v.actual v.required,
)

-- The compatibility check succeeds exactly if the system is the required one, both versions can be
-- read, and the store's one is not below the required minimum.
pub check_iff :
    (r : ArtifactRequirements) (system store_version : Text)
    → (check r system store_version ≡ ok tt) ↔ IsCompatible r system store_version
check_iff r system store_version =
    (check-IsCompatible r system store_version, IsCompatible-check r system store_version)
