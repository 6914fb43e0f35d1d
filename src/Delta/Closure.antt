-- ===== src/Delta/Closure.antt =====
-- What a finished walk has sized: the absent part of the target's closure.
use Prim.Native.Nat.{min}
use nixdeploy_corbet_ch.Delta.{u64_max, Narinfo, Delta, DeltaError, DeltaSources}
use nixdeploy_corbet_ch.Delta.Enqueue.{distinct}
use nixdeploy_corbet_ch.Base.{
  Result, ok, err, ℕ, ◌+◌, ◌≡◌, ◌⊎◌, true, false, List, [], ◌∷◌, ◌++◌, arith,
}
use nixdeploy_corbet_ch.Text.{Text}
use nixdeploy_corbet_ch.Map.{contains}

abbrev pub nar_size_of : Result Narinfo DeltaError → ℕ
nar_size_of (ok info) = info.nar_size
nar_size_of (err e) = 0

-- The sum of the sizes that the narinfos of the paths state.
abbrev pub weigh : DeltaSources → List Text → ℕ
weigh sources [] = 0
weigh sources (p ∷ ps) = nar_size_of (sources.fetch p) + weigh sources ps

-- From the target over the references of absent paths.
pub data Reaches (sources : DeltaSources) (target : Text) : Text → Type 0 where
  here : Reaches sources target target
  step :
      (p r : Text) (info : Narinfo)
      → Reaches sources target p
      → sources.is_present p ≡ ok false
      → sources.fetch p ≡ ok info
      → contains info.references r ≡ true
      → Reaches sources target r

abbrev pub Settled : DeltaSources → List Text → Text → Type 0
Settled sources missing p = (sources.is_present p ≡ ok true) ⊎ (contains missing p ≡ true)

-- The missing paths are absent, reachable and listed once; the target and all that a missing path
-- refers to is present or missing itself; and the bytes are the sum of the sizes, saturated.
pub record IsClosure (sources : DeltaSources) (target : Text) (d : Delta) : Type 0 where
  pub absent : (p : Text) → contains d.missing p ≡ true → sources.is_present p ≡ ok false
  pub needed : (p : Text) → contains d.missing p ≡ true → Reaches sources target p
  pub once : distinct d.missing ≡ true
  pub target_settled : Settled sources d.missing target
  pub closed :
      (p r : Text) (info : Narinfo)
      → contains d.missing p ≡ true
      → sources.fetch p ≡ ok info
      → contains info.references r ≡ true
      → Settled sources d.missing r
  pub size : d.bytes ≡ min (weigh sources d.missing) u64_max

pub weigh-append :
    (sources : DeltaSources) (ps : List Text) (p : Text)
    → weigh sources (ps ++ p ∷ []) ≡ weigh sources ps + nar_size_of (sources.fetch p)
weigh-append sources [] p = omega arith
weigh-append sources (q ∷ ps) p = omega (arith, weigh-append sources ps p)
