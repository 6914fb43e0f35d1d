-- ===== src/Delta.antt =====
-- Sizing a change, of src/delta.rs: the walk over the closure, the ceiling, the classification of a
-- store query, and the narinfo format.
use Prim.Native.Nat.{min}
pub mod Fuel
pub mod Enqueue
pub mod Closure
pub mod Invariant
pub mod Absent
pub mod Sized
use nixdeploy_corbet_ch.Text.{Text, codes, trim, contains_text}
use nixdeploy_corbet_ch.Base.{
  ltb, if◌then◌else◌, any, Result, ok, err, ◌>>=◌, ℕ, zero, suc, ◌+◌, ◌-◌, ◌^◌, Bool, true, false,
  not, ◌&&◌, Option, none, some, List, [], ◌∷◌, ◌++◌,
}
use nixdeploy_corbet_ch.Map.{contains}

abbrev pub u64_max : ℕ
u64_max = 2 ^ 64 - 1

pub record Narinfo : Type 0 where
  pub nar_size : ℕ
  pub references : List Text

pub record Delta : Type 0 where
  pub bytes : ℕ
  pub missing : List Text

pub data DeltaError : Type 0 where
  local_store_query narinfo_fetch narinfo_parse : Text → Text → DeltaError

-- The traits `LocalStore` and `NarinfoSource`. A run asks about each path at most once.
pub record DeltaSources : Type 0 where
  pub is_present : Text → Result Bool DeltaError
  pub fetch : Text → Result Narinfo DeltaError

abbrev pub saturating_add : ℕ → ℕ → ℕ
saturating_add a b = min (a + b) u64_max

pub record Walk : Type 0 where
  pub total : ℕ
  pub missing : List Text
  pub seen : List Text
  pub queue : List Text

-- `if seen.insert(r) { queue.push_back(r) }`
unfoldable pub enqueue : Walk → Text → Walk
enqueue w r =
    if contains w.seen r then w else record w { seen = r ∷ w.seen; queue = w.queue ++ r ∷ [] }

unfoldable pub enqueue_all : Walk → List Text → Walk
unfolding enqueue
enqueue_all w [] = w
enqueue_all w (r ∷ rs) = enqueue_all (enqueue w r) rs

module _ (sources : DeltaSources) where
  -- One round, for the path that was popped off the queue.
  unfoldable pub visit : Walk → Text → Result Walk DeltaError
  unfolding enqueue_all
  visit w path = do
    present ← sources.is_present path
    (if present then ok w else (do
      info ← sources.fetch path
      ok (
          enqueue_all
            (record w {
              total = saturating_add w.total info.nar_size;
              missing = w.missing ++ path ∷ [];
            })
            info.references)))

  -- `while let Some(path) = queue.pop_front()`; `none` when the fuel runs out.
  unfoldable pub walk : ℕ → Walk → List Text → Option (Result Delta DeltaError)
  unfolding visit
  walk fuel w [] = some (ok (record { bytes = w.total; missing = w.missing }))
  walk zero w (path ∷ queue) = none
  walk (suc fuel) w (path ∷ queue) = elim (visit (record w { queue = queue }) path) [
    | err e ↦ some (err e)
    | ok w' ↦ walk fuel w' w'.queue
  ]

  unfoldable pub compute : ℕ → Text → Option (Result Delta DeltaError)
  unfolding walk
  compute fuel target =
      walk fuel (record { total = 0; missing = []; seen = target ∷ []; queue = target ∷ [] })
        (target ∷ [])

unfoldable pub exceeds_ceiling : ℕ → Option ℕ → Bool
exceeds_ceiling bytes none = false
exceeds_ceiling bytes (some limit) = ltb limit bytes

abbrev pub absence_phrases : List Text
absence_phrases = codes "is not valid" ∷ codes "does not exist" ∷ []

-- The error keeps the trimmed diagnostic.
unfoldable pub classify_path_info : Text → Bool → Text → Result Bool Text
classify_path_info store_path success stderr =
    if success
    then ok true
    else if contains_text stderr store_path && any (contains_text stderr) absence_phrases
    then ok false
    else err (trim stderr)
