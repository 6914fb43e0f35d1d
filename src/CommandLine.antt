-- ===== src/CommandLine.antt =====
-- The walk over a command's arguments that `parse_args` of src/publish.rs, src/promote.rs and
-- src/verify_release.rs share, with their `value_of`. A flag that waits for its value is the state of
-- the walk.
pub mod Written
pub mod Commands
use nixdeploy_corbet_ch.Base.{Result, err, ◌>>=◌, Option, none, some, List, [], ◌∷◌}
use nixdeploy_corbet_ch.Text.{Text, split_once}

-- A command's flags, its variables, and what it makes of them.
pub record Options : Type 1 where
  pub Flag : Type 0
  pub Variables : Type 0
  pub Fault : Type 0
  pub Answer : Type 0
  pub flag_text : Flag → Text
  pub flag_of : Text → Result Flag Fault
  pub needs_value : Flag → Fault
  pub start : Variables
  pub set_flag : Flag → Text → Variables → Result Variables Fault
  pub finish : Variables → Result Answer Fault

-- An argument as a flag with the value after its first "=", if it has one.
unfoldable pub flag_and_value : Text → Text × Option Text
flag_and_value arg = elim (split_once arg b'=') [
  | none ↦ (arg, none)
  | some (flag, v) ↦ (flag, some v)
]

module _ (options : Options) where
  open options use {Flag, Variables, Fault, Answer, flag_of, needs_value, start, set_flag, finish}

  unfoldable pub walk_args : Option Flag → List Text → Variables → Result Answer Fault
  unfolding flag_and_value
  walk_args none [] so_far = finish so_far
  walk_args (some flag) [] so_far = err (needs_value flag)
  walk_args (some flag) (v ∷ args) so_far = do
    next ← set_flag flag v so_far
    walk_args none args next
  walk_args none (arg ∷ args) so_far = do
    flag ← flag_of (flag_and_value arg).0
    elim (flag_and_value arg).1 [
      | none ↦ walk_args (some flag) args so_far
      | some v ↦ do next ← set_flag flag v so_far; walk_args none args next
    ]

  unfoldable pub parse : List Text → Result Answer Fault
  unfolding walk_args
  parse args = walk_args none args start
