-- ===== src/World.antt =====
-- A receiver's run as state passing. The operating system is `Os`; `World` keeps the machine and a
-- log of what the run did, newest first, which no code reads.
pub mod Emits
pub mod Triple
pub mod Files
use nixdeploy_corbet_ch.Command.{RawCommandResult}
use nixdeploy_corbet_ch.Outcome.{Outcome}
use nixdeploy_corbet_ch.Delta.{DeltaSources}
use nixdeploy_corbet_ch.Base.{Result, ok, err, map_err, ℕ, Bool, Option, List, ◌++◌}
use nixdeploy_corbet_ch.Text.{Text}

-- A file of a directory; the temporary file of a write stands in the same one.
pub record FilePath : Type 0 where
  pub dir : Text
  pub name : Text

-- `Command::status`, and `Command::output` with its standard output as text.
pub data Captured : Type 0 where
  printed : Bool → Text → Captured
  not_started : Text → Captured

pub data FileRead : Type 0 where
  contents : List ℕ → FileRead
  no_such_file : FileRead
  unreadable : Text → FileRead

pub record Os : Type 1 where
  pub Machine : Type 0
  pub status : Text → List Text → Machine → RawCommandResult × Machine
  pub output : Text → List Text → Machine → Captured × Machine
  pub get_url : Text → Machine → Result Text Text × Machine
  pub hostname : Machine → Result Text Text
  pub now_unix : Machine → ℕ
  pub process_id : ℕ
  pub create_dir_all : Text → Machine → Result (Unit {0}) Text × Machine
  pub read_file : FilePath → Machine → FileRead × Machine
  pub create_file : FilePath → Machine → Result (Unit {0}) Text × Machine
  pub write_all : FilePath → List ℕ → Machine → Result (Unit {0}) Text × Machine
  pub set_permissions : FilePath → ℕ → Machine → Result (Unit {0}) Text × Machine
  pub sync_all : FilePath → Machine → Result (Unit {0}) Text × Machine
  pub rename : FilePath → FilePath → Machine → Result (Unit {0}) Text × Machine
  -- The trait `Env` of src/receive.rs: where sizes and compatibility facts come from.
  pub delta_sources : Machine → Result DeltaSources Text
  pub compatibility_facts : Machine → Result (Text × Text) Text
  -- `ok false` is a file that was not there.
  pub remove_file : FilePath → Machine → Result Bool Text × Machine
  -- `OpenOptions::create_new`, which fails on a file that exists.
  pub create_new : FilePath → Machine → Result (Unit {0}) Text × Machine
  pub hard_link : FilePath → FilePath → Machine → Result (Unit {0}) Text × Machine
  pub sync_dir : Text → Machine → Result (Unit {0}) Text × Machine
  pub file_exists : FilePath → Machine → Bool
  -- The names that `read_dir` could read.
  pub read_dir : Text → Machine → Result (List Text) Text × Machine
  -- The lock file opened, locked with `flock` and unlocked.
  pub open_lock : FilePath → Machine → Result (Unit {0}) Text × Machine
  pub lock_exclusive : FilePath → Machine → Result (Unit {0}) Text × Machine
  -- `fs::read_to_string`, which fails on contents that are not UTF-8.
  pub read_to_string : FilePath → Machine → Result Text Text × Machine
  -- The permission bits, if they can be read.
  pub file_mode : FilePath → Machine → Option ℕ
  pub unlock : FilePath → Machine → Unit {0} × Machine

-- What a command was run for.
pub data Purpose : Type 0 where
  to_activate to_roll_back to_check to_reconcile to_reimage : Purpose

-- The report of one run: `RunReport` of src/metrics.rs.
pub record RunReport : Type 0 where
  pub outcome : Outcome
  pub delta_bytes : Option ℕ
  pub ceiling : Option ℕ
  pub reimage_owed : Bool
  pub timestamp : ℕ

pub data Event : Type 0 where
  fetched : Text → Event
  observed : Text → List Text → Captured → Event
  executed : Purpose → Text → List Text → RawCommandResult → Event
  wrote : FilePath → List ℕ → Bool → Event
  removed : FilePath → Event
  reported : RunReport → Event

-- `Measured` of src/receive.rs.
pub record Measured : Type 0 where
  pub delta_bytes : Option ℕ
  pub ceiling : Option ℕ
  pub reimage_owed : Bool

pub record World (os : Os) : Type 0 where
  pub machine : os.Machine
  pub events : List Event
  pub measured : Measured

-- A computation that may return early with an `E`.
abbrev pub Exec : Os → Type 0 → Type 0 → Type 0
Exec os E A = World os → Result A E × World os

module _ {os : Os} {E : Type 0} where
  abbrev pub continue : {A B : Type 0} → Result A E → (A → Exec os E B) → Exec os E B
  continue (ok a) f w = f a w
  continue (err e) f w = (err e, w)

  infixl 5 ◌>>=◌
  unfoldable pub ◌>>=◌ : {A B : Type 0} → Exec os E A → (A → Exec os E B) → Exec os E B
  ◌>>=◌ m f w = continue (m w).0 f (m w).1

  unfoldable pub pure : {A : Type 0} → A → Exec os E A
  pure a w = (ok a, w)

  -- An early `return`.
  unfoldable pub exit : {A : Type 0} → E → Exec os E A
  exit e w = (err e, w)

  -- Something done to the machine, with the event that it leaves in the log.
  unfoldable pub act : {A : Type 0} → (os.Machine → A × os.Machine) → (A → List Event) → Exec os E A
  act op event w = (
    ok (op w.machine).0,
    record w { machine = (op w.machine).1; events = event (op w.machine).0 ++ w.events },
  )

  unfoldable pub ask : {A : Type 0} → (os.Machine → A) → Exec os E A
  ask f w = (ok (f w.machine), w)

  unfoldable pub measure : (Measured → Measured) → Exec os E (Unit {0})
  measure f w = (ok tt, record w { measured = f w.measured })

  unfoldable pub measured_now : Exec os E Measured
  measured_now w = (ok w.measured, w)

  -- `match r { Ok(a) => a, Err(d) => return f(d) }`
  unfoldable pub or_exit : {A D : Type 0} → (D → E) → Result A D → Exec os E A
  or_exit f (ok a) w = (ok a, w)
  or_exit f (err d) w = (err (f d), w)

  unfoldable pub note : List Event → Exec os E (Unit {0})
  note new w = (ok tt, record w { events = new ++ w.events })

  -- `m.map_err(f)?`
  unfoldable pub with_error : {A D : Type 0} → (D → E) → Exec os D A → Exec os E A
  with_error f m w = (map_err f (m w).0, (m w).1)

  -- The result of `m` as a value, to be matched on.
  unfoldable pub attempt : {A D : Type 0} → Exec os D A → Exec os E (Result A D)
  attempt m w = (ok (m w).0, (m w).1)
