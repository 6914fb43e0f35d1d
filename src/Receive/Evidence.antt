-- ===== src/Receive/Evidence.antt =====
-- What a run that reports convergence has seen.
use nixdeploy_corbet_ch.World.{Captured, Purpose, to_activate, to_check, Event, observed, executed}
use nixdeploy_corbet_ch.Command.{RawCommandResult, succeeded, ActivationAdapter, split_command}
use nixdeploy_corbet_ch.Activate.{captured_text}
use nixdeploy_corbet_ch.Base.{All, ok, ◌≡◌, ◌⊎◌, inl, inr, true, List, [], ◌∷◌, ◌++◌}
use nixdeploy_corbet_ch.Text.{Text}

abbrev pub In : Event → List Event → Type 0
In e [] = ⊥
In e (x ∷ xs) = (x ≡ e) ⊎ In e xs

pub In-append : (e : Event) (new old : List Event) → In e old → In e (new ++ old)
In-append e [] old h = h
In-append e (x ∷ new) old h = inr (In-append e new old h)

pub In-prefix : (e : Event) (new old : List Event) → In e new → In e (new ++ old)
In-prefix e [] old h = absurd h
In-prefix e (x ∷ new) old (inl h) = inl h
In-prefix e (x ∷ new) old (inr h) = inr (In-prefix e new old h)

-- The adapter's currentPath command was run and named the path.
pub record IsObserved (adapter : ActivationAdapter) (path : Text) (new : List Event) : Type 0 where
  pub bin : Text
  pub args : List Text
  pub command : split_command adapter.current_path ≡ ok (bin, args)
  pub captured : Captured
  pub text : captured_text adapter.current_path captured ≡ ok path
  pub seen : In (observed bin args captured) new

-- A command line was run for the purpose, with the arguments after its own, and succeeded.
pub record IsDone (purpose : Purpose) (cmd : Text) (arguments : List Text) (new : List Event)
    : Type 0 where
  pub bin : Text
  pub args : List Text
  pub command : split_command cmd ≡ ok (bin, args)
  pub raw : RawCommandResult
  pub success : succeeded raw ≡ true
  pub run : In (executed purpose bin (args ++ arguments) raw) new

-- The activation command was run with the target and succeeded, and after that currentPath named the
-- target.
abbrev pub Activated : ActivationAdapter → Text → List Event → Type 0
Activated adapter target new =
    (seen : List Event) × (early : List Event) × (new ≡ seen ++ early)
    × IsObserved adapter target seen
    × IsDone to_activate adapter.activate (target ∷ []) early

abbrev pub GatePassed : List Text → List Event → Type 0
GatePassed cmds new = All (λ cmd. IsDone to_check cmd [] new) cmds

pub IsObserved-prefix :
    (adapter : ActivationAdapter) (path : Text) (new old : List Event)
    → IsObserved adapter path new
    → IsObserved adapter path (new ++ old)
IsObserved-prefix adapter path new old h = record {
  bin = h.bin;
  args = h.args;
  command = h.command;
  captured = h.captured;
  text = h.text;
  seen = In-prefix _ new old h.seen;
}

pub IsDone-append :
    (purpose : Purpose) (cmd : Text) (arguments : List Text) (new old : List Event)
    → IsDone purpose cmd arguments old
    → IsDone purpose cmd arguments (new ++ old)
IsDone-append purpose cmd arguments new old h = record {
  bin = h.bin;
  args = h.args;
  command = h.command;
  raw = h.raw;
  success = h.success;
  run = In-append _ new old h.run;
}

pub IsDone-prefix :
    (purpose : Purpose) (cmd : Text) (arguments : List Text) (new old : List Event)
    → IsDone purpose cmd arguments new
    → IsDone purpose cmd arguments (new ++ old)
IsDone-prefix purpose cmd arguments new old h = record {
  bin = h.bin;
  args = h.args;
  command = h.command;
  raw = h.raw;
  success = h.success;
  run = In-prefix _ new old h.run;
}

pub GatePassed-prefix :
    (cmds : List Text) (new old : List Event) → GatePassed cmds new → GatePassed cmds (new ++ old)
GatePassed-prefix [] new old h = tt
GatePassed-prefix (cmd ∷ cmds) new old h =
    (IsDone-prefix to_check cmd [] new old h.0, GatePassed-prefix cmds new old h.1)

pub GatePassed-append :
    (cmds : List Text) (new old : List Event) → GatePassed cmds old → GatePassed cmds (new ++ old)
GatePassed-append [] new old h = tt
GatePassed-append (cmd ∷ cmds) new old h =
    (IsDone-append to_check cmd [] new old h.0, GatePassed-append cmds new old h.1)
