-- ===== src/Command.antt =====
-- Command lines and the results of commands, of src/activate.rs.
pub mod Tokens
use nixdeploy_corbet_ch.Text.{Text}
use nixdeploy_corbet_ch.Base.{
  eqb, if◌then◌else◌, is_empty, Result, ok, err, ℕ, Bool, true, false, ◌&&◌, ◌||◌, Option, none,
  some, List, [], ◌∷◌, ◌++◌,
}

pub data AdapterError : Type 0 where
  -- An unterminated quote, or no command at all.
  unterminated_quote empty_command : Text → AdapterError
  could_not_spawn : Text → Text → AdapterError
  exited_badly empty_output : Text → AdapterError

-- `exit_code` is missing for a process that a signal ended.
pub data RawCommandResult : Type 0 where
  ran : Option ℕ → Bool → RawCommandResult
  could_not_run : Text → RawCommandResult

unfoldable pub succeeded : RawCommandResult → Bool
succeeded (ran exit_code success) = success
succeeded (could_not_run detail) = false

unfoldable pub did_run : RawCommandResult → Bool
did_run (ran exit_code success) = true
did_run (could_not_run detail) = false

pub data ActivationError : Type 0 where
  prepare : AdapterError → ActivationError
  observe : RawCommandResult → AdapterError → ActivationError

pub record ActivationAdapter : Type 0 where
  pub activate : Text
  pub current_path : Text
  pub rollback : Option Text

pub record ActivationAttempt : Type 0 where
  pub raw : RawCommandResult
  pub became : Bool
  pub observed_path : Text

-- `ActivationAttempt::succeeded`
unfoldable pub attempt_succeeded : ActivationAttempt → Bool
unfolding succeeded
attempt_succeeded a = succeeded a.raw && a.became

pub record RollbackAttempt : Type 0 where
  pub raw : RawCommandResult
  pub observed_path : Text

pub data HealthGateOutcome : Type 0 where
  passed : HealthGateOutcome
  gate_unavailable : Text → AdapterError → HealthGateOutcome
  gate_failed : Text → RawCommandResult → HealthGateOutcome

pub record Scan : Type 0 where
  pub tokens : List Text
  pub cur : Text
  pub in_single : Bool
  pub in_double : Bool

push_char : Scan → ℕ → Scan
push_char s c = record s { cur = s.cur ++ c ∷ [] }

end_word : Scan → Scan
end_word s = if is_empty s.cur then s else record s { tokens = s.tokens ++ s.cur ∷ []; cur = [] }

-- The body of the loop over the characters.
unfoldable pub scan_char : Scan → ℕ → Scan
unfolding push_char end_word
scan_char s c =
    if s.in_single
    then (if eqb c b'\'' then record s { in_single = false } else push_char s c)
    else if s.in_double
    then (if eqb c b'"' then record s { in_double = false } else push_char s c)
    else if eqb c b'\''
    then record s { in_single = true }
    else if eqb c b'"'
    then record s { in_double = true }
    else if eqb c b' ' || eqb c 9
    then end_word s
    else push_char s c

unfoldable pub scan : Scan → Text → Scan
unfolding scan_char
scan s [] = s
scan s (c ∷ rest) = scan (scan_char s c) rest

abbrev pub start : Scan
start = record { tokens = []; cur = []; in_single = false; in_double = false }

unfoldable pub finish : Scan → Option (List Text)
unfolding end_word
finish s = if s.in_single || s.in_double then none else some (end_word s).tokens

-- `none` is the error of an unterminated quote.
unfoldable pub tokenize : Text → Option (List Text)
unfolding scan finish
tokenize s = finish (scan start s)

-- `tokenize(cmd)?.split_first().ok_or(…)`: the program and its arguments.
unfoldable pub split_command : Text → Result (Text × List Text) AdapterError
unfolding tokenize
split_command cmd = elim (tokenize cmd) [
  | none ↦ err (unterminated_quote cmd)
  | some tokens ↦ elim tokens [ [] ↦ err (empty_command cmd) | bin ∷ args ↦ ok (bin, args) ]
]
