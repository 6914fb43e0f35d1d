-- ===== src/CommandLine/Written.antt =====
-- However options are written, the commands of src/*.rs understand them.
use nixdeploy_corbet_ch.Trust.Signatures.{split_once-free}
use nixdeploy_corbet_ch.CommandLine.{Options, flag_and_value, walk_args, parse}
use nixdeploy_corbet_ch.Base.{
  eqb, if◌then◌else◌, Bool-cases, all, Result, ok, err, ◌>>=◌, ◌≡◌, refl, ◌∙◌, inl, inr, Bool, true,
  not, none, some, List, [], ◌∷◌, ◌++◌,
}
use nixdeploy_corbet_ch.Text.{Text}
use nixdeploy_corbet_ch.Text.Laws.{split_once-append_self}

-- The flags are known, and none has an "=" in it.
pub record IsNamed (options : Options) : Type 0 where
  pub known : (flag : options.Flag) → options.flag_of (options.flag_text flag) ≡ ok flag
  pub plain : (flag : options.Flag) → all (λ c. not (eqb c b'=')) (options.flag_text flag) ≡ true

-- An option, written as one argument with "=" or as two.
pub record Written (Flag : Type 0) : Type 0 where
  pub flag : Flag
  pub value : Text
  pub is_inline : Bool

module _ (options : Options) where
  open options use {Flag, Variables, Fault, Answer, flag_text, set_flag, finish}

  abbrev pub arguments : List (Written Flag) → List Text
  arguments [] = []
  arguments (w ∷ ws) =
      (if w.is_inline
        then (flag_text w.flag ++ b'=' ∷ w.value) ∷ []
        else flag_text w.flag ∷ w.value ∷ [])
      ++ arguments ws

  -- The options taken one after the other.
  abbrev pub take_all : List (Written Flag) → Variables → Result Answer Fault
  take_all [] so_far = finish so_far
  take_all (w ∷ ws) so_far = set_flag w.flag w.value so_far >>= take_all ws

module _ (options : Options) (named : IsNamed options) where
  open options use {Flag, Variables, Fault, Answer, flag_text, set_flag, start}
  open named use {known, plain}

  inline_parts :
      (flag : Flag) (v : Text)
      → flag_and_value (flag_text flag ++ b'=' ∷ v) ≡ (flag_text flag, some v)
  unfolding flag_and_value
  inline_parts flag v =
      rw (split_once-append_self (flag_text flag) b'=' v (plain flag), flag_and_value)

  alone_parts : (flag : Flag) → flag_and_value (flag_text flag) ≡ (flag_text flag, none)
  unfolding flag_and_value
  alone_parts flag = rw (split_once-free (flag_text flag) b'=' (plain flag), flag_and_value)

  then_all :
      (ws : List (Written Flag)) (r : Result Variables Fault)
      → ((so_far : Variables)
          → walk_args options none (arguments options ws) so_far ≡ take_all options ws so_far)
      → (r >>= walk_args options none (arguments options ws)) ≡ (r >>= take_all options ws)
  then_all ws (ok so_far) h = h so_far
  then_all ws (err e) h = refl

  walk_args-inline :
      (flag : Flag) (v : Text) (args : List Text) (so_far : Variables)
      → walk_args options none ((flag_text flag ++ b'=' ∷ v) ∷ args) so_far
        ≡ (set_flag flag v so_far >>= walk_args options none args)
  unfolding walk_args
  walk_args-inline flag v args so_far = rw (inline_parts flag v) (rw (known flag) refl)

  walk_args-alone :
      (flag : Flag) (v : Text) (args : List Text) (so_far : Variables)
      → walk_args options none (flag_text flag ∷ v ∷ args) so_far
        ≡ (set_flag flag v so_far >>= walk_args options none args)
  unfolding walk_args
  walk_args-alone flag v args so_far = rw (alone_parts flag) (rw (known flag) refl)

  walk_args-arguments :
      (ws : List (Written Flag)) (so_far : Variables)
      → walk_args options none (arguments options ws) so_far ≡ take_all options ws so_far
  walk_args-arguments [] so_far = unfold walk_args in refl
  walk_args-arguments (w ∷ ws) so_far = elim (Bool-cases w.is_inline) [
    | inl e ↦ rw e (
        walk_args-inline w.flag w.value (arguments options ws) so_far
        ∙ then_all ws (set_flag w.flag w.value so_far) (walk_args-arguments ws))
    | inr e ↦ rw e (
        walk_args-alone w.flag w.value (arguments options ws) so_far
        ∙ then_all ws (set_flag w.flag w.value so_far) (walk_args-arguments ws))
  ]

  pub parse-arguments :
      (ws : List (Written Flag)) → parse options (arguments options ws) ≡ take_all options ws start
  unfolding parse
  parse-arguments ws = walk_args-arguments ws start
