-- ===== src/Command/Tokens.antt =====
-- Command lines as they are rendered: words, bare or between single quotes, with spaces between.
use mathlib.Core.List.{append_assoc, append-nil}
use nixdeploy_corbet_ch.Command.{Scan, scan, finish, tokenize}
use nixdeploy_corbet_ch.Base.{
  eqb, is_empty, all, ℕ, ◌≡◌, ap, ◌∙◌, Bool, true, false, not, ◌&&◌, ◌||◌, some, List, [], ◌∷◌,
  ◌++◌, map, arith,
}
use nixdeploy_corbet_ch.Text.{Text}

pub data Word : Type 0 where
  bare quoted : Text → Word

abbrev pub word : Word → Text
word (bare w) = w
word (quoted w) = w

abbrev pub render : Word → Text
render (bare w) = w
render (quoted w) = b'\'' ∷ w ++ b'\'' ∷ []

abbrev pub is_plain : ℕ → Bool
is_plain c = not (eqb c b'\'' || eqb c b'"' || eqb c b' ' || eqb c 9)

abbrev pub fits : Word → Bool
fits (bare w) = not (is_empty w) && all is_plain w
fits (quoted w) = not (is_empty w) && all (λ c. not (eqb c b'\'')) w

abbrev pub command_line : List Word → Text
command_line [] = []
command_line (w ∷ ws) = render w ++ b' ' ∷ command_line ws

abbrev reading : List Text → Text → Bool → Scan
reading tokens cur quote = record {
  tokens = tokens;
  cur = cur;
  in_single = quote;
  in_double = false;
}

scan-bare :
    (tokens : List Text) (cur w rest : Text)
    → all is_plain w ≡ true
    → scan (reading tokens cur false) (w ++ rest) ≡ scan (reading tokens (cur ++ w) false) rest
unfolding scan
scan-bare tokens cur [] rest h = rw append-nil
scan-bare tokens cur (c ∷ w) rest h =
    ground (arith, scan-bare tokens (cur ++ c ∷ []) w rest, append_assoc cur (c ∷ []) w)

scan-quoted :
    (tokens : List Text) (cur w rest : Text)
    → all (λ c. not (eqb c b'\'')) w ≡ true
    → scan (reading tokens cur true) (w ++ b'\'' ∷ rest)
      ≡ scan (reading tokens (cur ++ w) false) rest
unfolding scan
scan-quoted tokens cur [] rest h = rw append-nil
scan-quoted tokens cur (c ∷ w) rest h =
    ground (arith, scan-quoted tokens (cur ++ c ∷ []) w rest, append_assoc cur (c ∷ []) w)

scan-word :
    (tokens : List Text) (w : Word) (rest : Text)
    → fits w ≡ true
    → scan (reading tokens [] false) (render w ++ b' ' ∷ rest)
      ≡ scan (reading (tokens ++ word w ∷ []) [] false) rest
unfolding scan
scan-word tokens (bare []) rest h = cc
scan-word tokens (bare (c ∷ w)) rest h =
    scan-bare tokens [] (c ∷ w) (b' ' ∷ rest) (ground (arith, h))
scan-word tokens (quoted []) rest h = cc
scan-word tokens (quoted (c ∷ w)) rest h =
    rw (append_assoc (c ∷ w) (b'\'' ∷ []) (b' ' ∷ rest))
      (scan-quoted tokens [] (c ∷ w) (b' ' ∷ rest) (ground (arith, h)))

scan-command_line :
    (tokens : List Text) (ws : List Word)
    → all fits ws ≡ true
    → scan (reading tokens [] false) (command_line ws) ≡ reading (tokens ++ map word ws) [] false
unfolding scan
scan-command_line tokens [] h = rw append-nil
scan-command_line tokens (w ∷ ws) h =
    scan-word tokens w (command_line ws) (ground arith)
    ∙ scan-command_line (tokens ++ word w ∷ []) ws (ground arith)
    ∙ ap (λ t. reading t [] false) (append_assoc tokens (word w ∷ []) (map word ws))

-- A command line, rendered from bare and single-quoted words, is split into exactly its words, if each
-- bare word is free of quotes and blanks, each quoted one of single quotes, and none is empty.
pub tokenize-command_line :
    (ws : List Word) → all fits ws ≡ true → tokenize (command_line ws) ≡ some (map word ws)
unfolding tokenize finish
tokenize-command_line ws h = rw (scan-command_line [] ws h)
