-- ===== src/FactGate/Words.antt =====
-- engine/safety/fact_gate.py: the tests on the words of a shell command.
use helve.Base.{Bool, true, false, ◌&&◌, ◌||◌, List, [], ◌∷◌, Text, text_eq, starts_with}

abbrev pub one_of : Text → List Text → Bool
one_of token [] = false
one_of token (t ∷ ts) = text_eq token t || one_of token ts

-- `arg.startswith(prefixes)`
abbrev pub starts_with_one_of : Text → List Text → Bool
starts_with_one_of arg [] = false
starts_with_one_of arg (p ∷ ps) = starts_with p arg || starts_with_one_of arg ps

-- any(...) and all(...) over the arguments
abbrev pub any_arg : (Text → Bool) → List Text → Bool
any_arg test [] = false
any_arg test (a ∷ args) = test a || any_arg test args

abbrev pub all_args : (Text → Bool) → List Text → Bool
all_args test [] = true
all_args test (a ∷ args) = test a && all_args test args

abbrev pub is_empty {ℓ} : {A : Type ℓ} → List A → Bool
is_empty [] = true
is_empty (x ∷ xs) = false
