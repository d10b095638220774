-- ===== src/FactGate/Sed.antt =====
-- engine/safety/fact_gate.py: _is_read_only_sed. `is_digit` is `\d` of re.
use helve.Base.{
  ℕ, Bool, false, not, ◌&&◌, ◌||◌, Option, none, some, List, [], ◌∷◌, if◌then◌else◌, Text, codes,
  text_eq, starts_with, ◌==◌,
}
use helve.Pipeline.Pause.{strip}
use helve.FactGate.Words.{one_of, any_arg, all_args, is_empty}

abbrev pub edits_in_place : Text → Bool
edits_in_place arg = starts_with (codes "-i") arg || starts_with (codes "--in-place") arg

-- scripts and input_files; none where the loop has returned False
abbrev pub Collected : Type 0
Collected = Option (List Text × List Text)

abbrev pub with_script : Text → Collected → Collected
with_script script none = none
with_script script (some (scripts, input_files)) = some (script ∷ scripts, input_files)

abbrev pub with_input : Text → Collected → Collected
with_input file none = none
with_input file (some (scripts, input_files)) = some (scripts, file ∷ input_files)

unfoldable pub collect_args : List Text → Collected
collect_args [] = some ([], [])
collect_args (arg ∷ []) =
    if one_of arg (codes "-n" ∷ codes "--quiet" ∷ codes "--silent" ∷ [])
    then some ([], [])
    else if starts_with (codes "-") arg
    then none
    else some ([], arg ∷ [])
collect_args (arg ∷ value ∷ args) =
    let after_both = collect_args args in
    let after_one = collect_args (value ∷ args) in
    if one_of arg (codes "-n" ∷ codes "--quiet" ∷ codes "--silent" ∷ [])
    then after_one
    else if one_of arg (codes "-e" ∷ codes "--expression" ∷ [])
    then (if is_empty value then none else with_script value after_both)
    else if starts_with (codes "-") arg
    then none
    else with_input arg after_one

abbrev pub scripts_of : Collected → Option (List Text)
scripts_of none = none
scripts_of (some (script ∷ scripts, input_files)) = some (script ∷ scripts)
scripts_of (some ([], [])) = none
scripts_of (some ([], file ∷ input_files)) = some (file ∷ [])

-- re.split(r"[;\n]", script)
abbrev pub onto_first : ℕ → List Text → List Text
onto_first c [] = (c ∷ []) ∷ []
onto_first c (part ∷ parts) = (c ∷ part) ∷ parts

unfoldable pub split_script : Text → List Text
split_script [] = [] ∷ []
split_script (c ∷ script) =
    let parts = split_script script in if c == 59 || c == 10 then [] ∷ parts else onto_first c parts

abbrev pub stripped : List Text → List Text
stripped [] = []
stripped (part ∷ parts) =
    let rest = stripped parts in if is_empty (strip part) then rest else strip part ∷ rest

abbrev pub drop_digits : (ℕ → Bool) → Text → Text
drop_digits is_digit [] = []
drop_digits is_digit (c ∷ text) =
    let rest = drop_digits is_digit text in if is_digit c then rest else c ∷ text

-- What follows `(?:\d+|\$)`.
abbrev pub after_address : (ℕ → Bool) → Text → Option Text
after_address is_digit [] = none
after_address is_digit (c ∷ text) =
    if is_digit c then some (drop_digits is_digit text) else if c == b'$' then some text else none

abbrev pub prints_at : Option Text → Bool
prints_at none = false
prints_at (some text) = text_eq text (codes "p")

abbrev pub prints : (ℕ → Bool) → Option Text → Bool
prints is_digit none = false
prints is_digit (some []) = false
prints is_digit (some (c ∷ text)) =
    if c == b',' then prints_at (after_address is_digit text) else text_eq (c ∷ text) (codes "p")

-- pattern.fullmatch(cmd)
unfoldable pub is_print_command : (ℕ → Bool) → Text → Bool
is_print_command is_digit cmd = prints is_digit (after_address is_digit cmd)

abbrev pub is_read_only_script : (ℕ → Bool) → Text → Bool
is_read_only_script is_digit script =
    not (is_empty (stripped (split_script script)))
    && all_args (is_print_command is_digit) (stripped (split_script script))

abbrev pub judge_scripts : (ℕ → Bool) → Option (List Text) → Bool
judge_scripts is_digit none = false
judge_scripts is_digit (some scripts) = all_args (is_read_only_script is_digit) scripts

-- _is_read_only_sed
unfoldable pub is_read_only_sed : (ℕ → Bool) → List Text → Bool
is_read_only_sed is_digit args =
    if any_arg edits_in_place args
    then false
    else judge_scripts is_digit (scripts_of (collect_args args))
