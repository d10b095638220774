-- ===== src/FactGate/Tests.antt =====
-- A turn that edits a file twice.
use helve.Base.{
  ◌↔◌, String, Bool, false, ℕ, List, some, leb, ◌&&◌, ◌≡◌, refl, true, false, [], ◌∷◌, Text, codes,
  ◌++◌,
}
use helve.Base.Dict.{get}
use helve.FactGate.{
  ToolCall, Settings, new_gate, evaluate, key_of, begin_round, resolve_read_actions,
  resolve_write_path_args,
}
use helve.Pipeline.Pause.{strip, rstrip}
use helve.FactGate.Git.{is_read_only_git}
use helve.FactGate.Sed.{is_read_only_sed, collect_args, split_script, is_print_command}
use helve.FactGate.Segment.{is_read_only_segment, past_assignments, file_name, is_read_only_command}
use helve.FactGate.Passed.{IsReadOnly, is_read_only_shell-IsReadOnly}
use helve.FactGate.Shell.{substitutes, is_read_only_shell, read_tokens}
use helve.FactGate.Rounds.{
  begins, asks, perform, is_first, evaluate-is_first, evaluate-passes_again,
}

abbrev turn : Settings
turn = record {
  session_id = codes "s";
  turn_id = codes "t";
  enabled = true;
  tool_registry = [];
  lower = λ (text : Text). text;
  expand_user = λ (path : Text). path;
  normpath = λ (path : Text). path;
  lex = λ (command : Text). some (command ∷ []);
  is_digit = λ (c : ℕ). leb 48 c && leb c 57;
}

abbrev edit : ToolCall
edit = record { name = "edit_file"; arguments = ("path", codes "a.py") ∷ [] }

evaluate-is_first_example :
    (evaluate turn edit (perform turn (asks edit ∷ []) new_gate)).0
    ≡ is_first turn (asks edit ∷ []) (key_of turn edit)
evaluate-is_first_example = evaluate-is_first turn (asks edit ∷ []) edit refl

evaluate-passes_again_example :
    (evaluate turn edit (perform turn ([] ++ asks edit ∷ [] ++ begins ∷ []) new_gate)).0 ≡ false
evaluate-passes_again_example = evaluate-passes_again turn edit [] [] [] refl

same_round : (evaluate turn edit (perform turn (asks edit ∷ []) new_gate)).0 ≡ true
unfolding evaluate perform key_of begin_round resolve_read_actions resolve_write_path_args get
same_round = refl

-- Commands by their tokens.
abbrev read_only : List Text → Bool
read_only tokens =
    is_read_only_shell (λ (path : Text). path) turn.is_digit (λ (t : Text). some tokens) (codes "x")

abbrev words : List String → List Text
words [] = []
words (w ∷ ws) = codes w ∷ words ws

lists : read_only (words ("ls" ∷ "|" ∷ "grep" ∷ "a" ∷ [])) ≡ true
unfolding is_read_only_shell read_tokens is_read_only_segment past_assignments file_name
    is_read_only_command is_read_only_git is_read_only_sed collect_args split_script
    is_print_command strip rstrip
lists = refl

redirects : read_only (words ("ls" ∷ "2>" ∷ "out" ∷ [])) ≡ false
unfolding is_read_only_shell read_tokens is_read_only_segment past_assignments file_name
    is_read_only_command is_read_only_git is_read_only_sed collect_args split_script
    is_print_command strip rstrip
redirects = refl

reads_log :
    read_only (
      words
        ("LANG=C" ∷ "/usr/bin/git" ∷ "-C" ∷ "x" ∷ "log" ∷ ";" ∷ "sed" ∷ "-n" ∷ "1,5p" ∷ "a" ∷ []))
    ≡ true
unfolding is_read_only_shell read_tokens is_read_only_segment past_assignments file_name
    is_read_only_command is_read_only_git is_read_only_sed collect_args split_script
    is_print_command strip rstrip
reads_log = refl

deletes_branch : read_only (words ("git" ∷ "branch" ∷ "-D" ∷ "main" ∷ [])) ≡ false
unfolding is_read_only_shell read_tokens is_read_only_segment past_assignments file_name
    is_read_only_command is_read_only_git is_read_only_sed collect_args split_script
    is_print_command strip rstrip
deletes_branch = refl

is_read_only_shell-IsReadOnly_example :
    (read_only (words ("ls" ∷ "|" ∷ "grep" ∷ "a" ∷ [])) ≡ true) ↔ (
      (substitutes (codes "x") ≡ false)
      × (tokens : List Text) × (some (words ("ls" ∷ "|" ∷ "grep" ∷ "a" ∷ [])) ≡ some tokens)
      × IsReadOnly turn.normpath turn.is_digit tokens)
is_read_only_shell-IsReadOnly_example =
    is_read_only_shell-IsReadOnly (λ (path : Text). path) turn.is_digit
      (λ (t : Text). some (words ("ls" ∷ "|" ∷ "grep" ∷ "a" ∷ []))) (codes "x")
