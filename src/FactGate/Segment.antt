-- ===== src/FactGate/Segment.antt =====
-- engine/safety/fact_gate.py: _is_read_only_segment. `normpath` is os.path.normpath, `is_digit` is `\d` of re.
use helve.Base.{
  ℕ, suc, ◌++◌, Bool, false, not, ◌&&◌, ◌||◌, Option, none, some, List, [], ◌∷◌, if◌then◌else◌,
  Text, codes, text_eq, starts_with, contains, leb, ◌==◌,
}
use helve.FactGate.Words.{one_of, starts_with_one_of, any_arg, all_args, is_empty}
use helve.FactGate.Git.{is_read_only_git}
use helve.FactGate.Sed.{is_read_only_sed}

-- _READ_ONLY_COMMANDS
abbrev pub read_only_commands : List Text
read_only_commands =
    codes "["
    ∷ codes "cat"
    ∷ codes "cmp"
    ∷ codes "command"
    ∷ codes "date"
    ∷ codes "df"
    ∷ codes "diff"
    ∷ codes "du"
    ∷ codes "echo"
    ∷ codes "file"
    ∷ codes "grep"
    ∷ codes "head"
    ∷ codes "ls"
    ∷ codes "pwd"
    ∷ codes "rg"
    ∷ codes "sort"
    ∷ codes "stat"
    ∷ codes "tail"
    ∷ codes "test"
    ∷ codes "tree"
    ∷ codes "true"
    ∷ codes "type"
    ∷ codes "uname"
    ∷ codes "uniq"
    ∷ codes "wc"
    ∷ codes "whereis"
    ∷ codes "which"
    ∷ []

abbrev pub trusted_dirs : List Text
trusted_dirs =
    codes "/bin"
    ∷ codes "/opt/homebrew/bin"
    ∷ codes "/sbin"
    ∷ codes "/usr/bin"
    ∷ codes "/usr/local/bin"
    ∷ codes "/usr/sbin"
    ∷ []

abbrev pub harmless_variables : List Text
harmless_variables =
    codes "COLUMNS"
    ∷ codes "LANG"
    ∷ codes "LC_ALL"
    ∷ codes "NO_COLOR"
    ∷ codes "TERM"
    ∷ codes "TZ"
    ∷ []

abbrev pub is_letter : ℕ → Bool
is_letter c = (leb 65 c && leb c 90) || ((leb 97 c && leb c 122) || c == 95)

abbrev pub is_word_char : ℕ → Bool
is_word_char c = is_letter c || (leb 48 c && leb c 57)

-- The name before `=` in `[A-Za-z0-9_]*=.*`, where that matches.
abbrev pub with_char : ℕ → Option Text → Option Text
with_char c none = none
with_char c (some name) = some (c ∷ name)

abbrev pub rest_of_name : Text → Option Text
rest_of_name [] = none
rest_of_name (c ∷ text) =
    let rest = rest_of_name text in
    if c == b'='
    then (if contains (10 ∷ []) text then none else some [])
    else if is_word_char c
    then with_char c rest
    else none

-- token.split("=", 1)[0] where the token matches `[A-Za-z_][A-Za-z0-9_]*=.*`
abbrev pub assigned_name : Text → Option Text
assigned_name [] = none
assigned_name (c ∷ text) = if is_letter c then with_char c (rest_of_name text) else none

-- The tokens after the assignments; none where one of them returns False.
abbrev pub past_assignment : Option Text → List Text → Option (List Text) → Option (List Text)
past_assignment none tokens later = some tokens
past_assignment (some name) tokens later = if one_of name harmless_variables then later else none

unfoldable pub past_assignments : List Text → Option (List Text)
past_assignments [] = some []
past_assignments (token ∷ tokens) =
    past_assignment (assigned_name token) (token ∷ tokens) (past_assignments tokens)

-- Path(raw).name: the last part that is not empty and not ".".
abbrev pub part_or : Text → Text → Text
part_or part name = if is_empty part || text_eq part (codes ".") then name else part

abbrev pub name_from : Text → Text → Text → Text
name_from name part [] = part_or part name
name_from name part (c ∷ path) =
    if c == b'/'
    then name_from (part_or part name) [] path
    else name_from name (part ++ c ∷ []) path

unfoldable pub file_name : Text → Text
file_name path = name_from [] [] path

-- The text before the last `/`, which is the parent of a normalized path that is not in the root.
abbrev pub cons_or : ℕ → Option Text → Option Text
cons_or c none = if c == b'/' then some [] else none
cons_or c (some parent) = some (c ∷ parent)

abbrev pub parent_of : Text → Option Text
parent_of [] = none
parent_of (c ∷ path) = cons_or c (parent_of path)

abbrev pub in_trusted_dir : Option Text → Bool
in_trusted_dir none = false
in_trusted_dir (some parent) = one_of parent trusted_dirs

abbrev pub is_trusted : (Text → Text) → Text → Bool
is_trusted normpath raw_command =
    not (contains (codes "/") raw_command)
    || (starts_with (codes "/") (normpath raw_command)
        && in_trusted_dir (parent_of (normpath raw_command)))

abbrev pub mutating_actions : List Text
mutating_actions =
    codes "-delete"
    ∷ codes "-exec"
    ∷ codes "-execdir"
    ∷ codes "-fls"
    ∷ codes "-fprintf"
    ∷ codes "-fprintf0"
    ∷ codes "-fprint"
    ∷ codes "-fprint0"
    ∷ codes "-ok"
    ∷ codes "-okdir"
    ∷ []

-- `arg == flag or arg.startswith(flag)` for each flag
abbrev pub sort_flags : List Text
sort_flags = codes "-o" ∷ codes "--output=" ∷ codes "--compress-program=" ∷ []

abbrev pub sort_writes : Text → Bool
sort_writes arg =
    starts_with_one_of arg sort_flags
    || one_of arg (codes "--output" ∷ codes "--compress-program" ∷ [])

abbrev pub tree_writes : Text → Bool
tree_writes arg =
    starts_with_one_of arg (codes "-o" ∷ codes "--output=" ∷ []) || text_eq arg (codes "--output")

abbrev pub date_sets : Text → Bool
date_sets arg =
    starts_with_one_of arg (codes "-s" ∷ codes "--set=" ∷ []) || text_eq arg (codes "--set")

abbrev pub positional : List Text → ℕ
positional [] = 0
positional (arg ∷ args) =
    let rest = positional args in if starts_with (codes "-") arg then rest else suc rest

abbrev pub only_describes : List Text → Bool
only_describes [] = false
only_describes (arg ∷ args) = one_of arg (codes "-v" ∷ codes "-V" ∷ [])

unfoldable pub is_read_only_command : (ℕ → Bool) → Text → List Text → Bool
is_read_only_command is_digit command args =
    if text_eq command (codes "git")
    then is_read_only_git args
    else if text_eq command (codes "find")
    then not (any_arg (λ (arg : Text). one_of arg mutating_actions) args)
    else if text_eq command (codes "sed")
    then is_read_only_sed is_digit args
    else if text_eq command (codes "sort")
    then not (any_arg sort_writes args)
    else if text_eq command (codes "tree")
    then not (any_arg tree_writes args)
    else if text_eq command (codes "uniq")
    then leb (positional args) 1
    else if text_eq command (codes "command")
    then only_describes args
    else if text_eq command (codes "date")
    then not (any_arg date_sets args)
      && all_args (λ (arg : Text). starts_with_one_of arg (codes "-" ∷ codes "+" ∷ [])) args
    else one_of command read_only_commands

abbrev pub judge_words : (Text → Text) → (ℕ → Bool) → Option (List Text) → Bool
judge_words normpath is_digit none = false
judge_words normpath is_digit (some []) = false
judge_words normpath is_digit (some (raw_command ∷ args)) =
    if is_trusted normpath raw_command
    then is_read_only_command is_digit (file_name raw_command) args
    else false

-- _is_read_only_segment
unfoldable pub is_read_only_segment : (Text → Text) → (ℕ → Bool) → List Text → Bool
is_read_only_segment normpath is_digit tokens =
    judge_words normpath is_digit (past_assignments tokens)
