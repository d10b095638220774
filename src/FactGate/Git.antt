-- ===== src/FactGate/Git.antt =====
-- engine/safety/fact_gate.py: _is_read_only_git.
use helve.Base.{
  Bool, true, false, ◌||◌, List, [], ◌∷◌, if◌then◌else◌, Text, codes, text_eq, starts_with, ◌++◌,
}
use helve.FactGate.Words.{one_of, starts_with_one_of, any_arg, all_args}

-- _READ_ONLY_GIT_SUBCOMMANDS
abbrev pub read_only_git_subcommands : List Text
read_only_git_subcommands =
    codes "blame"
    ∷ codes "diff"
    ∷ codes "grep"
    ∷ codes "log"
    ∷ codes "ls-files"
    ∷ codes "ls-tree"
    ∷ codes "rev-parse"
    ∷ codes "show"
    ∷ codes "status"
    ∷ []

abbrev pub options_with_value : List Text
options_with_value = codes "-C" ∷ codes "--git-dir" ∷ codes "--work-tree" ∷ []

abbrev pub prefixes_with_value : List Text
prefixes_with_value = codes "--git-dir=" ∷ codes "--work-tree=" ∷ []

abbrev pub plain_options : List Text
plain_options =
    codes "--glob-pathspecs"
    ∷ codes "--icase-pathspecs"
    ∷ codes "--literal-pathspecs"
    ∷ codes "--no-pager"
    ∷ codes "--noglob-pathspecs"
    ∷ []

abbrev pub mutating_flags : List Text
mutating_flags =
    codes "--copy"
    ∷ codes "--delete"
    ∷ codes "--edit-description"
    ∷ codes "--move"
    ∷ codes "--set-upstream-to"
    ∷ codes "--unset-upstream"
    ∷ codes "-C"
    ∷ codes "-D"
    ∷ codes "-M"
    ∷ codes "-c"
    ∷ codes "-d"
    ∷ codes "-m"
    ∷ []

abbrev pub read_only_flags : List Text
read_only_flags =
    codes "--all"
    ∷ codes "--color"
    ∷ codes "--no-color"
    ∷ codes "--no-column"
    ∷ codes "--remotes"
    ∷ codes "--show-current"
    ∷ codes "-a"
    ∷ codes "-r"
    ∷ codes "-v"
    ∷ codes "-vv"
    ∷ []

abbrev pub read_only_prefixes : List Text
read_only_prefixes = codes "--color=" ∷ codes "--format=" ∷ codes "--sort=" ∷ []

abbrev pub external_execution_flags : List Text
external_execution_flags =
    codes "--ext-diff" ∷ codes "--open-files-in-pager" ∷ codes "--textconv" ∷ []

abbrev pub writes_output : Text → Bool
writes_output arg =
    one_of arg (codes "-o" ∷ codes "--output" ∷ []) || starts_with (codes "--output=") arg

abbrev pub runs_external : List Text → Text → Bool
runs_external [] arg = false
runs_external (flag ∷ flags) arg =
    text_eq arg flag || (starts_with (flag ++ codes "=") arg || runs_external flags arg)

abbrev pub is_read_only_branch : List Text → Bool
is_read_only_branch [] = true
is_read_only_branch (first ∷ rest) =
    if any_arg (λ (arg : Text). one_of arg mutating_flags) (first ∷ rest)
    then false
    else if one_of first (codes "--list" ∷ codes "-l" ∷ [])
    then true
    else all_args
        (λ (arg : Text). one_of arg read_only_flags || starts_with_one_of arg read_only_prefixes)
        (first ∷ rest)

-- What follows the options of git itself.
abbrev pub is_read_only_subcommand : Text → List Text → Bool
is_read_only_subcommand subcommand sub_args =
    if any_arg writes_output sub_args
    then false
    else if any_arg (runs_external external_execution_flags) sub_args
    then false
    else if any_arg (starts_with (codes "-O")) sub_args
    then false
    else if one_of subcommand read_only_git_subcommands
    then true
    else if text_eq subcommand (codes "branch")
    then is_read_only_branch sub_args
    else false

-- _is_read_only_git
unfoldable pub is_read_only_git : List Text → Bool
is_read_only_git [] = false
is_read_only_git (token ∷ []) =
    if text_eq token (codes "-c")
      || (one_of token options_with_value
          || (starts_with_one_of token prefixes_with_value
              || (one_of token plain_options || starts_with (codes "-") token)))
    then false
    else is_read_only_subcommand token []
is_read_only_git (token ∷ value ∷ args) =
    let after_both = is_read_only_git args in
    let after_one = is_read_only_git (value ∷ args) in
    if text_eq token (codes "-c")
    then false
    else if one_of token options_with_value
    then after_both
    else if starts_with_one_of token prefixes_with_value || one_of token plain_options
    then after_one
    else if starts_with (codes "-") token
    then false
    else is_read_only_subcommand token (value ∷ args)
