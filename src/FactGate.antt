-- ===== src/FactGate.antt =====
-- engine/safety/fact_gate.py: FactGate, which challenges the first change of state of a turn.
--
-- The fields that never change are the settings, the two sets of keys the gate's state. A set is a list without
-- repetitions. The texts of the challenges are left out.
use helve.Base.{
  ℕ, String, Bool, true, false, not, ◌||◌, Option, none, some, List, [], ◌∷◌, if◌then◌else◌, Text,
  codes, text_eq, str_eq, ◌++◌,
}
use helve.Base.Dict.{Dict, get}
use helve.Pipeline.Pause.{strip}
use Words.{is_empty}
use Shell.{is_read_only_shell, sanitized}
mod Words
mod Git
mod Sed
mod Segment
mod Shell
pub mod Passed
pub mod Rounds
mod Tests

-- An argument is `str(value or "")`.
pub record ToolCall : Type 0 where
  pub name : String
  pub arguments : Dict Text

pub record ToolDefinition : Type 0 where
  pub read_actions : List Text
  pub is_write_tool : Bool
  pub path_args : List String

-- FactGateContext, enabled and tool_registry, and the functions of Python's library: str.lower, expanduser and
-- normpath on paths, the tokens of shlex, and the digits of re.
pub record Settings : Type 0 where
  pub session_id : Text
  pub turn_id : Text
  pub enabled : Bool
  pub tool_registry : Dict ToolDefinition
  pub lower : Text → Text
  pub expand_user : Text → Text
  pub normpath : Text → Text
  pub lex : Text → Option (List Text)
  pub is_digit : ℕ → Bool

pub record FactGate : Type 0 where
  pub checked : List Text
  pub pending : List Text

abbrev pub has_text : Text → List Text → Bool
has_text key [] = false
has_text key (k ∷ keys) = text_eq k key || has_text key keys

abbrev pub add : Text → List Text → List Text
add key keys = if has_text key keys then keys else key ∷ keys

abbrev pub update : List Text → List Text → List Text
update [] keys = keys
update (k ∷ more) keys = add k (update more keys)

abbrev pub new_gate : FactGate
new_gate = record { checked = []; pending = [] }

unfoldable pub begin_round : FactGate → FactGate
begin_round gate = record { checked = update gate.pending gate.checked; pending = [] }

abbrev pub argument : String → ToolCall → Text
argument name call = elim (get name call.arguments) [ none ↦ [] | some text ↦ text ]

-- _STRUCTURED_READ_ACTIONS
abbrev pub structured_read_actions : Dict (List Text)
structured_read_actions =
    ("git_ops", codes "diff" ∷ codes "discover" ∷ codes "status" ∷ [])
    ∷ ("memory_ops", codes "search" ∷ [])
    ∷ ("skill_manage", codes "get" ∷ codes "list" ∷ codes "versions" ∷ [])
    ∷ []

abbrev pub declared_actions : String → Option ToolDefinition → Option (List Text)
declared_actions name none = get name structured_read_actions
declared_actions name (some tool) =
    if is_empty tool.read_actions then get name structured_read_actions else some tool.read_actions

-- _resolve_read_actions
unfoldable pub resolve_read_actions : Settings → String → Option (List Text)
resolve_read_actions settings name = declared_actions name (get name settings.tool_registry)

abbrev pub built_in_path_args : String → List String
built_in_path_args name =
    if str_eq name "edit_file" || str_eq name "write_file" then "path" ∷ "file_path" ∷ [] else []

abbrev pub declared_path_args : String → Option ToolDefinition → List String
declared_path_args name none = built_in_path_args name
declared_path_args name (some tool) =
    if not tool.is_write_tool || is_empty tool.path_args
    then built_in_path_args name
    else tool.path_args

-- _resolve_write_path_args
unfoldable pub resolve_write_path_args : Settings → String → List String
resolve_write_path_args settings name = declared_path_args name (get name settings.tool_registry)

abbrev pub first_given : List String → ToolCall → Text
first_given [] call = []
first_given (name ∷ names) call =
    let later = first_given names call in
    if is_empty (argument name call) then later else argument name call

-- The key `f"{scope}:{rest}"`.
abbrev pub scoped : Settings → Text → Text
scoped settings rest = settings.session_id ++ codes ":" ++ settings.turn_id ++ codes ":" ++ rest

abbrev pub shell_key : Settings → Text → Option Text
shell_key settings command =
    if is_empty command
      || is_read_only_shell settings.normpath settings.is_digit settings.lex command
    then none
    else some (scoped settings (codes "__state_changing_shell__"))

abbrev pub file_key : Settings → Text → Option Text
file_key settings path =
    if is_empty path
    then none
    else some (
        scoped settings
          (codes "file:" ++ settings.normpath (settings.expand_user (sanitized path))))

abbrev pub structured_key : Settings → ToolCall → Option (List Text) → Option Text
structured_key settings call none = none
structured_key settings call (some actions) =
    if has_text (settings.lower (strip (argument "action" call))) actions
    then none
    else some (scoped settings (codes "structured:" ++ codes call.name))

-- The key under which `evaluate` looks a call up; none for a call that passes without one.
unfoldable pub key_of : Settings → ToolCall → Option Text
key_of settings call =
    if str_eq call.name "shell"
    then shell_key settings (strip (argument "command" call))
    else if is_empty (resolve_write_path_args settings call.name)
    then structured_key settings call (resolve_read_actions settings call.name)
    else file_key settings (first_given (resolve_write_path_args settings call.name) call)

-- Whether a call is challenged, and the gate after it.
abbrev pub challenge : Option Text → FactGate → Bool × FactGate
challenge none gate = (false, gate)
challenge (some key) gate =
    if has_text key gate.checked
    then (false, gate)
    else (true, record gate { pending = add key gate.pending })

unfoldable pub evaluate : Settings → ToolCall → FactGate → Bool × FactGate
evaluate settings call gate =
    if settings.enabled then challenge (key_of settings call) gate else (false, gate)
