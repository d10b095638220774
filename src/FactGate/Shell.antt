-- ===== src/FactGate/Shell.antt =====
-- engine/safety/fact_gate.py: _is_read_only_shell, over the tokens of shlex, and _normalize_path.
--
-- `lex` gives the tokens that shlex reads in a command, none for a ValueError; `is_digit` is `\d` of re, and
-- `normpath` is os.path.normpath.
use helve.Base.{
  ℕ, Bool, true, false, not, ◌&&◌, ◌||◌, Option, none, some, List, [], ◌∷◌, ◌++◌, if◌then◌else◌,
  Text, codes, contains, leb, ◌==◌,
}
use helve.FactGate.Words.{one_of}
use helve.FactGate.Segment.{is_read_only_segment}

-- _SHELL_OPERATORS
abbrev pub shell_operators : List Text
shell_operators = codes ";" ∷ codes "&" ∷ codes "&&" ∷ codes "||" ∷ codes "|" ∷ []

-- _SHELL_REDIRECTIONS
abbrev pub shell_redirections : List Text
shell_redirections =
    codes ">"
    ∷ codes ">>"
    ∷ codes "<"
    ∷ codes "<<"
    ∷ codes "<<<"
    ∷ codes "&>"
    ∷ codes "2>"
    ∷ codes "2>>"
    ∷ []

-- The pattern `\d*(?:>|>>)`
abbrev pub is_numbered : (ℕ → Bool) → Text → Bool
is_numbered is_digit [] = false
is_numbered is_digit (c ∷ token) =
    let later = is_numbered is_digit token in
    one_of (c ∷ token) (codes ">" ∷ codes ">>" ∷ []) || (is_digit c && later)

-- The pattern `[;&|<>]*`
abbrev pub only_operators : Text → Bool
only_operators [] = true
only_operators (c ∷ token) =
    (c == 59 || (c == 38 || (c == 124 || (c == 60 || c == 62)))) && only_operators token

-- The segments before the current one, and it; none where the loop has returned False.
abbrev pub Segments : Type 0
Segments = Option (List (List Text) × List Text)

abbrev pub end_segment : List (List Text) → List Text → Segments
end_segment segments [] = none
end_segment segments (t ∷ ts) = some (segments ++ (t ∷ ts) ∷ [], [])

abbrev pub is_redirection : (ℕ → Bool) → Text → Bool
is_redirection is_digit token = one_of token shell_redirections || is_numbered is_digit token

abbrev pub is_punctuation : Text → Bool
is_punctuation [] = false
is_punctuation (c ∷ token) = only_operators (c ∷ token)

abbrev pub read_token : (ℕ → Bool) → Segments → Text → Segments
read_token is_digit none token = none
read_token is_digit (some (segments, current)) token =
    if is_redirection is_digit token
    then none
    else if one_of token shell_operators
    then end_segment segments current
    else if is_punctuation token
    then none
    else some (segments, current ++ token ∷ [])

unfoldable pub read_tokens : (ℕ → Bool) → Segments → List Text → Segments
read_tokens is_digit state [] = state
read_tokens is_digit state (token ∷ tokens) =
    read_tokens is_digit (read_token is_digit state token) tokens

abbrev pub substitutes : Text → Bool
substitutes command =
    contains (10 ∷ []) command
    || (contains (13 ∷ []) command
        || (contains (codes "$(") command || contains (codes "`") command))

module _ (normpath : Text → Text) (is_digit : ℕ → Bool) where
  abbrev pub all_segments : List (List Text) → Bool
  all_segments [] = true
  all_segments (s ∷ segments) = is_read_only_segment normpath is_digit s && all_segments segments

  abbrev pub judge_segments : Segments → Bool
  judge_segments none = false
  judge_segments (some (segments, [])) = false
  judge_segments (some (segments, t ∷ ts)) = all_segments (segments ++ (t ∷ ts) ∷ [])

  abbrev pub judge_tokens : Option (List Text) → Bool
  judge_tokens none = false
  judge_tokens (some tokens) = judge_segments (read_tokens is_digit (some ([], [])) tokens)

  -- _is_read_only_shell
  unfoldable pub is_read_only_shell : (Text → Option (List Text)) → Text → Bool
  is_read_only_shell lex command = if substitutes command then false else judge_tokens (lex command)

-- U+202A to U+202E and U+2066 to U+2069
abbrev pub is_bidi_mark : ℕ → Bool
is_bidi_mark c = (leb 8234 c && leb c 8238) || (leb 8294 c && leb c 8297)

abbrev pub sanitized : Text → Text
sanitized [] = []
sanitized (c ∷ path) =
    let rest = sanitized path in if leb 32 c && not (is_bidi_mark c) then c ∷ rest else rest
