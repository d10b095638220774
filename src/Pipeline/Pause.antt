-- ===== src/Pipeline/Pause.antt =====
-- engine/execution/pipeline/pipeline.py: the texts of a pause, _ends_with_user_question and the marker.
use helve.Base.{
  ℕ, zero, suc, Bool, true, false, ◌&&◌, ◌||◌, Option, none, some, [], ◌∷◌, if◌then◌else◌, leb,
  ◌==◌, Text, codes, starts_with, drop, length,
}

abbrev pub reverse_onto : Text → Text → Text
reverse_onto [] out = out
reverse_onto (c ∷ text) out = reverse_onto text (c ∷ out)

-- str.isspace of one character
abbrev pub is_space : ℕ → Bool
is_space c =
    (leb 9 c && leb c 13)
    || ((leb 28 c && leb c 32)
        || (c == 133
            || (c == 160
                || (c == 5760
                    || ((leb 8192 c && leb c 8202)
                        || (c == 8232
                            || (c == 8233 || (c == 8239 || (c == 8287 || c == 12288)))))))))

abbrev pub drop_spaces : Text → Text
drop_spaces [] = []
drop_spaces (c ∷ text) = let rest = drop_spaces text in if is_space c then rest else c ∷ text

-- text.rstrip(), text.strip()
unfoldable pub rstrip : Text → Text
rstrip text = reverse_onto (drop_spaces (reverse_onto text [])) []

unfoldable pub strip : Text → Text
strip text = rstrip (drop_spaces text)

abbrev pub ends_with : Text → Text → Bool
ends_with suffix text = starts_with (reverse_onto suffix []) (reverse_onto text [])

-- text.replace(marker, ""), on a round for each character
abbrev pub replace_rounds : ℕ → Text → Text → Text
replace_rounds zero marker text = text
replace_rounds (suc n) marker [] = []
replace_rounds (suc n) marker (c ∷ text) = elim (starts_with marker (c ∷ text)) [
  | true ↦ replace_rounds n marker (drop (length marker) (c ∷ text))
  | false ↦ c ∷ replace_rounds n marker text
]

unfoldable pub without : Text → Text → Text
without marker text = replace_rounds (length text) marker text

-- The rest after a comment's end, for the text after `<!--`: no `>` stands before that end.
abbrev pub comment_rest : Bool → Bool → Text → Option Text
comment_rest one two [] = none
comment_rest one two (c ∷ text) = elim (c == 62) [
  | true ↦ if one && two then some text else none
  | false ↦ comment_rest (c == 45) (c == 45 && one) text
]

abbrev pub cut_comment : Text → Option Text
cut_comment text =
    if starts_with (codes "<!--") text then comment_rest false false (drop 4 text) else none

-- re.sub(r"<!--[^>]*-->", "", text), on a round for each character
abbrev pub comment_rounds : ℕ → Text → Text
comment_rounds zero text = text
comment_rounds (suc n) [] = []
comment_rounds (suc n) (c ∷ text) = elim (cut_comment (c ∷ text)) [
  | some rest ↦ comment_rounds n rest
  | none ↦ c ∷ comment_rounds n text
]

-- [\s>*_`\]]
abbrev pub is_closer : ℕ → Bool
is_closer c = is_space c || (c == 62 || (c == 42 || (c == 95 || (c == 96 || c == 93))))

-- The reversed text past its closers starts with `?` or `？`.
abbrev pub asks_at_end : Text → Bool
asks_at_end [] = false
asks_at_end (c ∷ text) =
    let before = asks_at_end text in if is_closer c then before else c == 63 || c == 65311

-- _ends_with_user_question
unfoldable pub ends_with_user_question : Text → Bool
ends_with_user_question output =
    let visible = strip (comment_rounds (length output) output) in
    asks_at_end (reverse_onto visible [])

-- _BUDGET_MESSAGE_SUFFIX
abbrev pub budget_message_suffix : Text
budget_message_suffix =
    codes
      "I stopped to avoid an infinite loop. Please retry with a narrower request or inspect the latest failed tool result."

-- _is_budget_message
unfoldable pub is_budget_message : Text → Bool
is_budget_message text = ends_with budget_message_suffix (strip text)
