-- ===== src/Context/Tokens.antt =====
-- engine/context/budget.py: the estimate of the tokens of a text, over its code points.
use helve.Base.{
  ℕ, ◌+◌, ◌-◌, ◌*◌, ◌/◌, ◌≤◌, ◌≡◌, refl, Bool, false, ◌&&◌, List, [], ◌∷◌, ◌++◌, arith, ltb, leb,
  if◌then◌else◌, any, length, Text, length-append,
}

-- _WIDE_CHAR_RANGES, by code point.
abbrev pub wide_char_ranges : List (ℕ × ℕ)
wide_char_ranges =
    (12288, 12351)
    ∷ (12352, 12543)
    ∷ (13312, 19903)
    ∷ (19968, 40959)
    ∷ (44032, 55215)
    ∷ (63744, 64255)
    ∷ (65280, 65519)
    ∷ []

abbrev pub in_range : ℕ → ℕ × ℕ → Bool
in_range char (low, high) = leb low char && leb char high

unfoldable pub is_wide_char : ℕ → Bool
is_wide_char char = if ltb char 12288 then false else any (in_range char) wide_char_ranges

unfoldable pub wide_count : Text → ℕ
wide_count [] = 0
wide_count (c ∷ text) = (if is_wide_char c then 1 else 0) + wide_count text

unfoldable pub estimate_tokens : Text → ℕ
estimate_tokens [] = 0
estimate_tokens (c ∷ text) =
    let wide = wide_count (c ∷ text) in 3 * wide + (length (c ∷ text) - wide + 2) / 3

-- The fast reject of ASCII and Latin text changes no answer.
pub is_wide_char-any : (char : ℕ) → is_wide_char char ≡ any (in_range char) wide_char_ranges
unfolding is_wide_char
is_wide_char-any char = ground arith

wide_count-le-length : (text : Text) → wide_count text ≤ length text
unfolding wide_count
wide_count-le-length [] = omega arith
wide_count-le-length (c ∷ text) = ground (arith, wide_count-le-length text)

wide_count-append : (s t : Text) → wide_count (s ++ t) ≡ wide_count s + wide_count t
unfolding wide_count
wide_count-append [] t = omega arith
wide_count-append (c ∷ s) t = omega (arith, wide_count-append s t)

-- One formula for every text, the empty one included.
pub estimate_tokens-formula :
    (text : Text)
    → estimate_tokens text ≡ 3 * wide_count text + (length text - wide_count text + 2) / 3
unfolding estimate_tokens wide_count
estimate_tokens-formula [] = refl
estimate_tokens-formula (c ∷ text) = refl

-- The estimate counts at least a third of a token and at most three tokens for a character; it
-- grows with the text, and a split text never costs less than the whole.
pub estimate_tokens_bounds :
    (s t : Text)
    → (length s ≤ 3 * estimate_tokens s)
      × (estimate_tokens s ≤ 3 * length s)
      × (estimate_tokens s ≤ estimate_tokens (s ++ t))
      × (estimate_tokens (s ++ t) ≤ estimate_tokens s + estimate_tokens t)
estimate_tokens_bounds s t = omega (
  arith,
  estimate_tokens-formula s,
  estimate_tokens-formula t,
  estimate_tokens-formula (s ++ t),
  wide_count-append s t,
  length-append s t,
  wide_count-le-length s,
  wide_count-le-length t,
)
