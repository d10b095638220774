-- ===== src/FactGate/Passed.antt =====
-- engine/safety/fact_gate.py: which commands _is_read_only_shell passes.
use helve.Base.{
  All-append, ℕ, Bool, true, false, ◌&&◌, ◌≡◌, refl, sym, ap, ◌∙◌, ◌↔◌, Option, none, some, List,
  [], ◌∷◌, ◌++◌, append-nil, append_assoc, Text, arith, Bool-cases, Option-cases, inl, inr, All,
  subst, codes, text_eq, text_eq_sound,
}
use helve.FactGate.Words.{one_of}
use helve.FactGate.Segment.{is_read_only_segment}
use helve.FactGate.Shell.{
  shell_operators, Segments, end_segment, is_redirection, is_punctuation, read_token, read_tokens,
  all_segments, judge_segments, substitutes, is_read_only_shell,
}

-- The tokens of some segments, each with the operator behind it, and of a last one.
abbrev pub joined : List (List Text × Text) → List Text → List Text
joined [] last = last
joined ((segment, operator) ∷ more) last = segment ++ operator ∷ joined more last

abbrev IsBare : (ℕ → Bool) → Text → Type 0
IsBare is_digit token =
    (is_redirection is_digit token ≡ false)
    × (one_of token shell_operators ≡ false)
    × (is_punctuation token ≡ false)

read_tokens-none :
    (is_digit : ℕ → Bool) (tokens : List Text) → read_tokens is_digit none tokens ≡ none
unfolding read_tokens
read_tokens-none is_digit [] = refl
read_tokens-none is_digit (t ∷ tokens) = read_tokens-none is_digit tokens

by_text : (P : Text → Type 0) (s t : Text) → text_eq s t ≡ true → P t → P s
by_text P s t e h = subst P (sym (text_eq_sound s t e)) h

operator-redirection :
    (is_digit : ℕ → Bool) (t : Text)
    → one_of t shell_operators ≡ true
    → is_redirection is_digit t ≡ false
operator-redirection is_digit t h =
    let P = λ (x : Text). is_redirection is_digit x ≡ false in
    elim (Bool-cases (text_eq t (codes ";"))) [
      | inl e ↦ by_text P t (codes ";") e (ground (arith))
      | inr n1 ↦ elim (Bool-cases (text_eq t (codes "&"))) [
        | inl e ↦ by_text P t (codes "&") e (ground (arith))
        | inr n2 ↦ elim (Bool-cases (text_eq t (codes "&&"))) [
          | inl e ↦ by_text P t (codes "&&") e (ground (arith))
          | inr n3 ↦ elim (Bool-cases (text_eq t (codes "||"))) [
            | inl e ↦ by_text P t (codes "||") e (ground (arith))
            | inr n4 ↦ by_text P t (codes "|") (ground (arith, n1, n2, n3, n4, h)) (ground (arith))
          ]
        ]
      ]
    ]

module _ (normpath : Text → Text) (is_digit : ℕ → Bool) where
  -- One command: words that are no punctuation of the shell, which the allowlist passes.
  abbrev pub IsCommand : List Text → Type 0
  IsCommand [] = ⊥
  IsCommand (t ∷ ts) =
      All (IsBare is_digit) (t ∷ ts) × (is_read_only_segment normpath is_digit (t ∷ ts) ≡ true)

  abbrev pub IsFollowed : List Text × Text → Type 0
  IsFollowed (segment, operator) = IsCommand segment × (one_of operator shell_operators ≡ true)

  -- Commands that the allowlist passes, joined by operators.
  abbrev pub IsReadOnly : List Text → Type 0
  IsReadOnly tokens =
      (more : List (List Text × Text)) × (last : List Text) × (joined more last ≡ tokens)
      × All IsFollowed more
      × IsCommand last

  all-append :
      (xs ys : List (List Text))
      → all_segments normpath is_digit (xs ++ ys)
        ≡ (all_segments normpath is_digit xs && all_segments normpath is_digit ys)
  all-append [] ys = refl
  all-append (x ∷ xs) ys = ground (arith, all-append xs ys)

  abbrev judge : Segments → Bool
  judge state = judge_segments normpath is_digit state

  judge-end :
      (segments : List (List Text)) (current : List Text)
      → All (IsBare is_digit) current
      → judge (some (segments, current)) ≡ true
      → (all_segments normpath is_digit segments ≡ true) × IsCommand current
  judge-end segments [] bare h = absurd (cc)
  judge-end segments (t ∷ ts) bare h =
      let split = all-append segments ((t ∷ ts) ∷ []) in
      (ground (arith, split, h), (bare, ground (arith, split, h)))

  stops :
      (tokens : List Text) (state : Segments)
      → state ≡ none
      → judge (read_tokens is_digit state tokens) ≡ true
      → ⊥
  stops tokens state e h = absurd (
      ground (
        arith,
        ap (λ (x : Segments). read_tokens is_digit x tokens) e,
        read_tokens-none is_digit tokens,
        h,
      ))

  sound_operator :
      (t : Text) (tokens : List Text)
      → ((segments : List (List Text)) (current : List Text)
          → All (IsBare is_digit) current
          → judge (read_tokens is_digit (some (segments, current)) tokens) ≡ true
          → (all_segments normpath is_digit segments ≡ true) × IsReadOnly (current ++ tokens))
      → (segments : List (List Text)) (current : List Text) → All (IsBare is_digit) current
      → one_of t shell_operators ≡ true
      → judge (read_tokens is_digit (end_segment segments current) tokens) ≡ true
      → (all_segments normpath is_digit segments ≡ true) × IsReadOnly (current ++ t ∷ tokens)
  sound_operator t tokens later segments [] bare o h = absurd (stops tokens none refl h)
  sound_operator t tokens later segments (c ∷ cs) bare o h =
      let (before, (more, last, same, rest, final)) = later (segments ++ (c ∷ cs) ∷ []) [] tt h in
      let split = all-append segments ((c ∷ cs) ∷ []) in
      (
        ground (arith, before, split),
        (
          ((c ∷ cs, t) ∷ more),
          last,
          ap (λ (x : List Text). (c ∷ cs) ++ t ∷ x) same,
          (((bare, ground (arith, before, split)), o), rest),
          final,
        ),
      )

  -- What is left of the tokens, behind the words of the segment that is being read.
  sound :
      (tokens : List Text) (segments : List (List Text)) (current : List Text)
      → All (IsBare is_digit) current
      → judge (read_tokens is_digit (some (segments, current)) tokens) ≡ true
      → (all_segments normpath is_digit segments ≡ true) × IsReadOnly (current ++ tokens)
  unfolding read_tokens
  sound [] segments current bare h =
      let (before, last) = judge-end segments current bare h in
      (before, ([], current, sym (append-nil current), tt, last))
  sound (t ∷ tokens) segments current bare h = elim (Bool-cases (is_redirection is_digit t)) [
    | inl r ↦
        absurd
          (stops tokens (read_token is_digit (some (segments, current)) t) (ground (arith, r)) h)
    | inr r ↦ elim (Bool-cases (one_of t shell_operators)) [
      | inl o ↦
          let here : judge (read_tokens is_digit (end_segment segments current) tokens) ≡ true =
            ground (arith, r, o, h) in
          sound_operator t tokens (sound tokens) segments current bare o here
      | inr o ↦ elim (Bool-cases (is_punctuation t)) [
        | inl p ↦ absurd (
            stops tokens (read_token is_digit (some (segments, current)) t)
              (ground (arith, r, o, p)) h)
        | inr p ↦
            let here : judge (read_tokens is_digit (some (segments, current ++ t ∷ [])) tokens)
                ≡ true =
              ground (arith, r, o, p, h) in
            let (before, (more, last, same, rest, final)) =
              sound tokens segments (current ++ t ∷ [])
                (All-append (IsBare is_digit) current (t ∷ []) bare ((r, o, p), tt)) here in
            (before, (more, last, same ∙ append_assoc current (t ∷ []) tokens, rest, final))
      ]
    ]
  ]

  words-read :
      (segment rest : List Text) (segments : List (List Text)) (current : List Text)
      → All (IsBare is_digit) segment
      → read_tokens is_digit (some (segments, current)) (segment ++ rest)
        ≡ read_tokens is_digit (some (segments, current ++ segment)) rest
  unfolding read_tokens
  words-read [] rest segments current bare =
      ap (λ (x : List Text). read_tokens is_digit (some (segments, x)) rest)
        (sym (append-nil current))
  words-read (t ∷ ts) rest segments current ((r, o, p), bare) =
      let later = words-read ts rest segments (current ++ t ∷ []) bare in
      let grouped =
        ap (λ (x : List Text). read_tokens is_digit (some (segments, x)) rest)
          (append_assoc current (t ∷ []) ts) in
      ground (arith, r, o, p, later, grouped)

  command-all :
      (segments : List (List Text)) (last : List Text)
      → all_segments normpath is_digit segments ≡ true
      → IsCommand last
      → all_segments normpath is_digit (segments ++ last ∷ []) ≡ true
  command-all segments [] h c = absurd c
  command-all segments (t ∷ ts) h c = ground (arith, all-append segments ((t ∷ ts) ∷ []), h, c.1)

  last-judged :
      (segments : List (List Text)) (last : List Text)
      → all_segments normpath is_digit segments ≡ true
      → IsCommand last
      → judge (read_tokens is_digit (some (segments, [])) last) ≡ true
  unfolding read_tokens
  last-judged segments [] h c = absurd c
  last-judged segments (t ∷ ts) h c =
      let read = words-read (t ∷ ts) [] segments [] c.0 in
      let whole = append-nil (t ∷ ts) in
      ap (λ (x : List Text). judge (read_tokens is_digit (some (segments, [])) x)) (sym whole)
      ∙ (ap judge read ∙ command-all segments (t ∷ ts) h c)

  complete :
      (more : List (List Text × Text)) (last : List Text) (segments : List (List Text))
      → All IsFollowed more
      → IsCommand last
      → all_segments normpath is_digit segments ≡ true
      → judge (read_tokens is_digit (some (segments, [])) (joined more last)) ≡ true
  unfolding read_tokens
  complete [] last segments rest c h = last-judged segments last h c
  complete (([], operator) ∷ more) last segments rest c h = absurd rest.0.0
  complete ((t ∷ ts, operator) ∷ more) last segments (((bare, own), o), rest) c h =
      let later =
        complete more last (segments ++ (t ∷ ts) ∷ []) rest c
          (command-all segments (t ∷ ts) h (bare, own)) in
      let read = words-read (t ∷ ts) (operator ∷ joined more last) segments [] bare in
      let apart = operator-redirection is_digit operator o in
      ap judge read ∙ ground (arith, later, apart, o)

  -- A command is passed as read-only exactly if it has no line break and no substitution, and its tokens are
  -- one or more commands, joined by operators of the shell, each of which is not empty, has no redirection
  -- or other punctuation among its words, and is passed by the allowlist.
  pub is_read_only_shell-IsReadOnly :
      (lex : Text → Option (List Text)) (command : Text)
      → (is_read_only_shell normpath is_digit lex command ≡ true) ↔ (
          (substitutes command ≡ false)
          × (tokens : List Text) × (lex command ≡ some tokens)
          × IsReadOnly tokens)
  unfolding is_read_only_shell
  is_read_only_shell-IsReadOnly lex command = (
    λ h. elim (Bool-cases (substitutes command)) [
      | inl b ↦ absurd (ground (arith, b, h))
      | inr b ↦ elim (Option-cases (lex command)) [
        | inl n ↦ absurd (ground (arith, b, n, h))
        | inr (tokens, l) ↦ (b, tokens, l, (sound tokens [] [] tt (ground (arith, b, l, h))).1)
      ]
    ],
    λ (b, tokens, l, (more, last, same, rest, final)).
        let judged = complete more last [] rest final refl in
        let moved = ap (λ (x : List Text). judge (read_tokens is_digit (some ([], [])) x)) same in
        ground (arith, b, l, judged, moved),
  )
