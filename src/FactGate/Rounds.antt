-- ===== src/FactGate/Rounds.antt =====
-- engine/safety/fact_gate.py: what the gate answers after any history of rounds and calls.
use helve.Base.{
  Bool, true, false, not, ◌||◌, ◌≡◌, refl, ap, ◌∙◌, Option, none, some, List, [], ◌∷◌, Text,
  text_eq, text_eq_sound, text_eq_refl, ◌++◌, arith, Bool-cases, inl, inr,
}
use helve.FactGate.{
  ToolCall, Settings, FactGate, has_text, add, update, new_gate, begin_round, key_of, challenge,
  evaluate,
}

pub data Event : Type 0 where
  begins : Event
  asks : ToolCall → Event

abbrev pub happen : Settings → Event → FactGate → FactGate
happen settings begins gate = begin_round gate
happen settings (asks call) gate = (evaluate settings call gate).1

-- The gate after a history, its events in order.
unfoldable pub perform : Settings → List Event → FactGate → FactGate
perform settings [] gate = gate
perform settings (e ∷ events) gate = perform settings events (happen settings e gate)

abbrev pub is_key : Text → Option Text → Bool
is_key key none = false
is_key key (some k) = text_eq k key

-- A call with the key was made, and a round has begun since; `seen` tells of calls before the history.
unfoldable pub asked_before_round : Settings → Text → Bool → List Event → Bool
asked_before_round settings key seen [] = false
asked_before_round settings key seen (begins ∷ events) =
    seen || asked_before_round settings key seen events
asked_before_round settings key seen (asks call ∷ events) =
    asked_before_round settings key (seen || is_key key (key_of settings call)) events

-- The answer to a call, as its history has it.
abbrev pub is_first : Settings → List Event → Option Text → Bool
is_first settings events none = false
is_first settings events (some key) = not (asked_before_round settings key false events)

has_text-add :
    (key k : Text) (keys : List Text)
    → has_text key (add k keys) ≡ (text_eq k key || has_text key keys)
has_text-add key k keys = elim (Bool-cases (has_text k keys)) [
  | inr h ↦ ground (arith, h)
  | inl h ↦ elim (Bool-cases (text_eq k key)) [
    | inr e ↦ ground (arith, h, e)
    | inl e ↦ ground (arith, h, e, ap (λ (x : Text). has_text x keys) (text_eq_sound k key e))
  ]
]

has_text-update :
    (key : Text) (more keys : List Text)
    → has_text key (update more keys) ≡ (has_text key more || has_text key keys)
has_text-update key [] keys = refl
has_text-update key (k ∷ more) keys =
    ground (arith, has_text-add key k (update more keys), has_text-update key more keys)

has_text-challenged :
    (key : Text) (target : Option Text) (gate : FactGate)
    → (has_text key (challenge target gate).1.checked ≡ has_text key gate.checked)
      × ((has_text key gate.checked || has_text key (challenge target gate).1.pending)
          ≡ (has_text key gate.checked || (has_text key gate.pending || is_key key target)))
has_text-challenged key none gate = (refl, ground (arith))
has_text-challenged key (some k) gate = elim (Bool-cases (has_text k gate.checked)) [
  | inr h ↦ (ground (arith, h), ground (arith, h, has_text-add key k gate.pending))
  | inl h ↦ (
    ground (arith, h),
    elim (Bool-cases (text_eq k key)) [
      | inr e ↦ ground (arith, h, e)
      | inl e ↦
          ground (arith, h, e, ap (λ (x : Text). has_text x gate.checked) (text_eq_sound k key e))
    ],
  )
]

-- The gate lets the key through after a history if it did before, or if it was asked for in an earlier round.
has_text-perform :
    (settings : Settings) (key : Text) (events : List Event) (gate : FactGate)
    → settings.enabled ≡ true
    → has_text key (perform settings events gate).checked ≡ (
        has_text key gate.checked
        || asked_before_round settings key (has_text key gate.pending) events)
unfolding perform asked_before_round begin_round evaluate
has_text-perform settings key [] gate on = ground (arith)
has_text-perform settings key (begins ∷ events) gate on =
    let later = has_text-perform settings key events (begin_round gate) on in
    let both = has_text-update key gate.pending gate.checked in
    elim (Bool-cases (has_text key gate.pending)) [
      | inl p ↦ ground (arith, p, later, both)
      | inr p ↦ ground (arith, p, later, both)
    ]
has_text-perform settings key (asks call ∷ events) gate on =
    let target = key_of settings call in
    let after : FactGate = (challenge target gate).1 in
    let later = has_text-perform settings key events after on in
    let (same, more) = has_text-challenged key target gate in
    elim (Bool-cases (has_text key gate.checked)) [
      | inl c ↦ ground (arith, c, on, later, same)
      | inr c ↦
          let grown : has_text key after.pending
              ≡ (has_text key gate.pending || is_key key target) =
            ground (arith, c, more) in
          let rest = ap (λ (b : Bool). asked_before_round settings key b events) grown in
          ground (arith, c, on, later, same, rest)
    ]

-- In a turn whose gate is on, after any history of rounds and calls, a call is challenged exactly if it has a key and no
-- call with that key was made in an earlier round: a retry in the same round is challenged again.
pub evaluate-is_first :
    (settings : Settings) (events : List Event) (call : ToolCall)
    → settings.enabled ≡ true
    → (evaluate settings call (perform settings events new_gate)).0
      ≡ is_first settings events (key_of settings call)
unfolding evaluate
evaluate-is_first settings events call on = ground (arith, on, by_key (key_of settings call))
  where
    by_key :
        (target : Option Text)
        → (challenge target (perform settings events new_gate)).0 ≡ is_first settings events target
    by_key none = refl
    by_key (some key) =
        let found = has_text-perform settings key events new_gate on in
        elim (Bool-cases (asked_before_round settings key false events)) [
          | inl a ↦ ground (arith, a, found)
          | inr a ↦ ground (arith, a, found)
        ]

seen-asked :
    (settings : Settings) (key : Text) (between after : List Event)
    → asked_before_round settings key true (between ++ begins ∷ after) ≡ true
unfolding asked_before_round
seen-asked settings key [] after = refl
seen-asked settings key (begins ∷ between) after = refl
seen-asked settings key (asks call ∷ between) after = seen-asked settings key between after

history-asked :
    (settings : Settings) (key : Text) (call : ToolCall) (seen : Bool)
    (before between after : List Event)
    → is_key key (key_of settings call) ≡ true
    → asked_before_round settings key seen (before ++ asks call ∷ between ++ begins ∷ after) ≡ true
unfolding asked_before_round
history-asked settings key call seen [] between after h = elim (Bool-cases seen) [
  | inl s ↦ ground (arith, s, seen-asked settings key between after)
  | inr s ↦ ground (arith, s, h, seen-asked settings key between after)
]
history-asked settings key call seen (begins ∷ before) between after h =
    ground (arith, history-asked settings key call seen before between after h)
history-asked settings key call seen (asks other ∷ before) between after h =
    history-asked settings key call (seen || is_key key (key_of settings other)) before between
      after h

-- In a turn whose gate is on, a call that was made once passes when it is made again after a round has begun,
-- whatever happens before, between and after.
pub evaluate-passes_again :
    (settings : Settings) (call : ToolCall) (before between after : List Event)
    → settings.enabled ≡ true
    → (evaluate settings call
        (perform settings (before ++ asks call ∷ between ++ begins ∷ after) new_gate)).0
      ≡ false
evaluate-passes_again settings call before between after on =
    evaluate-is_first settings (before ++ asks call ∷ between ++ begins ∷ after) call on
    ∙ passes (key_of settings call) refl
  where
    passes :
        (target : Option Text)
        → key_of settings call ≡ target
        → is_first settings (before ++ asks call ∷ between ++ begins ∷ after) target ≡ false
    passes none e = refl
    passes (some key) e =
        let own : is_key key (key_of settings call) ≡ true = ap (is_key key) e ∙ text_eq_refl key in
        ap not (history-asked settings key call false before between after own)
