-- ===== src/Context/Conversation/Bounds.antt =====
-- What `active_turn_bounds` finds.
use helve.Base.{
  ℕ, zero, suc, ◌+◌, ◌-◌, ◌≤◌, ◌<◌, ◌≡◌, ◌⊎◌, inl, inr, refl, Bool, true, false, Option, none, some,
  List, [], ◌∷◌, ◌++◌, arith, get_elem?, length, take, drop, Bool-cases, Option-cases, get_elem?-lt,
  take-append-drop, ap, append-nil, All,
}
use helve.Context.Conversation.{
  Message, is_system, is_request_turn, leading_systems, holds_at, newest_request,
  active_turn_bounds, split_at, split_active_context,
}

pub leading_systems-le : (ms : List Message) → leading_systems ms ≤ length ms
unfolding leading_systems
leading_systems-le [] = omega arith
leading_systems-le (m ∷ ms) = ground (arith, leading_systems-le ms)

pub leading_systems-All :
    (ms : List Message) (n : ℕ)
    → n ≤ leading_systems ms
    → All (λ m. is_system m.role ≡ true) (take n ms)
unfolding leading_systems
leading_systems-All ms zero h = tt
leading_systems-All [] (suc n) h = tt
leading_systems-All (m ∷ ms) (suc n) h = ground (arith, leading_systems-All ms n)

holds_at-lt :
    (p : Message → Bool) (ms : List Message) (i : ℕ) → holds_at p ms i ≡ true → i < length ms
holds_at-lt p ms i h = elim (Option-cases (get_elem? ms i)) [
  | inl e ↦ absurd (ground (arith, h, e))
  | inr (m, e) ↦ get_elem?-lt ms i e
]

-- The index found is of a request turn, and none stands between it and the end of the search.
pub newest_request-some :
    (ms : List Message) (start n i : ℕ)
    → newest_request ms start n ≡ some i
    → (start ≤ i) × (i < start + n) × (holds_at is_request_turn ms i ≡ true)
unfolding newest_request
newest_request-some ms start zero i e = absurd (cc)
newest_request-some ms start (suc n) i e =
    elim (Bool-cases (holds_at is_request_turn ms (start + n))) [
      | inl h ↦
          let same : start + n ≡ i = ground (arith, e, h) in
          (omega arith, omega arith, rw (← same) h)
      | inr h ↦
          let (a, b, c) = newest_request-some ms start n i (ground (arith, e, h)) in
          (a, omega (arith, b), c)
    ]

pub newest_request-later :
    (ms : List Message) (start n i j : ℕ)
    → newest_request ms start n ≡ some i
    → i < j
    → j < start + n
    → holds_at is_request_turn ms j ≡ false
unfolding newest_request
newest_request-later ms start zero i j e h k = absurd (cc)
newest_request-later ms start (suc n) i j e h k =
    elim (Bool-cases (holds_at is_request_turn ms (start + n))) [
      | inl q ↦ absurd (let same : start + n ≡ i = ground (arith, e, q) in omega arith)
      | inr q ↦ elim (last_or (start + n) j (omega arith)) [
        | inl same ↦ rw same q
        | inr less ↦ newest_request-later ms start n i j (ground (arith, e, q)) h less
      ]
    ]
  where
    last_or : (m j : ℕ) → j < suc m → (j ≡ m) ⊎ (j < m)
    last_or m j h = grind arith

-- The request that is being executed: a request turn behind the leading system messages, with no
-- request turn after it; the messages counted as leading are system messages.
pub record Active (ms : List Message) (leading start : ℕ) : Type 0 where
  pub contract : All (λ m. is_system m.role ≡ true) (take leading ms)
  pub after_contract : leading ≤ start
  pub in_range : start < length ms
  pub request : holds_at is_request_turn ms start ≡ true
  pub newest : (k : ℕ) → holds_at is_request_turn ms (start + suc k) ≡ false

pub active_turn_bounds-Active :
    (ms : List Message) (leading start : ℕ)
    → active_turn_bounds ms ≡ (leading, some start)
    → Active ms leading start
unfolding active_turn_bounds
active_turn_bounds-Active ms leading start e =
    let lead : leading_systems ms ≡ leading = ground (arith, e) in
    let found : newest_request ms leading (length ms - leading) ≡ some start =
      rw (← lead) (ground (arith, e)) in
    let (a, b, c) = newest_request-some ms leading (length ms - leading) start found in
    record {
      contract = leading_systems-All ms leading (omega (arith, lead));
      after_contract = a;
      in_range = holds_at-lt is_request_turn ms start c;
      request = c;
      newest = λ k. elim (Bool-cases (holds_at is_request_turn ms (start + suc k))) [
        | inr no_turn ↦ no_turn
        | inl turn ↦
            newest_request-later ms leading (length ms - leading) start (start + suc k) found
              (omega arith) (omega (arith, holds_at-lt is_request_turn ms (start + suc k) turn))
      ];
    }

drop-take-drop :
    {A : Type 0} (xs : List A) (i j : ℕ)
    → i ≤ j
    → take i xs ++ (drop i (take j xs) ++ drop j xs) ≡ xs
drop-take-drop xs zero j h = take-append-drop j xs
drop-take-drop [] (suc i) zero h = elim h [ ]
drop-take-drop [] (suc i) (suc j) h = refl
drop-take-drop (x ∷ xs) (suc i) zero h = elim h [ ]
drop-take-drop (x ∷ xs) (suc i) (suc j) h = ap (◌∷◌ x) (drop-take-drop xs i j (omega arith))

split_at_append :
    (ms : List Message) (leading : ℕ) (active : Option ℕ)
    → ((i : ℕ) → active ≡ some i → leading ≤ i)
    → let (protected, history, rest) = split_at ms leading active in
      protected ++ (history ++ rest) ≡ ms
split_at_append ms leading none h = rw (append-nil (drop leading ms)) (take-append-drop leading ms)
split_at_append ms leading (some i) h = drop-take-drop ms leading i (h i refl)

-- The three parts put together are the conversation.
pub split_active_context_append :
    (ms : List Message)
    → let (protected, history, active) = split_active_context ms in
      protected ++ (history ++ active) ≡ ms
unfolding split_active_context
split_active_context_append ms =
    split_at_append ms (active_turn_bounds ms).0 (active_turn_bounds ms).1 λ i e.
      (active_turn_bounds-Active ms (active_turn_bounds ms).0 i (ground (arith, e))).after_contract
