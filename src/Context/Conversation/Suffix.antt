-- ===== src/Context/Conversation/Suffix.antt =====
-- The active turn of a conversation that ends with an active turn.
use helve.Base.{
  ℕ, zero, suc, ◌+◌, ◌-◌, ◌≤◌, ◌<◌, ◌≡◌, ◌⊎◌, inl, inr, refl, Bool, true, false, none, some, List,
  [], ◌∷◌, ◌++◌, arith, ltb, length, drop, Bool-cases, Option-cases, ap, sym, ◌∙◌, subst,
  append_assoc, append-nil, length-append,
}
use helve.Context.Conversation.{
  Message, Role, system, user, assistant, tool, other_role, is_system, is_user, holds_at,
  is_request_turn, leading_systems, newest_request, active_turn_bounds, split_active_context,
}
use helve.Context.Conversation.Bounds.{active_turn_bounds-Active, split_active_context_append}

abbrev pub active_part : List Message → List Message
active_part ms = (split_active_context ms).2

-- The list ends with the other one.
abbrev pub Ends : List Message → List Message → Type 0
Ends end ms = (before : List Message) × (ms ≡ before ++ end)

pub Ends-trans : (xs ys zs : List Message) → Ends xs ys → Ends ys zs → Ends xs zs
Ends-trans xs ys zs (p, e) (q, f) = (q ++ p, f ∙ ap (λ t. q ++ t) e ∙ sym (append_assoc q p xs))

pub Ends-active_part : (ms : List Message) → Ends (active_part ms) ms
Ends-active_part ms =
    let (protected, history, active) = split_active_context ms in
    (
      protected ++ history,
      sym (split_active_context_append ms) ∙ sym (append_assoc protected history active),
    )

holds_at-append :
    (p : Message → Bool) (xs ys : List Message) (i : ℕ)
    → holds_at p (xs ++ ys) (length xs + i) ≡ holds_at p ys i
holds_at-append p [] ys i = let same : 0 + i ≡ i = omega arith in ap (holds_at p ys) same
holds_at-append p (x ∷ xs) ys i =
    let same : suc (length xs) + i ≡ suc (length xs + i) = omega arith in
    ap (holds_at p (x ∷ (xs ++ ys))) same ∙ holds_at-append p xs ys i

drop-append :
    {A : Type 0} (n : ℕ) (xs ys : List A) → n ≤ length xs → drop n (xs ++ ys) ≡ drop n xs ++ ys
drop-append zero xs ys h = refl
drop-append (suc n) [] ys h = absurd (omega arith)
drop-append (suc n) (x ∷ xs) ys h = drop-append n xs ys (omega arith)

newest_request-none :
    (ms : List Message) (start n j : ℕ)
    → newest_request ms start n ≡ none
    → j < n
    → holds_at is_request_turn ms (start + j) ≡ false
unfolding newest_request
newest_request-none ms start zero j e h = absurd (omega arith)
newest_request-none ms start (suc n) j e h =
    elim (Bool-cases (holds_at is_request_turn ms (start + n))) [
      | inl q ↦ absurd (ground (arith, e, q))
      | inr q ↦ elim (last_or n j h) [
        | inl same ↦ rw same q
        | inr less ↦ newest_request-none ms start n j (ground (arith, e, q)) less
      ]
    ]
  where
    last_or : (m j : ℕ) → j < suc m → (j ≡ m) ⊎ (j < m)
    last_or m j h = grind arith

request_user : (r : Role) → is_user r ≡ true → is_system r ≡ false
request_user system h = absurd (cc)
request_user user h = refl
request_user assistant h = absurd (cc)
request_user tool h = absurd (cc)
request_user (other_role t) h = absurd (cc)

leading_systems-before :
    (q act : List Message)
    → holds_at is_request_turn act 0 ≡ true
    → leading_systems (q ++ act) ≤ length q
unfolding leading_systems is_request_turn
leading_systems-before [] [] h = omega arith
leading_systems-before [] (m ∷ act) h =
    let plain = request_user m.role (ground (arith, h)) in rw plain (omega arith)
leading_systems-before (m ∷ q) act h = ground (arith, leading_systems-before q act h)

split_part :
    (ms : List Message) (start : ℕ)
    → (active_turn_bounds ms).1 ≡ some start
    → active_part ms ≡ drop start ms
unfolding split_active_context
split_part ms start e = rw (e, active_part) refl

active_part-none : (ms : List Message) → (active_turn_bounds ms).1 ≡ none → active_part ms ≡ []
unfolding split_active_context
active_part-none ms e = rw (e, active_part) refl

holds_at-zero : (act : List Message) → holds_at is_request_turn act 0 ≡ true → 0 < length act
holds_at-zero [] h = absurd (cc)
holds_at-zero (m ∷ act) h = omega arith

newest-bounds :
    (ms : List Message)
    → (active_turn_bounds ms).1 ≡ none
    → newest_request ms (leading_systems ms) (length ms - leading_systems ms) ≡ none
unfolding active_turn_bounds
newest-bounds ms e = e

-- A conversation that ends with a request and no later one has an active turn that ends so.
pub Ends-append :
    (q act : List Message)
    → holds_at is_request_turn act 0 ≡ true
    → ((k : ℕ) → holds_at is_request_turn act (suc k) ≡ false)
    → Ends act (active_part (q ++ act))
Ends-append q act first later =
    let ms = q ++ act in
    elim (Option-cases (active_turn_bounds ms).1) [
      | inl none_found ↦
          let low = leading_systems-before q act first in
          let some_act = holds_at-zero act first in
          let j = length q - leading_systems ms in
          let at : leading_systems ms + j ≡ length q + 0 = omega (arith, low) in
          let no =
            newest_request-none ms (leading_systems ms) (length ms - leading_systems ms) j
              (newest-bounds ms none_found) (omega (arith, low, some_act, length-append q act)) in
          absurd (
            ground (
              arith,
              no,
              ap (holds_at is_request_turn ms) at,
              holds_at-append is_request_turn q act 0,
              first,
            ))
      | inr (start, e) ↦
          let a =
            active_turn_bounds-Active ms (active_turn_bounds ms).0 start (ground (arith, e)) in
          let low : start ≤ length q = elim (Bool-cases (ltb (length q) start)) [
            | inr within ↦ ground (arith, within)
            | inl above ↦
                let k = start - length q - 1 in
                let at : start ≡ length q + suc k = ground (arith, above) in
                absurd (
                  ground (
                    arith,
                    a.request,
                    ap (holds_at is_request_turn ms) at,
                    holds_at-append is_request_turn q act (suc k),
                    later k,
                  ))
          ] in
          (drop start q, split_part ms start e ∙ drop-append start q act low)
    ]

holds_at-drop :
    (p : Message → Bool) (ms : List Message) (n i : ℕ)
    → holds_at p (drop n ms) i ≡ holds_at p ms (n + i)
holds_at-drop p ms zero i = let same : i ≡ 0 + i = omega arith in ap (holds_at p ms) same
holds_at-drop p [] (suc n) i = refl
holds_at-drop p (x ∷ ms) (suc n) i =
    let same : suc (n + i) ≡ suc n + i = omega arith in
    holds_at-drop p ms n i ∙ ap (holds_at p (x ∷ ms)) same

-- Put behind other messages, an active turn is the end of the active turn.
pub Ends-active_part_again :
    (ms q : List Message) → Ends (active_part ms) (active_part (q ++ active_part ms))
Ends-active_part_again ms q = elim (Option-cases (active_turn_bounds ms).1) [
  | inl none_found ↦
      subst (λ act. Ends act (active_part (q ++ act))) (sym (active_part-none ms none_found))
        (active_part (q ++ []), sym (append-nil (active_part (q ++ []))))
  | inr (start, e) ↦
      let a = active_turn_bounds-Active ms (active_turn_bounds ms).0 start (ground (arith, e)) in
      subst (λ act. Ends act (active_part (q ++ act))) (sym (split_part ms start e))
        (Ends-append q (drop start ms)
          (holds_at-drop is_request_turn ms start 0
            ∙ let same : start + 0 ≡ start = omega arith in
              ap (holds_at is_request_turn ms) same ∙ a.request)
          λ k. holds_at-drop is_request_turn ms start (suc k) ∙ a.newest k)
]
