-- ===== src/Pipeline/Settled.antt =====
-- Every provisional text that a pipeline streams is committed or retracted, once.
pub mod Steps
pub mod Run
use helve.Base.{
  ℕ, zero, suc, ◌+◌, ◌≡◌, refl, sym, ap, ◌∙◌, String, Bool, true, false, ◌&&◌, not, Option, none,
  some, List, [], ◌∷◌, ◌++◌, if◌then◌else◌, Text, codes, arith, Bool-cases, Option-cases, inl, inr,
  subst, ◌==◌, ltb, get_elem?,
}
use helve.Base.Dict.{get}
use helve.Pipeline.{
  Node, Chain, GateResult, coerce_gate_result, Fallback, NodeResult, StreamEvent, text_delta,
  raw_response, tool_call_result, Event, provisional_delta, commit, retract, World, Machine, Ending,
  Point, outer, inner, Stage, goes_on, returned, crashed, emit, Cause,
}

-- A reader of the events: the text of execution `next` may be open, and all before it are settled.
pub data Scan : Type 0 where
  bad : Scan
  at : (is_open : Bool) → (next : ℕ) → Scan

abbrev pub on_delta : ℕ → Scan → Scan
on_delta p bad = bad
on_delta p (at o n) = if p == n then at true n else bad

abbrev pub on_settle : ℕ → Scan → Scan
on_settle p bad = bad
on_settle p (at o n) = if p == n then at false (suc n) else bad

abbrev pub scan_one : Event → Scan → Scan
scan_one (provisional_delta p t) s = on_delta p s
scan_one (commit p) s = on_settle p s
scan_one (retract p c) s = on_settle p s
scan_one _ s = s

unfoldable pub scan : List Event → Scan → Scan
scan [] s = s
scan (e ∷ events) s = scan events (scan_one e s)

pub scan-append : (xs ys : List Event) (s : Scan) → scan (xs ++ ys) s ≡ scan ys (scan xs s)
unfolding scan
scan-append [] ys s = refl
scan-append (x ∷ xs) ys s = scan-append xs ys (scan_one x s)

-- Each execution so far is settled, and none is open.
abbrev pub Settled : Machine → Type 0
Settled m = scan m.events (at false 0) ≡ at false m.serial

-- The execution p is the last one, and not settled yet.
abbrev pub Open : ℕ → Bool → Machine → Type 0
Open p o m = (scan m.events (at false 0) ≡ at o p) × (m.serial ≡ suc p)

abbrev pub SettledStage : Stage → Type 0
SettledStage (goes_on point m) = Settled m
SettledStage (returned ending m) = Settled m
SettledStage (crashed m) = Settled m

abbrev pub Quiet : List Event → Type 0
Quiet es = (s : Scan) → scan es s ≡ s

pub emit-Settled : (es : List Event) (m : Machine) → Quiet es → Settled m → Settled (emit es m)
emit-Settled es m q h =
    ground (arith, scan-append m.events es (at false 0), q (at false m.serial), h)

pub emit-Open :
    (es : List Event) (m : Machine) (p : ℕ) (o : Bool)
    → Quiet es
    → Open p o m
    → Open p o (emit es m)
emit-Open es m p o q (h, k) =
    (ground (arith, scan-append m.events es (at false 0), q (at o p), h), k)

pub retract-Settled :
    (es : List Event) (m : Machine) (p : ℕ) (c : Cause) (o : Bool)
    → Quiet es
    → Open p o m
    → Settled (emit (retract p c ∷ es) m)
unfolding scan
retract-Settled es m p c o q (h, k) =
    ground (arith, scan-append m.events (retract p c ∷ es) (at false 0), q (at false (suc p)), h, k)

pub commit-Settled :
    (es : List Event) (m : Machine) (p : ℕ) (o : Bool)
    → Quiet es
    → Open p o m
    → Settled (emit (commit p ∷ es) m)
unfolding scan
commit-Settled es m p o q (h, k) =
    ground (arith, scan-append m.events (commit p ∷ es) (at false 0), q (at false (suc p)), h, k)
