-- ===== src/Pipeline/Collect.antt =====
-- engine/execution/pipeline/pipeline.py: _collect_node_events and _NodeResult.
use helve.Base.{ℕ, Bool, true, false, Option, none, some, List, [], ◌∷◌, ◌++◌, if◌then◌else◌, Text}
use helve.Pipeline.{
  StreamEvent, text_delta, raw_response, tool_call_result, NodeResult, Event, provisional_delta,
  forwarded,
}

-- _NodeResult()
abbrev pub no_result : NodeResult
no_result = record {
  text = [];
  was_provisional = false;
  incomplete_reason = none;
  failed_reason = none;
  evidence = [];
}

-- raw_text_delta: a raw event has no delta where its text is empty.
abbrev pub delta_of : Option Text → Option Text
delta_of none = none
delta_of (some []) = none
delta_of (some (c ∷ text)) = some (c ∷ text)

abbrev pub noted_evidence : Option Text → NodeResult → NodeResult
noted_evidence none r = r
noted_evidence (some []) r = r
noted_evidence (some (c ∷ h)) r = record r { evidence = r.evidence ++ (c ∷ h) ∷ [] }

-- What one event adds to the result.
abbrev pub absorb : StreamEvent → NodeResult → NodeResult
absorb (text_delta t) r = record r { text = r.text ++ t }
absorb (raw_response none) r = r
absorb (raw_response (some [])) r = r
absorb (raw_response (some (c ∷ t))) r = record r { was_provisional = true }
absorb (tool_call_result h) r = noted_evidence h r
absorb (StreamEvent.incomplete reason) r = record r { incomplete_reason = some reason }
absorb (StreamEvent.failed reason) r = record r { failed_reason = some reason }
absorb StreamEvent.other r = r

-- What one event passes on.
abbrev pub passed_on : ℕ → Bool → StreamEvent → List Event
passed_on provision suppress (text_delta t) = []
passed_on provision suppress (raw_response none) = []
passed_on provision suppress (raw_response (some [])) = []
passed_on provision suppress (raw_response (some (c ∷ t))) =
    provisional_delta provision (c ∷ t) ∷ []
passed_on provision suppress (tool_call_result h) = forwarded (tool_call_result h) ∷ []
passed_on provision suppress (StreamEvent.incomplete reason) =
    if suppress then [] else forwarded (StreamEvent.incomplete reason) ∷ []
passed_on provision suppress (StreamEvent.failed reason) =
    if suppress then [] else forwarded (StreamEvent.failed reason) ∷ []
passed_on provision suppress StreamEvent.other = forwarded StreamEvent.other ∷ []

unfoldable pub collected : NodeResult → List StreamEvent → NodeResult
collected r [] = r
collected r (e ∷ stream) = collected (absorb e r) stream

unfoldable pub streamed : ℕ → Bool → List StreamEvent → List Event
streamed provision suppress [] = []
streamed provision suppress (e ∷ stream) =
    passed_on provision suppress e ++ streamed provision suppress stream
