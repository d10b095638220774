-- ===== src/React/Cap/Tests.antt =====
-- A conversation of 49 messages: the contract, a request, and twenty-three rounds with a call.
use helve.Base.{
  ℕ, zero, suc, ◌≡◌, ◌<◌, refl, true, false, Option, none, some, List, [], ◌∷◌, arith, codes, Text,
  length,
}
use helve.Context.Conversation.{
  Message, Role, system, user, assistant, tool, active_turn_bounds, is_request_turn,
  leading_systems, newest_request,
}
use helve.React.Cap.{
  trim_conversation_to_message_cap, kept, aligned, advance, retreat, is_round_boundary,
  is_elision_note, without_notes, elision_note, tool_results,
}
use helve.React.Cap.Request.{Has, trim_conversation_to_message_cap-Has}
use helve.React.Cap.Pairing.{
  is_paired, opens_on_request, trim_conversation_to_message_cap-is_paired,
  trim_conversation_to_message_cap-opens_on_request,
}

abbrev said : Role → Option Text → Message
said role calls = record {
  role = role;
  content = some (codes "text");
  tool_calls = calls;
  rest = [];
}

abbrev rounds : ℕ → List Message
rounds zero = []
rounds (suc n) = said assistant (some (codes "call")) ∷ said tool none ∷ rounds n

abbrev long : List Message
long = said system none ∷ said user none ∷ rounds 23

long_bounds : active_turn_bounds long ≡ (1, some 1)
unfolding active_turn_bounds is_request_turn leading_systems newest_request
long_bounds = refl

trimmed_to_31 : length (trim_conversation_to_message_cap long) ≡ 31
unfolding trim_conversation_to_message_cap active_turn_bounds is_request_turn leading_systems
    newest_request kept aligned advance retreat is_round_boundary is_elision_note without_notes
    elision_note tool_results
trimmed_to_31 = refl

long_shorter : length (trim_conversation_to_message_cap long) < length long
long_shorter = omega (arith, trimmed_to_31)

long_paired : is_paired false long ≡ true
unfolding is_paired is_request_turn
long_paired = refl

trim_conversation_to_message_cap-Has_example :
    Has (said user none) (trim_conversation_to_message_cap long)
trim_conversation_to_message_cap-Has_example =
    trim_conversation_to_message_cap-Has long 1 1 (said user none) long_bounds refl

trim_conversation_to_message_cap-is_paired_example :
    is_paired false (trim_conversation_to_message_cap long) ≡ true
trim_conversation_to_message_cap-is_paired_example =
    trim_conversation_to_message_cap-is_paired long long_paired

trim_conversation_to_message_cap-opens_on_request_example :
    opens_on_request (trim_conversation_to_message_cap long) ≡ true
trim_conversation_to_message_cap-opens_on_request_example =
    trim_conversation_to_message_cap-opens_on_request long 1 1 long_bounds long_shorter
