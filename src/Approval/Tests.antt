-- ===== src/Approval/Tests.antt =====
-- The broker on two runs: one approval, a second answer, a cancellation.
use helve.Base.{
  true, false, ◌≡◌, ◌≢◌, refl, str_eq, eq_iff, none, some, List, [], ◌∷◌, get_elem?, String,
}
use helve.Base.Dict
use helve.Approval.{
  ApprovalRequest, ApprovalBroker, init, opened, wait_resume, wait_begin, open_request, resolve,
  cancel_run,
}
use helve.Approval.World.{
  Event, Wait, World, opens, waits_on, resolves, cancels_run, resumes, returned, empty, step,
  run_events, was_granted,
}
use helve.Approval.Safety.{approved_granted}
use helve.Approval.Decision.{Answered, resolve-Answered}

abbrev ask : String → String → ApprovalRequest
ask run_id approval_id = record {
  approval_id = approval_id;
  run_id = run_id;
  tool_name = "shell";
  level = "execute";
  reason = "";
  scope = none;
  risk = none;
}

abbrev history : List Event
history =
    opens (ask "r1" "a")
    ∷ waits_on (ask "r1" "a")
    ∷ opens (ask "r2" "b")
    ∷ waits_on (ask "r2" "b")
    ∷ resolves "r2" "a" true
    ∷ resolves "r1" "a" true
    ∷ cancels_run "r2"
    ∷ resumes 0
    ∷ resumes 1
    ∷ []

abbrev approved_wait : Wait
approved_wait = record { request = ask "r1" "a"; ref = 0; outcome = returned true }

approved_granted_example : was_granted (ask "r1" "a") (run_events history empty).granted ≡ true
unfolding run_events step open_request wait_begin wait_resume resolve cancel_run Dict.get Dict.put
    Dict.remove
approved_granted_example = approved_granted history 0 approved_wait refl refl

-- The cancelled run's wait returns False.
cancelled_wait :
    get_elem? (run_events history empty).waits 1
    ≡ some (record { request = ask "r2" "b"; ref = 1; outcome = returned false })
unfolding run_events step open_request wait_begin wait_resume resolve cancel_run Dict.get Dict.put
    Dict.remove
cancelled_wait = refl

abbrev two_open : ApprovalBroker
two_open = opened (ask "r2" "b") (opened (ask "r1" "a") init)

-- The other run is answered and cancelled, and the wait goes on after that.
abbrev later_events : List Event
later_events =
    resolves "r1" "a" false ∷ resolves "r2" "b" true ∷ cancels_run "r2" ∷ opens (ask "r1" "c") ∷ []

abbrev one_wait : World
one_wait = record { broker = two_open; waits = approved_wait ∷ []; granted = [] }

other_run : ◌≢◌ {A = String} "r2" "r1"
other_run e = let h : str_eq "r2" "r1" ≡ true = (eq_iff "r2" "r1").1 e in cc

resolve-Answered_example :
    let c = (resolve "r1" "a" true two_open).1 in
    Answered "r1" "a" true c (run_events later_events (record one_wait { broker = c })).broker
unfolding resolve Dict.get Dict.put
resolve-Answered_example =
    resolve-Answered "r1" "a" true two_open _ later_events one_wait refl
      (tt, (tt, (other_run, (tt, tt))))

after_cancel : Dict.get "b" (cancel_run "r1" two_open).pending ≡ some 1
unfolding cancel_run Dict.get Dict.put Dict.remove
after_cancel = refl
