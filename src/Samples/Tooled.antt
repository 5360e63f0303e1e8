-- ===== src/Samples/Tooled.antt =====
-- The theorems on the execution of a batch at a sample batch of two calls.
use jharness.Common.{
  ◌≡◌, ◌≤◌, refl, true, none, some, String, Option, List, [], ◌∷◌, get_elem?, arith, length,
}
use jharness.Errors.{ok}
use jharness.Messages.{RuntimeToolCall}
use jharness.Change.Batch.{ToolResult}
use jharness.Control.{new_inbox}
use jharness.Tooling.Approval.{
  Prepared, bind, ApprovalDecision, approval_allow, approval_deny, approve, requests_from,
  failed_call, failed_result,
}
use jharness.Tooling.Execution.{
  queued, running, done, Slot, slot_of, Execution, start, Reach, here, next, acquires, settles,
  finishes, acquire, settle, finish, complete, raised,
}
use jharness.Tooling.Execution.Counts.{total}
use jharness.Tooling.Execution.Laws.{runs}
use jharness.Tooling.Batches.{running-permits, complete-start, complete-result}
use jharness.Tooling.Denials.{complete-denied}
use jharness.Samples.{call_a, call_b}

abbrev catalog : RuntimeToolCall → Option String
catalog call = none

abbrev calls : List RuntimeToolCall
calls = call_a ∷ call_b ∷ []

abbrev decisions : List ApprovalDecision
decisions = approval_deny "a" "too risky" ∷ approval_allow "b" ∷ []

abbrev prepared : List Prepared
prepared =
    failed_call call_a "approval_denied" "too risky"
    ∷ record { call = call_b; bound = true; result = none }
    ∷ []

approved : approve (some decisions) (bind catalog calls) ≡ ok (prepared, none)
unfolding approve bind
approved = refl

abbrev slot_b : Slot
slot_b = record { call = "b"; task = queued; result = none }

abbrev running_b : Slot
running_b = record slot_b { task = running }

abbrev broken : ToolResult
broken = failed_result "tool_error" "broken"

abbrev done_b : Slot
done_b = record slot_b { task = done broken }

abbrev begun : Execution
begun = start prepared true 2 new_inbox

abbrev started : Execution
started = acquire 1 slot_b begun

abbrev returned_b : Execution
returned_b = settle 1 running_b (raised "broken") started

abbrev finished : Execution
finished = finish 1 done_b broken [] returned_b

started_reached : Reach 4 begun started
unfolding start
started_reached = next here (acquires begun 1 slot_b 1 refl refl refl)

finished_reached : Reach 4 started finished
unfolding start acquire settle
finished_reached =
    next (next here (settles started 1 running_b (raised "broken") refl refl))
      (finishes returned_b 1 done_b broken [] refl refl refl)

running-permits_example : total runs started.slots ≤ 2
running-permits_example =
    running-permits catalog calls (some decisions) prepared approved true 2 new_inbox 4 started
      started_reached

complete-start_example :
    (f : Execution) × (results : List ToolResult) × Reach 4 started f
    × (complete f.slots ≡ ok results)
    × (length results ≡ 2)
complete-start_example =
    complete-start catalog calls (some decisions) prepared approved true 2 new_inbox 4 started
      started_reached (omega arith)

completed : complete finished.slots ≡ ok (failed_result "approval_denied" "too risky" ∷ broken ∷ [])
unfolding complete start acquire settle finish
completed = refl

complete-result_example :
    get_elem? (failed_result "approval_denied" "too risky" ∷ broken ∷ []) 0
    ≡ some (failed_result "approval_denied" "too risky")
unfolding acquire start
complete-result_example =
    complete-result catalog calls (some decisions) prepared approved true 2 new_inbox 4 started
      started_reached 0 (slot_of (failed_call call_a "approval_denied" "too risky"))
      (failed_result "approval_denied" "too risky") finished
      (failed_result "approval_denied" "too risky" ∷ broken ∷ []) refl refl finished_reached
      completed

-- Every state of the sample run follows `begun`.
finished-begun : Reach 4 begun finished
unfolding start acquire settle
finished-begun =
    next (next started_reached (settles started 1 running_b (raised "broken") refl refl))
      (finishes returned_b 1 done_b broken [] refl refl refl)

complete-denied_example :
    get_elem? (failed_result "approval_denied" "too risky" ∷ broken ∷ []) 0
    ≡ some (failed_result "approval_denied" "too risky")
unfolding bind requests_from
complete-denied_example =
    complete-denied catalog calls decisions prepared 0 0 call_a "a" "too risky" true 2 new_inbox 4
      finished (failed_result "approval_denied" "too risky" ∷ broken ∷ []) approved refl refl
      finished-begun completed
