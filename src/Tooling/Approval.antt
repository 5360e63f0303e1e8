-- ===== src/Tooling/Approval.antt =====
-- `_bind` and `_apply_decisions` of packages/jharness-kernel/src/jharness/kernel/_engine/tooling.py, and
-- the decisions of approval.py. The tool catalog is an argument: binding a call gives whether it has
-- a binding that matches the catalog, or the message of what it raised.
use jharness.Common.{
  ℕ, suc, Bool, true, false, not, String, Option, none, some, List, [], ◌∷◌, map, length, set, ◌==◌,
  same_string, if◌then◌else◌,
}
use jharness.Errors.{Result, ok, err, tool_error, value_error, ◌>>◌, raise_if}
use jharness.Json.{null, no_entry}
use jharness.Messages.{ContentPart, RuntimeToolCall, structured, freeform, call_id, failure}
use jharness.Messages.Checks.{is_none}
use jharness.State.{Suspension}
use jharness.Change.Batch.{ToolResult}

-- A bound call has no result yet.
pub record Prepared : Type 0 where
  pub call : RuntimeToolCall
  pub bound : Bool
  pub result : Option ToolResult

abbrev message_part : String → ContentPart
message_part message = record {
  type = "text";
  text = some message;
  uri = none;
  artifact = none;
  media_type = none;
  name = none;
  content = no_entry;
  metadata = no_entry;
}

-- `SettledResult(ToolFailure.from_error(code, message))`.
abbrev pub failed_result : String → String → ToolResult
failed_result code message = record {
  outcome = failure (message_part message ∷ []) (record { code = code; message = message }) null;
  suspension = none;
}

abbrev pub failed_call : RuntimeToolCall → String → String → Prepared
failed_call call code message = record {
  call = call;
  bound = false;
  result = some (failed_result code message);
}

abbrev pub bound_call : RuntimeToolCall → Option String → Prepared
bound_call call none = record { call = call; bound = true; result = none }
bound_call call (some message) = failed_call call "invalid_tool_call" message

abbrev lacks_arguments : RuntimeToolCall → Bool
lacks_arguments (structured c) = is_none c.arguments
lacks_arguments (freeform c) = false

-- The body of the loop of `_bind`.
unfoldable pub bind_call : (RuntimeToolCall → Option String) → RuntimeToolCall → Prepared
bind_call refusal call =
    if lacks_arguments call
    then failed_call call "invalid_tool_call" "structured tool arguments are not a JSON object"
    else bound_call call (refusal call)

-- `_bind`, where `refusal` is what binding a call against the catalog raises, if it does.
unfoldable pub bind : (RuntimeToolCall → Option String) → List RuntimeToolCall → List Prepared
unfolding bind_call
bind refusal calls = map (bind_call refusal) calls

pub data ApprovalDecision : Type 0 where
  approval_allow : String → ApprovalDecision
  approval_deny : String → String → ApprovalDecision
  approval_suspend : String → Suspension → ApprovalDecision

abbrev pub decision_call : ApprovalDecision → String
decision_call (approval_allow id) = id
decision_call (approval_deny id reason) = id
decision_call (approval_suspend id s) = id

-- The indexes and calls of the requests that `_approve` makes: those of the bound calls.
unfoldable pub requests_from : ℕ → List Prepared → List (ℕ × RuntimeToolCall)
requests_from index [] = []
requests_from index (p ∷ rest) =
    let later = requests_from (suc index) rest in if p.bound then (index, p.call) ∷ later else later

abbrev pub keep_first : Option Suspension → Suspension → Option Suspension
keep_first none s = some s
keep_first (some first) s = some first

-- What one decision does to the prepared calls and the first pause.
unfoldable pub apply_decision :
    (ℕ × RuntimeToolCall)
    → ApprovalDecision
    → List Prepared × Option Suspension
    → List Prepared × Option Suspension
apply_decision request (approval_allow id) state = state
apply_decision (index, call) (approval_deny id reason) (prepared, paused) =
    (set prepared index (failed_call call "approval_denied" reason), paused)
apply_decision request (approval_suspend id s) (prepared, paused) = (prepared, keep_first paused s)

-- The loop of `_apply_decisions`, over the zipped requests and decisions.
unfoldable pub apply_decisions :
    List (ℕ × RuntimeToolCall)
    → List ApprovalDecision
    → List Prepared × Option Suspension
    → Result (List Prepared × Option Suspension)
unfolding apply_decision
apply_decisions [] [] state = ok state
apply_decisions ((index, call) ∷ requests) (d ∷ ds) state =
    raise_if (not (same_string (decision_call d) (call_id call)))
      (tool_error "approval decision call_id mismatch")
    >> apply_decisions requests ds (apply_decision (index, call) d state)
apply_decisions [] (d ∷ ds) state = err (value_error "zip() argument 2 is longer than argument 1")
apply_decisions (r ∷ rs) [] state = err (value_error "zip() argument 2 is shorter than argument 1")

-- `_approve`, with the decisions that the policy returned.
unfoldable pub approve :
    Option (List ApprovalDecision) → List Prepared → Result (List Prepared × Option Suspension)
unfolding requests_from apply_decisions
approve none prepared = ok (prepared, none)
approve (some decisions) prepared =
    raise_if (not (length decisions == length (requests_from 0 prepared)))
      (tool_error "approval policy must return one decision per request")
    >> apply_decisions (requests_from 0 prepared) decisions (prepared, none)
