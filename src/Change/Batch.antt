-- ===== src/Change/Batch.antt =====
-- `DefaultBatchPolicy` of tools.py, and `_select` and `_outcome` of _engine/tooling.py: which pending
-- calls one batch takes, and what its results do to the run.
pub mod Policy
use jharness.Common.{
  ℕ, zero, suc, ◌-◌, Bool, true, false, not, ◌&&◌, String, Option, none, some, List, [], ◌∷◌, map,
  length, ltb, ◌==◌, min, decide, if◌then◌else◌, pos,
}
use jharness.Errors.{Result, ok, err, value_error, tool_error, ◌>>=◌, ◌>>◌, raise_if}
use jharness.Json.{no_entry}
use jharness.Json.Keys.{sorted_keys}
use jharness.Messages.{
  Message, tool, RuntimeToolCall, RuntimeToolCall-discrete, call_id, call_name, ToolOutcome,
}
use jharness.State.{ActiveState, planning, tools_pending, Suspension, RunState, active, suspended}
use jharness.State.Pending.{PendingToolCalls, advance, ids_of, unique_texts}
use jharness.Checkpoint.{SuspensionView, ToolBatchTurn, tool_batch, is_empty}
use jharness.Checkpoint.Boundary.{outcome_kind}
use jharness.Change.{Change, suspension_view}

pub record ToolBatch : Type 0 where
  pub id : String
  pub calls : List RuntimeToolCall
  pub parallel : Bool

-- `SettledResult` and `WaitingResult`: only a waiting result carries a suspension.
pub record ToolResult : Type 0 where
  pub outcome : ToolOutcome
  pub suspension : Option Suspension

-- `ToolBatch(...)`; its id is never empty, being made of a literal and a call id.
unfoldable pub new_batch : String → List RuntimeToolCall → Bool → Result ToolBatch
unfolding unique_texts
new_batch id calls parallel =
    raise_if (is_empty calls) (value_error "tool batch requires calls")
    >> raise_if (not (unique_texts (ids_of calls)))
        (value_error "tool batch call ids must be unique")
    >> raise_if (not parallel && not (length calls == 1))
        (value_error "serial tool batch must contain exactly one call")
    >> ok (record { id = id; calls = calls; parallel = parallel })

-- A catalog is asked for the spec of a name: `none`, or whether it is `parallel_safe`.
module _ (spec : String → Option Bool) (batch_id : String → String) where
  abbrev pub safe : Option Bool → Bool
  safe none = false
  safe (some parallel_safe) = parallel_safe

  -- The loop over `range(1, capacity)`, which stops at the first call that is not safe.
  unfoldable pub gather : ℕ → List RuntimeToolCall → List RuntimeToolCall
  gather zero calls = []
  gather (suc room) [] = []
  gather (suc room) (call ∷ calls) =
      let rest = gather room calls in if safe (spec (call_name call)) then call ∷ rest else []

  -- `DefaultBatchPolicy.select`.
  unfoldable pub select_default : List RuntimeToolCall → ℕ → Result ToolBatch
  unfolding gather new_batch
  select_default [] max_size = err (tool_error "cannot select an empty pending set")
  select_default (first ∷ rest) max_size =
      let selected = first ∷ gather (min (length (first ∷ rest)) max_size - 1) rest in
      if safe (spec (call_name first))
      then new_batch (batch_id (call_id first)) selected (ltb 1 (length selected))
      else new_batch (batch_id (call_id first)) (first ∷ []) false

  -- `any(call != selectable[index] ...)`, for no more calls than are selectable.
  unfoldable pub is_prefix : List RuntimeToolCall → List RuntimeToolCall → Bool
  is_prefix [] selectable = true
  is_prefix (call ∷ calls) [] = false
  is_prefix (call ∷ calls) (other ∷ others) =
      decide (RuntimeToolCall-discrete call other) && is_prefix calls others

  abbrev pub all_safe : List RuntimeToolCall → Bool
  all_safe [] = true
  all_safe (call ∷ calls) = safe (spec (call_name call)) && all_safe calls

  -- `_select`, on the batch that a policy returned.
  unfoldable pub check_batch : ToolBatch → List RuntimeToolCall → ℕ → Result ToolBatch
  unfolding is_prefix
  check_batch batch selectable max_size =
      raise_if (ltb max_size (length batch.calls)) (tool_error "batch exceeds max_tool_batch_size")
      >> raise_if (not (is_prefix batch.calls selectable))
          (tool_error "batch policy must select an exact pending prefix")
      >> raise_if (batch.parallel && not (all_safe batch.calls))
          (tool_error "parallel batch contains a non-parallel-safe tool")
      >> ok batch

-- `tool_message`, with `Message.tool`.
unfoldable pub tool_message : RuntimeToolCall → ToolResult → Message
tool_message call result = record {
  role = tool;
  parts = [];
  output = [];
  tool_call_id = some (call_id call);
  outcome = some result.outcome;
  metadata = no_entry;
}

-- `zip(calls, results, strict=True)`.
unfoldable pub tool_messages : List RuntimeToolCall → List ToolResult → Result (List Message)
unfolding tool_message
tool_messages [] [] = ok []
tool_messages (call ∷ calls) (result ∷ results) = do
  rest ← tool_messages calls results
  ok (tool_message call result ∷ rest)
tool_messages [] (result ∷ results) = err (value_error "zip() argument 2 is longer than argument 1")
tool_messages (call ∷ calls) [] = err (value_error "zip() argument 2 is shorter than argument 1")

-- `next((result for result in results if isinstance(result, WaitingResult)), None)`.
unfoldable pub first_waiting : List ToolResult → Option Suspension
first_waiting [] = none
first_waiting (result ∷ results) = or_next result.suspension (first_waiting results)
  where
    or_next : Option Suspension → Option Suspension → Option Suspension
    or_next (some s) later = some s
    or_next none later = later

abbrev pub or_pause : Option Suspension → Option Suspension → Option Suspension
or_pause (some s) pause = some s
or_pause none pause = pause

abbrev pub next_active : Option PendingToolCalls → Bool → ActiveState
next_active (some rest) pending = tools_pending rest pending
next_active none pending = planning pending

abbrev pub state_after : Option Suspension → ActiveState → RunState
state_after none a = active a
state_after (some suspension) a = suspended a suspension

abbrev pub optional_view : Option Suspension → Option SuspensionView
optional_view none = none
optional_view (some suspension) = some (suspension_view suspension)

abbrev pub batch_fact : ToolBatch → List ToolResult → Option Suspension → ToolBatchTurn
batch_fact batch results suspension = record {
  batch_id = batch.id;
  call_ids = ids_of batch.calls;
  parallel = batch.parallel;
  outcome_kinds = map (λ r. outcome_kind r.outcome) results;
  suspension = optional_view suspension;
}

abbrev pub settled_change :
    String → ToolBatch → List ToolResult → Option Suspension → ActiveState → List Message → Change
settled_change now batch results suspension next messages = record {
  fact = record { at = now; body = tool_batch (batch_fact batch results suspension) };
  state = state_after suspension next;
  append = messages;
  replace = none;
  planning_steps = 0;
  tool_calls = length batch.calls;
  usage = none;
}

-- `_outcome`, with the suspension of a pause that was observed.
unfoldable pub batch_change :
    String
    → PendingToolCalls
    → Bool
    → ToolBatch
    → List ToolResult
    → Option Suspension
    → Result Change
unfolding advance tool_messages first_waiting sorted_keys
batch_change now p pending batch results pause = do
  remaining ← advance p (pos (length batch.calls))
  messages ← tool_messages batch.calls results
  ok (
      settled_change now batch results (or_pause (first_waiting results) pause)
        (next_active remaining pending) messages)
