-- ===== src/Tooling/Execution.antt =====
-- The concurrent execution of a batch in packages/jharness-kernel/src/jharness/kernel/_engine/tooling.py:
-- what the event loop runs of `_invoke`, `_progress`, `_advance` and `_finish_ready` without a pause,
-- as functions on the shared state. A clock that runs out ends the execution from outside.
pub mod Counts
pub mod Laws
pub mod Completion
pub mod Results
use jharness.Common.{
  ℕ, zero, suc, ◌+◌, ◌-◌, Bool, true, false, String, Option, none, some, List, [], ◌∷◌, ◌++◌, map,
  length, get_elem?, set, ltb, if◌then◌else◌, ◌≡◌,
}
use jharness.Errors.{Result, ok, err, tool_error, ◌>>=◌}
use jharness.Json.{Entries, null}
use jharness.Messages.{call_id}
use jharness.State.{Suspension}
use jharness.State.Pending.{has_text}
use jharness.Checkpoint.{ToolOutcomeKind}
use jharness.Checkpoint.Boundary.{outcome_kind}
use jharness.Change.Batch.{ToolResult}
use jharness.Control.{
  ControlInbox, Control, pause, insertion, cancel_tool, Insert, poll, request_cancellation,
  clear_cancellation, discard,
}
use jharness.Tooling.Approval.{Prepared, failed_result}

-- A task of `tasks`: it waits for a permit, or invokes its tool, or has returned its result and is
-- in `completion_order`. `idle` is no task.
pub data ToolTask : Type 0 where
  idle queued running : ToolTask
  done : ToolResult → ToolTask

-- `tasks[index]` and `results[index]`, with the id of `batch.calls[index]`.
pub record Slot : Type 0 where
  pub call : String
  pub task : ToolTask
  pub result : Option ToolResult

-- What is emitted.
pub data ToolEvent : Type 0 where
  tool_started : ℕ → ToolEvent
  tool_progress : String → Entries → ToolEvent
  tool_cancel_requested : String → ToolEvent
  tool_finished : ℕ → ToolOutcomeKind → ToolEvent

-- `_Execution`, with the inbox and the events so far.
pub record Execution : Type 0 where
  pub slots : List Slot
  pub permits : ℕ
  pub completion_order : List ℕ
  pub progress : List (String × Entries)
  pub overflowed : List String
  pub active : List String
  pub paused : Option Suspension
  pub inserts : List Insert
  pub inbox : ControlInbox
  pub events : List ToolEvent

abbrev pub slot_of : Prepared → Slot
slot_of p = record {
  call = call_id p.call;
  task = if p.bound then queued else idle;
  result = p.result;
}

-- `_start`.
unfoldable pub start : List Prepared → Bool → ℕ → ControlInbox → Execution
start prepared parallel max_tool_concurrency inbox = record {
  slots = map slot_of prepared;
  permits = if parallel then max_tool_concurrency else 1;
  completion_order = [];
  progress = [];
  overflowed = [];
  active = [];
  paused = none;
  inserts = [];
  inbox = inbox;
  events = [];
}

-- `permits.acquire()` returns to the task of a call, which announces its start.
unfoldable pub acquire : ℕ → Slot → Execution → Execution
acquire index slot e = record e {
  slots = set e.slots index (record slot { task = running });
  permits = e.permits - 1;
  active = slot.call ∷ e.active;
  events = e.events ++ tool_started index ∷ [];
}

-- `emit_progress` of a running tool: the queue takes the value, or the call has overflowed.
unfoldable pub emit_progress : ℕ → String → Entries → Execution → Execution
emit_progress max_buffered_progress call value e =
    if ltb (length e.progress) max_buffered_progress
    then record e { progress = e.progress ++ (call, value) ∷ [] }
    else record e { overflowed = call ∷ e.overflowed }

-- What `binding.invoke` does: it returns a result, or raises with a message.
pub data ToolReturn : Type 0 where
  returned : ToolResult → ToolReturn
  raised : String → ToolReturn

-- The result of `_invoke`.
unfoldable pub invocation_result : ToolReturn → Bool → ToolResult
invocation_result (returned r) false = r
invocation_result (returned r) true =
    failed_result "progress_overflow" "tool progress buffer exceeded"
invocation_result (raised message) overflow = failed_result "tool_error" message

-- `_invoke` after its tool: the task keeps its permit until its completion is handled.
unfoldable pub settle : ℕ → Slot → ToolReturn → Execution → Execution
unfolding invocation_result has_text clear_cancellation discard
settle index slot given e = record e {
  slots =
      set e.slots index
        (record slot { task = done (invocation_result given (has_text slot.call e.overflowed)) });
  active = discard slot.call e.active;
  inbox = clear_cancellation e.inbox slot.call;
  completion_order = e.completion_order ++ index ∷ [];
}

abbrev pub progress_events : List (String × Entries) → List ToolEvent
progress_events [] = []
progress_events ((call, value) ∷ rest) = tool_progress call value ∷ progress_events rest

-- `_drain_progress`.
unfoldable pub drain_progress : Execution → Execution
drain_progress e = record e { progress = []; events = e.events ++ progress_events e.progress }

abbrev pub earlier_pause : Option Suspension → Suspension → Option Suspension
earlier_pause none s = some s
earlier_pause (some earlier) s = some earlier

-- A control that `_advance` takes from the inbox.
unfoldable pub observe_control : Control → Execution → Execution
unfolding has_text request_cancellation clear_cancellation discard
observe_control (pause s) e = record e { paused = earlier_pause e.paused s }
observe_control (insertion i) e = record e { inserts = e.inserts ++ i ∷ [] }
observe_control (cancel_tool call) e =
    if has_text call e.active
    then record e {
      events = e.events ++ tool_cancel_requested call ∷ [];
      inbox = request_cancellation e.inbox call;
    }
    else record e { inbox = clear_cancellation e.inbox call }

-- One round of the loop of `_finish_ready`, for the first index in `completion_order`.
unfoldable pub finish : ℕ → Slot → ToolResult → List ℕ → Execution → Execution
unfolding drain_progress
finish index slot result order e = record (drain_progress e) {
  completion_order = order;
  slots = set e.slots index (record slot { task = idle; result = some result });
  permits = e.permits + 1;
  events = (drain_progress e).events ++ tool_finished index (outcome_kind result.outcome) ∷ [];
}

abbrev pub settled_result : Option ToolResult → Result ToolResult
settled_result none = err (tool_error "tool batch completed without every result")
settled_result (some r) = ok r

-- `_complete`.
unfoldable pub complete : List Slot → Result (List ToolResult)
complete [] = ok []
complete (slot ∷ rest) = do
  result ← settled_result slot.result
  results ← complete rest
  ok (result ∷ results)

-- One step of the event loop, in any order that it may choose.
pub data Step (max_buffered_progress : ℕ) : Execution → Execution → Type 0 where
  acquires :
      (e : Execution) (index : ℕ) (slot : Slot) (room : ℕ)
      → get_elem? e.slots index ≡ some slot
      → slot.task ≡ queued
      → e.permits ≡ suc room
      → Step max_buffered_progress e (acquire index slot e)
  progresses :
      (e : Execution) (index : ℕ) (slot : Slot) (value : Entries)
      → get_elem? e.slots index ≡ some slot
      → slot.task ≡ running
      → Step max_buffered_progress e (emit_progress max_buffered_progress slot.call value e)
  settles :
      (e : Execution) (index : ℕ) (slot : Slot) (given : ToolReturn)
      → get_elem? e.slots index ≡ some slot
      → slot.task ≡ running
      → Step max_buffered_progress e (settle index slot given e)
  observes :
      (e : Execution) (control : Control) (inbox : ControlInbox)
      → poll e.inbox e.inbox.queue ≡ (some control, inbox)
      → Step max_buffered_progress e (observe_control control (record e { inbox = inbox }))
  drains : (e : Execution) → Step max_buffered_progress e (drain_progress e)
  finishes :
      (e : Execution) (index : ℕ) (slot : Slot) (result : ToolResult) (order : List ℕ)
      → e.completion_order ≡ index ∷ order
      → get_elem? e.slots index ≡ some slot
      → slot.task ≡ done result
      → Step max_buffered_progress e (finish index slot result order e)

pub data Reach (max_buffered_progress : ℕ) (e : Execution) : Execution → Type 0 where
  here : Reach max_buffered_progress e e
  next :
      {f g : Execution}
      → Reach max_buffered_progress e f
      → Step max_buffered_progress f g
      → Reach max_buffered_progress e g
