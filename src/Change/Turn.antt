-- ===== src/Change/Turn.antt =====
-- `PlanningStep._change` of _engine/planning.py, with the `ModelResponse` of models.py: what one
-- complete model response does to the run.
use jharness.Common.{
  ℕ, ◌+◌, Bool, true, false, String, Option, none, some, List, [], ◌∷◌, length, ltb, if◌then◌else◌,
}
use jharness.Errors.{Result, ok, ◌>>=◌}
use jharness.Json.{Entries}
use jharness.Messages.{
  Message, assistant, ModelOutputItem, RuntimeToolCall, ContentPart, runtime_tool_calls,
  visible_parts,
}
use jharness.State.{
  LimitReason, max_total_tokens, planning, tools_pending, RunState, active, completed, limited,
}
use jharness.State.Usage.{ModelUsage, or_zero}
use jharness.State.Pending.{pending_tool_calls, ids_of}
use jharness.Snapshot.{RunSnapshot}
use jharness.Checkpoint
use jharness.Checkpoint.{model_turn, ModelTurn}
use jharness.Change.{Change}

pub record ModelResponse : Type 0 where
  pub output : List ModelOutputItem
  pub finish_reason : Option String
  pub usage : Option ModelUsage
  pub provider_turn_pending : Bool
  pub metadata : Entries

-- `to_assistant_message`, with `Message.assistant`.
unfoldable pub to_assistant_message : ModelResponse → Message
to_assistant_message r = record {
  role = assistant;
  parts = [];
  output = r.output;
  tool_call_id = none;
  outcome = none;
  metadata = r.metadata;
}

abbrev pub reported_tokens : Option ModelUsage → Option ℕ
reported_tokens none = none
reported_tokens (some usage) = usage.total_tokens

-- `total_tokens` after the response.
unfoldable pub next_total : Option ℕ → Option ℕ → Option ℕ
next_total total none = total
next_total total (some reported) = some (or_zero total + reported)

unfoldable pub over_tokens : Option ℕ → Option ℕ → Bool
over_tokens none total = false
over_tokens (some limit) none = false
over_tokens (some limit) (some total) = ltb limit total

-- `ModelTurnResult(state.kind)`; the state is none of the others.
abbrev pub turn_result : RunState → Checkpoint.ModelTurnResult
turn_result (active (planning b)) = Checkpoint.ModelTurnResult.planning
turn_result (active (tools_pending p b)) = Checkpoint.ModelTurnResult.tools_pending
turn_result (completed parts) = Checkpoint.ModelTurnResult.completed
turn_result _ = Checkpoint.ModelTurnResult.limited

abbrev pub turn_pending : RunState → Bool
turn_pending (active (planning b)) = b
turn_pending (active (tools_pending p b)) = b
turn_pending _ = false

abbrev pub turn_limit : RunState → Option LimitReason
turn_limit (limited reason) = some reason
turn_limit _ = none

abbrev pub turn_fact : ModelResponse → RunState → ModelTurn
turn_fact r state = record {
  result = turn_result state;
  part_count = length (visible_parts r.output);
  tool_call_ids = ids_of (runtime_tool_calls r.output);
  provider_turn_pending = turn_pending state;
  finish_reason = r.finish_reason;
  usage = r.usage;
  limit_reason = turn_limit state;
}

abbrev pub turn_change : String → ModelResponse → RunState → Change
turn_change now r state = record {
  fact = record { at = now; body = model_turn (turn_fact r state) };
  state = state;
  append = to_assistant_message r ∷ [];
  replace = none;
  planning_steps = 1;
  tool_calls = 0;
  usage = r.usage;
}

-- Whether a response exceeds the token limit.
abbrev pub is_over : RunSnapshot → Option ℕ → ModelResponse → Bool
is_over s max_total r =
    over_tokens max_total (next_total s.metrics.usage.total_tokens (reported_tokens r.usage))

module _ (sha256 : List ℕ → List ℕ) where
  -- The state that a response leads to, within the token limit.
  unfoldable pub response_state : List RuntimeToolCall → Bool → List ContentPart → Result RunState
  response_state (call ∷ calls) pending parts = do
    p ← pending_tool_calls sha256 (call ∷ calls)
    ok (active (tools_pending p pending))
  response_state [] true parts = ok (active (planning true))
  response_state [] false parts = ok (completed parts)

  unfoldable pub next_state : Bool → ModelResponse → Result RunState
  unfolding response_state runtime_tool_calls visible_parts
  next_state over r =
      if over
      then ok (limited max_total_tokens)
      else response_state (runtime_tool_calls r.output) r.provider_turn_pending
          (visible_parts r.output)

  -- `_change`.
  unfoldable pub model_change : String → RunSnapshot → Option ℕ → ModelResponse → Result Change
  unfolding next_total over_tokens next_state to_assistant_message runtime_tool_calls visible_parts
  model_change now s max_total r = do
    state ← next_state (is_over s max_total r) r
    ok (turn_change now r state)
