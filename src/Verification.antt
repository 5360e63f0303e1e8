-- ===== src/Verification.antt =====
-- packages/jharness-kernel/src/jharness/kernel/_engine/verification.py: the compact views of a run,
-- and the check that a committed fact explains the step from one view to the next. The portable
-- mappings are typed here, one constructor or record for each shape that the code writes, and a
-- digest is its bytes, for the hexadecimal text of them.
pub mod Steps
pub mod Turns
pub mod Batches
pub mod Accepted
use jharness.Common.{
  ℕ, zero, suc, ◌+◌, ◌-◌, Bool, true, false, not, String, Option, none, some, List, [], ◌∷◌, length,
  ltb, ◌==◌, decide, if◌then◌else◌, String-discrete, ℕ_discrete,
}
use jharness.Errors.{Result, ok, err, value_error, ◌>>=◌, ◌>>◌, raise_if}
use jharness.Json.Keys.{sorted_keys}
use jharness.Digest.{compose_call_id_digest, empty_call_id_suffix_digest}
use jharness.State.{
  LimitReason, ActiveState, planning, tools_pending, RunState, active, suspended, completed, failed,
  limited,
}
use jharness.State.Usage.{ModelUsage, add_field}
use jharness.State.Pending.{pending_count, call_id_digest, Bytes-discrete}
use jharness.Snapshot.{RunSnapshot}
use jharness.Checkpoint
use jharness.Checkpoint.{
  SuspensionView, ModelTurn, ToolBatchTurn, Rewrite, ControlDecision, FactBody, suspended_control,
  failed_control, limited_control,
}
use jharness.Change.{suspension_view}

pub data ActiveView : Type 0 where
  planning_view : Bool → ActiveView
  tools_view : ℕ → List ℕ → Bool → ActiveView

pub data StateView : Type 0 where
  active_view : ActiveView → StateView
  suspended_view : ActiveView → SuspensionView → StateView
  completed_view : ℕ → StateView
  failed_view : String → StateView
  limited_view : Option LimitReason → StateView

pub record RunView : Type 0 where
  pub revision : ℕ
  pub history_count : ℕ
  pub planning_steps : ℕ
  pub tool_calls : ℕ
  pub usage : ModelUsage
  pub state : StateView

unfoldable pub view_active : ActiveState → ActiveView
unfolding pending_count call_id_digest
view_active (planning b) = planning_view b
view_active (tools_pending p b) = tools_view (pending_count p) (call_id_digest p) b

-- `state_view`.
unfoldable pub state_view : RunState → StateView
unfolding view_active sorted_keys
state_view (active a) = active_view (view_active a)
state_view (suspended a suspension) = suspended_view (view_active a) (suspension_view suspension)
state_view (completed parts) = completed_view (length parts)
state_view (failed error) = failed_view error.code
state_view (limited reason) = limited_view (some reason)

-- `run_view`.
unfoldable pub run_view : RunSnapshot → RunView
unfolding state_view
run_view s = record {
  revision = s.revision;
  history_count = s.history.count;
  planning_steps = s.metrics.planning_steps;
  tool_calls = s.metrics.tool_calls;
  usage = s.metrics.usage;
  state = state_view s.state;
}

-- `_started`.
unfoldable pub started_view : ℕ → RunView
started_view roles = record {
  revision = 0;
  history_count = roles;
  planning_steps = 0;
  tool_calls = 0;
  usage = record {
    input_tokens = none;
    output_tokens = none;
    total_tokens = none;
    reasoning_tokens = none;
    cache_read_tokens = none;
    cache_write_tokens = none;
  };
  state = active_view (planning_view false);
}

-- `_base`.
abbrev pub base : RunView → RunView
base before = record before { revision = before.revision + 1 }

-- `_add_usage`, field by field.
unfoldable pub add_usage_data : ModelUsage → Option ModelUsage → ModelUsage
unfolding add_field
add_usage_data before none = before
add_usage_data before (some delta) = record {
  input_tokens = add_field before.input_tokens delta.input_tokens;
  output_tokens = add_field before.output_tokens delta.output_tokens;
  total_tokens = add_field before.total_tokens delta.total_tokens;
  reasoning_tokens = add_field before.reasoning_tokens delta.reasoning_tokens;
  cache_read_tokens = add_field before.cache_read_tokens delta.cache_read_tokens;
  cache_write_tokens = add_field before.cache_write_tokens delta.cache_write_tokens;
}

-- `_resumed`.
unfoldable pub resumed_step : RunView → StateView → ℕ → Result RunView
resumed_step result (suspended_view a suspension) appended =
    ok (record result { history_count = result.history_count + appended; state = active_view a })
resumed_step result _ appended = err (value_error "resume_requires_suspended")

abbrev pub is_planning_view : StateView → Bool
is_planning_view (active_view (planning_view b)) = true
is_planning_view _ = false

-- `_view_digest`: the text of 32 bytes.
unfoldable pub view_digest : List ℕ → Result (List ℕ)
view_digest d = if length d == 32 then ok d else err (value_error "invalid_pending_digest")

-- `_conversation_insert`.
unfoldable pub insert_step : RunView → StateView → Result RunView
insert_step result state =
    if is_planning_view state
    then ok (record result {
      history_count = result.history_count + 1;
      state = active_view (planning_view false);
    })
    else err (value_error "insert_requires_planning")

-- `_history_rewrite`.
unfoldable pub rewrite_step : RunView → RunView → Rewrite → Result RunView
rewrite_step result before r =
    raise_if (not (is_planning_view before.state)) (value_error "rewrite_requires_planning")
    >> raise_if (not (r.before_count == before.history_count))
        (value_error "rewrite_before_mismatch")
    >> ok (record result {
      history_count = length r.after_roles;
      state = active_view (planning_view false);
    })

-- `_control`.
unfoldable pub control_step : RunView → StateView → ControlDecision → Result RunView
control_step result state (failed_control code) = ok (record result { state = failed_view code })
control_step result state (limited_control reason) =
    ok (record result { state = limited_view (some reason) })
control_step result (active_view a) (suspended_control view) =
    ok (record result { state = suspended_view a view })
control_step result _ (suspended_control view) = err (value_error "suspend_requires_active")

abbrev pub resume_to_or : Option SuspensionView → StateView → StateView
resume_to_or (some view) (suspended_view a s) = active_view a
resume_to_or _ state = state

abbrev pub settled_state : Option SuspensionView → ActiveView → StateView
settled_state none a = active_view a
settled_state (some view) a = suspended_view a view

pub RunView-discrete : Discrete RunView
RunView-discrete = hlevel (String-discrete, ℕ_discrete)

module _ (sha256 : List ℕ → List ℕ) where
  -- The state that `_model_turn` gives for each result.
  unfoldable pub turn_state : ModelTurn → Checkpoint.ModelTurnResult → StateView
  turn_state t Checkpoint.ModelTurnResult.planning =
      active_view (planning_view t.provider_turn_pending)
  turn_state t Checkpoint.ModelTurnResult.completed = completed_view t.part_count
  turn_state t Checkpoint.ModelTurnResult.tools_pending = active_view (
      tools_view (length t.tool_call_ids)
        (compose_call_id_digest sha256 t.tool_call_ids (empty_call_id_suffix_digest sha256))
        t.provider_turn_pending)
  turn_state t Checkpoint.ModelTurnResult.limited = limited_view t.limit_reason

  -- `_model_turn`.
  unfoldable pub model_step : RunView → StateView → ModelTurn → Result RunView
  unfolding turn_state add_usage_data
  model_step result state t =
      if is_planning_view state
      then ok (record result {
        history_count = result.history_count + 1;
        planning_steps = result.planning_steps + 1;
        usage = add_usage_data result.usage t.usage;
        state = turn_state t t.result;
      })
      else err (value_error "model_turn_requires_planning")

  -- The state that is left, with the digest of its call ids: the code reads it from `after`.
  unfoldable pub remaining_state : ℕ → Bool → StateView → Result (ActiveView × List ℕ)
  unfolding view_digest
  remaining_state zero pending (active_view (planning_view b)) =
      ok (planning_view pending, empty_call_id_suffix_digest sha256)
  remaining_state zero pending _ = err (value_error "tool_batch_pending_count_mismatch")
  remaining_state (suc n) pending (active_view (tools_view count digest b)) =
      if count == suc n
      then (do suffix ← view_digest digest; ok (tools_view (suc n) suffix pending, suffix))
      else err (value_error "tool_batch_pending_count_mismatch")
  remaining_state (suc n) pending _ = err (value_error "tool_batch_pending_count_mismatch")

  -- `_tool_batch`.
  unfoldable pub batch_step : RunView → StateView → ToolBatchTurn → StateView → Result RunView
  unfolding remaining_state view_digest
  batch_step result (active_view (tools_view count digest pending)) t after = do
    raise_if (ltb count (length t.call_ids)) (value_error "tool_batch_not_prefix")
    (left, suffix) ←
        remaining_state (count - length t.call_ids) pending (resume_to_or t.suspension after)
    whole ← view_digest digest
    raise_if (not (decide (Bytes-discrete (compose_call_id_digest sha256 t.call_ids suffix) whole)))
        (value_error "tool_batch_not_prefix")
    ok (record result {
      history_count = result.history_count + length t.call_ids;
      tool_calls = result.tool_calls + length t.call_ids;
      state = settled_state t.suspension left;
    })
  batch_step result _ t after = err (value_error "tool_batch_requires_pending")

  unfoldable pub step_view : RunView → FactBody → RunView → Result RunView
  unfolding resumed_step model_step batch_step insert_step rewrite_step control_step
  step_view before (Checkpoint.started roles) after =
      err (value_error "started_requires_empty_before")
  step_view before (Checkpoint.resumed roles keys) after =
      resumed_step (base before) before.state (length roles)
  step_view before (Checkpoint.model_turn t) after = model_step (base before) before.state t
  step_view before (Checkpoint.tool_batch t) after =
      batch_step (base before) before.state t after.state
  step_view before (Checkpoint.conversation_insert source) after =
      insert_step (base before) before.state
  step_view before (Checkpoint.history_rewrite r) after = rewrite_step (base before) before r
  step_view before (Checkpoint.control decision) after =
      control_step (base before) before.state decision

  -- `_advance_view`.
  unfoldable pub advance_view : Option RunView → FactBody → RunView → Result RunView
  unfolding step_view started_view
  advance_view none (Checkpoint.started roles) after = ok (started_view (length roles))
  advance_view none _ after = err (value_error "missing_before_view")
  advance_view (some before) body after = step_view before body after

  -- `verify_change`.
  unfoldable pub verify_change : Option RunView → FactBody → RunView → Result (Unit {0})
  unfolding advance_view
  verify_change before body after = do
    expected ← advance_view before body after
    raise_if (not (expected.revision == after.revision)) (value_error "revision_gap")
    raise_if (not (decide (RunView-discrete expected after))) (value_error "change_mismatch")
