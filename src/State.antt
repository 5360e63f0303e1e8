-- ===== src/State.antt =====
-- packages/jharness-kernel/src/jharness/kernel/state.py and limits.py: the run lifecycle, its
-- metrics, and the usage counters of models.py.
pub mod Pending
pub mod Usage
use jharness.Common.{ℕ, ◌+◌, Bool, String, Option, List}
use jharness.Json.{Entries}
use jharness.Messages.{ContentPart, ErrorInfo}
use Pending.{PendingToolCalls}
use Usage.{ModelUsage, add_usage}

-- `LimitReason` of limits.py.
pub data LimitReason : Type 0 where
  max_planning_steps max_tool_calls max_total_tokens deadline : LimitReason

-- `Planning | ToolsPending`, each with its `provider_turn_pending`.
pub data ActiveState : Type 0 where
  planning : Bool → ActiveState
  tools_pending : PendingToolCalls → Bool → ActiveState

pub record Suspension : Type 0 where
  pub reason : String
  pub source : String
  pub wait_id : Option String
  pub metadata : Entries

pub data RunState : Type 0 where
  active : ActiveState → RunState
  suspended : ActiveState → Suspension → RunState
  completed : List ContentPart → RunState
  failed : ErrorInfo → RunState
  limited : LimitReason → RunState

pub record RunMetrics : Type 0 where
  pub planning_steps : ℕ
  pub tool_calls : ℕ
  pub usage : ModelUsage

-- `RunMetrics.advance`; its deltas are never negative.
unfoldable pub advance_metrics : RunMetrics → ℕ → ℕ → Option ModelUsage → RunMetrics
unfolding add_usage
advance_metrics m planning_delta tool_delta usage = record {
  planning_steps = m.planning_steps + planning_delta;
  tool_calls = m.tool_calls + tool_delta;
  usage = add_usage m.usage usage;
}

abbrev pub LimitReason-discrete : Discrete LimitReason
LimitReason-discrete = hlevel
