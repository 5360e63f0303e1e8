-- ===== src/Change.antt =====
-- packages/jharness-kernel/src/jharness/kernel/_engine/change.py, and the changes that engine.py
-- and tooling.py build: the closed set of transitions that the reducer applies.
pub mod Engine
pub mod Turn
pub mod Batch
use jharness.Common.{ℕ, Bool, true, false, String, Option, none, some, List, [], ◌∷◌}
use jharness.Errors.{Result, ok, err, ◌>>=◌}
use jharness.Json.Keys.{sorted_keys}
use jharness.Messages.{Message, ErrorInfo}
use jharness.History.Run.{RunHistory}
use jharness.State.{
  LimitReason, ActiveState, planning, Suspension, RunState, active, suspended, failed, limited,
  advance_metrics,
}
use jharness.State.Usage.{ModelUsage}
use jharness.Snapshot.{RunSnapshot, evolve_snapshot}
use jharness.Checkpoint
use jharness.Checkpoint.{
  Fact, Checkpoint, SuspensionView, conversation_insert, control, suspended_control, failed_control,
  limited_control,
}
use jharness.Checkpoint.Boundary.{checkpoint}

pub record Change : Type 0 where
  pub fact : Fact
  pub state : RunState
  pub append : List Message
  pub replace : Option (RunHistory Message)
  pub planning_steps : ℕ
  pub tool_calls : ℕ
  pub usage : Option ModelUsage

-- `Change(fact, state, append=...)`, with the defaults of the other fields.
abbrev pub change : Fact → RunState → List Message → Change
change fact state append = record {
  fact = fact;
  state = state;
  append = append;
  replace = none;
  planning_steps = 0;
  tool_calls = 0;
  usage = none;
}

-- The time of a fact, `time()`, is an argument.
unfoldable pub fail : String → String → String → Change
fail now code message =
    change (record { at = now; body = control (failed_control code) })
      (failed (record { code = code; message = message })) []

unfoldable pub limit : String → LimitReason → Change
limit now reason =
    change (record { at = now; body = control (limited_control reason) }) (limited reason) []

unfoldable pub insert : String → String → Message → Bool → Change
insert now source message pending =
    change (record { at = now; body = conversation_insert source }) (active (planning pending))
      (message ∷ [])

abbrev pub suspension_view : Suspension → SuspensionView
suspension_view s = record {
  reason = s.reason;
  source = s.source;
  wait_id = s.wait_id;
  metadata_keys = sorted_keys s.metadata;
}

unfoldable pub suspend : String → ActiveState → Suspension → Change
unfolding sorted_keys
suspend now state suspension =
    change (record { at = now; body = control (suspended_control (suspension_view suspension)) })
      (suspended state suspension) []

module _ (sha256 : List ℕ → List ℕ) where
  -- `reduce`.
  unfoldable pub reduce : RunSnapshot → Change → String → Result Checkpoint
  unfolding advance_metrics evolve_snapshot checkpoint
  reduce s c id = do
    next ←
        evolve_snapshot sha256 s c.append c.replace
          (advance_metrics s.metrics c.planning_steps c.tool_calls c.usage) c.state
    checkpoint id next c.fact
