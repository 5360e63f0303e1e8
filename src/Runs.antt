-- ===== src/Runs.antt =====
-- The runs of the engine: a start, then any number of committed changes
-- (packages/jharness-kernel/src/jharness/kernel/_engine/engine.py, `_initialize` and `_commit`).
pub mod Sound
pub mod Kept
use jharness.Common.{
  ℕ, zero, suc, ◌+◌, ◌≡◌, refl, sym, ap, subst, ◌∙◌, Bool, true, false, String, Option, none, some,
  List, [], ◌∷◌, ◌++◌, length, pos, arith, length-take, take, ◌≤◌, Bool-cases, inl, inr,
}
use jharness.Errors.{Result, ok, err, ◌>>=◌, >>=-eq-ok}
use jharness.Messages.{Message, RuntimeToolCall, ContentPart, runtime_tool_calls, visible_parts}
use jharness.History.Run.{RunHistory, iter}
use jharness.History.Run.Contents.{IsHistory, contents}
use jharness.State.{
  ActiveState, planning, tools_pending, RunState, RunMetrics, active, suspended, completed, limited,
  advance_metrics, Suspension, max_total_tokens,
}
use jharness.State.Usage.{ModelUsage}
use jharness.State.Pending.{
  PendingToolCalls, pending_tool_calls, advance, unique_texts, ids_of, pending_count,
  remaining_calls,
}
use jharness.State.Pending.Laws.{
  AllPending, IsPending, remaining_or, advance-remaining, pending_of-IsPending, length-remaining,
}
use jharness.Linkage.{pending_state, empty_proof, analyze_messages}
use jharness.Linkage.Ids.{call_ids, answered_ids}
use jharness.Linkage.Accounted.{extend_proof-IsAccounted, IsAccounted-empty}
use jharness.Snapshot.{RunContext, RunSnapshot, run_snapshot, evolve_snapshot}
use jharness.Snapshot.Valid.{
  IsSnapshot, run_snapshot-IsSnapshot, evolve_snapshot-IsSnapshot, evolve_snapshot-replaced,
}
use jharness.Checkpoint.{Checkpoint}
use jharness.Checkpoint.Boundary.{checkpoint}
use jharness.Checkpoint.Laws.{checkpoint_inv}
use jharness.Change.{Change, reduce, fail, limit, suspend, insert}
use jharness.Change.Engine.{resume, rewrite_history}
use jharness.Change.Turn.{
  next_state, response_state, model_change, is_over, turn_change, ModelResponse,
}
use jharness.Change.Batch.{
  ToolBatch, ToolResult, batch_change, next_active, state_after, tool_messages, settled_change,
  or_pause, first_waiting,
}
use jharness.Verification.Steps.{reduce_inv}
use jharness.Verification.Turns.{pending_inv}
use jharness.Verification.Accepted.{
  IsEngineChange, fails, limits, suspends, inserts, resumes, rewrites, turns, batches,
}

-- `RunMetrics()`.
abbrev pub empty_metrics : RunMetrics
empty_metrics = record {
  planning_steps = 0;
  tool_calls = 0;
  usage = record {
    input_tokens = none;
    output_tokens = none;
    total_tokens = none;
    reasoning_tokens = none;
    cache_read_tokens = none;
    cache_write_tokens = none;
  };
}

module _ (sha256 : List ℕ → List ℕ) where
  -- The snapshots that a run reaches, with the number of changes committed.
  pub data IsRun : RunSnapshot → ℕ → Type 0 where
    starts :
        (context : RunContext) (history : RunHistory Message) (s : RunSnapshot)
        → IsHistory history
        → run_snapshot sha256 0 context history empty_metrics (active (planning false)) ≡ ok s
        → IsRun s 0
    commits :
        (s : RunSnapshot) (n : ℕ) (c : Change) (id : String) (cp : Checkpoint)
        → IsRun s n
        → IsEngineChange sha256 s c
        → reduce sha256 s c id ≡ ok cp
        → IsRun cp.snapshot (n + 1)
