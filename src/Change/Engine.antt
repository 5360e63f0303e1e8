-- ===== src/Change/Engine.antt =====
-- The changes that the methods of engine.py build.
use jharness.Common.{String, List, Bool, true, false, some, [], if◌then◌else◌}
use jharness.Errors.{Result, ok, ◌>>◌}
use jharness.Json.{Entries}
use jharness.Json.Keys.{sorted_keys}
use jharness.Messages.{Message}
use jharness.History.Run.{RunHistory, iter}
use jharness.State.{ActiveState, planning, RunState, active, limited, deadline, completed}
use jharness.Checkpoint.{
  Fact, FactBody, check_fact, resumed, history_rewrite, model_turn, ModelTurn,
}
use jharness.Checkpoint
use jharness.Checkpoint.Boundary.{roles_of}
use jharness.Change.{Change, change}

abbrev pub resumed_fact : String → List Message → Entries → Fact
unfolding sorted_keys
resumed_fact now append_messages metadata = record {
  at = now;
  body = resumed (roles_of append_messages) (sorted_keys metadata);
}

unfoldable pub resumed_change : String → ActiveState → List Message → Entries → Change
unfolding sorted_keys
resumed_change now resume_to append_messages metadata =
    change (resumed_fact now append_messages metadata) (active resume_to) append_messages

-- `_initialize`, for a `ResumeRequest`: `ResumedFact` checks its keys when it is built.
unfoldable pub resume : String → ActiveState → List Message → Entries → Result Change
unfolding resumed_change check_fact
resume now resume_to append_messages metadata =
    check_fact (resumed_fact now append_messages metadata).body
    >> ok (resumed_change now resume_to append_messages metadata)

-- The last change of `_reduce_history`, for a rewrite that it accepts.
unfoldable pub rewrite_history :
    String → RunHistory Message → RunHistory Message → String → Entries → Change
unfolding sorted_keys iter
rewrite_history now history messages reason metadata =
    record (change
      (record {
        at = now;
        body = history_rewrite (record {
          before_count = history.count;
          after_roles = roles_of (iter messages);
          reason = reason;
          metadata_keys = sorted_keys metadata;
        });
      })
      (active (planning false)) []) { replace = some messages }

-- `_deadline_change`.
unfoldable pub deadline_change : Change → Bool
deadline_change c = is_deadline c.state
  where
    is_deadline : RunState → Bool
    is_deadline (limited deadline) = true
    is_deadline _ = false

abbrev pub planning_result : FactBody → FactBody
planning_result (model_turn t) =
    model_turn (record t { result = Checkpoint.ModelTurnResult.planning })
planning_result body = body

abbrev pub is_completed : RunState → Bool
is_completed (completed parts) = true
is_completed _ = false

-- `_continue_for_deferred_inserts`; only a model turn completes a run.
unfoldable pub continue_for_deferred : Change → Change
continue_for_deferred c =
    if is_completed c.state
    then record c {
      fact = record c.fact { body = planning_result c.fact.body };
      state = active (planning false);
    }
    else c
