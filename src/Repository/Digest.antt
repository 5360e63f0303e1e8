-- ===== src/Repository/Digest.antt =====
-- `checkpoint_digest` of repository.py: the canonical bytes of a checkpoint.
pub mod Flag
use jharness.Common.{
  ℕ, Bool, true, false, String, Option, none, some, List, [], ◌∷◌, ◌++◌, map, length,
}
use jharness.Messages.{Role}
use jharness.Digest.{
  write_error, write_optional_integer, write_optional_string, write_parts, write_all, role_value,
}
use jharness.Digest.Writer.{
  domain, field, write_none, write_boolean, integer, number, string, bytes, sequence, json_object,
}
use jharness.State.{
  LimitReason, max_planning_steps, max_tool_calls, max_total_tokens, deadline, ActiveState,
  planning, tools_pending, Suspension, RunState, active, suspended, completed, failed, limited,
  RunMetrics,
}
use jharness.State.Usage.{ModelUsage}
use jharness.State.Pending.{PendingToolCalls, pending_count, pending_digest}
use jharness.Snapshot.{RunContext, RunSnapshot}
use jharness.Checkpoint

abbrev limit_value : LimitReason → String
limit_value max_planning_steps = "max_planning_steps"
limit_value max_tool_calls = "max_tool_calls"
limit_value max_total_tokens = "max_total_tokens"
limit_value deadline = "deadline"

abbrev write_optional_number : Option String → List ℕ
write_optional_number none = write_none
write_optional_number (some t) = number t

write_context : RunContext → List ℕ
write_context c =
    field "run_id"
    ++ (string c.run_id
        ++ (field "started_at"
            ++ (number c.started_at
                ++ (field "deadline"
                    ++ (write_optional_number c.deadline
                        ++ (field "parent_run_id"
                            ++ (write_optional_string c.parent_run_id
                                ++ (field "parent_tool_call_id"
                                    ++ (write_optional_string c.parent_tool_call_id
                                        ++ (field "run_kind"
                                            ++ (write_optional_string c.run_kind
                                                ++ (field "metadata"
                                                    ++ json_object c.metadata))))))))))))

write_usage : ModelUsage → List ℕ
write_usage u =
    field "input_tokens"
    ++ (write_optional_integer u.input_tokens
        ++ (field "output_tokens"
            ++ (write_optional_integer u.output_tokens
                ++ (field "total_tokens"
                    ++ (write_optional_integer u.total_tokens
                        ++ (field "reasoning_tokens"
                            ++ (write_optional_integer u.reasoning_tokens
                                ++ (field "cache_read_tokens"
                                    ++ (write_optional_integer u.cache_read_tokens
                                        ++ (field "cache_write_tokens"
                                            ++ write_optional_integer u.cache_write_tokens))))))))))

write_metrics : RunMetrics → List ℕ
unfolding write_usage
write_metrics m =
    field "planning_steps"
    ++ (integer m.planning_steps
        ++ (field "tool_calls" ++ (integer m.tool_calls ++ (field "usage" ++ write_usage m.usage))))

write_pending : PendingToolCalls → List ℕ
unfolding pending_count pending_digest
write_pending p =
    field "pending_count"
    ++ (integer (pending_count p) ++ (field "pending_digest" ++ bytes (pending_digest p)))

write_active_state : ActiveState → List ℕ
unfolding write_pending
write_active_state (planning b) =
    field "kind" ++ (string "planning" ++ (field "provider_turn_pending" ++ write_boolean b))
write_active_state (tools_pending p b) =
    field "kind"
    ++ (string "tools_pending"
        ++ (field "provider_turn_pending" ++ (write_boolean b ++ write_pending p)))

write_suspension : Suspension → List ℕ
write_suspension s =
    field "reason"
    ++ (string s.reason
        ++ (field "source"
            ++ (string s.source
                ++ (field "wait_id"
                    ++ (write_optional_string s.wait_id
                        ++ (field "metadata" ++ json_object s.metadata))))))

-- `_write_state` writes the flag of `ToolsPending` only inside `Suspended`.
unfoldable pub write_state : RunState → List ℕ
unfolding write_active_state write_suspension write_pending write_parts write_error
write_state (active (planning b)) =
    field "kind" ++ (string "planning" ++ (field "provider_turn_pending" ++ write_boolean b))
write_state (active (tools_pending p b)) =
    field "kind" ++ (string "tools_pending" ++ write_pending p)
write_state (suspended a s) =
    field "kind"
    ++ (string "suspended"
        ++ (field "resume_to"
            ++ (write_active_state a ++ (field "suspension" ++ write_suspension s))))
write_state (completed parts) =
    field "kind" ++ (string "completed" ++ (field "parts" ++ write_parts parts))
write_state (failed error) =
    field "kind" ++ (string "failed" ++ (field "error" ++ write_error error))
write_state (limited reason) =
    field "kind" ++ (string "limited" ++ (field "reason" ++ string (limit_value reason)))

unfoldable pub write_snapshot : RunSnapshot → List ℕ
unfolding write_context write_metrics write_state
write_snapshot s =
    field "revision"
    ++ (integer s.revision
        ++ (field "context"
            ++ (write_context s.context
                ++ (field "history_count"
                    ++ (integer s.history.count
                        ++ (field "history_digest"
                            ++ (bytes s.history_proof.digest
                                ++ (field "metrics"
                                    ++ (write_metrics s.metrics
                                        ++ (field "state" ++ write_state s.state))))))))))

write_strings : List String → List ℕ
write_strings values = sequence (length values) ++ write_all string values

abbrev result_value : Checkpoint.ModelTurnResult → String
result_value Checkpoint.ModelTurnResult.planning = "planning"
result_value Checkpoint.ModelTurnResult.completed = "completed"
result_value Checkpoint.ModelTurnResult.tools_pending = "tools_pending"
result_value Checkpoint.ModelTurnResult.limited = "limited"

abbrev kind_value : Checkpoint.ToolOutcomeKind → String
kind_value Checkpoint.ToolOutcomeKind.success = "success"
kind_value Checkpoint.ToolOutcomeKind.failure = "failure"
kind_value Checkpoint.ToolOutcomeKind.accepted = "accepted"
kind_value Checkpoint.ToolOutcomeKind.waiting = "waiting"

write_optional_usage : Option ModelUsage → List ℕ
unfolding write_usage
write_optional_usage none = write_none
write_optional_usage (some u) = write_usage u

abbrev write_optional_limit : Option LimitReason → List ℕ
write_optional_limit none = write_none
write_optional_limit (some r) = string (limit_value r)

-- `_write_model_fact`, which leaves out `provider_turn_pending`.
write_model_fact : Checkpoint.ModelTurn → List ℕ
unfolding write_strings write_optional_usage
write_model_fact t =
    field "result"
    ++ (string (result_value t.result)
        ++ (field "part_count"
            ++ (integer t.part_count
                ++ (field "tool_call_ids"
                    ++ (write_strings t.tool_call_ids
                        ++ (field "finish_reason"
                            ++ (write_optional_string t.finish_reason
                                ++ (field "usage"
                                    ++ (write_optional_usage t.usage
                                        ++ (field "limit_reason"
                                            ++ write_optional_limit t.limit_reason))))))))))

write_suspension_view : Checkpoint.SuspensionView → List ℕ
unfolding write_strings
write_suspension_view v =
    field "reason"
    ++ (string v.reason
        ++ (field "source"
            ++ (string v.source
                ++ (field "wait_id"
                    ++ (write_optional_string v.wait_id
                        ++ (field "metadata_keys" ++ write_strings v.metadata_keys))))))

write_optional_view : Option Checkpoint.SuspensionView → List ℕ
unfolding write_suspension_view
write_optional_view none = write_none
write_optional_view (some v) = write_suspension_view v

write_tool_fact : Checkpoint.ToolBatchTurn → List ℕ
unfolding write_strings write_optional_view
write_tool_fact t =
    field "batch_id"
    ++ (string t.batch_id
        ++ (field "call_ids"
            ++ (write_strings t.call_ids
                ++ (field "parallel"
                    ++ (write_boolean t.parallel
                        ++ (field "outcome_kinds"
                            ++ (write_strings (map kind_value t.outcome_kinds)
                                ++ (field "suspension" ++ write_optional_view t.suspension))))))))

write_history_fact : Checkpoint.Rewrite → List ℕ
unfolding write_strings
write_history_fact r =
    field "before_count"
    ++ (integer r.before_count
        ++ (field "after_roles"
            ++ (write_strings (map role_value r.after_roles)
                ++ (field "reason"
                    ++ (string r.reason
                        ++ (field "metadata_keys" ++ write_strings r.metadata_keys))))))

write_control : Checkpoint.ControlDecision → List ℕ
unfolding write_suspension_view
write_control (Checkpoint.suspended_control v) =
    field "action" ++ (string "suspended" ++ write_suspension_view v)
write_control (Checkpoint.failed_control code) =
    field "action" ++ (string "failed" ++ (field "code" ++ string code))
write_control (Checkpoint.limited_control r) =
    field "action" ++ (string "limited" ++ (field "reason" ++ string (limit_value r)))

abbrev fact_kind : Checkpoint.FactBody → String
fact_kind (Checkpoint.started roles) = "started"
fact_kind (Checkpoint.resumed roles keys) = "resumed"
fact_kind (Checkpoint.model_turn t) = "model_turn"
fact_kind (Checkpoint.tool_batch t) = "tool_batch"
fact_kind (Checkpoint.conversation_insert source) = "conversation_insert"
fact_kind (Checkpoint.history_rewrite r) = "history_rewrite"
fact_kind (Checkpoint.control d) = "control"

write_body : Checkpoint.FactBody → List ℕ
unfolding write_strings write_model_fact write_tool_fact write_history_fact write_control
write_body (Checkpoint.started roles) =
    field "history_roles" ++ write_strings (map role_value roles)
write_body (Checkpoint.resumed roles keys) =
    field "appended_roles"
    ++ (write_strings (map role_value roles) ++ (field "metadata_keys" ++ write_strings keys))
write_body (Checkpoint.model_turn t) = write_model_fact t
write_body (Checkpoint.tool_batch t) = write_tool_fact t
write_body (Checkpoint.conversation_insert source) = field "source" ++ string source
write_body (Checkpoint.history_rewrite r) = write_history_fact r
write_body (Checkpoint.control d) = field "decision" ++ write_control d

unfoldable pub write_fact : Checkpoint.Fact → List ℕ
unfolding write_body
write_fact f =
    field "kind"
    ++ (string (fact_kind f.body) ++ (field "at" ++ (number f.at ++ write_body f.body)))

module _ (sha256 : List ℕ → List ℕ) where
  unfoldable pub checkpoint_digest : Checkpoint.Checkpoint → List ℕ
  unfolding write_snapshot write_fact
  checkpoint_digest cp = sha256 (
      domain "jharness.kernel.checkpoint.v1"
      ++ (field "id"
          ++ (string cp.id
              ++ (field "snapshot"
                  ++ (write_snapshot cp.snapshot ++ (field "fact" ++ write_fact cp.fact))))))
