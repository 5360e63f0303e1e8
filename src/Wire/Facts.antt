-- ===== src/Wire/Facts.antt =====
-- The facts of packages/jharness-kernel/src/jharness/kernel/wire/checkpoint.py, and `fact_data` of
-- _engine/verification.py, which encodes them.
pub mod Decoding
pub mod Readers
pub mod Laws
use jharness.Common.{
  ℕ, String, Bool, true, false, not, Option, none, some, List, [], ◌∷◌, ℤ, pos, map, says,
  same_string, if◌then◌else◌,
}
use jharness.Errors.{Result, ok, err, value_error, protocol, ◌>>=◌, ◌>>◌, raise_if}
use jharness.Json.{
  Json, Entries, null, boolean, integer, float, string, array, object, no_entry, entry,
}
use jharness.Messages.{Role, system, user, assistant, tool, external}
use jharness.Messages.Checks.{role_text}
use jharness.State.{LimitReason}
use jharness.State.Usage.{ModelUsage}
use jharness.Checkpoint.{
  ModelTurnResult, planning, completed, tools_pending, limited, ToolOutcomeKind, success, failure,
  accepted, waiting, SuspensionView, ModelTurn, ToolBatchTurn, Rewrite, ControlDecision,
  suspended_control, failed_control, limited_control, FactBody, started, resumed, model_turn,
  tool_batch, conversation_insert, history_rewrite, control, Fact, check_fact,
  check_suspension_view, is_empty,
}
use jharness.Wire.{
  find, field, object_fields, json_object, read_array, each, read_string, read_non_empty,
  read_integer, read_boolean, read_enum, optional, unique_strings, items_of, decode_document,
}
use jharness.Wire.Parts.{built, or_null, text_json}
use jharness.Wire.State.{encode_model_usage, decode_model_usage_value, reason_text, limit_reasons}
use jharness.Wire.Snapshot.{negative, read_number}

abbrev pub roles : List (String × Role)
roles =
    ("system", system)
    ∷ ("user", user)
    ∷ ("assistant", assistant)
    ∷ ("tool", tool)
    ∷ ("external", external)
    ∷ []

abbrev pub result_text : ModelTurnResult → String
result_text planning = "planning"
result_text completed = "completed"
result_text tools_pending = "tools_pending"
result_text limited = "limited"

abbrev pub model_results : List (String × ModelTurnResult)
model_results =
    ("planning", planning)
    ∷ ("completed", completed)
    ∷ ("tools_pending", tools_pending)
    ∷ ("limited", limited)
    ∷ []

abbrev pub kind_text : ToolOutcomeKind → String
kind_text success = "success"
kind_text failure = "failure"
kind_text accepted = "accepted"
kind_text waiting = "waiting"

abbrev pub outcome_kinds_allowed : List (String × ToolOutcomeKind)
outcome_kinds_allowed =
    ("success", success) ∷ ("failure", failure) ∷ ("accepted", accepted) ∷ ("waiting", waiting) ∷ []

abbrev pub texts_json : List String → Json
texts_json texts = array (items_of (map string texts))

abbrev pub roles_json : List Role → Json
roles_json rs = array (items_of (map (λ r. string (role_text r)) rs))

abbrev pub usage_json : Option ModelUsage → Json
usage_json none = null
usage_json (some u) = encode_model_usage u

abbrev pub limit_json : Option LimitReason → Json
limit_json none = null
limit_json (some r) = string (reason_text r)

-- `suspension_data`.
unfoldable pub encode_suspension_view : SuspensionView → Json
encode_suspension_view v = object (
    entry "reason" (string v.reason) (
      entry "source" (string v.source) (
        entry "wait_id" (or_null (text_json v.wait_id))
          (entry "metadata_keys" (texts_json v.metadata_keys) no_entry))))

abbrev pub view_json : Option SuspensionView → Json
view_json none = null
view_json (some v) = encode_suspension_view v

-- `_control_data`.
unfoldable pub control_data : ControlDecision → Json
control_data (suspended_control v) = object (
    entry "action" (string "suspended") (
      entry "reason" (string v.reason) (
        entry "source" (string v.source) (
          entry "wait_id" (or_null (text_json v.wait_id))
            (entry "metadata_keys" (texts_json v.metadata_keys) no_entry)))))
control_data (failed_control code) =
    object (entry "action" (string "failed") (entry "code" (string code) no_entry))
control_data (limited_control reason) =
    object
      (entry "action" (string "limited") (entry "reason" (string (reason_text reason)) no_entry))

abbrev pub body_kind : FactBody → String
body_kind (started rs) = "started"
body_kind (resumed rs keys) = "resumed"
body_kind (model_turn t) = "model_turn"
body_kind (tool_batch t) = "tool_batch"
body_kind (conversation_insert source) = "conversation_insert"
body_kind (history_rewrite r) = "history_rewrite"
body_kind (control d) = "control"

unfoldable pub body_data : FactBody → Json
unfolding control_data encode_suspension_view
body_data (started rs) = object (entry "history_roles" (roles_json rs) no_entry)
body_data (resumed rs keys) =
    object
      (entry "appended_roles" (roles_json rs) (entry "metadata_keys" (texts_json keys) no_entry))
body_data (model_turn t) = object (
    entry "result" (string (result_text t.result)) (
      entry "part_count" (integer (pos t.part_count)) (
        entry "tool_call_ids" (texts_json t.tool_call_ids) (
          entry "provider_turn_pending" (boolean t.provider_turn_pending) (
            entry "finish_reason" (or_null (text_json t.finish_reason)) (
              entry "usage" (usage_json t.usage)
                (entry "limit_reason" (limit_json t.limit_reason) no_entry)))))))
body_data (tool_batch t) = object (
    entry "batch_id" (string t.batch_id) (
      entry "call_ids" (texts_json t.call_ids) (
        entry "parallel" (boolean t.parallel) (
          entry "outcome_kinds" (array (items_of (map (λ k. string (kind_text k)) t.outcome_kinds)))
            (entry "suspension" (view_json t.suspension) no_entry)))))
body_data (conversation_insert source) = object (entry "source" (string source) no_entry)
body_data (history_rewrite r) = object (
    entry "before_count" (integer (pos r.before_count)) (
      entry "after_roles" (roles_json r.after_roles) (
        entry "reason" (string r.reason)
          (entry "metadata_keys" (texts_json r.metadata_keys) no_entry))))
body_data (control d) = control_data d

-- `fact_data`, which is `encode_fact`.
unfoldable pub encode_fact : Fact → Json
unfolding body_data
encode_fact f = object (
    entry "kind" (string (body_kind f.body))
      (entry "at" (float f.at) (entry "data" (body_data f.body) no_entry)))
