-- ===== src/Wire/State.antt =====
-- packages/jharness-kernel/src/jharness/kernel/wire/state.py, and the usage of wire/models.py.
pub mod Laws
use jharness.Common.{
  ℕ, zero, suc, Bool, true, false, String, Option, none, some, List, [], ◌∷◌, map, pos, says,
  same_string, if◌then◌else◌,
}
use jharness.Errors.{Result, ok, err, value_error, protocol, ◌>>=◌, ◌>>◌, raise_if}
use jharness.Json.{Json, Entries, null, boolean, integer, string, array, object, no_entry, entry}
use jharness.Json.Depth.{depth}
use jharness.Messages.{ContentPart, ErrorInfo, RuntimeToolCall}
use jharness.Messages.Checks.{expect_non_empty, expect_present, freeze_mapping}
use jharness.State.{
  LimitReason, max_planning_steps, max_tool_calls, max_total_tokens, deadline, ActiveState,
  planning, tools_pending, Suspension, RunState, active, suspended, completed, failed, limited,
  RunMetrics,
}
use jharness.State.Usage.{ModelUsage}
use jharness.State.Pending.{PendingToolCalls, pending_tool_calls, remaining_calls}
use jharness.Wire.{
  find, field, object_fields, json_object, read_array, each, read_string, read_non_empty,
  read_integer, read_boolean, read_enum, optional, items_of, decode_document,
}
use jharness.Wire.Parts.{
  built, or_null, text_json, encode_content_part, decode_content_part_value, encode_error_info,
  decode_error_info_value,
}
use jharness.Wire.Calls.{encode_runtime_tool_call, decode_runtime_tool_call_value}

abbrev pub count_json : Option ℕ → Json
count_json none = null
count_json (some n) = integer (pos n)

-- `encode_model_usage`.
unfoldable pub encode_model_usage : ModelUsage → Json
encode_model_usage u = object (
    entry "input_tokens" (count_json u.input_tokens) (
      entry "output_tokens" (count_json u.output_tokens) (
        entry "total_tokens" (count_json u.total_tokens) (
          entry "reasoning_tokens" (count_json u.reasoning_tokens) (
            entry "cache_read_tokens" (count_json u.cache_read_tokens)
              (entry "cache_write_tokens" (count_json u.cache_write_tokens) no_entry))))))

-- `optional_integer(fields[name], name, minimum=0)`.
unfoldable pub read_count : String → Entries → Result (Option ℕ)
unfolding field optional read_integer
read_count name fields = do j ← field name fields; optional (λ v. read_integer 0 v name) j

unfoldable pub decode_model_usage_value : Json → Result ModelUsage
unfolding object_fields read_count
decode_model_usage_value v = do
  fields ←
      object_fields v "model usage"
        ("input_tokens" ∷ "output_tokens" ∷ "total_tokens" ∷ "reasoning_tokens"
          ∷ "cache_read_tokens" ∷ "cache_write_tokens" ∷ [])
        []
  input_tokens ← read_count "input_tokens" fields
  output_tokens ← read_count "output_tokens" fields
  total_tokens ← read_count "total_tokens" fields
  reasoning_tokens ← read_count "reasoning_tokens" fields
  cache_read_tokens ← read_count "cache_read_tokens" fields
  cache_write_tokens ← read_count "cache_write_tokens" fields
  ok (record {
    input_tokens = input_tokens;
    output_tokens = output_tokens;
    total_tokens = total_tokens;
    reasoning_tokens = reasoning_tokens;
    cache_read_tokens = cache_read_tokens;
    cache_write_tokens = cache_write_tokens;
  })

-- `encode_metrics`.
unfoldable pub encode_metrics : RunMetrics → Json
encode_metrics m = object (
    entry "planning_steps" (integer (pos m.planning_steps)) (
      entry "tool_calls" (integer (pos m.tool_calls))
        (entry "usage" (encode_model_usage m.usage) no_entry)))

unfoldable pub decode_metrics_value : Json → Result RunMetrics
unfolding object_fields field read_integer
decode_metrics_value v = do
  fields ← object_fields v "run metrics" ("planning_steps" ∷ "tool_calls" ∷ "usage" ∷ []) []
  planning_steps ← read_integer 0 (← field "planning_steps" fields) "planning_steps"
  tool_calls ← read_integer 0 (← field "tool_calls" fields) "tool_calls"
  usage ← decode_model_usage_value (← field "usage" fields)
  ok (record { planning_steps = planning_steps; tool_calls = tool_calls; usage = usage })

-- `Suspension.__post_init__` of state.py.
unfoldable pub check_suspension : Suspension → Result (Unit {0})
check_suspension s =
    expect_non_empty s.reason "suspension reason"
    >> expect_non_empty s.source "suspension source"
    >> expect_present s.wait_id "suspension wait_id"
    >> freeze_mapping s.metadata

unfoldable pub encode_suspension : Suspension → Json
encode_suspension s = object (
    entry "reason" (string s.reason) (
      entry "source" (string s.source) (
        entry "wait_id" (or_null (text_json s.wait_id))
          (entry "metadata" (object s.metadata) no_entry))))

unfoldable pub decode_suspension_value : Json → Result Suspension
unfolding object_fields field read_non_empty optional json_object
decode_suspension_value v = do
  fields ← object_fields v "suspension" ("reason" ∷ "source" ∷ "wait_id" ∷ "metadata" ∷ []) []
  reason ← read_non_empty (← field "reason" fields) "suspension reason"
  source ← read_non_empty (← field "source" fields) "suspension source"
  wait_id ← optional (λ j. read_non_empty j "suspension wait_id") (← field "wait_id" fields)
  metadata ← json_object (← field "metadata" fields) "suspension metadata"
  built check_suspension
      (record { reason = reason; source = source; wait_id = wait_id; metadata = metadata })

abbrev pub reason_text : LimitReason → String
reason_text max_planning_steps = "max_planning_steps"
reason_text max_tool_calls = "max_tool_calls"
reason_text max_total_tokens = "max_total_tokens"
reason_text deadline = "deadline"

abbrev pub limit_reasons : List (String × LimitReason)
limit_reasons =
    ("max_planning_steps", max_planning_steps)
    ∷ ("max_tool_calls", max_tool_calls)
    ∷ ("max_total_tokens", max_total_tokens)
    ∷ ("deadline", deadline)
    ∷ []

unfoldable pub encode_active : ActiveState → Json
encode_active (planning flag) =
    object
      (entry "kind" (string "planning") (entry "provider_turn_pending" (boolean flag) no_entry))
encode_active (tools_pending pending flag) = object (
    entry "kind" (string "tools_pending") (
      entry "pending" (array (items_of (map encode_runtime_tool_call (remaining_calls pending))))
        (entry "provider_turn_pending" (boolean flag) no_entry)))

unfoldable pub encode_state : RunState → Result Json
unfolding encode_active
encode_state (active a) = ok (encode_active a)
encode_state (suspended a s) = ok (
    object (
      entry "kind" (string "suspended")
        (entry "resume_to" (encode_active a) (entry "suspension" (encode_suspension s) no_entry))))
encode_state (completed parts) = do
  encoded ← each encode_content_part parts
  ok (
      object
        (entry "kind" (string "completed") (entry "parts" (array (items_of encoded)) no_entry)))
encode_state (failed e) =
    ok (object (entry "kind" (string "failed") (entry "error" (encode_error_info e) no_entry)))
encode_state (limited r) =
    ok (object (entry "kind" (string "limited") (entry "reason" (string (reason_text r)) no_entry)))

abbrev pub state_kinds : List (String × String)
state_kinds =
    ("planning", "planning")
    ∷ ("tools_pending", "tools_pending")
    ∷ ("suspended", "suspended")
    ∷ ("completed", "completed")
    ∷ ("failed", "failed")
    ∷ ("limited", "limited")
    ∷ []

module _ (sha256 : List ℕ → List ℕ) where
  unfoldable pub decode_planning : Entries → Result RunState
  unfolding object_fields field read_boolean
  decode_planning raw = do
    fields ← object_fields (object raw) "planning state" ("kind" ∷ "provider_turn_pending" ∷ []) []
    flag ← read_boolean (← field "provider_turn_pending" fields) "provider_turn_pending"
    ok (active (planning flag))

  unfoldable pub decode_tools_pending : Entries → Result RunState
  unfolding object_fields field read_boolean read_array
  decode_tools_pending raw = do
    fields ←
        object_fields (object raw) "tools_pending state"
          ("kind" ∷ "pending" ∷ "provider_turn_pending" ∷ []) []
    items ← read_array (← field "pending" fields) "pending calls"
    calls ← each decode_runtime_tool_call_value items
    pending ← pending_tool_calls sha256 calls
    flag ← read_boolean (← field "provider_turn_pending" fields) "provider_turn_pending"
    ok (active (tools_pending pending flag))

  -- `_decode_active_state`, on the state that its value decodes to.
  abbrev pub expect_active : RunState → Result ActiveState
  expect_active (active a) = ok a
  expect_active _ = err (protocol "active state must be planning or tools_pending")

  unfoldable pub decode_suspended : (Json → Result RunState) → Entries → Result RunState
  unfolding object_fields field
  decode_suspended inner raw = do
    fields ←
        object_fields (object raw) "suspended state" ("kind" ∷ "resume_to" ∷ "suspension" ∷ []) []
    state ← inner (← field "resume_to" fields)
    resume_to ← expect_active state
    suspension ← decode_suspension_value (← field "suspension" fields)
    ok (suspended resume_to suspension)

  unfoldable pub decode_completed : Entries → Result RunState
  unfolding object_fields field read_array
  decode_completed raw = do
    fields ← object_fields (object raw) "completed state" ("kind" ∷ "parts" ∷ []) []
    items ← read_array (← field "parts" fields) "completed parts"
    parts ← each decode_content_part_value items
    ok (completed parts)

  unfoldable pub decode_failed : Entries → Result RunState
  unfolding object_fields field
  decode_failed raw = do
    fields ← object_fields (object raw) "failed state" ("kind" ∷ "error" ∷ []) []
    error ← decode_error_info_value (← field "error" fields)
    ok (failed error)

  unfoldable pub decode_limited : Entries → Result RunState
  unfolding object_fields field read_enum
  decode_limited raw = do
    fields ← object_fields (object raw) "limited state" ("kind" ∷ "reason" ∷ []) []
    reason ← read_enum limit_reasons (← field "reason" fields) "limit reason"
    ok (limited reason)

  abbrev pub decode_state_kind : (Json → Result RunState) → String → Entries → Result RunState
  decode_state_kind inner kind raw =
      if same_string kind "planning"
      then decode_planning raw
      else if same_string kind "tools_pending"
      then decode_tools_pending raw
      else if same_string kind "suspended"
      then decode_suspended inner raw
      else if same_string kind "completed"
      then decode_completed raw
      else if same_string kind "failed"
      then decode_failed raw
      else decode_limited raw

  abbrev or_missing_kind : Option Json → Result Json
  or_missing_kind none = err (protocol "run state is missing field(s): kind")
  or_missing_kind (some v) = ok v

  -- One level of `decode_state_value`, with the decoder of the state inside.
  unfoldable pub decode_state_with : (Json → Result RunState) → Json → Result RunState
  unfolding json_object find read_enum
  decode_state_with inner v = do
    raw ← json_object v "run state"
    kind_value ← or_missing_kind (find "kind" raw)
    kind ← read_enum state_kinds kind_value "run state kind"
    decode_state_kind inner kind raw

  -- The recursion, on the levels of nesting that are left. A value of no level is no object.
  unfoldable pub decode_state_within : ℕ → Json → Result RunState
  decode_state_within zero v = err (protocol "run state must be an object")
  decode_state_within (suc levels) v = decode_state_with (decode_state_within levels) v

  unfoldable pub decode_state_value : Json → Result RunState
  unfolding decode_state_within
  decode_state_value v = decode_state_within (depth v) v

  unfoldable pub decode_state : Json → Result RunState
  unfolding decode_document
  decode_state v = decode_document v "run state" decode_state_value
