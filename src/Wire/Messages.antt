-- ===== src/Wire/Messages.antt =====
-- The codecs of packages/jharness-kernel/src/jharness/kernel/wire/messages.py for tool outcomes and
-- messages.
pub mod Laws
pub mod Nesting
use jharness.Common.{
  String, Bool, true, false, not, Option, none, some, List, [], ◌∷◌, if◌then◌else◌, says,
  same_string,
}
use jharness.Errors.{Result, ok, err, protocol, protocol_error, ◌>>=◌, ◌>>◌, raise_if}
use jharness.Json.{Json, Entries, null, string, array, object, no_entry, entry}
use jharness.Messages.{
  ContentPart, ErrorInfo, TaskRef, ToolOutcome, success, failure, accepted, waiting, Role, system,
  user, assistant, tool, external, Message, ModelOutputItem,
}
use jharness.Messages.Checks.{check_outcome, check_message, output_ids, role_text}
use jharness.State.Pending.{unique_texts}
use jharness.Wire.{
  find, field, object_fields, json_object, read_array, each, read_string, read_non_empty, optional,
  items_of, decode_document,
}
use jharness.Wire.Parts.{
  built, or_null, encode_content_part, encode_error_info, decode_error_info_value, encode_task,
  decode_task,
}
use jharness.Wire.Calls.{encode_model_output_item, decode_model_output_item_value, decode_parts}

abbrev pub task_json : Option TaskRef → Json
unfolding encode_task
task_json none = null
task_json (some t) = encode_task t

-- The entries that all outcomes have, before those of one kind.
abbrev common_entries : String → List Json → Json → Entries → Json
common_entries kind parts content rest = object (
    entry "kind" (string kind)
      (entry "parts" (array (items_of parts)) (entry "structured_content" content rest)))

unfoldable pub encode_tool_outcome : ToolOutcome → Result Json
unfolding each encode_content_part encode_error_info encode_task
encode_tool_outcome (success parts content) = do
  encoded ← each encode_content_part parts
  ok (common_entries "success" encoded content no_entry)
encode_tool_outcome (failure parts error content) = do
  encoded ← each encode_content_part parts
  ok (common_entries "failure" encoded content (entry "error" (encode_error_info error) no_entry))
encode_tool_outcome (accepted parts correlation_id task content) = do
  encoded ← each encode_content_part parts
  ok (
      common_entries "accepted" encoded content
        (entry "correlation_id" (string correlation_id) (entry "task" (task_json task) no_entry)))
encode_tool_outcome (waiting parts task content) = do
  encoded ← each encode_content_part parts
  ok (common_entries "waiting" encoded content (entry "task" (task_json task) no_entry))

unfoldable pub decode_success : Entries → Result ToolOutcome
unfolding object_fields field
decode_success mapping = do
  fields ←
      object_fields (object mapping) "tool success" ("kind" ∷ "parts" ∷ "structured_content" ∷ [])
        []
  parts ← decode_parts (← field "parts" fields) "tool success parts"
  content ← field "structured_content" fields
  built check_outcome (success parts content)

unfoldable pub decode_failure : Entries → Result ToolOutcome
unfolding object_fields field
decode_failure mapping = do
  fields ←
      object_fields (object mapping) "tool failure"
        ("kind" ∷ "parts" ∷ "structured_content" ∷ "error" ∷ []) []
  parts ← decode_parts (← field "parts" fields) "tool failure parts"
  error ← decode_error_info_value (← field "error" fields)
  content ← field "structured_content" fields
  built check_outcome (failure parts error content)

unfoldable pub decode_accepted : Entries → Result ToolOutcome
unfolding object_fields field read_non_empty
decode_accepted mapping = do
  fields ←
      object_fields (object mapping) "tool accepted"
        ("kind" ∷ "parts" ∷ "structured_content" ∷ "correlation_id" ∷ "task" ∷ []) []
  parts ← decode_parts (← field "parts" fields) "tool accepted parts"
  correlation_id ← read_non_empty (← field "correlation_id" fields) "correlation_id"
  task ← optional decode_task (← field "task" fields)
  content ← field "structured_content" fields
  built check_outcome (accepted parts correlation_id task content)

unfoldable pub decode_waiting : Entries → Result ToolOutcome
unfolding object_fields field
decode_waiting mapping = do
  fields ←
      object_fields (object mapping) "tool waiting"
        ("kind" ∷ "parts" ∷ "structured_content" ∷ "task" ∷ []) []
  parts ← decode_parts (← field "parts" fields) "tool waiting parts"
  task ← optional decode_task (← field "task" fields)
  content ← field "structured_content" fields
  built check_outcome (waiting parts task content)

abbrev decode_outcome_kind : String → Entries → Result ToolOutcome
unfolding decode_success decode_failure decode_accepted decode_waiting
decode_outcome_kind kind mapping =
    if same_string kind "success"
    then decode_success mapping
    else if same_string kind "failure"
    then decode_failure mapping
    else if same_string kind "accepted"
    then decode_accepted mapping
    else if same_string kind "waiting"
    then decode_waiting mapping
    else err (protocol (says "tool outcome kind has unsupported value: " kind))

unfoldable pub decode_tool_outcome_value : Json → Result ToolOutcome
unfolding json_object find read_string decode_success decode_failure decode_accepted decode_waiting
decode_tool_outcome_value v = do
  mapping ← json_object v "tool outcome"
  kind ← read_string (or_null (find "kind" mapping)) "tool outcome kind"
  decode_outcome_kind kind mapping

abbrev pub encode_regular : Message → Result Json
encode_regular m = do
  parts ← each encode_content_part m.parts
  ok (
      object (
        entry "role" (string (role_text m.role))
          (entry "parts" (array (items_of parts)) (entry "metadata" (object m.metadata) no_entry))))

abbrev pub encode_assistant : Message → Result Json
encode_assistant m = do
  output ← each encode_model_output_item m.output
  ok (
      object (
        entry "role" (string "assistant") (
          entry "output" (array (items_of output))
            (entry "metadata" (object m.metadata) no_entry))))

abbrev pub encode_tool : Option String → Option ToolOutcome → Entries → Result Json
encode_tool (some id) (some outcome) metadata = do
  encoded ← encode_tool_outcome outcome
  ok (
      object (
        entry "role" (string "tool") (
          entry "tool_call_id" (string id)
            (entry "outcome" encoded (entry "metadata" (object metadata) no_entry)))))
encode_tool _ _ metadata = err (protocol "invalid trusted tool message")

abbrev pub encode_role : Role → Message → Result Json
encode_role assistant m = encode_assistant m
encode_role tool m = encode_tool m.tool_call_id m.outcome m.metadata
encode_role _ m = encode_regular m

-- `encode_message`.
unfoldable pub encode_message : Message → Result Json
encode_message m = encode_role m.role m

unfoldable pub decode_regular : Role → Entries → Result Message
unfolding object_fields field json_object
decode_regular role mapping = do
  fields ← object_fields (object mapping) "message" ("role" ∷ "parts" ∷ "metadata" ∷ []) []
  parts ← decode_parts (← field "parts" fields) "message parts"
  metadata ← json_object (← field "metadata" fields) "message metadata"
  built check_message (record {
    role = role;
    parts = parts;
    output = [];
    tool_call_id = none;
    outcome = none;
    metadata = metadata;
  })

unfoldable pub decode_assistant : Entries → Result Message
unfolding object_fields field json_object
decode_assistant mapping = do
  fields ←
      object_fields (object mapping) "assistant message" ("role" ∷ "output" ∷ "metadata" ∷ []) []
  items ← read_array (← field "output" fields) "assistant output"
  output ← each decode_model_output_item_value items
  raise_if (not (unique_texts (output_ids output)))
      (protocol_error "duplicate_tool_call_id" "assistant tool call ids must be unique")
  metadata ← json_object (← field "metadata" fields) "message metadata"
  built check_message (record {
    role = assistant;
    parts = [];
    output = output;
    tool_call_id = none;
    outcome = none;
    metadata = metadata;
  })

unfoldable pub decode_tool : Entries → Result Message
unfolding object_fields field json_object read_non_empty
decode_tool mapping = do
  fields ←
      object_fields (object mapping) "tool message"
        ("role" ∷ "tool_call_id" ∷ "outcome" ∷ "metadata" ∷ []) []
  id ← read_non_empty (← field "tool_call_id" fields) "tool_call_id"
  outcome ← decode_tool_outcome_value (← field "outcome" fields)
  metadata ← json_object (← field "metadata" fields) "message metadata"
  built check_message (record {
    role = tool;
    parts = [];
    output = [];
    tool_call_id = some id;
    outcome = some outcome;
    metadata = metadata;
  })

abbrev decode_role : String → Entries → Result Message
unfolding decode_regular decode_assistant decode_tool
decode_role role mapping =
    if same_string role "system"
    then decode_regular system mapping
    else if same_string role "user"
    then decode_regular user mapping
    else if same_string role "external"
    then decode_regular external mapping
    else if same_string role "assistant"
    then decode_assistant mapping
    else if same_string role "tool"
    then decode_tool mapping
    else err (protocol (says "message role has unsupported value: " role))

unfoldable pub decode_message_value : Json → Result Message
unfolding json_object find read_string decode_regular decode_assistant decode_tool
decode_message_value v = do
  mapping ← json_object v "message"
  role ← read_string (or_null (find "role" mapping)) "message role"
  decode_role role mapping

unfoldable pub decode_message : Json → Result Message
unfolding decode_document
decode_message v = decode_document v "message" decode_message_value
