-- ===== src/Wire/Calls.antt =====
-- The codecs of packages/jharness-kernel/src/jharness/kernel/wire/messages.py for runtime tool calls
-- and the items of a model's output.
pub mod Laws
use jharness.Common.{
  String, Bool, true, false, not, Option, none, some, List, [], ◌∷◌, if◌then◌else◌, says,
  same_string,
}
use jharness.Errors.{Result, ok, err, protocol, ◌>>=◌, ◌>>◌, raise_if}
use jharness.Json.{Json, Entries, null, string, array, object, no_entry, entry}
use jharness.Messages.{
  ContentPart, StructuredToolCall, FreeformToolCall, RuntimeToolCall, structured, freeform,
  ProviderToolId, ProviderToolStatus, in_progress, completed, incomplete, failed, ErrorInfo,
  ProviderToolCall, ModelOutputItem, content_item, runtime_item, provider_item,
}
use jharness.Messages.Checks.{
  check_structured, check_freeform, check_tool_id, check_provider_call, is_some,
}
use jharness.Wire.{
  find, field, object_fields, json_object, read_array, each, read_string, read_non_empty, read_enum,
  optional, present, items_of,
}
use jharness.Wire.Parts.{
  built, or_null, encode_content_part, decode_content_part_value, encode_error_info,
  decode_error_info_value,
}

-- `arguments`, or else `raw_input`.
abbrev input_entry : Option Entries → Option String → Entries → Entries
input_entry (some arguments) raw_input rest = entry "arguments" (object arguments) rest
input_entry none (some raw_input) rest = entry "raw_input" (string raw_input) rest
input_entry none none rest = entry "raw_input" null rest

unfoldable pub call_entries : RuntimeToolCall → Entries
call_entries (structured c) = entry "input_kind" (string "structured") (
    entry "id" (string c.id) (
      entry "name" (string c.name)
        (input_entry c.arguments c.raw_input (entry "metadata" (object c.metadata) no_entry))))
call_entries (freeform c) = entry "input_kind" (string "freeform") (
    entry "id" (string c.id) (
      entry "name" (string c.name)
        (entry "input" (string c.input) (entry "metadata" (object c.metadata) no_entry))))

unfoldable pub encode_runtime_tool_call : RuntimeToolCall → Json
unfolding call_entries
encode_runtime_tool_call call = object (call_entries call)

-- `has_arguments == has_raw_input`.
abbrev both_or_neither : Option Json → Option Json → Bool
both_or_neither none none = true
both_or_neither (some a) (some r) = true
both_or_neither _ _ = false

unfoldable pub decode_structured : Entries → Result RuntimeToolCall
unfolding find object_fields field read_non_empty read_string present json_object
decode_structured mapping = do
  fields ←
      object_fields (object mapping) "structured runtime tool call"
        ("input_kind" ∷ "id" ∷ "name" ∷ "metadata" ∷ []) ("arguments" ∷ "raw_input" ∷ [])
  raise_if (both_or_neither (find "arguments" fields) (find "raw_input" fields))
      (protocol "structured runtime tool call requires exactly one of arguments or raw_input")
  id ← read_non_empty (← field "id" fields) "tool call id"
  name ← read_non_empty (← field "name" fields) "tool call name"
  arguments ← present (λ j. json_object j "tool call arguments") "arguments" fields
  raw_input ← present (λ j. read_string j "tool call raw_input") "raw_input" fields
  metadata ← json_object (← field "metadata" fields) "tool call metadata"
  built check_structured (record {
    id = id;
    name = name;
    arguments = arguments;
    raw_input = raw_input;
    metadata = metadata;
  })
      >>= λ c. ok (structured c)

unfoldable pub decode_freeform : Entries → Result RuntimeToolCall
unfolding object_fields field read_non_empty read_string json_object
decode_freeform mapping = do
  fields ←
      object_fields (object mapping) "freeform runtime tool call"
        ("input_kind" ∷ "id" ∷ "name" ∷ "input" ∷ "metadata" ∷ []) []
  id ← read_non_empty (← field "id" fields) "tool call id"
  name ← read_non_empty (← field "name" fields) "tool call name"
  input ← read_string (← field "input" fields) "tool call input"
  metadata ← json_object (← field "metadata" fields) "tool call metadata"
  built check_freeform (record { id = id; name = name; input = input; metadata = metadata })
      >>= λ c. ok (freeform c)

abbrev decode_input_kind : String → Entries → Result RuntimeToolCall
unfolding decode_structured decode_freeform
decode_input_kind kind mapping =
    if same_string kind "structured"
    then decode_structured mapping
    else if same_string kind "freeform"
    then decode_freeform mapping
    else err (protocol (says "runtime tool call input_kind has unsupported value: " kind))

unfoldable pub decode_runtime_tool_call_value : Json → Result RuntimeToolCall
unfolding json_object find read_string decode_structured decode_freeform
decode_runtime_tool_call_value v = do
  mapping ← json_object v "runtime tool call"
  kind ← read_string (or_null (find "input_kind" mapping)) "runtime tool call input_kind"
  decode_input_kind kind mapping

abbrev pub status_text : ProviderToolStatus → String
status_text in_progress = "in_progress"
status_text completed = "completed"
status_text incomplete = "incomplete"
status_text failed = "failed"

abbrev pub statuses : List (String × ProviderToolStatus)
statuses =
    ("in_progress", in_progress)
    ∷ ("completed", completed)
    ∷ ("incomplete", incomplete)
    ∷ ("failed", failed)
    ∷ []

abbrev pub error_json : Option ErrorInfo → Json
unfolding encode_error_info
error_json none = null
error_json (some e) = encode_error_info e

unfoldable pub encode_model_output_item : ModelOutputItem → Result Json
unfolding encode_content_part call_entries encode_error_info each
encode_model_output_item (content_item part) = do
  content ← encode_content_part part
  ok (object (entry "kind" (string "content") (entry "content" content no_entry)))
encode_model_output_item (runtime_item call) =
    ok (object (entry "kind" (string "runtime_tool_call") (call_entries call)))
encode_model_output_item (provider_item c) = do
  output ← each encode_content_part c.output
  ok (
      object (
        entry "kind" (string "provider_tool_call") (
          entry "id" (string c.id) (
            entry "tool"
              (object (
                entry "namespace" (string c.tool.namespace)
                  (entry "type" (string c.tool.type) no_entry)))
              (entry "status" (string (status_text c.status)) (
                entry "arguments" (object c.arguments) (
                  entry "output" (array (items_of output)) (
                    entry "error" (error_json c.error)
                      (entry "metadata" (object c.metadata) no_entry)))))))))

-- `fields.pop("kind")`.
unfoldable pub without : String → Entries → Entries
without key no_entry = no_entry
without key (entry k v rest) = if same_string k key then rest else entry k v (without key rest)

-- `_decode_parts`.
unfoldable pub decode_parts : Json → String → Result (List ContentPart)
unfolding read_array each decode_content_part_value
decode_parts v label = do items ← read_array v label; each decode_content_part_value items

unfoldable pub decode_provider_call : Entries → Result ModelOutputItem
unfolding object_fields field read_enum read_non_empty json_object decode_parts optional
    decode_error_info_value
decode_provider_call mapping = do
  fields ←
      object_fields (object mapping) "provider tool call output item"
        ("kind" ∷ "id" ∷ "tool" ∷ "status" ∷ "arguments" ∷ "output" ∷ "error" ∷ "metadata" ∷ []) []
  tool_fields ←
      object_fields (← field "tool" fields) "provider tool identity" ("namespace" ∷ "type" ∷ []) []
  status ← read_enum statuses (← field "status" fields) "provider tool status"
  id ← read_non_empty (← field "id" fields) "provider tool call id"
  namespace ← read_non_empty (← field "namespace" tool_fields) "provider tool namespace"
  type ← read_non_empty (← field "type" tool_fields) "provider tool type"
  tool ← built check_tool_id (record { namespace = namespace; type = type })
  arguments ← json_object (← field "arguments" fields) "provider tool arguments"
  output ← decode_parts (← field "output" fields) "provider tool output"
  error ← optional decode_error_info_value (← field "error" fields)
  metadata ← json_object (← field "metadata" fields) "provider tool metadata"
  built check_provider_call (record {
    id = id;
    tool = tool;
    status = status;
    arguments = arguments;
    output = output;
    error = error;
    metadata = metadata;
  })
      >>= λ c. ok (provider_item c)

unfoldable pub decode_content_item : Entries → Result ModelOutputItem
unfolding object_fields field decode_content_part_value
decode_content_item mapping = do
  fields ← object_fields (object mapping) "content output item" ("kind" ∷ "content" ∷ []) []
  part ← decode_content_part_value (← field "content" fields)
  ok (content_item part)

unfoldable pub decode_runtime_item : Entries → Result ModelOutputItem
unfolding without
decode_runtime_item mapping = do
  call ← decode_runtime_tool_call_value (object (without "kind" mapping))
  ok (runtime_item call)

abbrev decode_item_kind : String → Entries → Result ModelOutputItem
unfolding decode_content_item decode_runtime_item decode_provider_call
decode_item_kind kind mapping =
    if same_string kind "content"
    then decode_content_item mapping
    else if same_string kind "runtime_tool_call"
    then decode_runtime_item mapping
    else if same_string kind "provider_tool_call"
    then decode_provider_call mapping
    else err (protocol (says "model output item kind has unsupported value: " kind))

unfoldable pub decode_model_output_item_value : Json → Result ModelOutputItem
unfolding json_object find read_string decode_content_item decode_runtime_item decode_provider_call
decode_model_output_item_value v = do
  mapping ← json_object v "model output item"
  kind ← read_string (or_null (find "kind" mapping)) "model output item kind"
  decode_item_kind kind mapping
