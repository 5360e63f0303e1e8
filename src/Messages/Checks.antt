-- ===== src/Messages/Checks.antt =====
-- The `__post_init__` of the values of packages/jharness-kernel/src/jharness/kernel/messages.py and
-- of the tool outcomes of tools.py, on fields of the right types: what raises, in order.
use jharness.Common.{
  String, Bool, true, false, not, ◌||◌, Option, none, some, List, [], ◌∷◌, if◌then◌else◌, says,
  same_string,
}
use jharness.Errors.{Result, ok, err, value_error, ◌>>◌, raise_if}
use jharness.Json.{Json, Entries, no_entry, entry, object}
use jharness.Json.Depth.{walk}
use jharness.Messages.{
  ArtifactRef, ContentPart, StructuredToolCall, FreeformToolCall, RuntimeToolCall, structured,
  freeform, ProviderToolId, ProviderToolStatus, in_progress, failed, ErrorInfo, TaskRef,
  ProviderToolCall, ModelOutputItem, content_item, runtime_item, provider_item, ToolOutcome,
  success, failure, accepted, waiting, Role, system, user, assistant, tool, external, Message,
  call_id,
}
use jharness.State.Pending.{unique_texts}

abbrev pub empty_text : String → Bool
empty_text s = same_string s ""

abbrev pub is_none {ℓ} : {A : Type ℓ} → Option A → Bool
is_none none = true
is_none (some a) = false

abbrev pub is_some {ℓ} : {A : Type ℓ} → Option A → Bool
is_some none = false
is_some (some a) = true

abbrev pub non_empty {ℓ} : {A : Type ℓ} → List A → Bool
non_empty [] = false
non_empty (x ∷ xs) = true

abbrev pub has_entries : Entries → Bool
has_entries no_entry = false
has_entries (entry k v rest) = true

-- `expect_non_empty_str`.
abbrev pub expect_non_empty : String → String → Result (Unit {0})
expect_non_empty s label = raise_if (empty_text s) (value_error (says label " must not be empty"))

-- `if value is not None: expect_non_empty_str(value, label)`.
abbrev pub expect_present : Option String → String → Result (Unit {0})
expect_present none label = ok tt
expect_present (some s) label = expect_non_empty s label

-- `freeze_json_value` and `freeze_mapping`, whose copy is the value.
unfoldable pub freeze_json_value : Json → Result (Unit {0})
freeze_json_value v = walk (value_error "value exceeds the maximum JSON nesting depth of 128") 0 v

unfoldable pub freeze_mapping : Entries → Result (Unit {0})
freeze_mapping entries =
    walk (value_error "value exceeds the maximum JSON nesting depth of 128") 0 (object entries)

unfoldable pub check_artifact : ArtifactRef → Result (Unit {0})
check_artifact a =
    expect_non_empty a.ref "artifact ref"
    >> expect_present a.media_type "artifact media_type"
    >> expect_present a.name "artifact name"
    >> expect_present a.sha256 "artifact sha256"
    >> freeze_mapping a.metadata

-- `_validate_text`.
unfoldable pub validate_text : ContentPart → Result (Unit {0})
validate_text p =
    raise_if (is_none p.text) (value_error "text content part requires text")
    >> raise_if
        (is_some p.uri
          || (is_some p.artifact
              || (is_some p.media_type || (is_some p.name || has_entries p.content))))
        (value_error "text content part cannot carry opaque or artifact fields")

-- `_validate_artifact`.
unfoldable pub validate_artifact : ContentPart → Result (Unit {0})
validate_artifact p =
    raise_if (is_none p.artifact) (value_error "artifact content part requires artifact")
    >> raise_if
        (is_some p.text
          || (is_some p.uri || (is_some p.media_type || (is_some p.name || has_entries p.content))))
        (value_error "artifact content part cannot carry duplicate or opaque fields")

unfoldable pub check_content_part : ContentPart → Result (Unit {0})
unfolding validate_text validate_artifact
check_content_part p =
    expect_non_empty p.type "content part type"
    >> expect_present p.uri "content part uri"
    >> expect_present p.media_type "content part media_type"
    >> expect_present p.name "content part name"
    >> freeze_mapping p.content
    >> freeze_mapping p.metadata
    >> (if same_string p.type "text"
        then validate_text p
        else if same_string p.type "artifact"
        then validate_artifact p
        else raise_if (is_some p.artifact)
            (value_error "only artifact content may carry an artifact reference"))

abbrev freeze_optional : Option Entries → Result (Unit {0})
freeze_optional none = ok tt
freeze_optional (some entries) = freeze_mapping entries

abbrev pub check_input : Option Entries → Option String → Result (Unit {0})
check_input (some a) (some r) =
    err (value_error "structured tool call arguments and raw_input are mutually exclusive")
check_input none none = err (value_error "structured tool call requires arguments or raw_input")
check_input _ _ = ok tt

unfoldable pub check_structured : StructuredToolCall → Result (Unit {0})
check_structured c =
    expect_non_empty c.id "tool call id"
    >> expect_non_empty c.name "tool call name"
    >> check_input c.arguments c.raw_input
    >> freeze_optional c.arguments
    >> freeze_mapping c.metadata

unfoldable pub check_freeform : FreeformToolCall → Result (Unit {0})
check_freeform c =
    expect_non_empty c.id "tool call id"
    >> expect_non_empty c.name "tool call name"
    >> freeze_mapping c.metadata

unfoldable pub check_runtime_call : RuntimeToolCall → Result (Unit {0})
unfolding check_structured check_freeform
check_runtime_call (structured c) = check_structured c
check_runtime_call (freeform c) = check_freeform c

unfoldable pub check_tool_id : ProviderToolId → Result (Unit {0})
check_tool_id t =
    expect_non_empty t.namespace "provider tool namespace"
    >> expect_non_empty t.type "provider tool type"

unfoldable pub check_task : TaskRef → Result (Unit {0})
check_task t =
    expect_non_empty t.id "task id"
    >> expect_non_empty t.status "task status"
    >> freeze_mapping t.metadata

unfoldable pub check_error_info : ErrorInfo → Result (Unit {0})
check_error_info e =
    expect_non_empty e.code "error code" >> expect_non_empty e.message "error message"

-- The checks of a provider call's error and output against its status.
unfoldable pub check_status :
    ProviderToolStatus → Option ErrorInfo → List ContentPart → Result (Unit {0})
check_status failed none output = err (value_error "failed provider tool call requires error")
check_status failed (some e) output = ok tt
check_status status (some e) output =
    err (value_error "only failed provider tool call may carry error")
check_status in_progress none output =
    raise_if (non_empty output)
      (value_error "in-progress provider tool call cannot carry final output")
check_status _ none output = ok tt

unfoldable pub check_provider_call : ProviderToolCall → Result (Unit {0})
unfolding check_status
check_provider_call c =
    expect_non_empty c.id "provider tool call id"
    >> check_status c.status c.error c.output
    >> freeze_mapping c.arguments
    >> freeze_mapping c.metadata

-- `ToolSuccess.__init__` and the other outcomes.
unfoldable pub check_outcome : ToolOutcome → Result (Unit {0})
check_outcome (success parts content) = freeze_json_value content
check_outcome (failure parts error content) = freeze_json_value content
check_outcome (accepted parts correlation_id task content) =
    raise_if (empty_text correlation_id) (value_error "tool accepted requires correlation_id")
    >> freeze_json_value content
check_outcome (waiting parts task content) = freeze_json_value content

-- The ids of the runtime and provider calls of an assistant's output.
unfoldable pub output_ids : List ModelOutputItem → List String
output_ids [] = []
output_ids (content_item p ∷ rest) = output_ids rest
output_ids (runtime_item c ∷ rest) = call_id c ∷ output_ids rest
output_ids (provider_item c ∷ rest) = c.id ∷ output_ids rest

abbrev pub role_text : Role → String
role_text system = "system"
role_text user = "user"
role_text assistant = "assistant"
role_text tool = "tool"
role_text external = "external"

-- `_validate_regular_message`.
unfoldable pub validate_regular : Message → Result (Unit {0})
validate_regular m =
    raise_if (not (non_empty m.parts))
      (value_error (says (role_text m.role) " message requires at least one part"))
    >> raise_if (non_empty m.output || (is_some m.tool_call_id || is_some m.outcome))
        (value_error (says (role_text m.role) " message cannot carry tool fields"))

-- `_validate_assistant_message`.
unfoldable pub validate_assistant : Message → Result (Unit {0})
unfolding output_ids unique_texts
validate_assistant m =
    raise_if (non_empty m.parts)
      (value_error "assistant message content must be carried by ordered output")
    >> raise_if (is_some m.tool_call_id || is_some m.outcome)
        (value_error "assistant message cannot carry tool outcome fields")
    >> raise_if (not (unique_texts (output_ids m.output)))
        (value_error "assistant tool call ids must be unique")

-- `_validate_tool_message`.
unfoldable pub validate_tool : Message → Result (Unit {0})
validate_tool m =
    raise_if (non_empty m.parts || non_empty m.output)
      (value_error "tool message content is owned by its outcome")
    >> required m.tool_call_id
    >> raise_if (is_none m.outcome) (value_error "tool message requires outcome")
  where
    required : Option String → Result (Unit {0})
    required none = err (value_error "tool message requires tool_call_id")
    required (some id) = expect_non_empty id "tool_call_id"

unfoldable pub validate_role : Role → Message → Result (Unit {0})
unfolding validate_regular validate_assistant validate_tool
validate_role assistant m = validate_assistant m
validate_role tool m = validate_tool m
validate_role _ m = validate_regular m

unfoldable pub check_message : Message → Result (Unit {0})
unfolding validate_role
check_message m = freeze_mapping m.metadata >> validate_role m.role m
