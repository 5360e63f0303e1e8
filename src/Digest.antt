-- ===== src/Digest.antt =====
-- packages/jharness-kernel/src/jharness/kernel/_digest.py: the canonical bytes of kernel content.
-- A `DigestWriter` is the bytes that it has fed to its hash, in order, so each writing method is
-- the bytes that it adds. The hash function itself is the parameter `sha256` of the digests.
pub mod Writer
pub mod Laws
use jharness.Common.{
  ℕ, Bool, true, false, String, Option, none, some, List, [], ◌∷◌, ◌++◌, map, length, ℤ, pos,
  negsuc, if◌then◌else◌, reverse,
}
use jharness.Utf8.{encode}
use jharness.Json.{Json, null, Entries}
use jharness.Messages.{
  ArtifactRef, ContentPart, RuntimeToolCall, structured, freeform, call_id, ProviderToolStatus,
  in_progress, completed, incomplete, failed, ProviderToolCall, ErrorInfo, TaskRef, ModelOutputItem,
  content_item, runtime_item, provider_item, ToolOutcome, success, failure, accepted, waiting, Role,
  system, user, assistant, tool, external, Message,
}
use Writer.{domain, field, write_none, integer, string, bytes, sequence, json, json_object}

abbrev pub write_optional_string : Option String → List ℕ
write_optional_string none = write_none
write_optional_string (some s) = string s

abbrev pub write_optional_integer : Option ℕ → List ℕ
write_optional_integer none = write_none
write_optional_integer (some n) = integer n

write_artifact : ArtifactRef → List ℕ
write_artifact a =
    field "artifact_ref"
    ++ (field "ref"
        ++ (string a.ref
            ++ (field "media_type"
                ++ (write_optional_string a.media_type
                    ++ (field "name"
                        ++ (write_optional_string a.name
                            ++ (field "size_bytes"
                                ++ (write_optional_integer a.size_bytes
                                    ++ (field "sha256"
                                        ++ (write_optional_string a.sha256
                                            ++ (field "metadata"
                                                ++ json_object a.metadata)))))))))))

write_optional_artifact : Option ArtifactRef → List ℕ
unfolding write_artifact
write_optional_artifact none = write_none
write_optional_artifact (some a) = write_artifact a

write_content_part : ContentPart → List ℕ
unfolding write_optional_artifact
write_content_part p =
    field "content_part"
    ++ (field "type"
        ++ (string p.type
            ++ (field "text"
                ++ (write_optional_string p.text
                    ++ (field "uri"
                        ++ (write_optional_string p.uri
                            ++ (field "artifact"
                                ++ (write_optional_artifact p.artifact
                                    ++ (field "media_type"
                                        ++ (write_optional_string p.media_type
                                            ++ (field "name"
                                                ++ (write_optional_string p.name
                                                    ++ (field "data"
                                                        ++ (json_object p.content
                                                            ++ (field "metadata"
                                                            ++ json_object p.metadata)))))))))))))))

-- `for item in items: write(item)`.
abbrev pub write_all {ℓ} : {A : Type ℓ} → (A → List ℕ) → List A → List ℕ
write_all write [] = []
write_all write (x ∷ xs) = write x ++ write_all write xs

unfoldable pub write_parts : List ContentPart → List ℕ
unfolding write_content_part
write_parts parts = sequence (length parts) ++ write_all write_content_part parts

unfoldable pub write_optional_object : Option Entries → List ℕ
write_optional_object none = write_none
write_optional_object (some entries) = json_object entries

unfoldable pub write_tool_call : RuntimeToolCall → List ℕ
unfolding write_optional_object
write_tool_call (structured c) =
    field "runtime_tool_call"
    ++ (field "input_kind"
        ++ (string "structured"
            ++ (field "id"
                ++ (string c.id
                    ++ (field "name"
                        ++ (string c.name
                            ++ (field "arguments"
                                ++ (write_optional_object c.arguments
                                    ++ (field "raw_input"
                                        ++ (write_optional_string c.raw_input
                                            ++ (field "metadata"
                                                ++ json_object c.metadata)))))))))))
write_tool_call (freeform c) =
    field "runtime_tool_call"
    ++ (field "input_kind"
        ++ (string "freeform"
            ++ (field "id"
                ++ (string c.id
                    ++ (field "name"
                        ++ (string c.name
                            ++ (field "input"
                                ++ (string c.input
                                    ++ (field "metadata" ++ json_object c.metadata)))))))))

unfoldable pub write_error : ErrorInfo → List ℕ
write_error e =
    field "error_info" ++ (field "code" ++ (string e.code ++ (field "message" ++ string e.message)))

write_optional_error : Option ErrorInfo → List ℕ
unfolding write_error
write_optional_error none = write_none
write_optional_error (some e) = write_error e

abbrev status_value : ProviderToolStatus → String
status_value in_progress = "in_progress"
status_value completed = "completed"
status_value incomplete = "incomplete"
status_value failed = "failed"

write_provider_tool_call : ProviderToolCall → List ℕ
unfolding write_parts write_optional_error
write_provider_tool_call c =
    field "provider_tool_call"
    ++ (field "id"
        ++ (string c.id
            ++ (field "namespace"
                ++ (string c.tool.namespace
                    ++ (field "type"
                        ++ (string c.tool.type
                            ++ (field "status"
                                ++ (string (status_value c.status)
                                    ++ (field "arguments"
                                        ++ (json_object c.arguments
                                            ++ (field "output"
                                                ++ (write_parts c.output
                                                    ++ (field "error"
                                                        ++ (write_optional_error c.error
                                                            ++ (field "metadata"
                                                            ++ json_object c.metadata)))))))))))))))

write_optional_task : Option TaskRef → List ℕ
write_optional_task none = write_none
write_optional_task (some t) =
    field "task_ref"
    ++ (field "id"
        ++ (string t.id
            ++ (field "status"
                ++ (string t.status ++ (field "metadata" ++ json_object t.metadata)))))

write_outcome_head : String → List ContentPart → Json → List ℕ
unfolding write_parts
write_outcome_head kind parts structured_content =
    field "tool_outcome"
    ++ (field "kind"
        ++ (string kind
            ++ (field "parts"
                ++ (write_parts parts ++ (field "structured_content" ++ json structured_content)))))

write_tool_outcome : ToolOutcome → List ℕ
unfolding write_outcome_head write_error write_optional_task
write_tool_outcome (success parts content) = write_outcome_head "success" parts content
write_tool_outcome (failure parts error content) =
    write_outcome_head "failure" parts content ++ (field "error" ++ write_error error)
write_tool_outcome (accepted parts correlation_id task content) =
    write_outcome_head "accepted" parts content
    ++ (field "correlation_id"
        ++ (string correlation_id ++ (field "task" ++ write_optional_task task)))
write_tool_outcome (waiting parts task content) =
    write_outcome_head "waiting" parts content ++ (field "task" ++ write_optional_task task)

write_optional_outcome : Option ToolOutcome → List ℕ
unfolding write_tool_outcome
write_optional_outcome none = write_none
write_optional_outcome (some outcome) = write_tool_outcome outcome

write_output_item : ModelOutputItem → List ℕ
unfolding write_content_part write_tool_call write_provider_tool_call
write_output_item (content_item part) = write_content_part part
write_output_item (runtime_item call) = write_tool_call call
write_output_item (provider_item call) = write_provider_tool_call call

abbrev pub role_value : Role → String
role_value system = "system"
role_value user = "user"
role_value assistant = "assistant"
role_value tool = "tool"
role_value external = "external"

unfoldable pub write_message : Message → List ℕ
unfolding write_parts write_output_item write_optional_outcome
write_message m =
    field "role"
    ++ (string (role_value m.role)
        ++ (field "parts"
            ++ (write_parts m.parts
                ++ (field "output"
                    ++ (sequence (length m.output)
                        ++ (write_all write_output_item m.output
                            ++ (field "tool_call_id"
                                ++ (write_optional_string m.tool_call_id
                                    ++ (field "outcome"
                                        ++ (write_optional_outcome m.outcome
                                            ++ (field "metadata"
                                                ++ json_object m.metadata)))))))))))

module _ (sha256 : List ℕ → List ℕ) where
  unfoldable pub empty_history_digest : List ℕ
  empty_history_digest = sha256 (domain "jharness.kernel.history.empty.v0")

  unfoldable pub append_history_digest : List ℕ → Message → List ℕ
  unfolding write_message
  append_history_digest previous message = sha256 (
      domain "jharness.kernel.history.append.v1"
      ++ (field "previous" ++ (bytes previous ++ (field "message" ++ write_message message))))

  unfoldable pub empty_tool_call_suffix_digest : List ℕ
  empty_tool_call_suffix_digest = sha256 (domain "jharness.kernel.tool_calls.suffix.empty.v1")

  unfoldable pub prepend_tool_call_digest : List ℕ → RuntimeToolCall → List ℕ
  unfolding write_tool_call
  prepend_tool_call_digest suffix call = sha256 (
      domain "jharness.kernel.tool_calls.suffix.prepend.v1"
      ++ (field "call" ++ (write_tool_call call ++ (field "suffix" ++ bytes suffix))))

  unfoldable pub empty_call_id_suffix_digest : List ℕ
  empty_call_id_suffix_digest = sha256 (domain "jharness.kernel.tool_call_ids.suffix.empty.v1")

  unfoldable pub prepend_call_id_digest : List ℕ → String → List ℕ
  prepend_call_id_digest suffix id = sha256 (
      domain "jharness.kernel.tool_call_ids.suffix.prepend.v1"
      ++ (field "call_id" ++ (string id ++ (field "suffix" ++ bytes suffix))))

  -- `for call_id in reversed(prefix): digest = prepend_call_id_digest(digest, call_id)`.
  prepend_all : List ℕ → List String → List ℕ
  unfolding prepend_call_id_digest
  prepend_all digest [] = digest
  prepend_all digest (id ∷ ids) = prepend_all (prepend_call_id_digest digest id) ids

  unfoldable pub compose_call_id_digest : List String → List ℕ → List ℕ
  unfolding prepend_all
  compose_call_id_digest prefix suffix = prepend_all suffix (reverse prefix)
