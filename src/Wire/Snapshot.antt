-- ===== src/Wire/Snapshot.antt =====
-- packages/jharness-kernel/src/jharness/kernel/wire/snapshot.py, and the checks of context.py. A
-- float is its `float.hex()`; what Python's `float` makes of an integer is an argument.
pub mod Rebased
pub mod Laws
use text.Mathlib.Text.{starts_with}
use jharness.Common.{
  ℕ, ◌-◌, ◌^◌, Bool, true, false, not, ◌&&◌, ◌||◌, String, Option, none, some, List, [], ◌∷◌, ℤ,
  pos, negsuc, ltb, leb, says, same_string, if◌then◌else◌,
}
use jharness.Errors.{Result, ok, err, value_error, protocol, ◌>>=◌, ◌>>◌, raise_if}
use jharness.Json.{Json, Entries, null, integer, float, string, array, object, no_entry, entry}
use jharness.Messages.{Message}
use jharness.Messages.Checks.{expect_non_empty, freeze_mapping, empty_text, is_some}
use jharness.Digest.{empty_history_digest, append_history_digest}
use jharness.History.Run.{run_history, iter}
use jharness.Snapshot.{RunContext, RunSnapshot, run_snapshot}
use jharness.Wire.{
  field, object_fields, json_object, read_array, each, read_string, read_non_empty, read_integer,
  optional, items_of, decode_document,
}
use jharness.Wire.Parts.{built, or_null, text_json}
use jharness.Wire.Messages.{encode_message, decode_message_value}
use jharness.Wire.State.{encode_metrics, decode_metrics_value, encode_state, decode_state_value}

-- `x < 0`: minus zero is not.
abbrev pub negative : String → Bool
negative x = starts_with x "-" && not (same_string x "-0x0.0p+0")

abbrev pub negative_time : Option String → Bool
negative_time none = false
negative_time (some x) = negative x

abbrev blank_kind : Option String → Bool
blank_kind none = true
blank_kind (some k) = empty_text k

abbrev blank_call : Option String → Bool
blank_call none = false
blank_call (some c) = empty_text c

abbrev pub check_parent : Option String → Option String → Option String → Result (Unit {0})
check_parent none call kind =
    raise_if (is_some call || is_some kind)
      (value_error "parent_tool_call_id and run_kind require parent_run_id")
check_parent (some parent) call kind =
    expect_non_empty parent "parent_run_id"
    >> raise_if (blank_kind kind) (value_error "child run requires non-empty run_kind")
    >> raise_if (blank_call call) (value_error "parent_tool_call_id must not be empty")

-- `RunContext.__post_init__`.
unfoldable pub check_context : RunContext → Result (Unit {0})
check_context c =
    expect_non_empty c.run_id "run_id"
    >> raise_if (negative c.started_at) (value_error "started_at must be >= 0")
    >> raise_if (negative_time c.deadline) (value_error "deadline must be >= 0")
    >> check_parent c.parent_run_id c.parent_tool_call_id c.run_kind
    >> freeze_mapping c.metadata

abbrev time_json : Option String → Json
time_json none = null
time_json (some x) = float x

-- `encode_context`.
unfoldable pub encode_context : RunContext → Json
encode_context c = object (
    entry "run_id" (string c.run_id) (
      entry "started_at" (float c.started_at) (
        entry "deadline" (time_json c.deadline) (
          entry "parent_run_id" (or_null (text_json c.parent_run_id)) (
            entry "parent_tool_call_id" (or_null (text_json c.parent_tool_call_id)) (
              entry "run_kind" (or_null (text_json c.run_kind))
                (entry "metadata" (object c.metadata) no_entry)))))))

-- `encode_snapshot`.
unfoldable pub encode_snapshot : RunSnapshot → Result Json
encode_snapshot s = do
  history ← each encode_message (iter s.history)
  state ← encode_state s.state
  ok (
      object (
        entry "revision" (integer (pos s.revision)) (
          entry "context" (encode_context s.context) (
            entry "history" (array (items_of history))
              (entry "metrics" (encode_metrics s.metrics) (entry "state" state no_entry))))))

abbrev pub is_nil : List Message → Bool
is_nil [] = true
is_nil (m ∷ ms) = false

abbrev outside_safe : ℤ → Bool
outside_safe (pos n) = ltb (2 ^ 53 - 1) n
outside_safe (negsuc n) = leb (2 ^ 53 - 1) n

module _ (float_of : ℤ → String) where
  -- `number(value, label, minimum=0)`.
  unfoldable pub read_number : Json → String → Result String
  read_number (float x) label =
      raise_if (negative x) (protocol (says label " must be >= 0")) >> ok x
  read_number (integer n) label =
      raise_if (outside_safe n)
        (protocol (says label " integer must be within the safe JSON number range"))
      >> raise_if (negative (float_of n)) (protocol (says label " must be >= 0"))
      >> ok (float_of n)
  read_number _ label = err (protocol (says label " must be a number"))

  unfoldable pub decode_context_value : Json → Result RunContext
  unfolding object_fields field read_non_empty read_number optional read_string json_object
  decode_context_value v = do
    fields ←
        object_fields v "run context"
          ("run_id" ∷ "started_at" ∷ "deadline" ∷ "parent_run_id" ∷ "parent_tool_call_id"
            ∷ "run_kind" ∷ "metadata" ∷ [])
          []
    run_id ← read_non_empty (← field "run_id" fields) "run_id"
    started_at ← read_number (← field "started_at" fields) "started_at"
    deadline ← optional (λ j. read_number j "deadline") (← field "deadline" fields)
    parent_run_id ← optional (λ j. read_string j "parent_run_id") (← field "parent_run_id" fields)
    parent_tool_call_id ←
        optional (λ j. read_string j "parent_tool_call_id") (← field "parent_tool_call_id" fields)
    run_kind ← optional (λ j. read_string j "run_kind") (← field "run_kind" fields)
    metadata ← json_object (← field "metadata" fields) "run metadata"
    built check_context (record {
      run_id = run_id;
      started_at = started_at;
      deadline = deadline;
      parent_run_id = parent_run_id;
      parent_tool_call_id = parent_tool_call_id;
      run_kind = run_kind;
      metadata = metadata;
    })

  module _ (sha256 : List ℕ → List ℕ) where
    unfoldable pub decode_snapshot_value : Json → Result RunSnapshot
    unfolding object_fields field read_array read_integer
    decode_snapshot_value v = do
      fields ←
          object_fields v "run snapshot"
            ("revision" ∷ "context" ∷ "history" ∷ "metrics" ∷ "state" ∷ []) []
      items ← read_array (← field "history" fields) "history"
      messages ← each decode_message_value items
      raise_if (is_nil messages) (protocol "history must not be empty")
      revision ← read_integer 0 (← field "revision" fields) "snapshot revision"
      context ← decode_context_value (← field "context" fields)
      history ← run_history (empty_history_digest sha256) (append_history_digest sha256) messages
      metrics ← decode_metrics_value (← field "metrics" fields)
      state ← decode_state_value sha256 (← field "state" fields)
      run_snapshot sha256 revision context history metrics state

    unfoldable pub decode_snapshot : Json → Result RunSnapshot
    unfolding decode_document
    decode_snapshot v = decode_document v "run snapshot" decode_snapshot_value
