-- ===== src/Repository/Storage.antt =====
-- How packages/jharness-repository/src/jharness/repository/_codec.py stores the state of a run: the
-- calls that it waits for are left out, and found again in the history. `bytes.hex` and what
-- `bytes.fromhex` makes of a text are arguments.
pub mod Laws
use jharness.Common.{
  ℕ, String, Bool, true, false, not, ◌&&◌, ◌||◌, Option, none, some, List, [], ◌∷◌, ℤ, pos, negsuc,
  ◌==◌, same_string, length, if◌then◌else◌, ltb,
}
use jharness.Errors.{Result, ok, err, value_error, type_error, protocol, ◌>>=◌, ◌>>◌, raise_if}
use jharness.Json.{Json, Entries, integer, string, object, no_entry, entry}
use jharness.Messages.{Message, RuntimeToolCall, call_id}
use jharness.State.{
  ActiveState, planning, tools_pending, Suspension, RunState, active, suspended, completed, failed,
  limited,
}
use jharness.State.Pending.{PendingToolCalls, pending_tool_calls, pending_count, pending_digest}
use jharness.Checkpoint.{is_empty}
use jharness.Linkage.{requested_calls, is_tool}
use jharness.Repository.{same_bytes}
use jharness.Wire.{find, field, all_found, all_known, decode_document}
use jharness.Wire.State.{encode_state, decode_state, encode_suspension, decode_suspension_value}

abbrev pub is_call : Option String → String → Bool
is_call none id = false
is_call (some answered) id = same_string answered id

-- The loop of `_unresolved_tool_calls`, with the calls `pending[cursor:]`.
unfoldable pub unresolved_from : List RuntimeToolCall → List Message → Result (List RuntimeToolCall)
unresolved_from pending [] = ok pending
unresolved_from (call ∷ calls) (m ∷ messages) =
    raise_if (not (is_tool m.role) || not (is_call m.tool_call_id (call_id call)))
      (protocol "stored history tool linkage is invalid")
    >> unresolved_from calls messages
unresolved_from [] (m ∷ messages) =
    raise_if (is_tool m.role) (protocol "stored history tool result has no request")
    >> unresolved_from (requested_calls m) messages

-- `set(data) != {...}`.
abbrev pub has_fields : List String → Entries → Bool
has_fields names fields = all_found names fields && all_known names [] fields

-- `_positive_integer`.
unfoldable pub positive_integer : Json → Result ℕ
positive_integer (integer (pos n)) = raise_if (n == 0) (value_error "value is invalid") >> ok n
positive_integer _ = err (value_error "value is invalid")

module _ (hex : List ℕ → String) (from_hex : String → Option (List ℕ)) where
  abbrev pub parsed : String → Option (List ℕ) → Result (List ℕ)
  parsed text none = err (value_error "value is invalid")
  parsed text (some digest) =
      raise_if (not (length digest == 32) || not (same_string (hex digest) text))
        (value_error "value is invalid")
      >> ok digest

  -- `_hex_digest`.
  unfoldable pub hex_digest : Json → Result (List ℕ)
  hex_digest (string text) =
      raise_if (same_string text "") (value_error "value is invalid") >> parsed text (from_hex text)
  hex_digest _ = err (value_error "value is invalid")

  abbrev pub pending_entries : PendingToolCalls → Entries
  pending_entries p = entry "kind" (string "tools_pending") (
      entry "pending_count" (integer (pos (pending_count p)))
        (entry "pending_digest" (string (hex (pending_digest p))) no_entry))

  -- `_encode_pending_state`.
  unfoldable pub encode_pending_state : PendingToolCalls → Json
  unfolding pending_count pending_digest
  encode_pending_state p = object (pending_entries p)

  abbrev pub encode_resume : ActiveState → Json
  encode_resume (tools_pending p flag) = encode_pending_state p
  encode_resume (planning flag) = object (entry "kind" (string "planning") no_entry)

  abbrev pub stopped_entries : ActiveState → Suspension → Entries
  stopped_entries a s =
      entry "kind" (string "suspended")
        (entry "resume_to" (encode_resume a) (entry "suspension" (encode_suspension s) no_entry))

  -- `_encode_storage_state`.
  unfoldable pub encode_storage_state : RunState → Result Json
  unfolding encode_pending_state
  encode_storage_state (active (tools_pending p flag)) = ok (encode_pending_state p)
  encode_storage_state (suspended a s) = ok (object (stopped_entries a s))
  encode_storage_state s = encode_state s

  abbrev pub expect_object : Json → String → Result Entries
  expect_object (object fields) refusal = ok fields
  expect_object _ refusal = err (protocol refusal)

  -- `value == text`, for a value that may be missing.
  abbrev pub is_text : Option Json → String → Bool
  is_text (some (string s)) text = same_string s text
  is_text _ text = false

  module _ (sha256 : List ℕ → List ℕ) (history : List Message) where
    -- `_decode_pending_state`.
    unfoldable pub decode_pending_state : Entries → Result ActiveState
    unfolding field positive_integer hex_digest unresolved_from pending_tool_calls pending_count
        pending_digest
    decode_pending_state fields = do
      raise_if (not (has_fields ("kind" ∷ "pending_count" ∷ "pending_digest" ∷ []) fields))
          (protocol "stored pending state fields differ")
      count ← positive_integer (← field "pending_count" fields)
      digest ← hex_digest (← field "pending_digest" fields)
      calls ← unresolved_from [] history
      raise_if (is_empty calls) (protocol "stored pending state has no unresolved history calls")
      pending ← pending_tool_calls sha256 calls
      raise_if
          (not (pending_count pending == count) || not (same_bytes (pending_digest pending) digest))
          (protocol "stored pending state manifest is inconsistent")
      ok (tools_pending pending false)

    unfoldable pub decode_resume : Entries → Result ActiveState
    unfolding decode_pending_state find
    decode_resume fields =
        if is_text (find "kind" fields) "tools_pending"
        then decode_pending_state fields
        else if is_text (find "kind" fields) "planning" && has_fields ("kind" ∷ []) fields
        then ok (planning false)
        else err (protocol "stored suspended resume state is invalid")

    -- The branches of `_decode_storage_state`.
    unfoldable pub decode_unanswered : Entries → Result RunState
    unfolding decode_pending_state
    decode_unanswered fields = do a ← decode_pending_state fields; ok (active a)

    unfoldable pub decode_stopped : Entries → Result RunState
    unfolding decode_resume field decode_document decode_suspension_value
    decode_stopped fields = do
      raise_if (not (has_fields ("kind" ∷ "resume_to" ∷ "suspension" ∷ []) fields))
          (protocol "stored suspended state fields differ")
      raw ← field "resume_to" fields
      resume ← expect_object raw "stored suspended resume state must be an object"
      a ← decode_resume resume
      suspension ←
          decode_document (← field "suspension" fields) "suspension" decode_suspension_value
      ok (suspended a suspension)

    -- `_decode_storage_state`.
    unfoldable pub decode_storage_state : Json → Result RunState
    unfolding decode_unanswered decode_stopped decode_state find
    decode_storage_state v = do
      fields ← expect_object v "stored run state must be an object"
      if is_text (find "kind" fields) "tools_pending"
          then decode_unanswered fields
          else if is_text (find "kind" fields) "suspended"
          then decode_stopped fields
          else decode_state sha256 (object fields)
