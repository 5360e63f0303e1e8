-- ===== src/Linkage.antt =====
-- packages/jharness-kernel/src/jharness/kernel/_history.py: validation of the linkage between tool
-- calls and tool messages, one message at a time, and its incremental use by a snapshot.
pub mod Ids
pub mod Agreement
pub mod Accounted
pub mod Order
pub mod Incremental
use jharness.Common.{
  ℕ, Bool, true, false, not, String, Option, none, some, List, [], ◌∷◌, if◌then◌else◌, decide, pos,
  String-discrete, ◌≡◌,
}
use jharness.Errors.{Result, ok, err, Error, value_error, index_error, ◌>>=◌}
use jharness.Utf8.{encode}
use jharness.IdSet.{IdNode, contains, add, empty_root}
use jharness.Messages.{
  Message, Role, system, user, assistant, tool, external, RuntimeToolCall, call_id,
  runtime_tool_calls, ModelOutputItem,
}
use jharness.Digest.{append_history_digest, empty_history_digest}
use jharness.State.{
  ActiveState, planning, tools_pending, RunState, active, suspended, completed, failed, limited,
}
use jharness.State.Pending.{
  PendingToolCalls, pending_tool_calls, remaining_calls, advance, same_pending,
}

pub record HistoryProof : Type 0 where
  pub digest : List ℕ
  pub seen_call_ids : IdNode
  pub unresolved : Option PendingToolCalls

abbrev pub Linkage : Type 0
Linkage = Option PendingToolCalls × IdNode

-- `_record_call_ids`.
unfoldable pub record_call_ids : List RuntimeToolCall → IdNode → Result IdNode
record_call_ids [] seen = ok seen
record_call_ids (call ∷ calls) seen =
    let later = record_call_ids calls (add seen (encode (call_id call))) in
    if contains seen (encode (call_id call))
    then err (value_error "tool call id reused in history")
    else later

-- `unresolved[0].id == message.tool_call_id`; the cursor always points at a call.
unfoldable pub answers_first : List RuntimeToolCall → Option String → Result Bool
unfolding String-discrete
answers_first [] id = err (index_error "pending tool call index out of range")
answers_first (call ∷ calls) none = ok false
answers_first (call ∷ calls) (some id) = ok (decide (String-discrete id (call_id call)))

-- `message.runtime_tool_calls() if message.role == "assistant" else ()`.
unfoldable pub calls_by_role : Role → List ModelOutputItem → List RuntimeToolCall
unfolding runtime_tool_calls
calls_by_role assistant output = runtime_tool_calls output
calls_by_role _ output = []

abbrev pub requested_calls : Message → List RuntimeToolCall
requested_calls m = calls_by_role m.role m.output

abbrev pub is_tool : Role → Bool
is_tool tool = true
is_tool _ = false

-- `if message.tool_call_id != expected: raise`, and `return unresolved.advance(1), seen`.
unfoldable pub close_call : PendingToolCalls → IdNode → Bool → Result Linkage
close_call pending seen true = do rest ← advance pending (pos 1); ok (rest, seen)
close_call pending seen false = err (value_error "tool result order mismatch")

module _ (sha256 : List ℕ → List ℕ) where
  -- `if calls: return PendingToolCalls(calls), _record_call_ids(calls, seen)`.
  unfoldable pub open_calls : List RuntimeToolCall → IdNode → Result Linkage
  open_calls [] seen = ok (none, seen)
  open_calls (call ∷ calls) seen = do
    pending ← pending_tool_calls sha256 (call ∷ calls)
    seen' ← record_call_ids (call ∷ calls) seen
    ok (some pending, seen')

  unfoldable pub answer_call : Message → PendingToolCalls → IdNode → Result Linkage
  answer_call message pending seen =
      if is_tool message.role
      then (do
        matches ← answers_first (remaining_calls pending) message.tool_call_id
        close_call pending seen matches)
      else err (value_error "unresolved tool request must be at the end of history")

  -- `_advance_linkage`.
  unfoldable pub advance_linkage : Message → Option PendingToolCalls → IdNode → Result Linkage
  advance_linkage message (some pending) seen = answer_call message pending seen
  advance_linkage message none seen =
      if is_tool message.role
      then err (value_error "tool message requires a preceding assistant tool request")
      else open_calls (requested_calls message) seen

  -- `_extend_proof`.
  unfoldable pub extend_proof : HistoryProof → List Message → Result HistoryProof
  extend_proof proof [] = ok proof
  extend_proof proof (message ∷ messages) = do
    (unresolved, seen) ← advance_linkage message proof.unresolved proof.seen_call_ids
    extend_proof
        (record {
          digest = append_history_digest sha256 proof.digest message;
          seen_call_ids = seen;
          unresolved = unresolved;
        })
        messages

  abbrev pub empty_proof : HistoryProof
  empty_proof = record {
    digest = empty_history_digest sha256;
    seen_call_ids = empty_root;
    unresolved = none;
  }

-- `_pending_state`.
unfoldable pub pending_state : RunState → Option PendingToolCalls
pending_state (active (tools_pending p b)) = some p
pending_state (suspended (tools_pending p b) s) = some p
pending_state _ = none

abbrev pub may_retain : RunState → Bool
may_retain (failed e) = true
may_retain (limited r) = true
may_retain _ = false

unfoldable pub check_unresolved :
    Option PendingToolCalls → Option PendingToolCalls → Bool → Result (Option PendingToolCalls)
check_unresolved none (some pending) retain =
    err (value_error "pending state must match unresolved history tool calls")
check_unresolved (some unresolved) (some pending) retain =
    if same_pending unresolved pending
    then ok (some pending)
    else err (value_error "pending state must match unresolved history tool calls")
check_unresolved none none retain = ok none
check_unresolved (some unresolved) none retain =
    if retain
    then ok (some unresolved)
    else err (value_error "planning or completed state cannot retain unresolved tool calls")

-- `_validate_unresolved`.
unfoldable pub validate_unresolved :
    Option PendingToolCalls → RunState → Result (Option PendingToolCalls)
validate_unresolved unresolved state =
    check_unresolved unresolved (pending_state state) (may_retain state)

unfoldable pub validate_proof : HistoryProof → RunState → Result HistoryProof
validate_proof proof state = do
  unresolved ← validate_unresolved proof.unresolved state
  ok (record proof { unresolved = unresolved })

module _ (sha256 : List ℕ → List ℕ) where
  -- `analyze_messages`, on the messages of a history.
  unfoldable pub analyze_messages : List Message → RunState → Result HistoryProof
  analyze_messages messages state = do
    proof ← extend_proof sha256 (empty_proof sha256) messages
    validate_proof proof state

  -- The proof of `evolve_history`: a replacement is analyzed, an edit extends the proof.
  unfoldable pub evolve_proof :
      HistoryProof → List Message → Option (List Message) → RunState → Result HistoryProof
  evolve_proof proof append (some replace) state = analyze_messages replace state
  evolve_proof proof [] none state = validate_proof proof state
  evolve_proof proof (message ∷ messages) none state = do
    next ← extend_proof sha256 proof (message ∷ messages)
    validate_proof next state
