-- ===== src/Samples/Values.antt =====
-- The theorems on histories, id sets, cursors, digests and usage at sample values.
use jharness.Common.{
  ℕ, ◌+◌, ◌*◌, ◌-◌, ◌^◌, ◌≤◌, ◌≡◌, ◌↔◌, refl, Bool, true, false, ◌||◌, none, some, [], ◌∷◌, List,
  Option, String, length, take, drop, pos, negsuc, arith,
}
use jharness.Errors.{ok}
use jharness.Json.{Entries, null, no_entry, entry}
use jharness.Messages.{Message, RuntimeToolCall, freeform}
use jharness.Utf8.{encode}
use jharness.IdSet.{add, contains, empty_root}
use jharness.IdSet.Laws.{contains-add, same_key}
use jharness.History.Run.{
  append, RunHistory, run_history, get_item, get_slice, clamp_index, digest_all,
}
use jharness.History.Run.Contents.{
  IsHistory, contents, item, get_item-eq-item, run_history-contents, get_slice-contents,
  build-IsHistory,
}
use jharness.History.Run.Bounds.{digits-append}
use jharness.Digest.{append_history_digest, empty_history_digest}
use jharness.Digest.Laws.{string_prefix}
use jharness.State.Pending.{
  PendingToolCalls, pending_of, advance, remaining_calls, pending_count, call_id_digest,
  same_pending, ids_of, unique_texts,
}
use jharness.State.Pending.Laws.{
  IsPending, AllPending, remaining_or, pending_of-IsPending, advance-remaining,
}
use jharness.State.Pending.Equal.{same_pending_iff, compared}
use jharness.State.Usage.{ModelUsage}
use jharness.Linkage.{empty_proof}
use jharness.State.{active, tools_pending}
use jharness.Checkpoint.{Checkpoint, ModelTurnResult, model_turn}
use jharness.Repository.Digest.{checkpoint_digest}
use jharness.Repository.Digest.Flag.{checkpoint_digest-ignores_pending}
use jharness.Samples.{
  toy_sha256, question, request, answer, call_a, call_b, history_of, no_usage, no_metrics,
  sample_context,
}

contains-add_example :
    contains (add (add empty_root (encode "a")) (encode "ab")) (encode "a")
    ≡ (same_key (encode "ab") (encode "a") || contains (add empty_root (encode "a")) (encode "a"))
contains-add_example = contains-add (add empty_root (encode "a")) (encode "ab") (encode "a")

abbrev accent : String
accent = "é"

sample_history : RunHistory Message
sample_history = history_of question (request ∷ answer "a" ∷ [])

sample-IsHistory : IsHistory sample_history
unfolding sample_history
sample-IsHistory =
    build-IsHistory (empty_history_digest toy_sha256) (append_history_digest toy_sha256) question
      (request ∷ answer "a" ∷ [])

get_item-eq-item_example :
    get_item sample_history (negsuc 0) ≡ item (contents sample_history) (negsuc 0)
get_item-eq-item_example = get_item-eq-item sample_history (negsuc 0) sample-IsHistory

get_slice-contents_example :
    get_slice sample_history (pos 1) (negsuc 0)
    ≡ take
        (clamp_index sample_history.count (negsuc 0) - clamp_index sample_history.count (pos 1))
        (drop (clamp_index sample_history.count (pos 1)) (contents sample_history))
get_slice-contents_example = get_slice-contents sample_history (pos 1) (negsuc 0) sample-IsHistory

digits-append_example :
    2 ^ length (append sample_history (answer "b" ∷ []) []).digits ≤ 2 * (3 + 1 + 1)
unfolding sample_history run_history
digits-append_example =
    digits-append (empty_history_digest toy_sha256) (append_history_digest toy_sha256)
      (question ∷ request ∷ answer "a" ∷ []) (answer "b" ∷ []) [] sample_history refl

run_history-contents_example :
    (h : RunHistory ℕ) × (run_history [] (λ digest n. n ∷ digest) (1 ∷ 2 ∷ 3 ∷ []) ≡ ok h)
    × IsHistory h
    × (contents h ≡ 1 ∷ 2 ∷ 3 ∷ [])
    × (h.digest ≡ digest_all [] (λ digest n. n ∷ digest) [] (1 ∷ 2 ∷ 3 ∷ []))
run_history-contents_example =
    run_history-contents [] (λ digest n. n ∷ digest) (1 ∷ 2 ∷ 3 ∷ []) (λ e. cc)

sample_pending : PendingToolCalls
sample_pending = pending_of toy_sha256 (call_a ∷ call_b ∷ [])

sample-IsPending : IsPending toy_sha256 sample_pending
unfolding sample_pending jharness.State.Pending.unique_texts
sample-IsPending = pending_of-IsPending toy_sha256 call_a (call_b ∷ []) refl

advance-remaining_example :
    (q : Option PendingToolCalls) × (advance sample_pending (pos 1) ≡ ok q)
    × (remaining_or q ≡ drop 1 (remaining_calls sample_pending))
    × AllPending toy_sha256 q
unfolding sample_pending pending_of pending_count
advance-remaining_example =
    advance-remaining toy_sha256 sample_pending 1 sample-IsPending (omega arith)

-- The same call, with its metadata in either order.
abbrev noted_call : Entries → RuntimeToolCall
noted_call metadata =
    freeform (record { id = "a"; name = "echo"; input = "x"; metadata = metadata })

abbrev sample_noted : Entries → PendingToolCalls
sample_noted metadata = pending_of toy_sha256 (noted_call metadata ∷ [])

sample_noted-IsPending : (metadata : Entries) → IsPending toy_sha256 (sample_noted metadata)
unfolding pending_of unique_texts
sample_noted-IsPending metadata = pending_of-IsPending toy_sha256 (noted_call metadata) [] refl

abbrev in_order : Entries
in_order = entry "k" null (entry "l" null no_entry)

abbrev reversed : Entries
reversed = entry "l" null (entry "k" null no_entry)

same_pending_iff_example : (same_pending (sample_noted in_order) (sample_noted reversed) ≡ true) ↔ (
    compared (remaining_calls (sample_noted in_order))
    ≡ compared (remaining_calls (sample_noted reversed)))
same_pending_iff_example =
    same_pending_iff toy_sha256 (sample_noted in_order) (sample_noted reversed)
      (sample_noted-IsPending in_order) (sample_noted-IsPending reversed)

same_noted : same_pending (sample_noted in_order) (sample_noted reversed) ≡ true
unfolding remaining_calls pending_of jharness.State.Pending.canonical_call
    jharness.Json.Canonical.canonical_object jharness.Json.Canonical.sort_entries
    jharness.Json.Canonical.canonical_entries jharness.Json.Canonical.insert_entry
    jharness.Json.Canonical.canonical
same_noted =
    (same_pending_iff toy_sha256 (sample_noted in_order) (sample_noted reversed)
        (sample_noted-IsPending in_order) (sample_noted-IsPending reversed)).1
      refl

abbrev one_byte : List ℕ
one_byte = 1 ∷ []

string_prefix_example : (accent ≡ accent) × (one_byte ≡ one_byte)
unfolding encode jharness.Utf8.encode_char
string_prefix_example =
    string_prefix accent accent one_byte one_byte (omega arith) (omega arith) refl

abbrev one_token : ModelUsage
one_token = record no_usage { total_tokens = some 1 }

abbrev flagged : Bool → Checkpoint
flagged b = record {
  id = "c1";
  snapshot = record {
    revision = 1;
    context = sample_context;
    history = history_of question (request ∷ []);
    metrics = no_metrics;
    state = active (tools_pending (pending_of toy_sha256 (call_a ∷ call_b ∷ [])) b);
    history_proof = empty_proof toy_sha256;
  };
  fact = record {
    at = "0x1p+0";
    body = model_turn (record {
      result = ModelTurnResult.tools_pending;
      part_count = 0;
      tool_call_ids = "a" ∷ "b" ∷ [];
      provider_turn_pending = b;
      finish_reason = none;
      usage = none;
      limit_reason = none;
    });
  };
}

checkpoint_digest-ignores_pending_example :
    checkpoint_digest toy_sha256 (flagged true) ≡ checkpoint_digest toy_sha256 (flagged false)
checkpoint_digest-ignores_pending_example =
    checkpoint_digest-ignores_pending toy_sha256 "c1" "0x1p+0" (flagged true).snapshot
      (pending_of toy_sha256 (call_a ∷ call_b ∷ []))
      (record {
        result = ModelTurnResult.tools_pending;
        part_count = 0;
        tool_call_ids = "a" ∷ "b" ∷ [];
        provider_turn_pending = true;
        finish_reason = none;
        usage = none;
        limit_reason = none;
      })
      true false
