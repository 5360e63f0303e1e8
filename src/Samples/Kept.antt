-- ===== src/Samples/Kept.antt =====
-- The theorem on storage at a sample state that has a provider turn to go on with.
use jharness.Common.{
  ℕ, arith, none, false, ◌&&◌, ◌==◌, ◌≡◌, refl, true, false, Bool, String, Option, some, List, [],
  ◌∷◌,
}
use jharness.Errors.{ok, ◌>>=◌}
use jharness.Messages.{Message}
use jharness.State.{RunState, active, tools_pending}
use jharness.State.Pending.{PendingToolCalls, pending_of, pending_digest}
use jharness.Repository.Storage.{encode_storage_state, decode_storage_state}
use jharness.Repository.Storage.Laws.{continues_turn, decode_storage_state-flagless}
use jharness.Repository.{appended}
use jharness.Repository.Manifest.{
  HistoryManifest, Rows, add_row, next_history_manifest, encode_history_change, insert_chunks,
  select_rows, select_history,
}
use jharness.Repository.Manifest.Laws.{select_history-next}
use jharness.Repository.Manifest.Rows.{IsStored}
use jharness.Samples.{toy_sha256, question, request, call_a, call_b}

abbrev sample_cursor : PendingToolCalls
sample_cursor = pending_of toy_sha256 (call_a ∷ call_b ∷ [])

abbrev waiting_state : Bool → RunState
waiting_state flag = active (tools_pending sample_cursor flag)

-- Arguments for `bytes.hex` and `bytes.fromhex` that agree on the digest of the sample.
abbrev toy_hex : List ℕ → String
toy_hex bytes = "aa"

abbrev toy_from_hex : String → Option (List ℕ)
toy_from_hex text = some (pending_digest sample_cursor)

abbrev two_messages : List Message
two_messages = question ∷ request ∷ []

stored_back :
    (encode_storage_state toy_hex toy_from_hex (waiting_state true)
      >>= decode_storage_state toy_hex toy_from_hex toy_sha256 two_messages)
    ≡ ok (waiting_state false)
unfolding encode_storage_state decode_storage_state pending_of
    jharness.Digest.prepend_tool_call_digest toy_sha256 jharness.Linkage.calls_by_role
    jharness.Common.ℕ_discrete jharness.Digest.Writer.domain jharness.Utf8.encode
    jharness.Digest.Writer.field jharness.Digest.Writer.string jharness.Digest.Writer.json
    jharness.Digest.Writer.bytes
stored_back = refl

decode_storage_state-flagless_example : continues_turn (waiting_state false) ≡ false
decode_storage_state-flagless_example =
    decode_storage_state-flagless toy_hex toy_from_hex toy_sha256 two_messages (waiting_state true)
      (waiting_state false) tt stored_back

-- The chunk table after a first commit: one chunk, in generation 0.
abbrev one_chunk : Rows
one_chunk = add_row (λ generation index. none) 0 0 (question ∷ [])

one_chunk_empty : (g j : ℕ) → ((g == 0) && (j == 0)) ≡ false → one_chunk g j ≡ none
one_chunk_empty g j h = rw h

one_chunk-IsStored : IsStored one_chunk 0 1 0 (question ∷ [])
one_chunk-IsStored = record {
  selected = unfold select_history select_rows in refl;
  ends = λ j le. one_chunk_empty 0 j (ground arith);
  unused = λ g j lt. one_chunk_empty g j (ground arith);
  dated = omega arith;
}

abbrev head : HistoryManifest
head = record {
  checkpoint_id = "c0";
  history_generation = 0;
  history_chunk_count = 1;
  history_message_count = 1;
  history_digest = [];
}

select_history-next_example :
    (rows : Rows) × (insert_chunks one_chunk 0 1
        (encode_history_change (appended 1 [] (request ∷ [])))
      ≡ ok rows)
    × IsStored rows 0 2 1 (question ∷ request ∷ [])
unfolding next_history_manifest encode_history_change jharness.Repository.Manifest.encode_chunks
    jharness.Repository.Manifest.chunks_from
select_history-next_example =
    select_history-next one_chunk head (question ∷ []) 0 1 (appended 1 [] (request ∷ [])) 0 1 2
      one_chunk-IsStored (omega arith) refl
