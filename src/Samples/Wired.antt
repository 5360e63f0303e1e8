-- ===== src/Samples/Wired.antt =====
-- The theorems on the wire codecs at sample messages, states and snapshots.
use jharness.Common.{
  ℕ, zero, suc, ◌≡◌, refl, true, false, some, [], ◌∷◌, String, leb, if◌then◌else◌, arith, ℤ,
}
use jharness.Errors.{ok, err, ◌>>=◌}
use jharness.Json.{Json, null, string, array, item, no_item, entry, no_entry, object}
use jharness.Json.Depth.{depth, max_json_nesting_depth}
use jharness.Messages.{ContentPart, Message, user}
use jharness.Wire.{too_deep}
use jharness.Wire.Parts.Laws.{IsPart}
use jharness.Wire.Messages.{encode_message, decode_message}
use jharness.Wire.Messages.Laws.{IsMessage, decode_message-encode}
use jharness.Wire.Messages.Nesting.{decode_message-too_deep}
use jharness.State.{RunState, active, planning, suspended, tools_pending, Suspension}
use jharness.State.Pending.{pending_of}
use jharness.State.Pending.Laws.{pending_of-IsPending}
use jharness.Wire.State.{encode_state, decode_state_value, decode_state_within}
use jharness.Wire.State.Laws.{IsState, rebased_state, decode_state-encode, decode_state_levels}
use jharness.Snapshot.{RunSnapshot}
use jharness.Snapshot.Valid.{run_snapshot-settled}
use jharness.Runs.{empty_metrics}
use jharness.Wire.Snapshot.{encode_snapshot, decode_snapshot}
use jharness.Wire.Snapshot.Laws.{IsEncodable, Restores}
use jharness.Checkpoint.{Checkpoint, started}
use jharness.Wire.Checkpoints.{encode_checkpoint, decode_checkpoint}
use jharness.Wire.Checkpoints.Laws.{IsCheckpoint, decode_checkpoint-encode}
use jharness.Samples.Runs.{first_snapshot, first-IsSnapshot, sample-run}
use jharness.Samples.{
  sample_context, history_of, toy_sha256, text_part, call_a, call_b, question, answer,
}

text_part-IsPart : IsPart text_part
unfolding jharness.Messages.Checks.check_content_part jharness.Messages.Checks.freeze_mapping
    jharness.Json.Depth.walk
text_part-IsPart = (refl, tt)

answer-IsMessage : IsMessage (answer "a")
unfolding jharness.Messages.Checks.check_message jharness.Messages.Checks.check_outcome
    jharness.Messages.Checks.freeze_mapping jharness.Messages.Checks.freeze_json_value
    jharness.Json.Depth.walk
answer-IsMessage = record {
  checked = refl;
  parts = tt;
  output = tt;
  outcome = record { checked = refl; parts = (text_part-IsPart, tt); rest = tt };
}

decode_message-encode_example :
    (v : Json) × (encode_message (answer "a") ≡ ok v)
    × (decode_message v ≡ (
        if leb (depth v) max_json_nesting_depth then ok (answer "a") else err (too_deep "message")))
decode_message-encode_example = decode_message-encode (answer "a") answer-IsMessage

-- Lists in lists.
nested : ℕ → Json
nested zero = null
nested (suc n) = array (item (nested n) no_item)

deep : Message
unfolding nested
deep = record question { metadata = entry "k" (nested 127) no_entry }

deep-IsMessage : IsMessage deep
unfolding deep jharness.Messages.Checks.check_message jharness.Messages.Checks.freeze_mapping
    jharness.Json.Depth.walk
deep-IsMessage = record {
  checked = refl;
  parts = (text_part-IsPart, tt);
  output = tt;
  outcome = tt;
}

decode_message-too_deep_example :
    (v : Json) × (encode_message deep ≡ ok v) × (decode_message v ≡ err (too_deep "message"))
unfolding deep depth
decode_message-too_deep_example = decode_message-too_deep deep deep-IsMessage refl

abbrev waiting_state : RunState
waiting_state =
    suspended (tools_pending (pending_of toy_sha256 (call_a ∷ call_b ∷ [])) true)
      (record { reason = "approval"; source = "host"; wait_id = some "w"; metadata = no_entry })

waiting_state-IsState : IsState toy_sha256 waiting_state
unfolding pending_of jharness.Messages.Checks.check_runtime_call
    jharness.Messages.Checks.freeze_mapping jharness.Json.Depth.walk
    jharness.Wire.State.check_suspension jharness.State.Pending.remaining_calls
waiting_state-IsState = (
  (
    pending_of-IsPending toy_sha256 call_a (call_b ∷ [])
        (unfold jharness.State.Pending.unique_texts in refl),
    (refl, (refl, tt)),
  ),
  refl,
)

decode_state-encode_example :
    (encode_state waiting_state >>= decode_state_value toy_sha256)
    ≡ ok (rebased_state toy_sha256 waiting_state)
decode_state-encode_example = decode_state-encode toy_sha256 waiting_state waiting_state-IsState

abbrev half_state : Json
half_state = object (entry "kind" (string "suspended") no_entry)

decode_state_levels_example :
    decode_state_within toy_sha256 1 half_state ≡ decode_state_within toy_sha256 7 half_state
decode_state_levels_example =
    decode_state_levels toy_sha256 1 7 half_state (unfold depth in omega arith)
      (unfold depth in omega arith)

question-IsMessage : IsMessage question
unfolding jharness.Messages.Checks.check_message jharness.Messages.Checks.freeze_mapping
    jharness.Json.Depth.walk
question-IsMessage = record {
  checked = refl;
  parts = (text_part-IsPart, tt);
  output = tt;
  outcome = tt;
}

first-IsEncodable : IsEncodable toy_sha256 first_snapshot
unfolding first_snapshot jharness.Snapshot.run_snapshot jharness.History.Run.build
    jharness.History.Run.cons_all jharness.History.cons jharness.History.iter_reversed
    jharness.Linkage.analyze_messages jharness.Linkage.pending_state jharness.Linkage.extend_proof
    jharness.History.Run.iter jharness.History.iter_digits jharness.Linkage.advance_linkage
    jharness.Linkage.open_calls jharness.Linkage.calls_by_role jharness.Linkage.validate_proof
    jharness.Linkage.validate_unresolved jharness.Linkage.check_unresolved
    jharness.History.iter_tree
first-IsEncodable = record {
  valid = first-IsSnapshot;
  settled =
      run_snapshot-settled toy_sha256 0 sample_context (history_of question []) empty_metrics
        (active (planning false)) first_snapshot tt sample-run.0;
  context =
      unfold jharness.Wire.Snapshot.check_context jharness.Messages.Checks.freeze_mapping
        jharness.Json.Depth.walk in
      refl;
  messages = (question-IsMessage, tt);
  state = tt;
}

-- An argument for what Python's `float` makes of an integer.
abbrev no_float : ℤ → String
no_float n = "0x0.0p+0"

abbrev first_checkpoint : Checkpoint
first_checkpoint = record {
  id = "c0";
  snapshot = first_snapshot;
  fact = record { at = "0x1p+1"; body = started (user ∷ []) };
}

first-IsCheckpoint : IsCheckpoint toy_sha256 first_checkpoint
unfolding jharness.Common.String-discrete jharness.Snapshot.run_snapshot
    jharness.Linkage.analyze_messages jharness.Linkage.extend_proof jharness.Linkage.advance_linkage
    jharness.Linkage.open_calls jharness.Linkage.calls_by_role jharness.Linkage.validate_proof
    jharness.Linkage.validate_unresolved jharness.Linkage.check_unresolved
    jharness.Linkage.pending_state
first-IsCheckpoint = record {
  made =
      unfold jharness.Checkpoint.Boundary.checkpoint jharness.Checkpoint.Boundary.validate_boundary
        jharness.Checkpoint.Boundary.validate_advanced jharness.Checkpoint.Boundary.validate_started
        jharness.Checkpoint.Boundary.same_roles first_snapshot jharness.History.Run.iter
        jharness.History.iter_digits jharness.History.iter_tree jharness.History.Run.build
        jharness.History.Run.cons_all jharness.History.cons in
      refl;
  snapshot = first-IsEncodable;
  checked = unfold jharness.Checkpoint.check_fact in refl;
  time = refl;
}

decode_checkpoint-encode_example :
    (v : Json) × (t : RunSnapshot) × (encode_checkpoint first_checkpoint ≡ ok v)
    × (decode_checkpoint no_float toy_sha256 v ≡ (
        if leb (depth v) max_json_nesting_depth
        then ok (record { id = "c0"; snapshot = t; fact = first_checkpoint.fact })
        else err (too_deep "checkpoint")))
    × Restores toy_sha256 first_snapshot t
decode_checkpoint-encode_example =
    decode_checkpoint-encode toy_sha256 no_float first_checkpoint first-IsCheckpoint
