-- ===== src/Samples.antt =====
-- Sample data for the tests: a hash of 32 bytes, and a small conversation with two tool calls.
mod Linked
mod Stored
mod Values
pub mod Runs
mod Boundaries
mod Controls
mod Wired
mod Tooled
mod Requested
mod Planned
mod Kept
use jharness.Common.{
  ℕ, zero, suc, ◌/◌, ◌%◌, ◌++◌, refl, arith, length-append, ◌≡◌, Bool, true, false, String, Option,
  none, some, List, [], ◌∷◌, length,
}
use jharness.Errors.{Result, ok, err}
use jharness.Json.{no_entry, null}
use jharness.Messages.{
  ContentPart, Message, user, assistant, tool, external, RuntimeToolCall, freeform, ModelOutputItem,
  runtime_item, content_item, success, ToolOutcome,
}
use jharness.Digest.Writer.{to_bytes}
use jharness.Digest.{append_history_digest, empty_history_digest}
use jharness.History.Run.{RunHistory, build}
use jharness.State.{RunMetrics, planning, active}
use jharness.State.Usage.{ModelUsage}
use jharness.Control.{Insert, ControlInbox, new_inbox, insertion, cancel_tool}
use jharness.Snapshot.{RunContext, RunSnapshot, run_snapshot}

-- The number of bytes, as 32 bytes.
unfoldable pub toy_sha256 : List ℕ → List ℕ
unfolding to_bytes
toy_sha256 bytes = to_bytes 32 (length bytes)

length-to_bytes : (count n : ℕ) → length (to_bytes count n) ≡ count
unfolding to_bytes
length-to_bytes zero n = refl
length-to_bytes (suc count) n = omega (
  arith,
  length-append (to_bytes count (n / 256)) ((n % 256) ∷ []),
  length-to_bytes count (n / 256),
)

pub toy_sha256-sized : (bytes : List ℕ) → length (toy_sha256 bytes) ≡ 32
unfolding toy_sha256
toy_sha256-sized bytes = length-to_bytes 32 (length bytes)

abbrev pub value_or {ℓ} : {A : Type ℓ} → A → Result A → A
value_or d (ok a) = a
value_or d (err e) = d

abbrev pub text_part : ContentPart
text_part = record {
  type = "text";
  text = some "hi";
  uri = none;
  artifact = none;
  media_type = none;
  name = none;
  content = no_entry;
  metadata = no_entry;
}

abbrev pub call_a : RuntimeToolCall
call_a = freeform (record { id = "a"; name = "shell"; input = "ls"; metadata = no_entry })

abbrev pub call_b : RuntimeToolCall
call_b = freeform (record { id = "b"; name = "shell"; input = "pwd"; metadata = no_entry })

abbrev pub question : Message
question = record {
  role = user;
  parts = text_part ∷ [];
  output = [];
  tool_call_id = none;
  outcome = none;
  metadata = no_entry;
}

abbrev pub notice : Message
notice = record {
  role = external;
  parts = text_part ∷ [];
  output = [];
  tool_call_id = none;
  outcome = none;
  metadata = no_entry;
}

abbrev pub request : Message
request = record {
  role = assistant;
  parts = [];
  output = runtime_item call_a ∷ runtime_item call_b ∷ [];
  tool_call_id = none;
  outcome = none;
  metadata = no_entry;
}

abbrev pub answer : String → Message
answer id = record {
  role = tool;
  parts = [];
  output = [];
  tool_call_id = some id;
  outcome = some (success (text_part ∷ []) null);
  metadata = no_entry;
}

abbrev pub conversation : List Message
conversation = question ∷ request ∷ answer "a" ∷ answer "b" ∷ []

abbrev pub no_usage : ModelUsage
no_usage = record {
  input_tokens = none;
  output_tokens = none;
  total_tokens = none;
  reasoning_tokens = none;
  cache_read_tokens = none;
  cache_write_tokens = none;
}

abbrev pub no_metrics : RunMetrics
no_metrics = record { planning_steps = 0; tool_calls = 0; usage = no_usage }

abbrev pub sample_context : RunContext
sample_context = record {
  run_id = "run";
  started_at = "0x1p+0";
  deadline = none;
  parent_run_id = none;
  parent_tool_call_id = none;
  run_kind = none;
  metadata = no_entry;
}

abbrev pub history_of : Message → List Message → RunHistory Message
history_of = build (empty_history_digest toy_sha256) (append_history_digest toy_sha256)

abbrev pub sample_insert : Insert
sample_insert = record { message = notice; source = "host" }

abbrev pub sample_inbox : ControlInbox
sample_inbox = record new_inbox { queue = cancel_tool "a" ∷ insertion sample_insert ∷ [] }
