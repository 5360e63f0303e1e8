-- ===== src/Samples/Runs.antt =====
-- The theorems on snapshots and on the verifier at a sample run: a question, then a turn with two calls.
use jharness.Common.{
  ℕ, ◌+◌, ◌≡◌, ◌≤◌, length, refl, ap, true, false, none, some, [], ◌∷◌, ◌++◌, List, Option, arith,
}
use jharness.Errors.{ok, ◌>>=◌}
use jharness.Json.{no_entry}
use jharness.Messages.{Message, runtime_item}
use jharness.Linkage.{empty_proof}
use jharness.History.Run.{RunHistory}
use jharness.History.Run.Contents.{contents, build-IsHistory}
use jharness.Digest.{append_history_digest, empty_history_digest}
use jharness.State.{active, planning, completed}
use jharness.Snapshot.{RunSnapshot, run_snapshot, evolve_snapshot}
use jharness.Snapshot.Valid.{IsSnapshot, run_snapshot-IsSnapshot, evolve_snapshot-IsSnapshot}
use jharness.Checkpoint.{Checkpoint}
use jharness.Change.{Change, reduce, fail}
use jharness.Change.Turn.{ModelResponse, model_change}
use jharness.Verification.{run_view, verify_change}
use jharness.Verification.Accepted.{turns, reduce-verified}
use jharness.State.Pending.{unique_texts, ids_of}
use jharness.State.Pending.Laws.{remaining_or}
use jharness.Linkage.Ids.{call_ids, answered_ids}
use jharness.Runs.{IsRun, starts, commits, empty_metrics}
use jharness.Runs.Kept.{IsRun-order}
use jharness.Commit.{apply}
use jharness.Commit.Laws.{commit-apply}
use jharness.Repository.{DurableCommit, initial, commit_run, commit_id}
use jharness.Repository.Ephemeral.{
  EphemeralRepository, find_digest, commit, commit_all, ephemeral_repository,
}
use jharness.Repository.Ephemeral.Laws.{
  commit_all-ephemeral_repository, revisions, revisions_before,
}
use jharness.Samples.{
  toy_sha256, toy_sha256-sized, value_or, question, request, answer, call_a, call_b, sample_context,
  history_of,
}

abbrev idle_snapshot : RunSnapshot
idle_snapshot = record {
  revision = 0;
  context = sample_context;
  history = history_of question [];
  metrics = empty_metrics;
  state = active (planning false);
  history_proof = empty_proof toy_sha256;
}

unfoldable pub first_snapshot : RunSnapshot
first_snapshot = value_or idle_snapshot (
    run_snapshot toy_sha256 0 sample_context (history_of question []) empty_metrics
      (active (planning false)))

abbrev pub response : ModelResponse
response = record {
  output = runtime_item call_a ∷ runtime_item call_b ∷ [];
  finish_reason = none;
  usage = none;
  provider_turn_pending = true;
  metadata = no_entry;
}

abbrev failure_change : Change
failure_change = fail "0x1p+1" "code" "message"

unfoldable pub turn : Change
turn = value_or failure_change (model_change toy_sha256 "0x1p+1" first_snapshot (some 100) response)

abbrev pub first_checkpoint : Checkpoint
first_checkpoint = record { id = "c0"; snapshot = first_snapshot; fact = failure_change.fact }

unfoldable pub turn_checkpoint : Checkpoint
turn_checkpoint = value_or first_checkpoint (reduce toy_sha256 first_snapshot turn "c1")

unfoldable pub next_snapshot : RunSnapshot
next_snapshot = value_or first_snapshot (
    evolve_snapshot toy_sha256 first_snapshot (request ∷ answer "a" ∷ answer "b" ∷ []) none
      empty_metrics (completed []))

-- The sample run is one that the code makes.
pub sample-run :
    (run_snapshot toy_sha256 0 sample_context
        (history_of question [])
        empty_metrics
        (active (planning false))
      ≡ ok first_snapshot)
    × (first_snapshot.state ≡ active (planning false))
    × (model_change toy_sha256 "0x1p+1" first_snapshot (some 100) response ≡ ok turn)
    × (reduce toy_sha256 first_snapshot turn "c1" ≡ ok turn_checkpoint)
    × (evolve_snapshot toy_sha256 first_snapshot
          (request ∷ answer "a" ∷ answer "b" ∷ [])
          none
          empty_metrics
          (completed [])
        ≡ ok next_snapshot)
unfolding next_snapshot turn_checkpoint turn first_snapshot jharness.Linkage.analyze_messages
    jharness.Linkage.extend_proof jharness.Linkage.advance_linkage jharness.Linkage.open_calls
    jharness.Linkage.calls_by_role jharness.Linkage.record_call_ids jharness.Linkage.answer_call
    jharness.Linkage.answers_first jharness.Linkage.close_call jharness.Linkage.validate_proof
    jharness.Linkage.validate_unresolved jharness.Linkage.check_unresolved
    jharness.Linkage.pending_state jharness.State.Pending.pending_tool_calls
    jharness.State.Pending.remaining_calls jharness.State.Pending.pending_of
    jharness.State.Pending.advance jharness.State.Pending.pending_count
    jharness.State.Pending.has_text jharness.State.Pending.unique_texts jharness.IdSet.contains
    jharness.IdSet.add jharness.IdSet.child_in jharness.IdSet.finish_add jharness.IdSet.put_child
    jharness.IdSet.rebuild jharness.IdSet.walk jharness.IdSet.with_child jharness.IdSet.wrap
    jharness.Utf8.encode jharness.Utf8.encode_char jharness.Messages.runtime_tool_calls
    jharness.Common.String-discrete jharness.Snapshot.run_snapshot jharness.Snapshot.evolve_snapshot
    jharness.Snapshot.evolve_messages jharness.Linkage.evolve_proof jharness.History.Run.iter
    jharness.History.Run.iter_tail jharness.History.Run.get_item
    jharness.History.Run.normalize_index jharness.History.Run.get_normalized
    jharness.History.Run.or_assertion jharness.History.lookup_reverse jharness.History.lookup_tree
    jharness.History.iter_digits jharness.History.select jharness.History.iter_selected
    jharness.History.visit jharness.History.Run.build jharness.History.Run.cons_all
    jharness.History.cons jharness.History.Run.append jharness.Messages.visible_parts
    jharness.Change.Turn.model_change jharness.Change.Turn.next_state
    jharness.Change.Turn.response_state jharness.Change.Turn.next_total
    jharness.Change.Turn.over_tokens jharness.Change.Turn.to_assistant_message
    jharness.Change.reduce jharness.State.advance_metrics jharness.State.Usage.add_usage
    jharness.State.Usage.add_field jharness.Checkpoint.Boundary.checkpoint
    jharness.Checkpoint.Boundary.validate_boundary jharness.Checkpoint.Boundary.validate_advanced
    jharness.Checkpoint.Boundary.validate_model jharness.Checkpoint.Boundary.validate_model_message
    jharness.Checkpoint.Boundary.validate_model_state jharness.State.Pending.same_pending
    jharness.Json.Canonical.canonical_object jharness.Digest.prepend_tool_call_digest toy_sha256
    jharness.Common.ℕ_discrete jharness.Digest.Writer.domain jharness.Digest.Writer.field
    jharness.Digest.Writer.string jharness.Digest.Writer.json jharness.Digest.Writer.bytes
sample-run = (refl, refl, refl, refl, refl)

unfoldable turn_commit : DurableCommit
turn_commit =
    value_or
      (record {
        checkpoint = first_checkpoint;
        parent_checkpoint_id = none;
        history = initial first_snapshot.history;
        digest = [];
      })
      (apply toy_sha256 first_checkpoint turn "c1")

turn_commit-made :
    (apply toy_sha256 first_checkpoint turn "c1" ≡ ok turn_commit) × (commit_id turn_commit ≡ "c1")
unfolding turn_commit apply jharness.Commit.history_change jharness.Repository.durable_commit turn
    first_snapshot jharness.Linkage.analyze_messages jharness.Linkage.extend_proof
    jharness.Linkage.advance_linkage jharness.Linkage.open_calls jharness.Linkage.calls_by_role
    jharness.Linkage.record_call_ids jharness.Linkage.answer_call jharness.Linkage.answers_first
    jharness.Linkage.close_call jharness.Linkage.validate_proof jharness.Linkage.validate_unresolved
    jharness.Linkage.check_unresolved jharness.Linkage.pending_state
    jharness.State.Pending.pending_tool_calls jharness.State.Pending.remaining_calls
    jharness.State.Pending.pending_of jharness.State.Pending.advance
    jharness.State.Pending.pending_count jharness.State.Pending.has_text
    jharness.State.Pending.unique_texts jharness.IdSet.contains jharness.IdSet.add
    jharness.IdSet.child_in jharness.IdSet.finish_add jharness.IdSet.put_child
    jharness.IdSet.rebuild jharness.IdSet.walk jharness.IdSet.with_child jharness.IdSet.wrap
    jharness.Utf8.encode jharness.Utf8.encode_char jharness.Messages.runtime_tool_calls
    jharness.Common.String-discrete jharness.Snapshot.run_snapshot jharness.Snapshot.evolve_snapshot
    jharness.Snapshot.evolve_messages jharness.Linkage.evolve_proof jharness.History.Run.iter
    jharness.History.Run.iter_tail jharness.History.Run.get_item
    jharness.History.Run.normalize_index jharness.History.Run.get_normalized
    jharness.History.Run.or_assertion jharness.History.lookup_reverse jharness.History.lookup_tree
    jharness.History.iter_digits jharness.History.select jharness.History.iter_selected
    jharness.History.visit jharness.History.Run.build jharness.History.Run.cons_all
    jharness.History.cons jharness.History.Run.append jharness.Messages.visible_parts
    jharness.Change.Turn.model_change jharness.Change.Turn.next_state
    jharness.Change.Turn.response_state jharness.Change.Turn.next_total
    jharness.Change.Turn.over_tokens jharness.Change.Turn.to_assistant_message
    jharness.Change.reduce jharness.State.advance_metrics jharness.State.Usage.add_usage
    jharness.State.Usage.add_field jharness.Checkpoint.Boundary.checkpoint
    jharness.Checkpoint.Boundary.validate_boundary jharness.Checkpoint.Boundary.validate_advanced
    jharness.Checkpoint.Boundary.validate_model jharness.Checkpoint.Boundary.validate_model_message
    jharness.Checkpoint.Boundary.validate_model_state jharness.State.Pending.same_pending
    jharness.Json.Canonical.canonical_object jharness.Digest.prepend_tool_call_digest toy_sha256
    jharness.Common.ℕ_discrete jharness.Digest.Writer.domain jharness.Digest.Writer.field
    jharness.Digest.Writer.string jharness.Digest.Writer.json jharness.Digest.Writer.bytes
    append_history_digest
turn_commit-made = (refl, refl)

abbrev holding_first : EphemeralRepository
holding_first = record { head = some first_checkpoint; by_id = [] }

commit-apply_example :
    commit holding_first turn_commit
    ≡ ok (record {
      head = some turn_commit.checkpoint;
      by_id = ((commit_run turn_commit, commit_id turn_commit), turn_commit.digest) ∷ [];
    })
unfolding first_snapshot jharness.Repository.Ephemeral.find_digest jharness.Snapshot.run_snapshot
    jharness.History.Run.build jharness.History.Run.cons_all jharness.History.cons
    jharness.Linkage.analyze_messages jharness.Linkage.extend_proof jharness.Linkage.advance_linkage
    append_history_digest jharness.History.Run.iter jharness.History.iter_digits
    jharness.Linkage.open_calls jharness.Linkage.calls_by_role jharness.Linkage.validate_proof
    jharness.Linkage.validate_unresolved jharness.Linkage.check_unresolved
    jharness.Linkage.pending_state
commit-apply_example =
    commit-apply toy_sha256 holding_first first_checkpoint turn "c1" turn_commit refl refl
      turn_commit-made.0 refl

-- The repository that the engine makes for a run that goes on from a checkpoint.
abbrev continued : EphemeralRepository
continued = ephemeral_repository toy_sha256 (some first_checkpoint)

abbrev continued_turn : EphemeralRepository
continued_turn = record {
  head = some turn_commit.checkpoint;
  by_id = ((commit_run turn_commit, commit_id turn_commit), turn_commit.digest) ∷ continued.by_id;
}

new_turn : find_digest continued.by_id (commit_run turn_commit) (commit_id turn_commit) ≡ none
unfolding find_digest ephemeral_repository jharness.Common.String-discrete
new_turn = rw turn_commit-made.1 (ground arith)

continued_turn-made : commit_all continued (turn_commit ∷ []) ≡ ok continued_turn
unfolding commit_all ephemeral_repository jharness.Repository.Ephemeral.find_digest first_snapshot
    jharness.Snapshot.run_snapshot jharness.History.Run.build jharness.History.Run.cons_all
    jharness.History.cons jharness.Linkage.analyze_messages jharness.Linkage.extend_proof
    jharness.Linkage.advance_linkage append_history_digest jharness.History.Run.iter
    jharness.History.iter_digits jharness.Linkage.open_calls jharness.Linkage.calls_by_role
    jharness.Linkage.validate_proof jharness.Linkage.validate_unresolved
    jharness.Linkage.check_unresolved jharness.Linkage.pending_state jharness.Common.String-discrete
continued_turn-made =
    ap (λ r. r >>= (λ next. commit_all next []))
      (commit-apply toy_sha256 continued first_checkpoint turn "c1" turn_commit refl refl
        turn_commit-made.0 new_turn)

commit_all-ephemeral_repository_example :
    (length continued_turn.by_id + revisions_before (some first_checkpoint)
      ≡ revisions continued_turn.head)
    × (revisions (some first_checkpoint) ≤ revisions continued_turn.head)
    × (revisions continued_turn.head ≤ revisions (some first_checkpoint) + 1)
commit_all-ephemeral_repository_example =
    commit_all-ephemeral_repository toy_sha256 (some first_checkpoint) (turn_commit ∷ [])
      continued_turn continued_turn-made

reduce-verified_example :
    verify_change toy_sha256
      (some (run_view first_snapshot))
      turn_checkpoint.fact.body
      (run_view turn_checkpoint.snapshot)
    ≡ ok tt
reduce-verified_example =
    reduce-verified toy_sha256 first_snapshot turn "c1" turn_checkpoint toy_sha256-sized
      (turns "0x1p+1" false (some 100) response turn sample-run.1 sample-run.2) sample-run.3

pub first-IsSnapshot : IsSnapshot toy_sha256 first_snapshot
unfolding jharness.Linkage.pending_state
first-IsSnapshot =
    run_snapshot-IsSnapshot toy_sha256 0 sample_context (history_of question []) empty_metrics
      (active (planning false)) first_snapshot
      (build-IsHistory (empty_history_digest toy_sha256) (append_history_digest toy_sha256) question
        [])
      tt sample-run.0

evolve_snapshot-IsSnapshot_example :
    IsSnapshot toy_sha256 next_snapshot
    × (contents next_snapshot.history
        ≡ contents first_snapshot.history ++ (request ∷ answer "a" ∷ answer "b" ∷ []))
    × (next_snapshot.revision ≡ first_snapshot.revision + 1)
unfolding jharness.Linkage.pending_state
evolve_snapshot-IsSnapshot_example =
    evolve_snapshot-IsSnapshot toy_sha256 first_snapshot next_snapshot
      (request ∷ answer "a" ∷ answer "b" ∷ []) empty_metrics (completed []) first-IsSnapshot tt
      sample-run.4

sample-IsRun : IsRun toy_sha256 turn_checkpoint.snapshot 1
sample-IsRun =
    commits first_snapshot 0 turn "c1" turn_checkpoint
      (starts sample_context (history_of question []) first_snapshot
        (build-IsHistory (empty_history_digest toy_sha256) (append_history_digest toy_sha256)
          question [])
        sample-run.0)
      (turns "0x1p+1" false (some 100) response turn sample-run.1 sample-run.2) sample-run.3

IsRun-order_example :
    (turn_checkpoint.snapshot.revision ≡ 1)
    × (unique_texts (call_ids (contents turn_checkpoint.snapshot.history)) ≡ true)
    × (answered_ids (contents turn_checkpoint.snapshot.history)
          ++ ids_of (remaining_or turn_checkpoint.snapshot.history_proof.unresolved)
        ≡ call_ids (contents turn_checkpoint.snapshot.history))
IsRun-order_example = IsRun-order toy_sha256 turn_checkpoint.snapshot 1 sample-IsRun
