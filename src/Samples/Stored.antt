-- ===== src/Samples/Stored.antt =====
-- The theorems on repositories at a sample commit.
use jharness.Common.{◌+◌, ◌≡◌, refl, false, none, some, [], ◌∷◌, ◌≤◌, length}
use jharness.Errors.{ok}
use jharness.Messages.{Message}
use jharness.Linkage.{empty_proof}
use jharness.State.{active, planning}
use jharness.Checkpoint.{Checkpoint, started, model_turn, ModelTurn}
use jharness.Checkpoint
use jharness.Repository.{DurableCommit, initial, expected_revision}
use jharness.Repository.Digest.{checkpoint_digest}
use jharness.Repository.Ephemeral
use jharness.Repository.Ephemeral.{EphemeralRepository}
use jharness.Repository.Ephemeral.Laws.{commit-commit}
use jharness.Repository.Memory
use jharness.Repository.Memory.{
  MemoryRunRepository, get_head, StoredHead, find, find_entry, head_revision,
}
use jharness.Repository.Memory.Laws.{commit-idempotent, commit-isolated, commit-head}
use jharness.Commit.{persist_start}
use jharness.Commit.Laws.{commit-persist_start}
use jharness.Samples.{toy_sha256, value_or, question, no_metrics, sample_context, history_of}

abbrev start : Checkpoint
start = record {
  id = "c0";
  snapshot = record {
    revision = 0;
    context = sample_context;
    history = history_of question [];
    metrics = no_metrics;
    state = active (planning false);
    history_proof = empty_proof toy_sha256;
  };
  fact = record { at = "0x1p+0"; body = started (jharness.Messages.user ∷ []) };
}

abbrev start_commit : DurableCommit
start_commit = record {
  checkpoint = start;
  parent_checkpoint_id = none;
  history = initial (history_of question []);
  digest = checkpoint_digest toy_sha256 start;
}

unfoldable ephemeral : EphemeralRepository
ephemeral =
    value_or Ephemeral.empty_repository (Ephemeral.commit Ephemeral.empty_repository start_commit)

ephemeral-made : Ephemeral.commit Ephemeral.empty_repository start_commit ≡ ok ephemeral
unfolding ephemeral Ephemeral.commit
ephemeral-made = refl

unfoldable memory : MemoryRunRepository
memory = value_or Memory.empty_repository (Memory.commit Memory.empty_repository start_commit)

memory-made : Memory.commit Memory.empty_repository start_commit ≡ ok memory
unfolding memory Memory.commit jharness.Checkpoint.Boundary.validate_boundary
    jharness.Checkpoint.Boundary.validate_advanced jharness.Checkpoint.Boundary.validate_started
    jharness.History.iter_digits jharness.History.Run.build jharness.History.cons
memory-made = refl

commit-commit_example : Ephemeral.commit ephemeral start_commit ≡ ok ephemeral
commit-commit_example =
    commit-commit Ephemeral.empty_repository ephemeral start_commit ephemeral-made

commit-idempotent_example : Memory.commit memory start_commit ≡ ok memory
commit-idempotent_example =
    commit-idempotent Memory.empty_repository memory start_commit memory-made

commit-isolated_example : get_head memory "other" ≡ get_head Memory.empty_repository "other"
commit-isolated_example =
    commit-isolated Memory.empty_repository memory start_commit "other" memory-made (λ e. cc)

commit-head_example :
    (h : StoredHead) × (get_head memory "run" ≡ some h)
    × (h.checkpoint ≡ start)
    × (head_revision (get_head Memory.empty_repository "run") ≡ expected_revision start_commit)
unfolding jharness.Repository.Memory.find
commit-head_example = commit-head Memory.empty_repository memory start_commit memory-made refl

start_commit-made : persist_start toy_sha256 start ≡ ok start_commit
unfolding persist_start jharness.Repository.durable_commit jharness.History.Run.build
    jharness.Digest.append_history_digest toy_sha256 jharness.Common.ℕ_discrete
    jharness.Digest.Writer.domain jharness.Utf8.encode jharness.Digest.Writer.field
    jharness.Digest.Writer.bytes jharness.Digest.empty_history_digest jharness.Digest.Writer.string
    jharness.Digest.Writer.sequence jharness.Digest.Writer.json
start_commit-made = refl

commit-persist_start_example :
    Ephemeral.commit Ephemeral.empty_repository start_commit
    ≡ ok (record { head = some start; by_id = (("run", "c0"), start_commit.digest) ∷ [] })
unfolding Ephemeral.find_digest
commit-persist_start_example =
    commit-persist_start toy_sha256 Ephemeral.empty_repository start start_commit refl
      start_commit-made refl
