-- ===== src/Repository.antt =====
-- packages/jharness-kernel/src/jharness/kernel/repository.py: durable commits, with the change that
-- each makes to the stored history.
pub mod Digest
pub mod Ephemeral
pub mod Manifest
pub mod Storage
pub mod Memory
use jharness.Common.{
  ℕ, ◌+◌, ◌-◌, Bool, true, false, not, ◌&&◌, ◌||◌, String, Option, none, some, List, [], ◌∷◌,
  length, ltb, ◌==◌, decide, if◌then◌else◌, String-discrete,
}
use jharness.Errors.{Result, ok, err, value_error, ◌>>=◌, ◌>>◌, raise_if}
use jharness.Messages.{Message}
use jharness.Digest.{append_history_digest}
use jharness.History.Run.{RunHistory, digest_all}
use jharness.State.Pending.{Bytes-discrete}
use jharness.Checkpoint.{Checkpoint, is_blank, is_empty}
use Digest.{checkpoint_digest}

pub data HistoryChange : Type 0 where
  initial : RunHistory Message → HistoryChange
  appended : ℕ → List ℕ → List Message → HistoryChange
  replaced : ℕ → List ℕ → RunHistory Message → HistoryChange
  unchanged : ℕ → List ℕ → HistoryChange

pub record DurableCommit : Type 0 where
  pub checkpoint : Checkpoint
  pub parent_checkpoint_id : Option String
  pub history : HistoryChange
  pub digest : List ℕ

abbrev pub same_bytes : List ℕ → List ℕ → Bool
same_bytes b c = decide (Bytes-discrete b c)

abbrev check_base : ℕ → List ℕ → Result (Unit {0})
check_base count digest =
    raise_if (count == 0) (value_error "history base_count must be >= 1")
    >> raise_if (not (length digest == 32))
        (value_error "history base_digest must contain 32 bytes")

-- The `__post_init__` of each history change.
unfoldable pub check_change : HistoryChange → Result (Unit {0})
check_change (initial h) = ok tt
check_change (appended count digest messages) =
    check_base count digest
    >> raise_if (is_empty messages) (value_error "history append messages must not be empty")
check_change (replaced count digest h) = check_base count digest
check_change (unchanged count digest) = check_base count digest

-- `DurableCommit.expected_revision`.
unfoldable pub expected_revision : DurableCommit → Option ℕ
expected_revision c =
    if c.checkpoint.snapshot.revision == 0 then none else some (c.checkpoint.snapshot.revision - 1)

-- `base_history_count` and `base_history_digest`.
unfoldable pub base_history : HistoryChange → Option (ℕ × List ℕ)
base_history (initial h) = none
base_history (appended count digest messages) = some (count, digest)
base_history (replaced count digest h) = some (count, digest)
base_history (unchanged count digest) = some (count, digest)

abbrev pub commit_id : DurableCommit → String
commit_id c = c.checkpoint.id

abbrev pub commit_run : DurableCommit → String
commit_run c = c.checkpoint.snapshot.context.run_id

abbrev is_initial : HistoryChange → Bool
is_initial (initial h) = true
is_initial _ = false

abbrev pub has_parent : Option String → Bool
has_parent none = false
has_parent (some id) = true

abbrev blank_parent : Option String → Bool
blank_parent none = false
blank_parent (some id) = is_blank id

module _ (sha256 : List ℕ → List ℕ) where
  -- The count and digest that a history change leads to.
  unfoldable pub changed_history : HistoryChange → ℕ × List ℕ
  unfolding digest_all
  changed_history (initial h) = (h.count, h.digest)
  changed_history (appended count digest messages) =
      (count + length messages, digest_all [] (append_history_digest sha256) digest messages)
  changed_history (replaced count digest h) = (h.count, h.digest)
  changed_history (unchanged count digest) = (count, digest)

  -- `_validate_history_change`.
  unfoldable pub validate_history_change : RunHistory Message → HistoryChange → Result (Unit {0})
  unfolding changed_history
  validate_history_change target change =
      raise_if
        (not (
          target.count == (changed_history change).0
          && same_bytes target.digest (changed_history change).1))
        (value_error "history change does not produce the checkpoint history")

  -- `DurableCommit(...)`.
  unfoldable pub durable_commit : Checkpoint → Option String → HistoryChange → Result DurableCommit
  unfolding check_change validate_history_change checkpoint_digest
  durable_commit cp parent change =
      check_change change
      >> raise_if (blank_parent parent)
          (value_error "parent_checkpoint_id must be None or a non-empty string")
      >> raise_if (cp.snapshot.revision == 0 && (has_parent parent || not (is_initial change)))
          (value_error "revision 0 durable commit requires initial history and no parent")
      >> raise_if
          (not (cp.snapshot.revision == 0) && (not (has_parent parent) || is_initial change))
          (value_error "advanced durable commit requires a parent and non-initial history")
      >> validate_history_change cp.snapshot.history change
      >> ok (record {
        checkpoint = cp;
        parent_checkpoint_id = parent;
        history = change;
        digest = checkpoint_digest sha256 cp;
      })
