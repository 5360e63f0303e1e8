-- ===== src/Commit.antt =====
-- `Committer` of packages/jharness-kernel/src/jharness/kernel/_engine/commit.py, without its clocks:
-- the durable commits that it hands to the repository.
pub mod Laws
use jharness.Common.{ℕ, Bool, true, false, not, String, Option, none, some, List, [], ◌∷◌, ◌==◌}
use jharness.Errors.{Result, ok, value_error, ◌>>=◌, ◌>>◌, raise_if}
use jharness.Messages.{Message}
use jharness.History.Run.{RunHistory}
use jharness.Checkpoint.{Checkpoint}
use jharness.Change.{Change, reduce}
use jharness.Repository.{
  HistoryChange, initial, appended, replaced, unchanged, DurableCommit, durable_commit,
}

abbrev pub edit :
    ℕ → List ℕ → List Message → Option (RunHistory Message) → RunHistory Message → HistoryChange
edit count digest messages (some replace) after = replaced count digest after
edit count digest [] none after = unchanged count digest
edit count digest (m ∷ ms) none after = appended count digest (m ∷ ms)

-- `_history_change`.
unfoldable pub history_change : Checkpoint → Change → Checkpoint → HistoryChange
history_change previous c cp =
    edit previous.snapshot.history.count previous.snapshot.history_proof.digest c.append c.replace
      cp.snapshot.history

module _ (sha256 : List ℕ → List ℕ) where
  -- The commit of `persist_start`.
  unfoldable pub persist_start : Checkpoint → Result DurableCommit
  unfolding durable_commit
  persist_start cp =
      raise_if (not (cp.snapshot.revision == 0)) (value_error "start checkpoint revision must be 0")
      >> durable_commit sha256 cp none (initial cp.snapshot.history)

  -- The commit of `apply`, with the new checkpoint's id.
  unfoldable pub apply : Checkpoint → Change → String → Result DurableCommit
  unfolding reduce durable_commit history_change
  apply previous c id = do
    cp ← reduce sha256 previous.snapshot c id
    durable_commit sha256 cp (some previous.id) (history_change previous c cp)
