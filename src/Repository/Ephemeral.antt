-- ===== src/Repository/Ephemeral.antt =====
-- `EphemeralRepository` of repository.py: one run, its head, and the digests of the checkpoints that
-- it has accepted.
pub mod Laws
use jharness.Common.{
  ℕ, Bool, true, false, not, ◌&&◌, ◌||◌, String, Option, none, some, List, [], ◌∷◌, ◌==◌, decide,
  if◌then◌else◌, String-discrete,
}
use jharness.Errors.{Result, ok, err, repository_error, revision_conflict, ◌>>=◌, ◌>>◌, raise_if}
use jharness.Messages.{Message}
use jharness.History.Run.{RunHistory}
use jharness.Checkpoint.{Checkpoint}
use jharness.Repository.Digest.{checkpoint_digest}
use jharness.Repository.{
  HistoryChange, DurableCommit, same_bytes, expected_revision, base_history, commit_id, commit_run,
  initial,
}

pub record EphemeralRepository : Type 0 where
  pub head : Option Checkpoint
  pub by_id : List ((String × String) × List ℕ)

-- `self._by_id.get(key)`.
unfoldable pub find_digest : List ((String × String) × List ℕ) → String → String → Option (List ℕ)
unfolding String-discrete
find_digest [] run id = none
find_digest (((r, i), digest) ∷ rest) run id =
    let later = find_digest rest run id in
    if decide (String-discrete r run) && decide (String-discrete i id) then some digest else later

abbrev pub same_revision : Option ℕ → Option ℕ → Bool
same_revision none none = true
same_revision (some a) (some b) = a == b
same_revision _ _ = false

abbrev pub same_text : Option String → String → Bool
same_text none t = false
same_text (some s) t = decide (String-discrete s t)

abbrev pub head_revision : Option Checkpoint → Option ℕ
head_revision none = none
head_revision (some cp) = some cp.snapshot.revision

-- `head.snapshot.context.run_id != run_id`.
abbrev pub other_run : Option Checkpoint → String → Bool
other_run none run = false
other_run (some cp) run = not (decide (String-discrete cp.snapshot.context.run_id run))

-- `_validate_base`.
unfoldable pub validate_base : Option (ℕ × List ℕ) → RunHistory Message → Result (Unit {0})
validate_base none actual =
    err (repository_error "advanced durable commit cannot contain initial history")
validate_base (some (count, digest)) actual =
    raise_if (not (count == actual.count) || not (same_bytes digest actual.digest))
      (repository_error "history change base does not match the authoritative head")

abbrev is_initial : Option (ℕ × List ℕ) → Bool
is_initial none = true
is_initial (some base) = false

unfoldable pub validate_parent : Option Checkpoint → DurableCommit → Result (Unit {0})
unfolding validate_base base_history
validate_parent none c =
    raise_if (not (is_initial (base_history c.history)))
      (repository_error "first durable commit requires initial history")
validate_parent (some head) c =
    raise_if (not (same_text c.parent_checkpoint_id head.id))
      (repository_error "parent checkpoint does not match the authoritative head")
    >> validate_base (base_history c.history) head.snapshot.history

-- The guards of a commit whose id is new.
unfoldable pub admit : EphemeralRepository → DurableCommit → Result (Unit {0})
unfolding validate_parent expected_revision
admit r c =
    raise_if (other_run r.head (commit_run c))
      (repository_error "an ephemeral invocation repository cannot contain more than one run")
    >> (raise_if (not (same_revision (head_revision r.head) (expected_revision c)))
          (revision_conflict (expected_revision c) (head_revision r.head))
        >> validate_parent r.head c)

abbrev pub store : EphemeralRepository → DurableCommit → EphemeralRepository
store r c = record {
  head = some c.checkpoint;
  by_id = ((commit_run c, commit_id c), c.digest) ∷ r.by_id;
}

unfoldable pub commit_new : EphemeralRepository → DurableCommit → Result EphemeralRepository
unfolding admit
commit_new r c = admit r c >> ok (store r c)

unfoldable pub commit_existing :
    EphemeralRepository → DurableCommit → Option (List ℕ) → Result EphemeralRepository
unfolding commit_new
commit_existing r c none = commit_new r c
commit_existing r c (some digest) =
    if same_bytes c.digest digest
    then ok r
    else err (repository_error "checkpoint id was reused with new content")

-- `commit`.
unfoldable pub commit : EphemeralRepository → DurableCommit → Result EphemeralRepository
unfolding commit_existing find_digest
commit r c = commit_existing r c (find_digest r.by_id (commit_run c) (commit_id c))

-- `EphemeralRepository()`, without an initial checkpoint.
abbrev pub empty_repository : EphemeralRepository
empty_repository = record { head = none; by_id = [] }

-- `EphemeralRepository(initial)`: an initial checkpoint is the head, and its digest is kept.
module _ (sha256 : List ℕ → List ℕ) where
  unfoldable pub ephemeral_repository : Option Checkpoint → EphemeralRepository
  unfolding checkpoint_digest
  ephemeral_repository none = empty_repository
  ephemeral_repository (some starting) = record {
    head = some starting;
    by_id =
        ((starting.snapshot.context.run_id, starting.id), checkpoint_digest sha256 starting) ∷ [];
  }

-- The calls of `commit` that one invocation makes, one after the other.
unfoldable pub commit_all : EphemeralRepository → List DurableCommit → Result EphemeralRepository
unfolding commit
commit_all r [] = ok r
commit_all r (c ∷ cs) = do next ← commit r c; commit_all next cs
