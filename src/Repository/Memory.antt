-- ===== src/Repository/Memory.antt =====
-- `MemoryRunRepository` of packages/jharness-repository/src/jharness/repository/memory.py: any number
-- of runs, each with its head and a ledger of the checkpoints that it has accepted. The lock makes a
-- commit one step; the rollback of `_store_new` undoes assignments to dictionaries that cannot fail
-- in the model.
pub mod Laws
use jharness.Common.{
  ℕ, ◌<◌, Bool, true, false, not, ◌&&◌, ◌||◌, String, Option, none, some, List, [], ◌∷◌, ◌==◌, ltb,
  decide, if◌then◌else◌, String-discrete,
}
use jharness.Errors.{
  Result, ok, err, value_error, repository_error, revision_conflict, ◌>>=◌, ◌>>◌, raise_if,
}
use jharness.Checkpoint.{Checkpoint, is_blank}
use jharness.Checkpoint.Boundary.{checkpoint}
use jharness.Repository.{
  HistoryChange, DurableCommit, same_bytes, expected_revision, base_history, commit_id, commit_run,
  has_parent,
}
use jharness.Repository.Ephemeral.{same_revision, same_text}

pub record StoredHead : Type 0 where
  pub checkpoint : Checkpoint
  pub digest : List ℕ
  pub history_count : ℕ
  pub history_digest : List ℕ

pub record LedgerEntry : Type 0 where
  pub revision : ℕ
  pub digest : List ℕ

pub record MemoryRunRepository : Type 0 where
  pub heads : List (String × StoredHead)
  pub ledger : List (String × List (String × LedgerEntry))

-- `mapping.get(key)`, and `mapping[key] = value`.
unfoldable pub find {ℓ} : {A : Type ℓ} → List (String × A) → String → Option A
unfolding String-discrete
find [] key = none
find ((k, v) ∷ rest) key =
    let later = find rest key in if decide (String-discrete k key) then some v else later

unfoldable pub put {ℓ} : {A : Type ℓ} → List (String × A) → String → A → List (String × A)
unfolding String-discrete
put [] key value = (key, value) ∷ []
put ((k, v) ∷ rest) key value =
    let later = put rest key value in
    if decide (String-discrete k key) then (k, value) ∷ rest else (k, v) ∷ later

-- `_plain_string`, on a string.
unfoldable pub plain_string : String → String → Result String
plain_string value refusal = raise_if (is_blank value) (value_error refusal) >> ok value

unfoldable pub plain_parent : Option String → Result (Option String)
unfolding plain_string
plain_parent none = ok none
plain_parent (some id) = do
  plain ← plain_string id "parent checkpoint id must not be empty"
  ok (some plain)

-- `_accept_existing`.
unfoldable pub accept_existing : Option StoredHead → LedgerEntry → DurableCommit → Result (Unit {0})
accept_existing head entry c =
    raise_if (not (same_bytes entry.digest c.digest))
      (repository_error "checkpoint id was reused with new content")
    >> (raise_if (not (entry.revision == c.checkpoint.snapshot.revision))
          (repository_error "stored memory checkpoint ledger is inconsistent")
        >> raise_if (is_orphaned head)
            (repository_error "stored memory checkpoint ledger is orphaned"))
  where
    is_orphaned : Option StoredHead → Bool
    is_orphaned none = true
    is_orphaned (some h) =
        ltb h.checkpoint.snapshot.revision entry.revision
        || (h.checkpoint.snapshot.revision == entry.revision
            && (not (decide (String-discrete h.checkpoint.id (commit_id c)))
                || not (same_bytes h.digest entry.digest)))

abbrev pub head_revision : Option StoredHead → Option ℕ
head_revision none = none
head_revision (some h) = some h.checkpoint.snapshot.revision

abbrev has_base : Option (ℕ × List ℕ) → Bool
has_base none = false
has_base (some base) = true

-- `commit.base_history_count != head.history_count or commit.base_history_digest != ...`.
abbrev other_base : Option (ℕ × List ℕ) → StoredHead → Bool
other_base none h = true
other_base (some (count, digest)) h =
    not (count == h.history_count) || not (same_bytes digest h.history_digest)

unfoldable pub validate_link : Option StoredHead → DurableCommit → Option String → Result (Unit {0})
unfolding base_history
validate_link none c parent =
    raise_if (has_parent parent || has_base (base_history c.history))
      (repository_error "first durable commit has an invalid history base")
validate_link (some h) c parent =
    raise_if (not (same_text parent h.checkpoint.id))
      (repository_error "parent checkpoint does not match the authoritative head")
    >> raise_if (other_base (base_history c.history) h)
        (repository_error "history change base does not match the authoritative head")

-- `_validate_new_commit`.
unfoldable pub validate_new_commit :
    Option StoredHead → DurableCommit → Option String → Result (Unit {0})
unfolding validate_link expected_revision
validate_new_commit head c parent =
    raise_if (not (same_revision (head_revision head) (expected_revision c)))
      (revision_conflict (expected_revision c) (head_revision head))
    >> validate_link head c parent

abbrev ledger_or : Option (List (String × LedgerEntry)) → List (String × LedgerEntry)
ledger_or none = []
ledger_or (some l) = l

abbrev pub find_entry : Option (List (String × LedgerEntry)) → String → Option LedgerEntry
find_entry none id = none
find_entry (some l) id = find l id

abbrev pub stored_head : DurableCommit → Checkpoint → StoredHead
stored_head c cp = record {
  checkpoint = cp;
  digest = c.digest;
  history_count = c.checkpoint.snapshot.history.count;
  history_digest = c.checkpoint.snapshot.history_proof.digest;
}

abbrev pub stored : MemoryRunRepository → DurableCommit → Checkpoint → MemoryRunRepository
stored r c cp = record {
  heads = put r.heads (commit_run c) (stored_head c cp);
  ledger = put r.ledger (commit_run c) (
      put (ledger_or (find r.ledger (commit_run c))) (commit_id c)
        (record { revision = c.checkpoint.snapshot.revision; digest = c.digest }));
}

-- `_store_new`.
unfoldable pub store_new : MemoryRunRepository → DurableCommit → Result MemoryRunRepository
unfolding checkpoint find put
store_new r c = do
  cp ← checkpoint (commit_id c) c.checkpoint.snapshot c.checkpoint.fact
  ok (stored r c cp)

-- `commit`, once its strings are plain.
unfoldable pub commit_entry :
    MemoryRunRepository
    → DurableCommit
    → Option String
    → Option LedgerEntry
    → Result MemoryRunRepository
unfolding accept_existing validate_new_commit store_new find
commit_entry r c parent (some entry) = accept_existing (find r.heads (commit_run c)) entry c >> ok r
commit_entry r c parent none =
    validate_new_commit (find r.heads (commit_run c)) c parent >> store_new r c

-- `commit`.
unfoldable pub commit : MemoryRunRepository → DurableCommit → Result MemoryRunRepository
unfolding commit_entry plain_string plain_parent find
commit r c = do
  run ← plain_string (commit_run c) "run id must not be empty"
  id ← plain_string (commit_id c) "checkpoint id must not be empty"
  parent ← plain_parent c.parent_checkpoint_id
  commit_entry r c parent (find_entry (find r.ledger (commit_run c)) (commit_id c))

-- `get_head`, on a plain run id.
unfoldable pub get_head : MemoryRunRepository → String → Option StoredHead
unfolding find
get_head r run = find r.heads run

abbrev pub empty_repository : MemoryRunRepository
empty_repository = record { heads = []; ledger = [] }
