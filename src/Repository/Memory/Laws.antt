-- ===== src/Repository/Memory/Laws.antt =====
-- Commits to the in-memory repository are idempotent, advance one run, and leave the others alone.
use jharness.Common.{
  ◌≡◌, ◌≢◌, refl, sym, ap, subst, ◌∙◌, false, not, String, Option, none, some, List, [], ◌∷◌,
  ==_iff, ltb, decide, →decide, decide→, String-discrete, Bool-cases, Option-cases, inl, inr, arith,
  ◌⊎◌,
}
use jharness.Errors.{ok, ◌>>◌, raise_if, >>=-eq-ok, >>-eq-ok, raise_if-eq-ok, value_error}
use jharness.Checkpoint.{is_blank}
use jharness.Checkpoint.Boundary.{checkpoint}
use jharness.Checkpoint.Laws.{checkpoint_inv}
use jharness.State.Pending.{Bytes-discrete}
use jharness.Repository.{DurableCommit, expected_revision, commit_id, commit_run}
use jharness.Repository.Memory.{
  MemoryRunRepository, StoredHead, LedgerEntry, find, put, find_entry, ledger_or, stored,
  stored_head, plain_string, plain_parent, accept_existing, validate_new_commit, store_new,
  commit_entry, commit, get_head, head_revision,
}
use jharness.Repository.Ephemeral.{same_revision}
use jharness.Repository.Ephemeral.Laws.{same_revision→, not-false}

decide_no : (s t : String) → s ≢ t → decide (String-discrete s t) ≡ false
decide_no s t h = elim (Bool-cases (decide (String-discrete s t))) [
  | inl same ↦ absurd (h (decide→ (String-discrete s t) same))
  | inr other ↦ other
]

find-put {ℓ} :
    {A : Type ℓ} (m : List (String × A)) (k : String) (v : A) → find (put m k v) k ≡ some v
unfolding find put
find-put [] k v = rw (→decide (String-discrete k k) refl)
find-put ((j, w) ∷ m) k v = elim (Bool-cases (decide (String-discrete j k))) [
  | inl same ↦ rw (same, same)
  | inr other ↦ rw (other, other, find-put m k v)
]

find-put_other {ℓ} :
    {A : Type ℓ} (m : List (String × A)) (k l : String) (v : A)
    → l ≢ k
    → find (put m k v) l ≡ find m l
unfolding find put
find-put_other [] k l v h = rw (decide_no k l (λ e. h (sym e)))
find-put_other ((j, w) ∷ m) k l v h = elim (Bool-cases (decide (String-discrete j k))) [
  | inl same ↦
      let e = decide→ (String-discrete j k) same in rw (same, decide_no j l (λ e'. h (sym e' ∙ e)))
  | inr other ↦ rw (other, find-put_other m k l v h)
]

plain_string_same :
    (v refusal w : String) → plain_string v refusal ≡ ok w → plain_string v refusal ≡ ok v
unfolding plain_string
plain_string_same v refusal w h =
    let (passed, same) = >>-eq-ok (raise_if (is_blank v) (value_error refusal)) (ok v) h in
    rw passed

commit_inv :
    (r r' : MemoryRunRepository) (c : DurableCommit)
    → commit r c ≡ ok r'
    → (parent : Option String) × (plain_string (commit_run c) "run id must not be empty"
        ≡ ok (commit_run c))
      × (plain_string (commit_id c) "checkpoint id must not be empty" ≡ ok (commit_id c))
      × (plain_parent c.parent_checkpoint_id ≡ ok parent)
      × (commit_entry r c parent (find_entry (find r.ledger (commit_run c)) (commit_id c)) ≡ ok r')
unfolding commit
commit_inv r r' c h =
    let (run, first, h1) = >>=-eq-ok (plain_string (commit_run c) "run id must not be empty") _ h in
    let (id, second, h2) =
      >>=-eq-ok (plain_string (commit_id c) "checkpoint id must not be empty") _ h1 in
    let (parent, third, h3) = >>=-eq-ok (plain_parent c.parent_checkpoint_id) _ h2 in
    (parent, plain_string_same _ _ _ first, plain_string_same _ _ _ second, third, h3)

-- A commit whose id is new stores its own checkpoint, at the revision after the head's.
commit_new_inv :
    (r r' : MemoryRunRepository) (c : DurableCommit) (parent : Option String)
    → commit_entry r c parent none ≡ ok r'
    → (stored r c c.checkpoint ≡ r')
      × (head_revision (find r.heads (commit_run c)) ≡ expected_revision c)
unfolding commit_entry store_new validate_new_commit
commit_new_inv r r' c parent h =
    let (passed, made) =
      >>-eq-ok (validate_new_commit (find r.heads (commit_run c)) c parent) (store_new r c) h in
    let (expected, linked) =
      >>-eq-ok
        (raise_if
          (not (same_revision (head_revision (find r.heads (commit_run c))) (expected_revision c)))
          _)
        _ passed in
    let (cp, again, kept) =
      >>=-eq-ok (checkpoint (commit_id c) c.checkpoint.snapshot c.checkpoint.fact) _ made in
    let (_, _, _, same) =
      checkpoint_inv (commit_id c) c.checkpoint.snapshot c.checkpoint.fact cp again in
    let result : stored r c cp ≡ r' = cc in
    (ap (stored r c) same ∙ result, same_revision→ _ _ (not-false _ (raise_if-eq-ok _ _ expected)))

-- The two ways of a commit: an exact retry, which keeps the repository, or a new revision.
commit_entry_inv :
    (r r' : MemoryRunRepository) (c : DurableCommit) (parent : Option String)
    (entry : Option LedgerEntry)
    → commit_entry r c parent entry ≡ ok r'
    → (r ≡ r') ⊎ (stored r c c.checkpoint ≡ r')
unfolding commit_entry
commit_entry_inv r r' c parent (some entry) h =
    let (passed, same) =
      >>-eq-ok (accept_existing (find r.heads (commit_run c)) entry c) (ok r) h in
    inl cc
commit_entry_inv r r' c parent none h = inr (commit_new_inv r r' c parent h).0

-- A successful commit leaves the heads of other runs as they were.
pub commit-isolated :
    (r r' : MemoryRunRepository) (c : DurableCommit) (run : String)
    → commit r c ≡ ok r'
    → run ≢ commit_run c
    → get_head r' run ≡ get_head r run
unfolding get_head
commit-isolated r r' c run h other =
    let (parent, _, _, _, entered) = commit_inv r r' c h in
    elim (commit_entry_inv r r' c parent _ entered) [
      | inl same ↦ rw same
      | inr made ↦ rw (sym made) (find-put_other r.heads (commit_run c) run _ other)
    ]

-- After a successful commit whose checkpoint id was new to its run, the head of the run is the
-- committed checkpoint, and the head before was at the revision that the commit expects.
pub commit-head :
    (r r' : MemoryRunRepository) (c : DurableCommit)
    → commit r c ≡ ok r'
    → find_entry (find r.ledger (commit_run c)) (commit_id c) ≡ none
    → (h : StoredHead) × (get_head r' (commit_run c) ≡ some h)
      × (h.checkpoint ≡ c.checkpoint)
      × (head_revision (get_head r (commit_run c)) ≡ expected_revision c)
unfolding get_head
commit-head r r' c h missing =
    let (parent, _, _, _, entered) = commit_inv r r' c h in
    let (made, expected) = commit_new_inv r r' c parent (rw missing at entered) in
    let head = stored_head c c.checkpoint in
    (head, rw (sym made) (find-put r.heads (commit_run c) head), refl, expected)

accepts_stored :
    (r : MemoryRunRepository) (c : DurableCommit)
    → accept_existing
        (find (stored r c c.checkpoint).heads (commit_run c))
        (record { revision = c.checkpoint.snapshot.revision; digest = c.digest })
        c
      ≡ ok tt
unfolding accept_existing
accepts_stored r c =
    let n = c.checkpoint.snapshot.revision in
    let at_head : ltb n n ≡ false = ground arith in
    rw (
      find-put r.heads (commit_run c),
      →decide (Bytes-discrete c.digest c.digest) refl,
      (==_iff n n).1 refl,
      at_head,
      →decide (String-discrete (commit_id c) (commit_id c)) refl,
    )

-- A commit that succeeded, sent again to the repository that it gave, succeeds and changes nothing.
pub commit-idempotent :
    (r r' : MemoryRunRepository) (c : DurableCommit) → commit r c ≡ ok r' → commit r' c ≡ ok r'
unfolding commit commit_entry
commit-idempotent r r' c h =
    let (parent, run, id, parents, entered) = commit_inv r r' c h in
    elim (Option-cases (find_entry (find r.ledger (commit_run c)) (commit_id c))) [
      | inl missing ↦
          let (made, expected) = commit_new_inv r r' c parent (rw missing at entered) in
          rw
            (
              sym made,
              run,
              id,
              parents,
              find-put r.ledger (commit_run c),
              find-put (ledger_or (find r.ledger (commit_run c))) (commit_id c),
            )
            (ap (λ m. m >> ok (stored r c c.checkpoint)) (accepts_stored r c))
      | inr (entry, known) ↦
          let (passed, same) =
            >>-eq-ok (accept_existing (find r.heads (commit_run c)) entry c) (ok r)
              (rw known at entered) in
          let kept : r ≡ r' = cc in subst (λ x. commit x c ≡ ok r') kept h
    ]
