-- ===== src/Repository/Ephemeral/Laws.antt =====
-- Commits to an ephemeral repository: sent again, and counted by revisions.
use jharness.Common.{
  ℕ, ◌+◌, ◌≡◌, refl, sym, ap, subst, ◌∙◌, length, Bool, true, false, not, String, Option, none,
  some, List, [], ◌∷◌, ◌≤◌, ==_iff, →decide, decide→, String-discrete, Bool-cases, Option-cases,
  inl, inr, arith,
}
use jharness.Errors.{ok, raise_if, >>=-eq-ok, >>-eq-ok, raise_if-eq-ok}
use jharness.Checkpoint.{Checkpoint}
use jharness.State.Pending.{Bytes-discrete}
use jharness.Repository.{DurableCommit, same_bytes, expected_revision, commit_id, commit_run}
use jharness.Repository.Ephemeral.{
  EphemeralRepository, find_digest, commit, commit_existing, commit_new, same_revision,
  head_revision, admit, store, other_run, ephemeral_repository, commit_all,
}

pub same_revision→ : (a b : Option ℕ) → same_revision a b ≡ true → a ≡ b
same_revision→ none none h = refl
same_revision→ (some a) (some b) h = ap some ((==_iff a b).0 h)
same_revision→ (some a) none h = cc
same_revision→ none (some b) h = cc

pub not-false : (b : Bool) → not b ≡ false → b ≡ true
not-false true h = refl
not-false false h = cc

commit_new_inv :
    (r r' : EphemeralRepository) (c : DurableCommit)
    → commit_new r c ≡ ok r'
    → (store r c ≡ r') × (head_revision r.head ≡ expected_revision c)
unfolding commit_new admit
commit_new_inv r r' c h =
    let (guards, made) = >>-eq-ok (admit r c) (ok (store r c)) h in
    let (one_run, later) = >>-eq-ok (raise_if (other_run r.head (commit_run c)) _) _ guards in
    let (expected, linked) =
      >>-eq-ok (raise_if (not (same_revision (head_revision r.head) (expected_revision c))) _) _
        later in
    (cc, same_revision→ _ _ (not-false _ (raise_if-eq-ok _ _ expected)))

find_digest-cons :
    (run id : String) (digest : List ℕ) (rest : List ((String × String) × List ℕ))
    → find_digest (((run, id), digest) ∷ rest) run id ≡ some digest
unfolding find_digest
find_digest-cons run id digest rest =
    rw (→decide (String-discrete run run) refl, →decide (String-discrete id id) refl)

accepted_again :
    (r : EphemeralRepository) (c : DurableCommit)
    → find_digest r.by_id (commit_run c) (commit_id c) ≡ some c.digest
    → commit r c ≡ ok r
unfolding commit commit_existing
accepted_again r c h = rw (h, →decide (Bytes-discrete c.digest c.digest) refl)

-- A commit that succeeded, sent again to the repository that it gave, succeeds and changes nothing.
pub commit-commit :
    (r r' : EphemeralRepository) (c : DurableCommit) → commit r c ≡ ok r' → commit r' c ≡ ok r'
unfolding commit commit_existing
commit-commit r r' c h = elim (Option-cases (find_digest r.by_id (commit_run c) (commit_id c))) [
  | inl missing ↦
      let (made, expected) = commit_new_inv r r' c (rw missing at h) in
      accepted_again r' c
        (rw (sym made) (find_digest-cons (commit_run c) (commit_id c) c.digest r.by_id))
  | inr (digest, known) ↦
      let h' = rw known at h in
      elim (Bool-cases (same_bytes c.digest digest)) [
        | inl same ↦
            let same_repository : r ≡ r' = (let k = rw same at h' in cc) in
            subst (λ (x : EphemeralRepository). commit x c ≡ ok x) same_repository
              (accepted_again r c
                (known ∙ ap some (sym (decide→ (Bytes-discrete c.digest digest) same))))
        | inr other ↦ let k = rw other at h' in cc
      ]
]

-- How many revisions a repository holds: none, or those up to its head.
abbrev pub revisions : Option Checkpoint → ℕ
revisions none = 0
revisions (some cp) = cp.snapshot.revision + 1

-- The revisions before the one that a repository starts with.
abbrev pub revisions_before : Option Checkpoint → ℕ
revisions_before none = 0
revisions_before (some cp) = cp.snapshot.revision

-- One digest is kept for each revision from a number of them on, up to the head.
abbrev IsCounted : ℕ → EphemeralRepository → Type 0
IsCounted before r = length r.by_id + before ≡ revisions r.head

expected_next :
    (head : Option Checkpoint) (c : DurableCommit)
    → head_revision head ≡ expected_revision c
    → c.checkpoint.snapshot.revision ≡ revisions head
unfolding expected_revision
expected_next none c h = ground arith
expected_next (some cp) c h = ground arith

commit-IsCounted :
    (before : ℕ) (r r' : EphemeralRepository) (c : DurableCommit)
    → IsCounted before r
    → commit r c ≡ ok r'
    → IsCounted before r'
      × (revisions r.head ≤ revisions r'.head)
      × (revisions r'.head ≤ revisions r.head + 1)
unfolding commit commit_existing
commit-IsCounted before r r' c v h =
    elim (Option-cases (find_digest r.by_id (commit_run c) (commit_id c))) [
      | inl missing ↦
          let (made, expected) = commit_new_inv r r' c (rw missing at h) in
          let next = expected_next r.head c expected in
          subst
            (λ (x : EphemeralRepository).
              IsCounted before x
              × (revisions r.head ≤ revisions x.head)
              × (revisions x.head ≤ revisions r.head + 1))
            made (omega (arith, v, next), omega (arith, next), omega (arith, next))
      | inr (digest, known) ↦
          let h' = rw known at h in
          elim (Bool-cases (same_bytes c.digest digest)) [
            | inl same ↦
                let same_repository : r ≡ r' = (let k = rw same at h' in cc) in
                subst
                  (λ (x : EphemeralRepository).
                    IsCounted before x
                    × (revisions r.head ≤ revisions x.head)
                    × (revisions x.head ≤ revisions r.head + 1))
                  same_repository (v, omega arith, omega arith)
            | inr other ↦ let k = rw other at h' in cc
          ]
    ]

commit_all-IsCounted :
    (before : ℕ) (r r' : EphemeralRepository) (cs : List DurableCommit)
    → IsCounted before r
    → commit_all r cs ≡ ok r'
    → IsCounted before r'
      × (revisions r.head ≤ revisions r'.head)
      × (revisions r'.head ≤ revisions r.head + length cs)
unfolding commit_all
commit_all-IsCounted before r r' [] v h =
    subst
      (λ (x : EphemeralRepository).
        IsCounted before x
        × (revisions r.head ≤ revisions x.head)
        × (revisions x.head ≤ revisions r.head + 0))
      (let same : r ≡ r' = cc in same) (v, omega arith, omega arith)
commit_all-IsCounted before r r' (c ∷ cs) v h =
    let (next, first, later) = >>=-eq-ok (commit r c) _ h in
    let (w, low, high) = commit-IsCounted before r next c v first in
    let (x, low', high') = commit_all-IsCounted before next r' cs w later in
    (x, omega (arith, low, low'), omega (arith, high, high'))

-- After any successful commits to a new repository, with or without an initial checkpoint, it holds
-- one digest for each revision from the initial one up to its head, and its head has gone on by no
-- more revisions than there were commits, and not back.
pub commit_all-ephemeral_repository :
    (sha256 : List ℕ → List ℕ) (initial : Option Checkpoint) (cs : List DurableCommit)
    (r : EphemeralRepository)
    → commit_all (ephemeral_repository sha256 initial) cs ≡ ok r
    → (length r.by_id + revisions_before initial ≡ revisions r.head)
      × (revisions initial ≤ revisions r.head)
      × (revisions r.head ≤ revisions initial + length cs)
unfolding ephemeral_repository
commit_all-ephemeral_repository sha256 none cs r h =
    commit_all-IsCounted 0 (ephemeral_repository sha256 none) r cs refl h
commit_all-ephemeral_repository sha256 (some cp) cs r h =
    commit_all-IsCounted cp.snapshot.revision (ephemeral_repository sha256 (some cp)) r cs
      (omega arith) h
