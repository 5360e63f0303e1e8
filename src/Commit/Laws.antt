-- ===== src/Commit/Laws.antt =====
-- The commits of the engine are accepted by the repository that holds the checkpoint before.
use jharness.Common.{
  not, true, ℕ, ◌+◌, ◌-◌, ◌≡◌, refl, ap, false, String, Option, none, some, List, [], ◌∷◌, ◌==◌,
  ==_iff, →decide, String-discrete, arith,
}
use jharness.Errors.{ok, >>=-eq-ok, >>-eq-ok, raise_if-eq-ok}
use jharness.Messages.{Message}
use jharness.Linkage.{evolve_proof}
use jharness.History.Run.{RunHistory}
use jharness.State.Pending.{Bytes-discrete}
use jharness.State.{advance_metrics}
use jharness.Snapshot.{RunContext, RunSnapshot, evolve_snapshot, evolve_messages, replaced_messages}
use jharness.Checkpoint.{Checkpoint}
use jharness.Checkpoint.Laws.{checkpoint_inv}
use jharness.Change.{Change, reduce}
use jharness.Repository.{
  initial, DurableCommit, HistoryChange, durable_commit, expected_revision, base_history,
  commit_run, commit_id,
}
use jharness.Repository.Digest.{checkpoint_digest}
use jharness.Repository.Ephemeral.{
  EphemeralRepository, find_digest, commit, commit_existing, commit_new, admit, validate_parent,
  validate_base,
}
use jharness.Commit.{persist_start, edit, history_change, apply}

base-edit :
    (count : ℕ) (digest : List ℕ) (ms : List Message) (r : Option (RunHistory Message))
    (after : RunHistory Message)
    → base_history (edit count digest ms r after) ≡ some (count, digest)
unfolding base_history
base-edit count digest ms (some r) after = refl
base-edit count digest [] none after = refl
base-edit count digest (m ∷ ms) none after = refl

module _ (sha256 : List ℕ → List ℕ) where
  evolve-next :
      (s n : RunSnapshot) (c : Change)
      → evolve_snapshot sha256 s c.append c.replace
          (advance_metrics s.metrics c.planning_steps c.tool_calls c.usage)
          c.state
        ≡ ok n
      → (n.revision ≡ s.revision + 1) × (n.context ≡ s.context)
  unfolding evolve_snapshot
  evolve-next s n c h =
      let (proof, extended, made) =
        >>=-eq-ok
          (evolve_proof sha256 s.history_proof c.append (replaced_messages c.replace) c.state) _
          h in
      let result : RunSnapshot = record {
        revision = s.revision + 1;
        context = s.context;
        history = evolve_messages s.history c.append c.replace proof.digest;
        metrics = advance_metrics s.metrics c.planning_steps c.tool_calls c.usage;
        state = c.state;
        history_proof = proof;
      } in
      let same : n ≡ result = cc in
      (ap (λ (x : RunSnapshot). x.revision) same, ap (λ (x : RunSnapshot). x.context) same)

  reduce-next :
      (s : RunSnapshot) (c : Change) (id : String) (cp : Checkpoint)
      → reduce sha256 s c id ≡ ok cp
      → (cp.snapshot.revision ≡ s.revision + 1) × (cp.snapshot.context ≡ s.context)
  unfolding reduce
  reduce-next s c id cp h =
      let (next, evolved, checked) =
        >>=-eq-ok (evolve_snapshot sha256 s c.append c.replace _ c.state) _ h in
      let (bound, snapshot, fact, made) = checkpoint_inv id next c.fact cp checked in
      let (revision, context) = evolve-next s next c evolved in
      (rw snapshot revision, rw snapshot context)

  durable_commit_inv :
      (cp : Checkpoint) (parent : Option String) (change : HistoryChange) (d : DurableCommit)
      → durable_commit sha256 cp parent change ≡ ok d
      → d ≡ record {
        checkpoint = cp;
        parent_checkpoint_id = parent;
        history = change;
        digest = checkpoint_digest sha256 cp;
      }
  unfolding durable_commit
  durable_commit_inv cp parent change d h = let (checks, made) = >>-eq-ok _ (ok _) h in cc

  apply_inv :
      (previous : Checkpoint) (c : Change) (id : String) (d : DurableCommit)
      → apply sha256 previous c id ≡ ok d
      → (expected_revision d ≡ some previous.snapshot.revision)
        × (commit_run d ≡ previous.snapshot.context.run_id)
        × (d.parent_checkpoint_id ≡ some previous.id)
        × (base_history d.history
            ≡ some (previous.snapshot.history.count, previous.snapshot.history_proof.digest))
  unfolding apply history_change expected_revision
  apply_inv previous c id d h =
      let (cp, reduced, durable) = >>=-eq-ok (reduce sha256 previous.snapshot c id) _ h in
      let (revision, context) = reduce-next previous.snapshot c id cp reduced in
      let made =
        durable_commit_inv cp (some previous.id) (history_change previous c cp) d durable in
      let run : commit_run d ≡ previous.snapshot.context.run_id =
        rw made (ap (λ (x : RunContext). x.run_id) context) in
      let back : previous.snapshot.revision + 1 - 1 ≡ previous.snapshot.revision = omega arith in
      let positive : (previous.snapshot.revision + 1 == 0) ≡ false = ground arith in
      (
        rw (made, revision, positive, back),
        run,
        rw made,
        rw made (
            base-edit previous.snapshot.history.count previous.snapshot.history_proof.digest
              c.append c.replace cp.snapshot.history),
      )

  -- If an ephemeral repository has `previous` as its head, the history of `previous` has the digest
  -- that its proof has, and the id is new, then the commit that `apply` makes of a change of
  -- `previous` is accepted, and its checkpoint becomes the head.
  pub commit-apply :
      (r : EphemeralRepository) (previous : Checkpoint) (c : Change) (id : String)
      (d : DurableCommit)
      → r.head ≡ some previous
      → previous.snapshot.history.digest ≡ previous.snapshot.history_proof.digest
      → apply sha256 previous c id ≡ ok d
      → find_digest r.by_id (commit_run d) (commit_id d) ≡ none
      → commit r d
        ≡ ok (record {
          head = some d.checkpoint;
          by_id = ((commit_run d, commit_id d), d.digest) ∷ r.by_id;
        })
  unfolding commit commit_existing commit_new admit validate_parent validate_base
  commit-apply r previous c id d head digests made fresh =
      let (expected, run, parent, base) = apply_inv previous c id d made in
      let n = previous.snapshot.revision in
      let count = previous.snapshot.history.count in
      let digest = previous.snapshot.history_proof.digest in
      rw (
        fresh,
        head,
        expected,
        parent,
        base,
        digests,
        run,
        →decide (String-discrete previous.snapshot.context.run_id previous.snapshot.context.run_id)
            refl,
        (==_iff n n).1 refl,
        →decide (String-discrete previous.id previous.id) refl,
        (==_iff count count).1 refl,
        →decide (Bytes-discrete digest digest) refl,
      )

  -- If an ephemeral repository has no head and the id is new, then the commit that `persist_start`
  -- makes is accepted, and its checkpoint becomes the head.
  pub commit-persist_start :
      (r : EphemeralRepository) (cp : Checkpoint) (d : DurableCommit)
      → r.head ≡ none
      → persist_start sha256 cp ≡ ok d
      → find_digest r.by_id (commit_run d) (commit_id d) ≡ none
      → commit r d
        ≡ ok (record { head = some cp; by_id = ((commit_run d, commit_id d), d.digest) ∷ r.by_id })
  unfolding persist_start commit commit_existing commit_new admit validate_parent validate_base
      base_history expected_revision
  commit-persist_start r cp d head made fresh =
      let (start, durable) = >>-eq-ok _ _ made in
      let zero : not (cp.snapshot.revision == 0) ≡ false = raise_if-eq-ok _ _ start in
      let revision : (cp.snapshot.revision == 0) ≡ true = ground arith in
      let same = durable_commit_inv cp none (initial cp.snapshot.history) d durable in
      let expected : expected_revision d ≡ none = rw (same, revision) in
      let base : base_history d.history ≡ none = rw same in
      let kept : d.checkpoint ≡ cp = ap (λ (x : DurableCommit). x.checkpoint) same in
      rw (fresh, head, expected, base, kept)
