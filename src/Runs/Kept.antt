-- ===== src/Runs/Kept.antt =====
-- What every snapshot that a run reaches satisfies.
use jharness.Common.{
  ℕ, ◌+◌, ◌≡◌, refl, sym, ap, subst, ◌∙◌, true, false, String, Option, none, some, List, [], ◌++◌,
}
use jharness.Errors.{ok, >>=-eq-ok}
use jharness.Messages.{Message}
use jharness.History.Run.{RunHistory, iter}
use jharness.History.Run.Contents.{IsHistory, contents}
use jharness.State.{planning, RunState, RunMetrics, active}
use jharness.State.Pending.{unique_texts, ids_of}
use jharness.State.Pending.Laws.{remaining_or}
use jharness.State.Pending.Equal.{same_ids}
use jharness.Linkage.{pending_state, empty_proof, analyze_messages}
use jharness.Linkage.Ids.{call_ids, answered_ids}
use jharness.Linkage.Accounted.{extend_proof-IsAccounted, IsAccounted-empty}
use jharness.Snapshot.{RunContext, RunSnapshot, run_snapshot, evolve_snapshot}
use jharness.Snapshot.Valid.{
  IsSnapshot, run_snapshot-IsSnapshot, evolve_snapshot-IsSnapshot, evolve_snapshot-replaced,
}
use jharness.Checkpoint.{Checkpoint}
use jharness.Checkpoint.Laws.{checkpoint_inv}
use jharness.Change.{Change, reduce}
use jharness.Verification.Steps.{reduce_inv}
use jharness.Runs.{IsRun, starts, commits, empty_metrics}
use jharness.Runs.Sound.{WithCursor, IsSound, IsEngineChange-IsSound}

module _ (sha256 : List ℕ → List ℕ) where
  evolved-IsSnapshot :
      (s s' : RunSnapshot) (messages : List Message) (replace : Option (RunHistory Message))
      (metrics : RunMetrics) (state : RunState)
      → IsSnapshot sha256 s
      → WithCursor sha256 state
      → ((h : RunHistory Message) → replace ≡ some h → IsHistory h)
      → evolve_snapshot sha256 s messages replace metrics state ≡ ok s'
      → IsSnapshot sha256 s' × (s'.revision ≡ s.revision + 1)
  unfolding WithCursor
  evolved-IsSnapshot s s' messages none metrics state v w new h =
      let (valid, all, next) =
        evolve_snapshot-IsSnapshot sha256 s s' messages metrics state v w h in
      (valid, next)
  evolved-IsSnapshot s s' messages (some replace) metrics state v w new h =
      evolve_snapshot-replaced sha256 s s' messages replace metrics state (new replace refl) w h

  -- What a run keeps: well-formed snapshots with well-formed cursors, numbered by the changes.
  IsKept : RunSnapshot → ℕ → Type 0
  IsKept s n = IsSnapshot sha256 s × WithCursor sha256 s.state × (s.revision ≡ n)

  commit-IsKept :
      (s : RunSnapshot) (n : ℕ) (c : Change) (id : String) (cp : Checkpoint)
      → IsKept s n
      → IsSound sha256 c
      → reduce sha256 s c id ≡ ok cp
      → IsKept cp.snapshot (n + 1)
  unfolding reduce IsKept IsSound
  commit-IsKept s n c id cp (v, cursor, numbered) (cursor', new) h =
      let (next, evolved, checked) =
        >>=-eq-ok (evolve_snapshot sha256 s c.append c.replace _ c.state) _ h in
      let (bound, snapshot, fact, made) = checkpoint_inv id next c.fact cp checked in
      let (valid, revision) =
        evolved-IsSnapshot s next c.append c.replace _ c.state v cursor' new evolved in
      let (_, _, state, view) = reduce_inv sha256 s c id cp (unfold reduce in h) in
      (rw snapshot valid, rw state cursor', rw snapshot (revision ∙ ap (λ k. k + 1) numbered))

  start-IsKept :
      (context : RunContext) (history : RunHistory Message) (s : RunSnapshot)
      → IsHistory history
      → run_snapshot sha256 0 context history empty_metrics (active (planning false)) ≡ ok s
      → IsKept s 0
  unfolding IsKept run_snapshot WithCursor pending_state
  start-IsKept context history s v h =
      let (proof, analyzed, made) =
        >>=-eq-ok (analyze_messages sha256 (iter history) (active (planning false))) _ h in
      let result : RunSnapshot = record {
        revision = 0;
        context = context;
        history = history;
        metrics = empty_metrics;
        state = active (planning false);
        history_proof = proof;
      } in
      let same : result ≡ s = cc in
      (
        run_snapshot-IsSnapshot sha256 0 context history empty_metrics (active (planning false)) s v
            tt h,
        subst (λ (x : RunSnapshot). WithCursor sha256 x.state) same tt,
        sym (ap (λ (x : RunSnapshot). x.revision) same),
      )

  IsRun-IsKept : (s : RunSnapshot) (n : ℕ) → IsRun sha256 s n → IsKept s n
  unfolding IsKept
  IsRun-IsKept _ _ (starts context history s v h) = start-IsKept context history s v h
  IsRun-IsKept _ _ (commits s n c id cp run change h) =
      let kept = IsRun-IsKept s n run in
      commit-IsKept s n c id cp kept (IsEngineChange-IsSound sha256 s c change kept.1) h

  -- In every snapshot that a run of the engine reaches by `n` commits, the revision is `n`, no two
  -- requested calls share an id, and the ids that tool messages answer, followed by the ids of the
  -- calls that the proof holds open, are the ids of the requested calls, in order.
  pub IsRun-order :
      (s : RunSnapshot) (n : ℕ)
      → IsRun sha256 s n
      → (s.revision ≡ n)
        × (unique_texts (call_ids (contents s.history)) ≡ true)
        × (answered_ids (contents s.history) ++ ids_of (remaining_or s.history_proof.unresolved)
            ≡ call_ids (contents s.history))
  unfolding IsKept
  IsRun-order s n run =
      let (valid, cursor, numbered) = IsRun-IsKept s n run in
      let ms = contents s.history in
      let (q, extended, same) = valid.proof in
      let v =
        extend_proof-IsAccounted sha256 ms [] (empty_proof sha256) q (IsAccounted-empty sha256)
          extended in
      (
        numbered,
        v.recorded.1,
        ap (λ l. answered_ids ms ++ l) (same_ids _ _ same.open_calls.0) ∙ v.order,
      )
