-- ===== src/Snapshot/Valid.antt =====
-- What a snapshot of snapshot.py keeps: a well-formed history and the proof of its messages.
use jharness.Common.{
  Bool, true, false, refl, arith, Option, ℕ, ◌+◌, ◌≡◌, some, sym, subst, ap, none, List, ◌++◌,
}
use jharness.Errors.{ok, >>=-eq-ok}
use jharness.Messages.{Message}
use jharness.History.Run.{RunHistory, iter, append}
use jharness.History.Run.Contents.{
  IsHistory, contents, append-IsHistory, contents-append, iter-contents,
}
use jharness.State.{RunState, RunMetrics}
use jharness.State.Pending.Laws.{AllPending}
use jharness.State.Pending.Equal.{same_pending_iff}
use jharness.Linkage.{
  analyze_messages, evolve_proof, pending_state, validate_proof, validate_unresolved,
  check_unresolved, may_retain, extend_proof, empty_proof, HistoryProof,
}
use jharness.State.Pending.{PendingToolCalls}
use jharness.Linkage.Incremental.{IsProofOf, evolve_proof-IsProofOf, analyze_messages-IsProofOf}
use jharness.Snapshot.{RunSnapshot, RunContext, run_snapshot, evolve_snapshot, evolve_messages}

module _ (sha256 : List ℕ → List ℕ) where
  -- The history is well formed, and the proof is that of its messages, up to the cursor that holds
  -- the open calls.
  pub record IsSnapshot (s : RunSnapshot) : Type 0 where
    pub history : IsHistory s.history
    pub proof : IsProofOf sha256 s.history_proof (contents s.history)

  -- A snapshot that `RunSnapshot(...)` makes of a well-formed history, with a cursor that is well
  -- formed if the state has one, is well formed.
  pub run_snapshot-IsSnapshot :
      (revision : ℕ) (context : RunContext) (history : RunHistory Message) (metrics : RunMetrics)
      (state : RunState) (s : RunSnapshot)
      → IsHistory history
      → AllPending sha256 (pending_state state)
      → run_snapshot sha256 revision context history metrics state ≡ ok s
      → IsSnapshot s
  unfolding run_snapshot
  run_snapshot-IsSnapshot revision context history metrics state s v w h =
      let (proof, analyzed, made) = >>=-eq-ok (analyze_messages sha256 (iter history) state) _ h in
      let known =
        subst (IsProofOf sha256 proof) (iter-contents history v)
          (analyze_messages-IsProofOf sha256 (iter history) state proof w analyzed) in
      let result : RunSnapshot = record {
        revision = revision;
        context = context;
        history = history;
        metrics = metrics;
        state = state;
        history_proof = proof;
      } in
      let valid : IsSnapshot result = record { history = v; proof = known } in
      let same : result ≡ s = cc in subst IsSnapshot same valid

  -- If evolving a well-formed snapshot by appended messages, to a state whose cursor is well formed
  -- if it has one, succeeds, then it gives a well-formed snapshot of the next revision, whose
  -- messages are those before followed by the appended ones.
  pub evolve_snapshot-IsSnapshot :
      (s s' : RunSnapshot) (messages : List Message) (metrics : RunMetrics) (state : RunState)
      → IsSnapshot s
      → AllPending sha256 (pending_state state)
      → evolve_snapshot sha256 s messages none metrics state ≡ ok s'
      → IsSnapshot s'
        × (contents s'.history ≡ contents s.history ++ messages)
        × (s'.revision ≡ s.revision + 1)
  unfolding evolve_snapshot evolve_messages
  evolve_snapshot-IsSnapshot s s' messages metrics state v w h =
      let (next, evolved, made) =
        >>=-eq-ok (evolve_proof sha256 s.history_proof messages none state) _ h in
      let known =
        evolve_proof-IsProofOf sha256 (contents s.history) messages state s.history_proof next
          v.proof w evolved in
      let history : RunHistory Message = append s.history messages next.digest in
      let all : contents history ≡ contents s.history ++ messages =
        contents-append s.history messages next.digest in
      let result : RunSnapshot = record {
        revision = s.revision + 1;
        context = s.context;
        history = history;
        metrics = metrics;
        state = state;
        history_proof = next;
      } in
      let valid : IsSnapshot result = record {
        history = append-IsHistory s.history messages next.digest v.history;
        proof = rw all known;
      } in
      let same : result ≡ s' = cc in
      (
        subst IsSnapshot same valid,
        subst (λ (r : RunSnapshot). contents r.history ≡ contents s.history ++ messages) same all,
        sym (ap (λ (r : RunSnapshot). r.revision) same),
      )

  -- Evolving by a replacement keeps nothing of the history before.
  pub evolve_snapshot-replaced :
      (s s' : RunSnapshot) (messages : List Message) (replace : RunHistory Message)
      (metrics : RunMetrics) (state : RunState)
      → IsHistory replace
      → AllPending sha256 (pending_state state)
      → evolve_snapshot sha256 s messages (some replace) metrics state ≡ ok s'
      → IsSnapshot s' × (s'.revision ≡ s.revision + 1)
  unfolding evolve_snapshot evolve_messages evolve_proof
  evolve_snapshot-replaced s s' messages replace metrics state v w h =
      let (next, analyzed, made) = >>=-eq-ok (analyze_messages sha256 (iter replace) state) _ h in
      let known =
        subst (IsProofOf sha256 next) (iter-contents replace v)
          (analyze_messages-IsProofOf sha256 (iter replace) state next w analyzed) in
      let result : RunSnapshot = record {
        revision = s.revision + 1;
        context = s.context;
        history = replace;
        metrics = metrics;
        state = state;
        history_proof = next;
      } in
      let valid : IsSnapshot result = record { history = v; proof = known } in
      let same : result ≡ s' = cc in
      (subst IsSnapshot same valid, sym (ap (λ (r : RunSnapshot). r.revision) same))

  settled_again :
      (u w x : Option PendingToolCalls) (retain : Bool)
      → AllPending sha256 w
      → check_unresolved u w retain ≡ ok x
      → check_unresolved x w retain ≡ ok x
  unfolding check_unresolved
  settled_again none none x retain v h = cc
  settled_again none (some w) x retain v h = cc
  settled_again (some u) none x true v h = ground arith
  settled_again (some u) none x false v h = cc
  settled_again (some u) (some w) x retain v h =
      let reflexive = (same_pending_iff sha256 w w v v).1 refl in ground arith

  validated_again :
      (p next : HistoryProof) (state : RunState)
      → AllPending sha256 (pending_state state)
      → validate_proof p state ≡ ok next
      → validate_proof next state ≡ ok next
  unfolding validate_proof validate_unresolved
  validated_again p next state v h =
      let (x, checked, made) =
        >>=-eq-ok (check_unresolved p.unresolved (pending_state state) (may_retain state)) _ h in
      let again = settled_again p.unresolved (pending_state state) x (may_retain state) v checked in
      let kept : next ≡ record p { unresolved = x } = cc in rw (kept, again)

  -- Validating the proof of a snapshot that `RunSnapshot(...)` makes changes nothing.
  pub run_snapshot-settled :
      (revision : ℕ) (context : RunContext) (history : RunHistory Message) (metrics : RunMetrics)
      (state : RunState) (s : RunSnapshot)
      → AllPending sha256 (pending_state state)
      → run_snapshot sha256 revision context history metrics state ≡ ok s
      → validate_proof s.history_proof s.state ≡ ok s.history_proof
  unfolding run_snapshot analyze_messages
  run_snapshot-settled revision context history metrics state s v h =
      let (proof, analyzed, made) = >>=-eq-ok (analyze_messages sha256 (iter history) state) _ h in
      let (p, extended, checked) =
        >>=-eq-ok (extend_proof sha256 (empty_proof sha256) (iter history)) _ analyzed in
      let again = validated_again p proof state v checked in
      let result : RunSnapshot = record {
        revision = revision;
        context = context;
        history = history;
        metrics = metrics;
        state = state;
        history_proof = proof;
      } in
      let same : result ≡ s = cc in
      subst (λ (r : RunSnapshot). validate_proof r.history_proof r.state ≡ ok r.history_proof) same
        again
