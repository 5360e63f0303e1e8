-- ===== src/Requests/Laws.antt =====
-- What the engine makes of a request that its constructor accepts.
use jharness.Common.{
  ℕ, ◌+◌, ◌≡◌, refl, ap, ◌∙◌, subst, Bool, true, false, String, none, List, [], ◌∷◌, ◌++◌, arith,
}
use jharness.Errors.{ok, ◌>>=◌, >>=-eq-ok}
use jharness.Json.{Json, Entries}
use jharness.Messages.{Message, Role}
use jharness.History.Run.Contents.{contents}
use jharness.State.{
  ActiveState, planning, tools_pending, Suspension, RunState, active, suspended, completed, failed,
  limited, advance_metrics,
}
use jharness.State.Pending.Laws.{AllPending}
use jharness.Linkage.{
  HistoryProof, advance_linkage, extend_proof, validate_proof, validate_unresolved,
  check_unresolved, pending_state, evolve_proof, open_calls, calls_by_role,
}
use jharness.Digest.{append_history_digest}
use jharness.Snapshot.{RunSnapshot, evolve_snapshot, evolve_messages}
use jharness.History.Run.{append}
use jharness.Json.Keys.{keys, sorted_keys}
use jharness.Json.Keys.Laws.{check_texts-sorted_keys}
use jharness.State.Pending.{has_text, unique_texts}
use jharness.Snapshot.Valid.{IsSnapshot, evolve_snapshot-IsSnapshot}
use jharness.Checkpoint.{Checkpoint, is_blank, is_empty, resumed, check_fact}
use jharness.Checkpoint.Boundary.{
  checkpoint, validate_boundary, validate_advanced, validate_resumed, roles_of,
}
use jharness.Change.{Change, reduce}
use jharness.Change.Engine.{resume, resumed_change}
use jharness.Requests.{
  ResumeRequest, check_resume, check_resume_fields, resumption, any_irregular, irregular,
  uninterruptible, expect_suspended,
}

suspended_inv :
    (s : RunState) (a : ActiveState) (x : Suspension)
    → expect_suspended s ≡ ok (a, x)
    → s ≡ suspended a x
suspended_inv (suspended b y) a x h =
    let same : (b, y) ≡ (a, x) = cc in ap (λ (p : ActiveState × Suspension). suspended p.0 p.1) same
suspended_inv (active b) a x h = cc
suspended_inv (completed parts) a x h = cc
suspended_inv (failed e) a x h = cc
suspended_inv (limited r) a x h = cc

pending_resumed :
    (a : ActiveState) (x : Suspension) → pending_state (suspended a x) ≡ pending_state (active a)
unfolding pending_state
pending_resumed (planning b) x = refl
pending_resumed (tools_pending p b) x = refl

resume_accepted :
    (now : String) (a : ActiveState) (ms : List Message) (metadata : Entries)
    → has_text "" (keys metadata) ≡ false
    → unique_texts (keys metadata) ≡ true
    → resume now a ms metadata ≡ ok (resumed_change now a ms metadata)
unfolding resume check_fact
resume_accepted now a ms metadata filled distinct =
    rw (check_texts-sorted_keys metadata filled distinct)

module _ (sha256 : List ℕ → List ℕ) where
  -- A regular message opens no call, and answers none.
  advance_regular :
      (m : Message) (p : HistoryProof)
      → irregular m.role ≡ false
      → p.unresolved ≡ none
      → advance_linkage sha256 m p.unresolved p.seen_call_ids ≡ ok (none, p.seen_call_ids)
  unfolding advance_linkage open_calls calls_by_role
  advance_regular m p regular settled = rw settled (ground arith)

  extend_regular :
      (ms : List Message) (p : HistoryProof)
      → any_irregular ms ≡ false
      → p.unresolved ≡ none
      → (q : HistoryProof) × (extend_proof sha256 p ms ≡ ok q) × (q.unresolved ≡ none)
  unfolding extend_proof
  extend_regular [] p regular settled = (p, refl, settled)
  extend_regular (m ∷ ms) p regular settled =
      let next : HistoryProof = record {
        digest = append_history_digest sha256 p.digest m;
        seen_call_ids = p.seen_call_ids;
        unresolved = none;
      } in
      let (q, extended, kept) = extend_regular ms next (ground arith) refl in
      (q, rw (advance_regular m p (ground arith) settled, extended), kept)

  -- The proof of a suspended snapshot fits the state that it resumes to.
  validate_proof-active :
      (p : HistoryProof) (a : ActiveState) (x : Suspension)
      → validate_proof p (suspended a x) ≡ ok p
      → validate_proof p (active a) ≡ ok p
  unfolding validate_proof validate_unresolved pending_state
  validate_proof-active p (planning b) x h = h
  validate_proof-active p (tools_pending q b) x h = h

  none_left :
      (p : HistoryProof) (b : Bool) (x : Suspension)
      → validate_proof p (suspended (planning b) x) ≡ ok p
      → p.unresolved ≡ none
  unfolding validate_proof validate_unresolved pending_state check_unresolved
  none_left p b x h = ground arith

  validate_proof-settled :
      (q : HistoryProof)
      → q.unresolved ≡ none
      → validate_proof q (active (planning false)) ≡ ok (record q { unresolved = none })
  unfolding validate_proof validate_unresolved pending_state check_unresolved
  validate_proof-settled q settled = rw settled

  evolve_resumed :
      (p : HistoryProof) (a : ActiveState) (x : Suspension) (ms : List Message)
      → validate_proof p (suspended a x) ≡ ok p
      → (is_empty ms ≡ false → uninterruptible a ≡ false)
      → any_irregular ms ≡ false
      → (q : HistoryProof) × (evolve_proof sha256 p ms none (active a) ≡ ok q)
  unfolding evolve_proof
  evolve_resumed p a x [] h free regular = (p, validate_proof-active p a x h)
  evolve_resumed p (planning false) x (m ∷ ms) h free regular =
      let (q, extended, settled) = extend_regular (m ∷ ms) p regular (none_left p false x h) in
      (record q { unresolved = none }, rw extended (validate_proof-settled q settled))
  evolve_resumed p (planning true) x (m ∷ ms) h free regular = absurd (cc (free refl))
  evolve_resumed p (tools_pending r b) x (m ∷ ms) h free regular = absurd (cc (free refl))

  -- `reduce` in two steps.
  reduce_made :
      (s next : RunSnapshot) (c : Change) (id : String) (cp : Checkpoint)
      → evolve_snapshot sha256 s c.append c.replace
          (advance_metrics s.metrics c.planning_steps c.tool_calls c.usage)
          c.state
        ≡ ok next
      → checkpoint id next c.fact ≡ ok cp
      → reduce sha256 s c id ≡ ok cp
  unfolding reduce
  reduce_made s next c id cp made checked =
      ap (λ r. r >>= (λ n. checkpoint id n c.fact)) made ∙ checked

  abbrev resumed_snapshot : RunSnapshot → List Message → ActiveState → HistoryProof → RunSnapshot
  resumed_snapshot s ms a q = record {
    revision = s.revision + 1;
    context = s.context;
    history = append s.history ms q.digest;
    metrics = advance_metrics s.metrics 0 0 none;
    state = active a;
    history_proof = q;
  }

  evolved_state :
      (s : RunSnapshot) (ms : List Message) (a : ActiveState) (q : HistoryProof)
      → evolve_proof sha256 s.history_proof ms none (active a) ≡ ok q
      → evolve_snapshot sha256 s ms none (advance_metrics s.metrics 0 0 none) (active a)
        ≡ ok (resumed_snapshot s ms a q)
  unfolding evolve_snapshot evolve_messages
  evolved_state s ms a q evolved = rw evolved

  checkpoint_resumed :
      (id now : String) (n : RunSnapshot) (a : ActiveState) (k : ℕ) (roles : List Role)
      (keys : List String)
      → is_blank id ≡ false
      → n.state ≡ active a
      → n.revision ≡ k + 1
      → checkpoint id n (record { at = now; body = resumed roles keys })
        ≡ ok (record {
          id = id;
          snapshot = n;
          fact = record { at = now; body = resumed roles keys };
        })
  unfolding checkpoint validate_boundary validate_advanced validate_resumed
  checkpoint_resumed id now n a k roles keys named state revision = ground arith

  -- Committing a resumption to a snapshot that is as its constructor leaves it.
  reduce-resume :
      (now id : String) (s : RunSnapshot) (a : ActiveState) (x : Suspension) (ms : List Message)
      (metadata : Entries)
      → IsSnapshot sha256 s
      → AllPending sha256 (pending_state (active a))
      → validate_proof s.history_proof (suspended a x) ≡ ok s.history_proof
      → is_blank id ≡ false
      → (is_empty ms ≡ false → uninterruptible a ≡ false)
      → any_irregular ms ≡ false
      → (cp : Checkpoint) × (reduce sha256 s (resumed_change now a ms metadata) id ≡ ok cp)
        × (cp.snapshot.state ≡ active a)
        × (contents cp.snapshot.history ≡ contents s.history ++ ms)
        × (cp.snapshot.revision ≡ s.revision + 1)
  unfolding resumed_change
  reduce-resume now id s a x ms metadata v w h named free regular =
      let (q, evolved) = evolve_resumed s.history_proof a x ms h free regular in
      let next = resumed_snapshot s ms a q in
      let made = evolved_state s ms a q evolved in
      let (_, appended, later) =
        evolve_snapshot-IsSnapshot sha256 s next ms (advance_metrics s.metrics 0 0 none) (active a)
          v w made in
      let cp : Checkpoint = record {
        id = id;
        snapshot = next;
        fact = (resumed_change now a ms metadata).fact;
      } in
      let checked =
        checkpoint_resumed id now next a s.revision (roles_of ms) (sorted_keys metadata) named refl
          refl in
      (
        cp,
        reduce_made s next (resumed_change now a ms metadata) id cp made checked,
        refl,
        appended,
        refl,
      )

  module _ (same_number : Json → Json → Bool) where
    resume_fields :
        (r : ResumeRequest) (a : ActiveState) (x : Suspension)
        → check_resume_fields same_number r a x ≡ ok tt
        → (is_empty r.append_messages ≡ false → uninterruptible a ≡ false)
          × (any_irregular r.append_messages ≡ false)
    unfolding check_resume_fields
    resume_fields r a x h = (λ given. ground arith, ground arith)

    -- A resume request that its constructor accepts, on a snapshot as its constructor leaves it, and
    -- whose metadata has distinct keys, none of them empty, is committed under any id that is not
    -- empty: the run becomes active where it was suspended, with the given messages appended, one
    -- revision later.
    pub reduce-resumption :
        (now id : String) (r : ResumeRequest)
        → IsSnapshot sha256 r.checkpoint.snapshot
        → AllPending sha256 (pending_state r.checkpoint.snapshot.state)
        → validate_proof r.checkpoint.snapshot.history_proof r.checkpoint.snapshot.state
          ≡ ok r.checkpoint.snapshot.history_proof
        → is_blank id ≡ false
        → has_text "" (keys r.metadata) ≡ false
        → unique_texts (keys r.metadata) ≡ true
        → check_resume same_number r ≡ ok tt
        → (a : ActiveState) × (x : Suspension) × (c : Change) × (cp : Checkpoint)
          × (r.checkpoint.snapshot.state ≡ suspended a x)
          × (resumption now r ≡ ok c)
          × (reduce sha256 r.checkpoint.snapshot c id ≡ ok cp)
          × (cp.snapshot.state ≡ active a)
          × (contents cp.snapshot.history
              ≡ contents r.checkpoint.snapshot.history ++ r.append_messages)
          × (cp.snapshot.revision ≡ r.checkpoint.snapshot.revision + 1)
    unfolding check_resume resumption
    reduce-resumption now id r v w h named filled distinct checked =
        let s = r.checkpoint.snapshot in
        let ((a, x), found, fields) = >>=-eq-ok (expect_suspended s.state) _ checked in
        let e = suspended_inv s.state a x found in
        let (free, regular) = resume_fields r a x fields in
        let pending =
          subst (AllPending sha256) (pending_resumed a x)
            (subst (λ (st : RunState). AllPending sha256 (pending_state st)) e w) in
        let settled =
          subst (λ (st : RunState). validate_proof s.history_proof st ≡ ok s.history_proof) e h in
        let (cp, committed, state, appended, later) =
          reduce-resume now id s a x r.append_messages r.metadata v pending settled named free
            regular in
        (
          a,
          x,
          resumed_change now a r.append_messages r.metadata,
          cp,
          e,
          rw found (resume_accepted now a r.append_messages r.metadata filled distinct),
          committed,
          state,
          appended,
          later,
        )
