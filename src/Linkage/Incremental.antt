-- ===== src/Linkage/Incremental.antt =====
-- Validating one edit of _history.py gives what validating the whole edited history gives.
use jharness.Common.{
  ℕ, ◌≡◌, refl, sym, subst, ◌∙◌, Bool, Option, none, some, List, [], ◌∷◌, ◌++◌, Bool-cases, inl,
  inr,
}
use jharness.Errors.{
  Result, ok, err, ◌>>=◌, Agree, Agree-bind, Agree-raise_unless, bind_assoc, bind_cong, >>=-eq-ok,
}
use jharness.Messages.{Message}
use jharness.Digest.{append_history_digest}
use jharness.State.{RunState}
use jharness.State.Pending.{PendingToolCalls, same_pending}
use jharness.State.Pending.Laws.{IsPending, AllPending}
use jharness.State.Pending.Equal.{same_pending_iff}
use jharness.Linkage.{
  HistoryProof, advance_linkage, extend_proof, empty_proof, validate_unresolved, check_unresolved,
  validate_proof, analyze_messages, evolve_proof, pending_state, may_retain,
}
use jharness.Linkage.Order.{validate_unresolved-Kept}
use jharness.Linkage.Agreement.{SameOpen, SameProof, not_pending_nil, extend_proof-Agree}

module _ (sha256 : List ℕ → List ℕ) where
  extend_proof-append :
      (ms ns : List Message) (p : HistoryProof)
      → extend_proof sha256 p (ms ++ ns)
        ≡ (extend_proof sha256 p ms >>= λ q. extend_proof sha256 q ns)
  unfolding extend_proof
  extend_proof-append [] ns p = refl
  extend_proof-append (m ∷ ms) ns p =
      bind_cong (advance_linkage sha256 m p.unresolved p.seen_call_ids) _ _ (λ link.
        extend_proof-append ms ns (record {
          digest = append_history_digest sha256 p.digest m;
          seen_call_ids = link.1;
          unresolved = link.0;
        }))
      ∙ sym (bind_assoc (advance_linkage sha256 m p.unresolved p.seen_call_ids) _ _)

  same_pending-cong :
      (a b c : PendingToolCalls)
      → SameOpen sha256 (some a) (some b)
      → IsPending sha256 c
      → same_pending a c ≡ same_pending b c
  same_pending-cong a b c h v = elim (Bool-cases (same_pending a c)) [
    | inl same ↦ rw same (
        sym (
          (same_pending_iff sha256 b c h.2 v).1
            (sym h.0 ∙ (same_pending_iff sha256 a c h.1 v).0 same)))
    | inr other ↦ elim (Bool-cases (same_pending b c)) [
      | inl same ↦
          let back =
            (same_pending_iff sha256 a c h.1 v).1
              (h.0 ∙ (same_pending_iff sha256 b c h.2 v).0 same) in
          rw same back
      | inr other' ↦ rw (other, other')
    ]
  ]

  check_unresolved-Agree :
      (u w state : Option PendingToolCalls) (retain : Bool)
      → SameOpen sha256 u w
      → AllPending sha256 state
      → Agree (SameOpen sha256) (check_unresolved u state retain) (check_unresolved w state retain)
  unfolding check_unresolved
  check_unresolved-Agree none (some q) state retain h v =
      absurd (not_pending_nil sha256 q h.2 (sym h.0))
  check_unresolved-Agree (some p) none state retain h v = absurd (not_pending_nil sha256 p h.1 h.0)
  check_unresolved-Agree none none none retain h v = h
  check_unresolved-Agree none none (some s) retain h v = refl
  check_unresolved-Agree (some p) (some q) none retain h v =
      Agree-raise_unless (SameOpen sha256) retain _ (ok (some p)) (ok (some q)) h
  check_unresolved-Agree (some p) (some q) (some s) retain h v = rw (same_pending-cong p q s h v) (
      Agree-raise_unless (SameOpen sha256) (same_pending q s) _ (ok (some s)) (ok (some s))
        (refl, v, v))

  pub validate_proof-Agree :
      (p q : HistoryProof) (state : RunState)
      → SameProof sha256 p q
      → AllPending sha256 (pending_state state)
      → Agree (SameProof sha256) (validate_proof p state) (validate_proof q state)
  unfolding validate_proof validate_unresolved
  validate_proof-Agree p q state h v =
      Agree-bind (SameOpen sha256) (SameProof sha256) _ _ _ _
        (check_unresolved-Agree p.unresolved q.unresolved (pending_state state) (may_retain state)
          h.open_calls v)
        (λ u w s. record { digests = h.digests; seen = h.seen; open_calls = s })

  evolve-extend :
      (ms : List Message) (proof : HistoryProof) (state : RunState)
      → evolve_proof sha256 proof ms none state
        ≡ (extend_proof sha256 proof ms >>= λ p. validate_proof p state)
  unfolding evolve_proof extend_proof
  evolve-extend [] proof state = refl
  evolve-extend (m ∷ ms) proof state = refl

  valid_at :
      (m : Result HistoryProof) (p : HistoryProof)
      → m ≡ ok p
      → Agree (SameProof sha256) m m
      → SameProof sha256 p p
  valid_at m p e h = rw e at h

  same_left : (p q : HistoryProof) → SameProof sha256 p q → SameProof sha256 p p
  same_left p q h = record {
    digests = refl;
    seen = refl;
    open_calls = (refl, h.open_calls.1, h.open_calls.1);
  }

  same_trans :
      (p q r : HistoryProof) → SameProof sha256 p q → SameProof sha256 q r → SameProof sha256 p r
  same_trans p q r h k = record {
    digests = h.digests ∙ k.digests;
    seen = h.seen ∙ k.seen;
    open_calls = (h.open_calls.0 ∙ k.open_calls.0, h.open_calls.1, k.open_calls.2);
  }

  pub Agree-ok :
      (m n : Result HistoryProof) (p : HistoryProof)
      → m ≡ ok p
      → Agree (SameProof sha256) m n
      → (q : HistoryProof) × (n ≡ ok q) × SameProof sha256 p q
  Agree-ok m (ok q) p e h = (q, refl, rw e at h)
  Agree-ok m (err x) p e h = absurd (rw e at h)

  validated-same :
      (p next : HistoryProof) (state : RunState)
      → SameProof sha256 p p
      → AllPending sha256 (pending_state state)
      → validate_proof p state ≡ ok next
      → SameProof sha256 next p
  unfolding validate_proof
  validated-same p next state same v h =
      let (u, checked, made) = >>=-eq-ok (validate_unresolved p.unresolved state) _ h in
      let (kept, settled) = validate_unresolved-Kept p.unresolved u state checked in
      let made' : record p { unresolved = u } ≡ next = cc in
      let valid = valid_at _ next h (validate_proof-Agree p p state same v) in
      let valid_u = subst (λ n. SameProof sha256 n n) (sym made') valid in
      subst (λ n. SameProof sha256 n p) made'
        (record {
          digests = refl;
          seen = refl;
          open_calls = (sym kept, valid_u.open_calls.1, same.open_calls.1);
        })

  -- Reading on from a proof of the messages so far, up to its cursor, is a proof of all of them.
  abbrev pub IsProofOf : HistoryProof → List Message → Type 0
  IsProofOf proof ms =
      (q : HistoryProof) × (extend_proof sha256 (empty_proof sha256) ms ≡ ok q)
      × SameProof sha256 proof q

  extended-same :
      (before after : List Message) (proof p : HistoryProof)
      → IsProofOf proof before
      → extend_proof sha256 proof after ≡ ok p
      → IsProofOf p (before ++ after)
  extended-same before after proof p (q, extended, same) h =
      let (r, extended', same') = Agree-ok _ _ p h (extend_proof-Agree sha256 after proof q same) in
      (r, rw (extend_proof-append before after (empty_proof sha256), extended) extended', same')

  validated-IsProofOf :
      (ms : List Message) (p next : HistoryProof) (state : RunState)
      → IsProofOf p ms
      → AllPending sha256 (pending_state state)
      → validate_proof p state ≡ ok next
      → IsProofOf next ms
  validated-IsProofOf ms p next state (q, extended, same) v h =
      let start = validated-same p next state (same_left p q same) v h in
      (q, extended, same_trans next p q start same)

  IsProofOf-empty : IsProofOf (empty_proof sha256) []
  unfolding extend_proof
  IsProofOf-empty = (
    empty_proof sha256,
    refl,
    record { digests = refl; seen = refl; open_calls = (refl, tt, tt) },
  )

  -- The proof that evolving gives is, up to its cursor, the proof of the edited messages alone.
  pub evolve_proof-IsProofOf :
      (before after : List Message) (state : RunState) (proof next : HistoryProof)
      → IsProofOf proof before
      → AllPending sha256 (pending_state state)
      → evolve_proof sha256 proof after none state ≡ ok next
      → IsProofOf next (before ++ after)
  evolve_proof-IsProofOf before after state proof next known v h =
      let (p, extended, checked) =
        >>=-eq-ok (extend_proof sha256 proof after) _ (sym (evolve-extend after proof state) ∙ h) in
      validated-IsProofOf (before ++ after) p next state
        (extended-same before after proof p known extended) v checked

  pub analyze_messages-IsProofOf :
      (ms : List Message) (state : RunState) (proof : HistoryProof)
      → AllPending sha256 (pending_state state)
      → analyze_messages sha256 ms state ≡ ok proof
      → IsProofOf proof ms
  unfolding analyze_messages
  analyze_messages-IsProofOf ms state proof v h =
      let (p, extended, checked) = >>=-eq-ok (extend_proof sha256 (empty_proof sha256) ms) _ h in
      validated-IsProofOf ms p proof state
        (extended-same [] ms (empty_proof sha256) p IsProofOf-empty extended) v checked

  -- If a proof is that of the messages so far, up to its cursor, and the new state's cursor, if it
  -- has one, is well formed, then `evolve_proof` with appended messages agrees with
  -- `analyze_messages` on all messages: both give proofs with the same digest, the same seen ids and
  -- open calls that compare as equal, or both raise the same exception.
  pub evolve_proof-Agree :
      (before after : List Message) (state : RunState) (proof : HistoryProof)
      → IsProofOf proof before
      → AllPending sha256 (pending_state state)
      → Agree
          (SameProof sha256)
          (evolve_proof sha256 proof after none state)
          (analyze_messages sha256 (before ++ after) state)
  evolve_proof-Agree before after state proof (q, extended, same) v =
      let full : analyze_messages sha256 (before ++ after) state
          ≡ (extend_proof sha256 q after >>= λ p. validate_proof p state) =
        unfold analyze_messages in
        rw (extend_proof-append before after (empty_proof sha256), extended) in
      rw (evolve-extend after proof state, full)
        (Agree-bind (SameProof sha256) (SameProof sha256) (extend_proof sha256 proof after)
          (extend_proof sha256 q after) _ _ (extend_proof-Agree sha256 after proof q same)
          (λ a b s. validate_proof-Agree a b state s v))
