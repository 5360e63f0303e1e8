-- ===== src/Linkage/Agreement.antt =====
-- Linkage in _history.py depends on a cursor only through the calls that it has left, as `==` sees them.
use jharness.Common.{
  ℕ, ◌≤◌, ◌≡◌, refl, sym, subst, ap, ◌∙◌, Bool, true, false, String, Option, none, some, List, [],
  ◌∷◌, pos, arith, drop, Bool-cases, inl, inr,
}
use jharness.Errors.{ok, err, value_error, ◌>>=◌, Agree, Agree-bind, Agree-refl, Agree-raise_unless}
use jharness.IdSet.{IdNode}
use jharness.Messages.{Message, RuntimeToolCall, call_id}
use jharness.Digest.{append_history_digest}
use jharness.State.Pending.{
  PendingToolCalls, remaining_calls, advance, pending_count, unique_texts, ids_of, pending_of,
  pending_tool_calls,
}
use jharness.State.Pending.Laws.{
  IsPending, AllPending, remaining_or, advance-remaining, length-remaining, pending_of-IsPending,
}
use jharness.State.Pending.Equal.{compared, same_ids, same_length, drop-compared}
use jharness.Linkage.{
  HistoryProof, Linkage, record_call_ids, answers_first, is_tool, open_calls, answer_call,
  close_call, requested_calls, advance_linkage, extend_proof,
}

module _ (sha256 : List ℕ → List ℕ) where
  -- Two cursors that have the same calls left, as `==` sees them.
  abbrev pub SameOpen : Option PendingToolCalls → Option PendingToolCalls → Type 0
  SameOpen u v =
      (compared (remaining_or u) ≡ compared (remaining_or v))
      × AllPending sha256 u
      × AllPending sha256 v

  abbrev pub SameLinkage : Linkage → Linkage → Type 0
  SameLinkage l k = SameOpen l.0 k.0 × (l.1 ≡ k.1)

  -- Two proofs with the same digest, the same seen ids and open calls that compare as equal.
  pub record SameProof (p q : HistoryProof) : Type 0 where
    pub digests : p.digest ≡ q.digest
    pub seen : p.seen_call_ids ≡ q.seen_call_ids
    pub open_calls : SameOpen p.unresolved q.unresolved

  pub not_pending_nil :
      (p : PendingToolCalls) → IsPending sha256 p → compared (remaining_calls p) ≡ [] → ⊥
  not_pending_nil p v e =
      unfold pending_count in
      omega (arith, v.pointing, length-remaining p, same_length (remaining_calls p) [] e)

  advance-Agree :
      (p q : PendingToolCalls)
      → SameOpen (some p) (some q)
      → Agree SameOpen (advance p (pos 1)) (advance q (pos 1))
  advance-Agree p q (same, vp, vq) =
      let room_p : 1 ≤ pending_count p = unfold pending_count in omega (arith, vp.pointing) in
      let room_q : 1 ≤ pending_count q = unfold pending_count in omega (arith, vq.pointing) in
      let (u, done_u, rest_u, valid_u) = advance-remaining sha256 p 1 vp room_p in
      let (w, done_w, rest_w, valid_w) = advance-remaining sha256 q 1 vq room_q in
      rw (done_u, done_w)
        (
          ap compared rest_u
              ∙ drop-compared 1 (remaining_calls p)
              ∙ ap (drop 1) same
              ∙ sym (drop-compared 1 (remaining_calls q))
              ∙ sym (ap compared rest_w),
          valid_u,
          valid_w,
        )

  close_call-Agree :
      (p q : PendingToolCalls) (seen : IdNode) (matches : Bool)
      → SameOpen (some p) (some q)
      → Agree SameLinkage (close_call p seen matches) (close_call q seen matches)
  unfolding close_call
  close_call-Agree p q seen true h =
      Agree-bind SameOpen SameLinkage (advance p (pos 1)) (advance q (pos 1)) _ _
        (advance-Agree p q h) (λ u w s. (s, refl))
  close_call-Agree p q seen false h = refl

  -- Answering looks at the id of the first call only.
  same_first :
      (cs ds : List RuntimeToolCall) (id : Option String)
      → compared cs ≡ compared ds
      → answers_first cs id ≡ answers_first ds id
  unfolding answers_first
  same_first [] [] id h = refl
  same_first [] (d ∷ ds) id h = cc
  same_first (c ∷ cs) [] id h = cc
  same_first (c ∷ cs) (d ∷ ds) none h = refl
  same_first (c ∷ cs) (d ∷ ds) (some id) h =
      let e : call_id c ∷ ids_of cs ≡ call_id d ∷ ids_of ds = same_ids (c ∷ cs) (d ∷ ds) h in
      let first : call_id c ≡ call_id d = cc in rw first refl

  answer_call-Agree :
      (m : Message) (p q : PendingToolCalls) (seen : IdNode)
      → SameOpen (some p) (some q)
      → Agree SameLinkage (answer_call sha256 m p seen) (answer_call sha256 m q seen)
  unfolding answer_call
  answer_call-Agree m p q seen h = Agree-raise_unless SameLinkage (is_tool m.role) _ _ _ (
      rw (same_first (remaining_calls p) (remaining_calls q) m.tool_call_id h.0) (
        Agree-bind (λ a b. a ≡ b) SameLinkage (answers_first (remaining_calls q) m.tool_call_id)
          (answers_first (remaining_calls q) m.tool_call_id) _ _
          (Agree-refl (λ a b. a ≡ b) (λ a. refl) (answers_first (remaining_calls q) m.tool_call_id))
          (λ a b e.
            subst (λ c. Agree SameLinkage (close_call p seen a) (close_call q seen c)) e
              (close_call-Agree p q seen a h))))

  open_calls_unique :
      (c : RuntimeToolCall) (cs : List RuntimeToolCall) (seen : IdNode)
      → unique_texts (ids_of (c ∷ cs)) ≡ true
      → open_calls sha256 (c ∷ cs) seen
        ≡ (record_call_ids (c ∷ cs) seen >>= λ s. ok (some (pending_of sha256 (c ∷ cs)), s))
  unfolding open_calls pending_tool_calls
  open_calls_unique c cs seen h = rw h

  open_calls_repeated :
      (c : RuntimeToolCall) (cs : List RuntimeToolCall) (seen : IdNode)
      → unique_texts (ids_of (c ∷ cs)) ≡ false
      → open_calls sha256 (c ∷ cs) seen ≡ err (value_error "pending tool call ids must be unique")
  unfolding open_calls pending_tool_calls
  open_calls_repeated c cs seen h = rw h

  open_calls-valid :
      (calls : List RuntimeToolCall) (seen : IdNode)
      → Agree SameLinkage (open_calls sha256 calls seen) (open_calls sha256 calls seen)
  open_calls-valid [] seen = unfold open_calls in ((refl, tt, tt), refl)
  open_calls-valid (c ∷ cs) seen = elim (Bool-cases (unique_texts (ids_of (c ∷ cs)))) [
    | inl unique ↦
        let valid = pending_of-IsPending sha256 c cs unique in
        rw (open_calls_unique c cs seen unique) (
          Agree-bind (λ a b. a ≡ b) SameLinkage (record_call_ids (c ∷ cs) seen)
            (record_call_ids (c ∷ cs) seen) _ _
            (Agree-refl (λ a b. a ≡ b) (λ a. refl) (record_call_ids (c ∷ cs) seen))
            (λ a b e. ((refl, valid, valid), e)))
    | inr repeated ↦ rw (open_calls_repeated c cs seen repeated)
  ]

  advance_linkage_closed :
      (m : Message) (seen : IdNode)
      → Agree SameLinkage (advance_linkage sha256 m none seen) (advance_linkage sha256 m none seen)
  unfolding advance_linkage
  advance_linkage_closed m seen = elim (Bool-cases (is_tool m.role)) [
    | inl answer ↦ rw answer refl
    | inr request ↦ rw request (open_calls-valid (requested_calls m) seen)
  ]

  advance_linkage-Agree :
      (m : Message) (u w : Option PendingToolCalls) (seen : IdNode)
      → SameOpen u w
      → Agree SameLinkage (advance_linkage sha256 m u seen) (advance_linkage sha256 m w seen)
  advance_linkage-Agree m (some p) (some q) seen h =
      unfold advance_linkage in answer_call-Agree m p q seen h
  advance_linkage-Agree m none none seen h = advance_linkage_closed m seen
  advance_linkage-Agree m none (some q) seen h = absurd (not_pending_nil q h.2 (sym h.0))
  advance_linkage-Agree m (some p) none seen h = absurd (not_pending_nil p h.1 h.0)

  -- Extending two proofs of the same history by the same messages gives proofs of the same
  -- history, or the same exception.
  pub extend_proof-Agree :
      (ms : List Message) (p q : HistoryProof)
      → SameProof p q
      → Agree SameProof (extend_proof sha256 p ms) (extend_proof sha256 q ms)
  unfolding extend_proof
  extend_proof-Agree [] p q h = h
  extend_proof-Agree (m ∷ ms) p q h =
      Agree-bind SameLinkage SameProof (advance_linkage sha256 m p.unresolved p.seen_call_ids)
        (advance_linkage sha256 m q.unresolved q.seen_call_ids) _ _
        (rw h.seen (advance_linkage-Agree m p.unresolved q.unresolved q.seen_call_ids h.open_calls))
        (λ l k s. extend_proof-Agree ms _ _ (record {
          digests = ap (λ d. append_history_digest sha256 d m) h.digests;
          seen = s.1;
          open_calls = s.0;
        }))
