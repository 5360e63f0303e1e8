-- ===== src/Linkage/Order.antt =====
-- What a validated history guarantees: calls are answered once each, in order, and no id is reused.
use jharness.Common.{
  ℕ, ◌≡◌, refl, sym, subst, ap, ◌∙◌, Bool, true, false, Option, none, some, List, [], ◌++◌,
  append-nil, Bool-cases, inl, inr,
}
use jharness.Errors.{ok, >>=-eq-ok}
use jharness.Messages.{Message}
use jharness.State.Pending.{PendingToolCalls, ids_of, unique_texts, same_pending}
use jharness.State.Pending.Laws.{remaining_or}
use jharness.State.Pending.Equal.{compared, same_ids, same_pending→}
use jharness.State.{RunState}
use jharness.Linkage.{
  HistoryProof, extend_proof, empty_proof, validate_unresolved, check_unresolved, pending_state,
  may_retain, validate_proof, analyze_messages,
}
use jharness.Linkage.Ids.{call_ids, answered_ids}
use jharness.Linkage.Accounted.{extend_proof-IsAccounted, IsAccounted-empty}

-- Validation against a state keeps the open calls, as `==` sees them, and an active or completed state without
-- pending calls leaves none open.
abbrev pub Kept :
    Option PendingToolCalls → Option PendingToolCalls → Bool → Option PendingToolCalls → Type 0
Kept v w retain v' =
    (compared (remaining_or v) ≡ compared (remaining_or v'))
    × (w ≡ none → retain ≡ false → remaining_or v ≡ [])

check_unresolved-Kept :
    (v w : Option PendingToolCalls) (retain : Bool) (v' : Option PendingToolCalls)
    → check_unresolved v w retain ≡ ok v'
    → Kept v w retain v'
unfolding check_unresolved
check_unresolved-Kept none none retain v' h =
    let e : none ≡ v' = cc in (ap (λ x. compared (remaining_or x)) e, λ _ _. refl)
check_unresolved-Kept none (some b) retain v' h = cc
check_unresolved-Kept (some a) none true v' h =
    let e : some a ≡ v' = cc in (ap (λ x. compared (remaining_or x)) e, λ _ k. cc)
check_unresolved-Kept (some a) none false v' h = cc
check_unresolved-Kept (some a) (some b) retain v' h = elim (Bool-cases (same_pending a b)) [
  | inl same ↦
      let h' : ok (some b) ≡ ok v' = rw same at h in
      let e : some b ≡ v' = cc in
      (same_pending→ a b same ∙ ap (λ x. compared (remaining_or x)) e, λ k. cc)
  | inr other ↦ let h' = rw other at h in cc
]

pub validate_unresolved-Kept :
    (u u' : Option PendingToolCalls) (state : RunState)
    → validate_unresolved u state ≡ ok u'
    → Kept u (pending_state state) (may_retain state) u'
unfolding validate_unresolved
validate_unresolved-Kept u u' state h =
    check_unresolved-Kept u (pending_state state) (may_retain state) u' h

module _ (sha256 : List ℕ → List ℕ) where
  pub analyze_messages_inv :
      (ms : List Message) (state : RunState) (proof : HistoryProof)
      → analyze_messages sha256 ms state ≡ ok proof
      → (q : HistoryProof) × (extend_proof sha256 (empty_proof sha256) ms ≡ ok q)
        × (u : Option PendingToolCalls) × (validate_unresolved q.unresolved state ≡ ok u)
        × (record q { unresolved = u } ≡ proof)
  unfolding analyze_messages validate_proof
  analyze_messages_inv ms state proof h =
      let (q, extended, rest) = >>=-eq-ok (extend_proof sha256 (empty_proof sha256) ms) _ h in
      let (u, checked, made) = >>=-eq-ok (validate_unresolved q.unresolved state) _ rest in
      (q, extended, u, checked, cc)

  -- In a history that `analyze_messages` accepts, no two requested calls share an id, and the ids
  -- that tool messages answer, followed by the ids of the calls that the proof leaves open, are the
  -- ids of the requested calls, in order.
  pub analyze_messages-order :
      (ms : List Message) (state : RunState) (proof : HistoryProof)
      → analyze_messages sha256 ms state ≡ ok proof
      → (unique_texts (call_ids ms) ≡ true)
        × (answered_ids ms ++ ids_of (remaining_or proof.unresolved) ≡ call_ids ms)
  analyze_messages-order ms state proof h =
      let (q, extended, u, checked, made) = analyze_messages_inv ms state proof h in
      let v =
        extend_proof-IsAccounted sha256 ms [] (empty_proof sha256) q (IsAccounted-empty sha256)
          extended in
      let (kept, settled) = validate_unresolved-Kept q.unresolved u state checked in
      let order = ap (λ l. answered_ids ms ++ l) (same_ids _ _ (sym kept)) ∙ v.order in
      (
        v.recorded.1,
        subst
            (λ (p : HistoryProof).
              answered_ids ms ++ ids_of (remaining_or p.unresolved) ≡ call_ids ms)
            made order,
      )

  -- In a history that `analyze_messages` accepts for a state that neither holds pending calls nor
  -- is failed or limited, every requested call is answered, in order.
  pub analyze_messages-settled :
      (ms : List Message) (state : RunState) (proof : HistoryProof)
      → analyze_messages sha256 ms state ≡ ok proof
      → pending_state state ≡ none
      → may_retain state ≡ false
      → answered_ids ms ≡ call_ids ms
  analyze_messages-settled ms state proof h idle strict =
      let (q, extended, u, checked, made) = analyze_messages_inv ms state proof h in
      let v =
        extend_proof-IsAccounted sha256 ms [] (empty_proof sha256) q (IsAccounted-empty sha256)
          extended in
      let (kept, settled) = validate_unresolved-Kept q.unresolved u state checked in
      sym (append-nil _)
      ∙ ap (λ l. answered_ids ms ++ ids_of l) (sym (settled idle strict))
      ∙ v.order
