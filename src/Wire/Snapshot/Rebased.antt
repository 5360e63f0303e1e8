-- ===== src/Wire/Snapshot/Rebased.antt =====
-- A history proof fits a state as well when the cursor of the state is rebased.
use jharness.Common.{
  ℕ, ◌≡◌, refl, sym, ap, ◌∙◌, Bool, true, Option, none, some, List, arith, Bool-cases, inl, inr,
}
use jharness.Errors.{ok, >>=-eq-ok}
use jharness.State.{
  RunState, active, suspended, completed, failed, limited, planning, tools_pending,
}
use jharness.State.Pending.{PendingToolCalls, same_pending, remaining_calls}
use jharness.State.Pending.Laws.{AllPending, IsPending, remaining-pending_of}
use jharness.State.Pending.Equal.{same_pending_iff, compared}
use jharness.Linkage.{
  HistoryProof, validate_proof, validate_unresolved, check_unresolved, pending_state, may_retain,
}
use jharness.Wire.State.Laws.{IsState, rebased, rebased_state, rebased-IsPending}

module _ (sha256 : List ℕ → List ℕ) where
  pub rebased_pending : Option PendingToolCalls → Option PendingToolCalls
  rebased_pending none = none
  rebased_pending (some p) = some (rebased sha256 p)

  pub pending_state-rebased :
      (s : RunState) → pending_state (rebased_state sha256 s) ≡ rebased_pending (pending_state s)
  unfolding pending_state rebased_pending
  pending_state-rebased (active (planning b)) = refl
  pending_state-rebased (active (tools_pending p b)) = refl
  pending_state-rebased (suspended (planning b) s) = refl
  pending_state-rebased (suspended (tools_pending p b) s) = refl
  pending_state-rebased (completed parts) = refl
  pending_state-rebased (failed e) = refl
  pending_state-rebased (limited r) = refl

  may_retain-rebased : (s : RunState) → may_retain (rebased_state sha256 s) ≡ may_retain s
  may_retain-rebased (active a) = refl
  may_retain-rebased (suspended a s) = refl
  may_retain-rebased (completed parts) = refl
  may_retain-rebased (failed e) = refl
  may_retain-rebased (limited r) = refl

  pub rebased-AllPending :
      (w : Option PendingToolCalls) → AllPending sha256 w → AllPending sha256 (rebased_pending w)
  unfolding rebased_pending
  rebased-AllPending none h = tt
  rebased-AllPending (some p) h = rebased-IsPending sha256 p h

  same_pending-rebased :
      (u w : PendingToolCalls)
      → IsPending sha256 u
      → IsPending sha256 w
      → same_pending u w ≡ true
      → same_pending u (rebased sha256 w) ≡ true
  same_pending-rebased u w a b h =
      (same_pending_iff sha256 u (rebased sha256 w) a (rebased-IsPending sha256 w b)).1 (
        (same_pending_iff sha256 u w a b).0 h
        ∙ sym (ap compared (remaining-pending_of sha256 (remaining_calls w))))

  -- A state that fits the open calls still fits them when its cursor is rebased.
  check_unresolved-rebased :
      (u w x : Option PendingToolCalls) (retain : Bool)
      → AllPending sha256 u
      → AllPending sha256 w
      → check_unresolved u w retain ≡ ok x
      → (y : Option PendingToolCalls) × (check_unresolved u (rebased_pending w) retain ≡ ok y)
  unfolding check_unresolved rebased_pending
  check_unresolved-rebased u none x retain a b h = (x, h)
  check_unresolved-rebased none (some w) x retain a b h = absurd (cc)
  check_unresolved-rebased (some u) (some w) x retain a b h = elim (Bool-cases (same_pending u w)) [
    | inl same ↦ (some (rebased sha256 w), rw (same_pending-rebased u w a b same))
    | inr other ↦ absurd (ground arith)
  ]

  pub validate_proof-rebased :
      (p next : HistoryProof) (s : RunState)
      → AllPending sha256 p.unresolved
      → AllPending sha256 (pending_state s)
      → validate_proof p s ≡ ok next
      → (y : Option PendingToolCalls) × (validate_proof p (rebased_state sha256 s)
          ≡ ok (record p { unresolved = y }))
  unfolding validate_proof validate_unresolved
  validate_proof-rebased p next s a b h =
      let (x, checked, made) =
        >>=-eq-ok (check_unresolved p.unresolved (pending_state s) (may_retain s)) _ h in
      let (y, again) =
        check_unresolved-rebased p.unresolved (pending_state s) x (may_retain s) a b checked in
      (y, rw (pending_state-rebased s, may_retain-rebased s, again))

  pub IsState-pending : (s : RunState) → IsState sha256 s → AllPending sha256 (pending_state s)
  unfolding pending_state
  IsState-pending (active (planning b)) h = tt
  IsState-pending (active (tools_pending p b)) h = h.0
  IsState-pending (suspended (planning b) s) h = tt
  IsState-pending (suspended (tools_pending p b) s) h = h.0.0
  IsState-pending (completed parts) h = tt
  IsState-pending (failed e) h = tt
  IsState-pending (limited r) h = tt
