-- ===== src/Tooling/Batches.antt =====
-- From the calls of a batch to its results: what binding and approval prepare is what the concurrent
-- execution needs.
use jharness.Common.{
  ℕ, ◌≤◌, ◌≡◌, refl, sym, ap, ◌∙◌, subst, Bool, String, Option, none, some, List, [], ◌∷◌, length,
  length-map, get_elem?, arith, if◌then◌else◌,
}
use jharness.Errors.{ok, >>-eq-ok}
use jharness.Messages.{RuntimeToolCall}
use jharness.State.{Suspension}
use jharness.Change.Batch.{ToolResult}
use jharness.Control.{ControlInbox}
use jharness.Tooling.Approval.{
  Prepared, bind_call, bind, ApprovalDecision, approval_allow, approval_deny, approval_suspend,
  apply_decision, apply_decisions, approve, requests_from, failed_call,
}
use jharness.Tooling.Execution.{Slot, slot_of, Execution, start, Reach, complete}
use jharness.Tooling.Execution.Counts.{
  occurs-nil, total, total_mono, total-map, value_at-map, length-set, Everywhere, set-Everywhere,
  map-Everywhere,
}
use jharness.Tooling.Execution.Laws.{
  holds, returned, runs, left, Fits, IsExecution, Reach-IsExecution,
}
use jharness.Tooling.Execution.Completion.{Reach-settled}
use jharness.Tooling.Execution.Results.{
  Reach-kept, Reach-length, complete-total, complete-get_elem?,
}

-- A call is bound exactly when it has no result yet.
abbrev IsPrepared : Prepared → Type 0
IsPrepared p = Fits (slot_of p).task p.result

module _ (refusal : RuntimeToolCall → Option String) where
  bind_call-IsPrepared : (call : RuntimeToolCall) → IsPrepared (bind_call refusal call)
  unfolding bind_call
  bind_call-IsPrepared call = ground arith

  bind-Everywhere : (calls : List RuntimeToolCall) → Everywhere IsPrepared (bind refusal calls)
  unfolding bind
  bind-Everywhere calls =
      map-Everywhere IsPrepared (bind_call refusal) calls
        (λ i call found. bind_call-IsPrepared call)

  length-bind : (calls : List RuntimeToolCall) → length (bind refusal calls) ≡ length calls
  unfolding bind
  length-bind calls = length-map (bind_call refusal) calls

-- Decisions keep the number of calls, and that each is bound or has a result.
apply_decision-Everywhere :
    (request : ℕ × RuntimeToolCall) (d : ApprovalDecision)
    (state : List Prepared × Option Suspension)
    → Everywhere IsPrepared state.0
    → Everywhere IsPrepared (apply_decision request d state).0
      × (length (apply_decision request d state).0 ≡ length state.0)
unfolding apply_decision
apply_decision-Everywhere request (approval_allow id) state all = (all, refl)
apply_decision-Everywhere request (approval_suspend id s) state all = (all, refl)
apply_decision-Everywhere (index, call) (approval_deny id reason) state all =
    let denied = failed_call call "approval_denied" reason in
    (
      set-Everywhere IsPrepared state.0 index denied (ground arith) all,
      length-set state.0 index denied,
    )

apply_decisions-Everywhere :
    (requests : List (ℕ × RuntimeToolCall)) (decisions : List ApprovalDecision)
    (state after : List Prepared × Option Suspension)
    → apply_decisions requests decisions state ≡ ok after
    → Everywhere IsPrepared state.0
    → Everywhere IsPrepared after.0 × (length after.0 ≡ length state.0)
unfolding apply_decisions
apply_decisions-Everywhere [] [] state after h all =
    let e : state ≡ after = cc in
    (subst (λ x. Everywhere IsPrepared x.0) e all, ap (λ x. length x.0) (sym e))
apply_decisions-Everywhere [] (d ∷ ds) state after h all = cc
apply_decisions-Everywhere (r ∷ rs) [] state after h all = cc
apply_decisions-Everywhere (r ∷ rs) (d ∷ ds) state after h all =
    let (_, rest) = >>-eq-ok _ _ h in
    let (each, same) = apply_decision-Everywhere r d state all in
    let (k, l) = apply_decisions-Everywhere rs ds (apply_decision r d state) after rest each in
    (k, l ∙ same)

start-IsExecution :
    (prepared : List Prepared) (parallel : Bool) (max_tool_concurrency : ℕ) (inbox : ControlInbox)
    → Everywhere IsPrepared prepared
    → IsExecution
        (if parallel then max_tool_concurrency else 1)
        (start prepared parallel max_tool_concurrency inbox)
unfolding start
start-IsExecution prepared parallel allowed inbox all = record {
  permits_held = omega (arith, total-map holds slot_of (λ p. ground arith) prepared);
  fitting = map-Everywhere (λ (s : Slot). Fits s.task s.result) slot_of prepared all;
  ordered = λ i. occurs-nil i ∙ sym (value_at-map returned slot_of (λ p. ground arith) prepared i);
}

approve-Everywhere :
    (decisions : Option (List ApprovalDecision)) (prepared after : List Prepared)
    (paused : Option Suspension)
    → approve decisions prepared ≡ ok (after, paused)
    → Everywhere IsPrepared prepared
    → Everywhere IsPrepared after × (length after ≡ length prepared)
unfolding approve
approve-Everywhere none prepared after paused h all =
    let e : prepared ≡ after = cc in (subst (Everywhere IsPrepared) e all, ap length (sym e))
approve-Everywhere (some decisions) prepared after paused h all =
    let (_, rest) = >>-eq-ok _ _ h in
    apply_decisions-Everywhere (requests_from 0 prepared) decisions (prepared, none) (after, paused)
      rest all

le-total-runs : (slots : List Slot) → total runs slots ≤ total holds slots
le-total-runs slots = total_mono runs holds slots (λ s. ground arith)

-- The batch that a tool step executes.
module _ (refusal : RuntimeToolCall → Option String) (calls : List RuntimeToolCall)
    (decisions : Option (List ApprovalDecision)) (prepared : List Prepared)
    (approved : approve decisions (bind refusal calls) ≡ ok (prepared, none)) (parallel : Bool)
    (max_tool_concurrency : ℕ) (inbox : ControlInbox) (n : ℕ) (e : Execution)
    (reached : Reach n (start prepared parallel max_tool_concurrency inbox) e) where
  abbrev allowed : ℕ
  allowed = if parallel then max_tool_concurrency else 1

  all_prepared : Everywhere IsPrepared prepared × (length prepared ≡ length calls)
  all_prepared =
      let (all, same) =
        approve-Everywhere decisions (bind refusal calls) prepared none approved
          (bind-Everywhere refusal calls) in
      (all, same ∙ length-bind refusal calls)

  reached-IsExecution : IsExecution allowed e
  reached-IsExecution =
      Reach-IsExecution allowed n (start prepared parallel max_tool_concurrency inbox) e reached
        (start-IsExecution prepared parallel max_tool_concurrency inbox all_prepared.0)

  length-start : length (start prepared parallel max_tool_concurrency inbox).slots ≡ length prepared
  unfolding start
  length-start = length-map slot_of prepared

  -- However the tasks of an approved batch are interleaved, at most `max_tool_concurrency` tools run
  -- at a time, and one when the batch is not parallel.
  pub running-permits : total runs e.slots ≤ (if parallel then max_tool_concurrency else 1)
  running-permits = omega (arith, le-total-runs e.slots, reached-IsExecution.permits_held)

  -- When `max_tool_concurrency` is positive, every state that the execution of an approved batch
  -- reaches leads to one in which `_complete` succeeds, with one result for each call.
  pub complete-start :
      1 ≤ max_tool_concurrency
      → (f : Execution) × (results : List ToolResult) × Reach n e f
        × (complete f.slots ≡ ok results)
        × (length results ≡ length calls)
  complete-start some_permit =
      let (f, further, settled) =
        Reach-settled n allowed (total left e.slots) e reached-IsExecution (ground arith) refl in
      let (results, completed, counted) =
        complete-total f.slots (Reach-IsExecution allowed n e f further reached-IsExecution).fitting
          settled in
      (
        f,
        results,
        further,
        completed,
        counted
            ∙ Reach-length n e f further
            ∙ Reach-length n _ e reached
            ∙ length-start
            ∙ all_prepared.1,
      )

  -- While an approved batch is executed, the result of a call stays as it is once it is there, and
  -- it is the one at the place of the call in what `_complete` gives.
  pub complete-result :
      (i : ℕ) (s : Slot) (r : ToolResult) (f : Execution) (results : List ToolResult)
      → get_elem? e.slots i ≡ some s
      → s.result ≡ some r
      → Reach n e f
      → complete f.slots ≡ ok results
      → get_elem? results i ≡ some r
  complete-result i s r f results found settled further completed =
      let (kept, _) = Reach-kept allowed n i s r settled e f further reached-IsExecution found in
      complete-get_elem? f.slots results i s completed kept ∙ settled
