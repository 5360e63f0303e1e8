-- ===== src/Tooling/Denials.antt =====
-- What a denial does to a batch: the result at the place of the call whose request is denied.
use jharness.Common.{
  ℕ, zero, suc, ◌+◌, ◌≤◌, ◌<◌, ◌≡◌, refl, sym, ap, ◌∙◌, subst, Bool, String, Option, none, some,
  List, [], ◌∷◌, map, length, get_elem?, set, arith, Bool-cases, inl, inr,
}
use jharness.Errors.{ok, >>-eq-ok}
use jharness.Messages.{RuntimeToolCall}
use jharness.State.{Suspension}
use jharness.Change.Batch.{ToolResult}
use jharness.Control.{ControlInbox}
use jharness.Tooling.Approval.{
  Prepared, bind, ApprovalDecision, approval_allow, approval_deny, approval_suspend, apply_decision,
  apply_decisions, approve, requests_from, failed_call, failed_result,
}
use jharness.Tooling.Execution.{slot_of, Execution, start, Reach, here, complete}
use jharness.Tooling.Execution.Counts.{length-set}
use jharness.Tooling.Batches.{complete-result}

module _ {A : Type 0} where
  get_elem?-set_same :
      (xs : List A) (i : ℕ) (y : A) → i < length xs → get_elem? (set xs i y) i ≡ some y
  get_elem?-set_same [] i y h = absurd (omega arith)
  get_elem?-set_same (x ∷ xs) zero y h = refl
  get_elem?-set_same (x ∷ xs) (suc i) y h = get_elem?-set_same xs i y (omega arith)

  get_elem?-set_after :
      (xs : List A) (i j : ℕ) (y : A) → j < i → get_elem? (set xs i y) j ≡ get_elem? xs j
  get_elem?-set_after [] i j y h = refl
  get_elem?-set_after (x ∷ xs) zero j y h = absurd (omega arith)
  get_elem?-set_after (x ∷ xs) (suc i) zero y h = refl
  get_elem?-set_after (x ∷ xs) (suc i) (suc j) y h = get_elem?-set_after xs i j y (omega arith)

-- Requests in the order of their indexes, from `b` on and below `n`.
abbrev Ascending : ℕ → ℕ → List (ℕ × RuntimeToolCall) → Type 0
Ascending b n [] = Unit
Ascending b n ((i, call) ∷ rest) = (b ≤ i) × (i < n) × Ascending (suc i) n rest

weaken-Ascending :
    (a b n : ℕ) (rs : List (ℕ × RuntimeToolCall)) → a ≤ b → Ascending b n rs → Ascending a n rs
weaken-Ascending a b n [] h up = up
weaken-Ascending a b n ((i, call) ∷ rest) h (from, below, up) = (omega arith, below, up)

requests_from-Ascending :
    (b : ℕ) (prepared : List Prepared)
    → Ascending b (b + length prepared) (requests_from b prepared)
unfolding requests_from
requests_from-Ascending b [] = ground arith
requests_from-Ascending b (p ∷ rest) =
    let ih = requests_from-Ascending (suc b) rest in
    let e : suc b + length rest ≡ b + suc (length rest) = omega arith in
    let later = subst (λ n. Ascending (suc b) n (requests_from (suc b) rest)) e ih in
    elim (Bool-cases p.bound) [
      | inl bound ↦ rw (bound) (omega arith, omega arith, later)
      | inr failed ↦
          rw (failed) (weaken-Ascending b (suc b) (b + suc (length rest)) _ (omega arith) later)
    ]

requests-Ascending :
    (prepared : List Prepared) → Ascending 0 (length prepared) (requests_from 0 prepared)
requests-Ascending prepared =
    let e : 0 + length prepared ≡ length prepared = omega arith in
    subst (λ n. Ascending 0 n (requests_from 0 prepared)) e (requests_from-Ascending 0 prepared)

-- A decision on a later call leaves the call alone.
apply_decision-before :
    (index i : ℕ) (call : RuntimeToolCall) (d : ApprovalDecision)
    (state : List Prepared × Option Suspension)
    → index < i
    → get_elem? (apply_decision (i, call) d state).0 index ≡ get_elem? state.0 index
unfolding apply_decision
apply_decision-before index i call (approval_allow id) state h = refl
apply_decision-before index i call (approval_suspend id s) state h = refl
apply_decision-before index i call (approval_deny id reason) state h =
    get_elem?-set_after state.0 i index (failed_call call "approval_denied" reason) h

apply_decision-denied :
    (i : ℕ) (call : RuntimeToolCall) (d : ApprovalDecision)
    (state : List Prepared × Option Suspension) (id reason : String)
    → i < length state.0
    → d ≡ approval_deny id reason
    → get_elem? (apply_decision (i, call) d state).0 i
      ≡ some (failed_call call "approval_denied" reason)
unfolding apply_decision
apply_decision-denied i call d state id reason below deny =
    ap (λ x. get_elem? (apply_decision (i, call) x state).0 i) deny
    ∙ get_elem?-set_same state.0 i (failed_call call "approval_denied" reason) below

apply_decision-length :
    (request : ℕ × RuntimeToolCall) (d : ApprovalDecision)
    (state : List Prepared × Option Suspension)
    → length (apply_decision request d state).0 ≡ length state.0
unfolding apply_decision
apply_decision-length request (approval_allow id) state = refl
apply_decision-length request (approval_suspend id s) state = refl
apply_decision-length (i, call) (approval_deny id reason) state =
    length-set state.0 i (failed_call call "approval_denied" reason)

apply_decisions-before :
    (n index : ℕ) (requests : List (ℕ × RuntimeToolCall)) (decisions : List ApprovalDecision)
    (state after : List Prepared × Option Suspension)
    → Ascending (suc index) n requests
    → apply_decisions requests decisions state ≡ ok after
    → get_elem? after.0 index ≡ get_elem? state.0 index
unfolding apply_decisions
apply_decisions-before n index [] [] state after up h =
    let e : state ≡ after = cc in ap (λ x. get_elem? x.0 index) (sym e)
apply_decisions-before n index [] (d ∷ ds) state after up h = cc
apply_decisions-before n index (r ∷ rs) [] state after up h = cc
apply_decisions-before n index ((i, call) ∷ rs) (d ∷ ds) state after (from, below, up) h =
    let up = weaken-Ascending (suc index) (suc i) n rs (omega arith) up in
    let (_, rest) = >>-eq-ok _ _ h in
    apply_decisions-before n index rs ds (apply_decision (i, call) d state) after up rest
    ∙ apply_decision-before index i call d state from

-- The denied call has its failure once all decisions are applied.
apply_decisions-denied :
    (b : ℕ) (requests : List (ℕ × RuntimeToolCall)) (decisions : List ApprovalDecision)
    (state after : List Prepared × Option Suspension) (k index : ℕ) (call : RuntimeToolCall)
    (id reason : String)
    → Ascending b (length state.0) requests
    → apply_decisions requests decisions state ≡ ok after
    → get_elem? requests k ≡ some (index, call)
    → get_elem? decisions k ≡ some (approval_deny id reason)
    → get_elem? after.0 index ≡ some (failed_call call "approval_denied" reason)
unfolding apply_decisions
apply_decisions-denied b [] ds state after k index call id reason up h asked denied = cc
apply_decisions-denied b (r ∷ rs) [] state after k index call id reason up h asked denied = cc
apply_decisions-denied b ((i, c) ∷ rs) (d ∷ ds) state after zero index call id reason
      (from, below, up) h asked denied =
    let index_same : i ≡ index = cc in
    let call_same : c ≡ call = cc in
    let deny : d ≡ approval_deny id reason = cc in
    let (_, rest) = >>-eq-ok _ _ h in
    let kept =
      apply_decisions-before (length state.0) i rs ds (apply_decision (i, c) d state) after up
        rest in
    let written = apply_decision-denied i c d state id reason below deny in
    ap (get_elem? after.0) (sym index_same)
    ∙ kept
    ∙ written
    ∙ ap (λ x. some (failed_call x "approval_denied" reason)) call_same
apply_decisions-denied b ((i, c) ∷ rs) (d ∷ ds) state after (suc k) index call id reason
      (from, below, up) h asked denied =
    let (_, rest) = >>-eq-ok _ _ h in
    let same = apply_decision-length (i, c) d state in
    apply_decisions-denied (suc i) rs ds (apply_decision (i, c) d state) after k index call id
      reason (subst (λ n. Ascending (suc i) n rs) (sym same) up) rest asked denied

slots-denied :
    (prepared : List Prepared) (index : ℕ) (p : Prepared)
    → get_elem? prepared index ≡ some p
    → get_elem? (map slot_of prepared) index ≡ some (slot_of p)
slots-denied [] index p h = cc
slots-denied (x ∷ xs) zero p h = let e : x ≡ p = cc in ap (λ y. some (slot_of y)) e
slots-denied (x ∷ xs) (suc index) p h = slots-denied xs index p h

-- When the policy denies the request at place `k`, `_complete` gives an `approval_denied` failure
-- with its reason at the index of that call, whatever the other tools do.
pub complete-denied :
    (refusal : RuntimeToolCall → Option String) (calls : List RuntimeToolCall)
    (decisions : List ApprovalDecision) (prepared : List Prepared) (k index : ℕ)
    (call : RuntimeToolCall) (id reason : String) (parallel : Bool) (max_tool_concurrency : ℕ)
    (inbox : ControlInbox) (n : ℕ) (f : Execution) (results : List ToolResult)
    → approve (some decisions) (bind refusal calls) ≡ ok (prepared, none)
    → get_elem? (requests_from 0 (bind refusal calls)) k ≡ some (index, call)
    → get_elem? decisions k ≡ some (approval_deny id reason)
    → Reach n (start prepared parallel max_tool_concurrency inbox) f
    → complete f.slots ≡ ok results
    → get_elem? results index ≡ some (failed_result "approval_denied" reason)
unfolding approve start
complete-denied refusal calls decisions prepared k index call id reason parallel max inbox n f
      results approved asked denied reached completed =
    let bound = bind refusal calls in
    let (_, applied) = >>-eq-ok _ _ approved in
    let failed =
      apply_decisions-denied 0 (requests_from 0 bound) decisions (bound, none) (prepared, none) k
        index call id reason (requests-Ascending bound) applied asked denied in
    complete-result refusal calls (some decisions) prepared approved parallel max inbox n
      (start prepared parallel max inbox) here index
      (slot_of (failed_call call "approval_denied" reason)) (failed_result "approval_denied" reason)
      f results (slots-denied prepared index (failed_call call "approval_denied" reason) failed)
      refl reached completed
