-- ===== src/Tooling/Execution/Results.antt =====
-- The results of a batch: once a call has a result it stays, in the place of the call, and
-- `_complete` collects the results when no task is left.
use jharness.Common.{
  ℕ, zero, suc, ◌≡◌, refl, sym, ap, ◌∙◌, Option, none, some, List, [], ◌∷◌, length, get_elem?, set,
  ◌==◌, ==_iff, Bool-cases, inl, inr, ◌⊎◌, arith,
}
use jharness.Errors.{ok, >>=-eq-ok}
use jharness.State.Pending.{has_text}
use jharness.Change.Batch.{ToolResult}
use jharness.Tooling.Execution.{
  idle, queued, running, done, Slot, Execution, Step, acquires, progresses, settles, observes,
  drains, finishes, Reach, here, next, acquire, settle, finish, complete, settled_result,
  invocation_result, emit_progress, observe_control, drain_progress,
}
use jharness.Tooling.Execution.Counts.{total, total-cons, get_elem?-set, length-set}
use jharness.Tooling.Execution.Laws.{left, Fits, IsExecution, Step-IsExecution}

-- A call with a result is not the one whose slot is written.
kept-set :
    (slots : List Slot) (index i : ℕ) (old new s : Slot) (r : ToolResult)
    → get_elem? slots index ≡ some old
    → old.result ≡ none
    → get_elem? slots i ≡ some s
    → s.result ≡ some r
    → get_elem? (set slots index new) i ≡ some s
kept-set slots index i old new s r found unsettled h settled = elim (Bool-cases (index == i)) [
  | inl same ↦
      let here : index ≡ i = ground (arith, ==_iff index i) in let e : s ≡ old = cc in absurd cc
  | inr other ↦ rw (get_elem?-set slots index i old new found, other) h
]

queued_unsettled : (s : Slot) → Fits s.task s.result → s.task ≡ queued → s.result ≡ none
queued_unsettled s fits waits = ground arith

running_unsettled : (s : Slot) → Fits s.task s.result → s.task ≡ running → s.result ≡ none
running_unsettled s fits runs = ground arith

done_unsettled :
    (s : Slot) (r : ToolResult) → Fits s.task s.result → s.task ≡ done r → s.result ≡ none
done_unsettled s r fits over = ground arith

result_cases : (o : Option ToolResult) → (o ≡ none) ⊎ ((r : ToolResult) × (o ≡ some r))
result_cases none = inl refl
result_cases (some r) = inr (r, refl)

module _ (limit n i : ℕ) (s : Slot) (r : ToolResult) (settled : s.result ≡ some r) where
  Step-kept :
      (e f : Execution)
      → Step n e f
      → IsExecution limit e
      → get_elem? e.slots i ≡ some s
      → get_elem? f.slots i ≡ some s
  unfolding acquire settle finish emit_progress observe_control drain_progress
  Step-kept e _ (acquires _ index slot room found waits permit) v h =
      let unsettled = queued_unsettled slot (v.fitting index slot found) waits in
      kept-set e.slots index i slot (record slot { task = running }) s r found unsettled h settled
  Step-kept e _ (progresses _ index slot value found runs) v h = ground arith
  Step-kept e _ (settles _ index slot given found runs) v h =
      let unsettled = running_unsettled slot (v.fitting index slot found) runs in
      let new : Slot = record slot {
        task = done (invocation_result given (has_text slot.call e.overflowed));
      } in
      kept-set e.slots index i slot new s r found unsettled h settled
  Step-kept e _ (observes _ control inbox polled) v h = ground arith
  Step-kept e _ (drains _) v h = h
  Step-kept e _ (finishes _ index slot result order first found over) v h =
      let unsettled = done_unsettled slot result (v.fitting index slot found) over in
      kept-set e.slots index i slot (record slot { task = idle; result = some result }) s r found
        unsettled h settled

  pub Reach-kept :
      (e f : Execution)
      → Reach n e f
      → IsExecution limit e
      → get_elem? e.slots i ≡ some s
      → (get_elem? f.slots i ≡ some s) × IsExecution limit f
  Reach-kept e _ here v h = (h, v)
  Reach-kept e g (next {f = f} reach step) v h =
      let (k, w) = Reach-kept e f reach v h in
      (Step-kept f g step w k, Step-IsExecution limit n f g step w)

settled_result-some :
    (o : Option ToolResult) (r : ToolResult) → settled_result o ≡ ok r → o ≡ some r
settled_result-some (some r) q h = cc
settled_result-some none q h = cc

-- `_complete` gives the result of each slot, in order.
pub complete-get_elem? :
    (slots : List Slot) (results : List ToolResult) (i : ℕ) (s : Slot)
    → complete slots ≡ ok results
    → get_elem? slots i ≡ some s
    → get_elem? results i ≡ s.result
unfolding complete
complete-get_elem? [] results i s h found = cc
complete-get_elem? (slot ∷ rest) results zero s h found =
    let (r, given, h) = >>=-eq-ok (settled_result slot.result) _ h in
    let (rs, collected, h) = >>=-eq-ok (complete rest) _ h in
    let e : slot ≡ s = cc in
    let made : (r ∷ rs) ≡ results = cc in
    let q = settled_result-some slot.result r given in
    ap (λ x. get_elem? x 0) (sym made) ∙ sym q ∙ ap (λ x. x.result) e
complete-get_elem? (slot ∷ rest) results (suc i) s h found =
    let (r, given, h) = >>=-eq-ok (settled_result slot.result) _ h in
    let (rs, collected, h) = >>=-eq-ok (complete rest) _ h in
    let made : (r ∷ rs) ≡ results = cc in
    let q = complete-get_elem? rest rs i s collected found in
    ap (λ x. get_elem? x (suc i)) (sym made) ∙ q

complete-cons :
    (slot : Slot) (rest : List Slot) (r : ToolResult) (rs : List ToolResult)
    → slot.result ≡ some r
    → complete rest ≡ ok rs
    → complete (slot ∷ rest) ≡ ok (r ∷ rs)
unfolding complete
complete-cons slot rest r rs given collected = rw (given, collected)

Fits-settled :
    (s : Slot) → Fits s.task s.result → left s ≡ 0 → (r : ToolResult) × (s.result ≡ some r)
Fits-settled s fits settled = elim (result_cases s.result) [
  | inr given ↦ given
  | inl missing ↦ absurd (ground arith)
]

pub complete-total :
    (slots : List Slot)
    → ((i : ℕ) (s : Slot) → get_elem? slots i ≡ some s → Fits s.task s.result)
    → total left slots ≡ 0
    → (results : List ToolResult) × (complete slots ≡ ok results) × (length results ≡ length slots)
unfolding complete
complete-total [] fits settled = ([], refl, refl)
complete-total (slot ∷ rest) fits settled =
    let sum = total-cons left slot rest in
    let (r, given) = Fits-settled slot (fits 0 slot refl) (omega (arith, sum)) in
    let (rs, collected, same) = complete-total rest (λ i. fits (suc i)) (omega (arith, sum)) in
    (r ∷ rs, complete-cons slot rest r rs given collected, ap suc same)

-- Steps keep the slots in their places.
Step-length : (n : ℕ) (e f : Execution) → Step n e f → length f.slots ≡ length e.slots
unfolding acquire settle finish emit_progress observe_control drain_progress
Step-length n e _ (acquires _ index slot room found waits permit) = length-set e.slots index _
Step-length n e _ (progresses _ index slot value found runs) = ground arith
Step-length n e _ (settles _ index slot given found runs) = length-set e.slots index _
Step-length n e _ (observes _ control inbox polled) = ground arith
Step-length n e _ (drains _) = refl
Step-length n e _ (finishes _ index slot result order first found over) = length-set e.slots index _

pub Reach-length : (n : ℕ) (e f : Execution) → Reach n e f → length f.slots ≡ length e.slots
Reach-length n e _ here = refl
Reach-length n e g (next {f = f} reach step) = Step-length n f g step ∙ Reach-length n e f reach
