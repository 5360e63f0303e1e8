-- ===== src/Tooling/Execution/Laws.antt =====
-- What the concurrent execution of a batch keeps whatever the event loop does: permits bound the
-- running tools, results stay, and the batch can always be finished.
use jharness.Common.{
  ℕ, suc, ◌+◌, ◌≡◌, refl, sym, ap, ◌∙◌, subst, Option, none, some, List, ◌∷◌, get_elem?, set, ◌==◌,
  if◌then◌else◌, arith, Bool-cases, inl, inr,
}
use jharness.Change.Batch.{ToolResult}
use jharness.Tooling.Execution.{
  ToolTask, idle, queued, running, done, Slot, Execution, Step, acquires, progresses, settles,
  observes, drains, finishes, Reach, here, next, acquire, emit_progress, settle, observe_control,
  drain_progress, finish, invocation_result, ToolReturn,
}
use jharness.State.Pending.{has_text}
use jharness.Tooling.Execution.Counts.{
  total, total-set, get_elem?-set, value_at, occurs, occurs-append, occurs-cons, value_at-set,
}

-- Whether a task holds a permit; whether it runs its tool; whether it has returned; and the steps
-- that it still takes.
abbrev pub task_holds : ToolTask → ℕ
task_holds idle = 0
task_holds queued = 0
task_holds running = 1
task_holds (done r) = 1

abbrev pub task_runs : ToolTask → ℕ
task_runs running = 1
task_runs _ = 0

abbrev pub task_returned : ToolTask → ℕ
task_returned (done r) = 1
task_returned _ = 0

abbrev pub task_left : ToolTask → ℕ
task_left idle = 0
task_left queued = 3
task_left running = 2
task_left (done r) = 1

abbrev pub holds : Slot → ℕ
holds s = task_holds s.task

abbrev pub runs : Slot → ℕ
runs s = task_runs s.task

abbrev pub returned : Slot → ℕ
returned s = task_returned s.task

abbrev pub left : Slot → ℕ
left s = task_left s.task

-- A call has a result exactly when it has no task.
abbrev pub Fits : ToolTask → Option ToolResult → Type 0
Fits idle none = ⊥
Fits idle (some r) = Unit
Fits _ none = Unit
Fits _ (some r) = ⊥

pub record IsExecution (limit : ℕ) (e : Execution) : Type 0 where
  pub permits_held : e.permits + total holds e.slots ≡ limit
  pub fitting : (i : ℕ) (s : Slot) → get_elem? e.slots i ≡ some s → Fits s.task s.result
  pub ordered : (i : ℕ) → occurs i e.completion_order ≡ value_at returned (get_elem? e.slots i)

-- Writing a fitting slot keeps the slots fitting.
fitting-set :
    (slots : List Slot) (index : ℕ) (old new : Slot)
    → get_elem? slots index ≡ some old
    → Fits new.task new.result
    → ((i : ℕ) (s : Slot) → get_elem? slots i ≡ some s → Fits s.task s.result)
    → (i : ℕ) (s : Slot) → get_elem? (set slots index new) i ≡ some s
    → Fits s.task s.result
fitting-set slots index old new found fits all i s h = elim (Bool-cases (index == i)) [
  | inl same ↦
      let written : get_elem? (set slots index new) i ≡ some new =
        rw (get_elem?-set slots index i old new found, same) in
      let e : new ≡ s = cc in subst (λ (x : Slot). Fits x.task x.result) e fits
  | inr other ↦
      let kept : get_elem? (set slots index new) i ≡ get_elem? slots i =
        rw (get_elem?-set slots index i old new found, other) in
      all i s (sym kept ∙ h)
]

module _ (limit : ℕ) (e : Execution) (index : ℕ) (slot : Slot) (v : IsExecution limit e) where
  acquire-IsExecution :
      (room : ℕ)
      → get_elem? e.slots index ≡ some slot
      → slot.task ≡ queued
      → e.permits ≡ suc room
      → IsExecution limit (acquire index slot e)
  unfolding acquire
  acquire-IsExecution room found waits permit =
      let new : Slot = record slot { task = running } in
      let fits = v.fitting index slot found in
      record {
        permits_held = omega (
          arith,
          total-set holds e.slots index slot new found,
          v.permits_held,
          ap task_holds waits,
        );
        fitting = fitting-set e.slots index slot new found (ground arith) v.fitting;
        ordered = λ i. ground (
          arith,
          v.ordered i,
          value_at-set returned e.slots index i slot new found,
          ap task_returned waits,
        );
      }

  settle-IsExecution :
      (given : ToolReturn)
      → get_elem? e.slots index ≡ some slot
      → slot.task ≡ running
      → IsExecution limit (settle index slot given e)
  unfolding settle
  settle-IsExecution given found runs =
      let new : Slot = record slot {
        task = done (invocation_result given (has_text slot.call e.overflowed));
      } in
      let fits = v.fitting index slot found in
      record {
        permits_held = omega (
          arith,
          total-set holds e.slots index slot new found,
          v.permits_held,
          ap task_holds runs,
        );
        fitting = fitting-set e.slots index slot new found (ground arith) v.fitting;
        ordered = λ i. ground (
          arith,
          v.ordered i,
          occurs-append i e.completion_order index,
          value_at-set returned e.slots index i slot new found,
          ap task_returned runs,
        );
      }

  finish-IsExecution :
      (result : ToolResult) (order : List ℕ)
      → e.completion_order ≡ index ∷ order
      → get_elem? e.slots index ≡ some slot
      → slot.task ≡ done result
      → IsExecution limit (finish index slot result order e)
  unfolding finish drain_progress
  finish-IsExecution result order first found over =
      let new : Slot = record slot { task = idle; result = some result } in
      record {
        permits_held = omega (
          arith,
          total-set holds e.slots index slot new found,
          v.permits_held,
          ap task_holds over,
        );
        fitting = fitting-set e.slots index slot new found (ground arith) v.fitting;
        ordered = λ i.
            let counted : (if index == i then 1 else 0) + occurs i order
                ≡ value_at returned (get_elem? e.slots i) =
              sym (occurs-cons i index order) ∙ ap (occurs i) (sym first) ∙ v.ordered i in
            ground (
              arith,
              counted,
              value_at-set returned e.slots index i slot new found,
              ap task_returned over,
            );
      }

module _ (limit : ℕ) where
  same-IsExecution :
      (e f : Execution)
      → f.slots ≡ e.slots
      → f.permits ≡ e.permits
      → f.completion_order ≡ e.completion_order
      → IsExecution limit e
      → IsExecution limit f
  same-IsExecution e f slots permits order v = record {
    permits_held = rw (slots, permits) v.permits_held;
    fitting = λ i s h. v.fitting i s (sym (ap (λ x. get_elem? x i) slots) ∙ h);
    ordered = λ i. rw (slots, order) (v.ordered i);
  }

  pub Step-IsExecution :
      (max_buffered_progress : ℕ) (e f : Execution)
      → Step max_buffered_progress e f
      → IsExecution limit e
      → IsExecution limit f
  unfolding emit_progress observe_control drain_progress
  Step-IsExecution n _ _ (acquires e i slot room found waits permit) v =
      acquire-IsExecution limit e i slot v room found waits permit
  Step-IsExecution n _ _ (progresses e i slot value found runs) v =
      same-IsExecution e (emit_progress n slot.call value e) (ground arith) (ground arith)
        (ground arith) v
  Step-IsExecution n _ _ (settles e i slot given found runs) v =
      settle-IsExecution limit e i slot v given found runs
  Step-IsExecution n _ _ (observes e control inbox polled) v =
      same-IsExecution e (observe_control control (record e { inbox = inbox })) (ground arith)
        (ground arith) (ground arith) v
  Step-IsExecution n _ _ (drains e) v = same-IsExecution e (drain_progress e) refl refl refl v
  Step-IsExecution n _ _ (finishes e i slot result order first found over) v =
      finish-IsExecution limit e i slot v result order first found over

  pub Reach-IsExecution :
      (max_buffered_progress : ℕ) (e f : Execution)
      → Reach max_buffered_progress e f
      → IsExecution limit e
      → IsExecution limit f
  Reach-IsExecution n e _ here v = v
  Reach-IsExecution n e g (next {f} reach step) v =
      Step-IsExecution n f g step (Reach-IsExecution n e f reach v)
