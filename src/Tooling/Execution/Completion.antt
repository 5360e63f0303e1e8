-- ===== src/Tooling/Execution/Completion.antt =====
-- A batch can be finished from every state that its execution reaches.
use jharness.Common.{
  ℕ, zero, suc, ◌≤◌, ◌≡◌, refl, sym, ap, ◌∙◌, dec_lt, some, List, [], ◌∷◌, get_elem?, arith, ◌⊎◌,
  ◌-◌, inl, inr,
}
use jharness.State.Pending.{has_text}
use jharness.Change.Batch.{ToolResult}
use jharness.Tooling.Execution.{
  ToolTask, idle, queued, running, done, Slot, Execution, Step, acquires, settles, finishes, Reach,
  here, next, acquire, settle, finish, invocation_result, raised, drain_progress,
}
use jharness.Tooling.Execution.Counts.{
  total, total-set, le-total, total_pos, value_at, value_at-some, value_at_pos, occurs, occurs_same,
  occurs-nil,
}
use jharness.Tooling.Execution.Laws.{
  task_holds, task_returned, task_left, holds, returned, left, IsExecution, Step-IsExecution,
}

order_cases : (js : List ℕ) → (js ≡ []) ⊎ ((j : ℕ) × (rest : List ℕ) × (js ≡ j ∷ rest))
order_cases [] = inl refl
order_cases (j ∷ js) = inr (j, js, refl)

returned_done : (t : ToolTask) → 1 ≤ task_returned t → (r : ToolResult) × (t ≡ done r)
returned_done (done r) h = (r, refl)
returned_done idle h = absurd (omega arith)
returned_done queued h = absurd (omega arith)
returned_done running h = absurd (omega arith)

holds_cases : (t : ToolTask) → 1 ≤ task_holds t → (t ≡ running) ⊎ (1 ≤ task_returned t)
holds_cases (done r) h = inr (omega arith)
holds_cases idle h = absurd (omega arith)
holds_cases queued h = absurd (omega arith)
holds_cases running h = inl refl

left_cases : (t : ToolTask) → 1 ≤ task_left t → (t ≡ queued) ⊎ (1 ≤ task_holds t)
left_cases (done r) h = inr (omega arith)
left_cases idle h = absurd (omega arith)
left_cases queued h = inl refl
left_cases running h = inr (omega arith)

-- A step after which one step less is left to the tasks.
pub Brings : ℕ → Execution → Type 0
Brings n e = (f : Execution) × Step n e f × (suc (total left f.slots) ≡ total left e.slots)

module _ (n limit : ℕ) (e : Execution) (v : IsExecution limit e) where
  settle-Brings :
      (i : ℕ) (slot : Slot) → get_elem? e.slots i ≡ some slot → slot.task ≡ running → Brings n e
  unfolding settle Brings
  settle-Brings i slot found runs =
      let f = settle i slot (raised "") e in
      (
        f,
        settles e i slot (raised "") found runs,
        omega (
          arith,
          total-set left e.slots i slot
              (record slot {
                task = done (invocation_result (raised "") (has_text slot.call e.overflowed));
              })
              found,
          ap task_left runs,
        ),
      )

  acquire-Brings :
      (i : ℕ) (slot : Slot) (room : ℕ)
      → get_elem? e.slots i ≡ some slot
      → slot.task ≡ queued
      → e.permits ≡ suc room
      → Brings n e
  unfolding acquire Brings
  acquire-Brings i slot room found waits permit = (
    acquire i slot e,
    acquires e i slot room found waits permit,
    omega (
      arith,
      total-set left e.slots i slot (record slot { task = running }) found,
      ap task_left waits,
    ),
  )

  finish-Brings :
      (i : ℕ) (slot : Slot) (result : ToolResult) (order : List ℕ)
      → e.completion_order ≡ i ∷ order
      → get_elem? e.slots i ≡ some slot
      → slot.task ≡ done result
      → Brings n e
  unfolding finish drain_progress Brings
  finish-Brings i slot result order first found over = (
    finish i slot result order e,
    finishes e i slot result order first found over,
    omega (
      arith,
      total-set left e.slots i slot (record slot { task = idle; result = some result }) found,
      ap task_left over,
    ),
  )

  -- The task of the first index in `completion_order` has returned.
  first_finishes : (i : ℕ) (order : List ℕ) → e.completion_order ≡ i ∷ order → Brings n e
  first_finishes i order first =
      let counted : occurs i (i ∷ order) ≡ value_at returned (get_elem? e.slots i) =
        ap (occurs i) (sym first) ∙ v.ordered i in
      let (slot, found, over) =
        value_at_pos returned (get_elem? e.slots i) (omega (arith, counted, occurs_same i order)) in
      let (result, over) = returned_done slot.task over in
      finish-Brings i slot result order first found over

  -- When `completion_order` is empty, only running tools hold permits.
  holder_settles : e.completion_order ≡ [] → 1 ≤ total holds e.slots → Brings n e
  holder_settles empty held =
      let (i, slot, found, holding) = total_pos holds e.slots held in
      elim (holds_cases slot.task holding) [
        | inl runs ↦ settle-Brings i slot found runs
        | inr over ↦ absurd (
            omega (
              arith,
              value_at-some returned (get_elem? e.slots i) slot found,
              v.ordered i,
              ap (occurs i) empty,
              occurs-nil i,
            ))
      ]

  waiting_starts :
      (room : ℕ)
      → e.permits ≡ suc room
      → total holds e.slots ≡ 0
      → 1 ≤ total left e.slots
      → Brings n e
  waiting_starts room permit free work =
      let (i, slot, found, some_left) = total_pos left e.slots work in
      elim (left_cases slot.task some_left) [
        | inl waits ↦ acquire-Brings i slot room found waits permit
        | inr holding ↦ absurd (omega (arith, le-total holds e.slots i slot found))
      ]

  pub Step-Brings : 1 ≤ limit → 1 ≤ total left e.slots → Brings n e
  Step-Brings some_limit work = elim (order_cases e.completion_order) [
    | inr (i, order, first) ↦ first_finishes i order first
    | inl empty ↦ elim (dec_lt 0 (total holds e.slots)) [
      | yes held ↦ holder_settles empty held
      | no free ↦
          let full : e.permits ≡ suc (limit - 1) = omega (arith, v.permits_held) in
          waiting_starts (limit - 1) full (omega arith) work
    ]
  ]

append-Reach : (n : ℕ) (e f g : Execution) → Reach n e f → Reach n f g → Reach n e g
append-Reach n e f _ first here = first
append-Reach n e f _ first (next {f = h} second step) =
    next (append-Reach n e f h first second) step

-- From a state with `k` steps left, one with none left is reached.
pub Reach-settled :
    (n limit k : ℕ) (e : Execution)
    → IsExecution limit e
    → 1 ≤ limit
    → total left e.slots ≡ k
    → (f : Execution) × Reach n e f × (total left f.slots ≡ 0)
unfolding Brings
Reach-settled n limit zero e v some_limit settled = (e, here, settled)
Reach-settled n limit (suc k) e v some_limit work =
    let (f, step, less) = Step-Brings n limit e v some_limit (omega (arith, work)) in
    let (g, rest, settled) =
      Reach-settled n limit k f (Step-IsExecution limit n e f step v) some_limit
        (omega (arith, work, less)) in
    (g, append-Reach n e f g (next here step) rest, settled)
