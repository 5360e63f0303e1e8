-- ===== src/Samples/Controls.antt =====
-- The theorems on the batch policy, on controls and on boundaries at sample values.
use jharness.Common.{◌≡◌, refl, true, false, none, some, [], ◌∷◌, ◌++◌, arith}
use jharness.Errors.{ok}
use jharness.State.{planning}
use jharness.State.Pending.{unique_texts}
use jharness.Change.Batch.{ToolBatch, select_default, check_batch}
use jharness.Change.Batch.Policy.{check_batch-select_default}
use jharness.Control.{new_inbox, insertion, cancel_tool, new_source, attach, drain_pending_controls}
use jharness.Control.Laws.{
  inserts_of, drain_pending_controls_lem, submit_controls, attach-submit_controls,
}
use jharness.Engine.{boundary}
use jharness.Engine.Laws.{appended, messages_of, held, boundary-kept}
use jharness.Samples.{sample_inbox, sample_insert, call_a, call_b}

check_batch-select_default_example :
    (batch : ToolBatch) × (select_default (λ name. some true) (λ id. id) (call_a ∷ call_b ∷ []) 1
      ≡ ok batch)
    × (check_batch (λ name. some true) (λ id. id) batch (call_a ∷ call_b ∷ []) 1 ≡ ok batch)
unfolding unique_texts
check_batch-select_default_example =
    check_batch-select_default (λ name. some true) (λ id. id) call_a (call_b ∷ []) 1 (omega arith)
      refl

drain_pending_controls_lem_example :
    ((drain_pending_controls sample_inbox).0 ≡ none)
    × ((drain_pending_controls sample_inbox).1 ≡ sample_insert ∷ [])
    × ((drain_pending_controls sample_inbox).2.queue ≡ [])
drain_pending_controls_lem_example = drain_pending_controls_lem sample_inbox

attach-submit_controls_example :
    attach (submit_controls new_source (insertion sample_insert ∷ cancel_tool "a" ∷ []))
    ≡ ok (record new_source {
      active = some (record new_inbox { queue = insertion sample_insert ∷ cancel_tool "a" ∷ [] });
    })
attach-submit_controls_example =
    attach-submit_controls (insertion sample_insert ∷ cancel_tool "a" ∷ [])

boundary-kept_example :
    (appended (boundary "0x1p+1" true (planning false) sample_inbox (sample_insert ∷ [])).change
        ++ messages_of
            (held (boundary "0x1p+1" true (planning false) sample_inbox (sample_insert ∷ [])))
      ≡ messages_of ((sample_insert ∷ []) ++ inserts_of sample_inbox.queue))
    × (true ≡ false
        → inserts_of
            (boundary "0x1p+1" true (planning false) sample_inbox (sample_insert ∷ [])).inbox.queue
          ≡ [])
boundary-kept_example =
    boundary-kept "0x1p+1" true (planning false) sample_inbox (sample_insert ∷ [])
