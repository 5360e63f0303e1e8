-- ===== src/Requests/Refused.antt =====
-- Metadata that a suspension or a request may have, but that no fact can record.
use jharness.Common.{
  ◌≡◌, refl, Option, none, ◌∙◌, true, false, String, some, List, decide-String-discrete, arith,
}
use jharness.Errors.{ok, err, value_error}
use jharness.Json.{Json}
use jharness.Json.Keys.{sorted_keys}
use jharness.Json.Keys.Laws.{has_text-sorted_keys}
use jharness.Messages.Checks.{empty_text, expect_present}
use jharness.State.{ActiveState, Suspension}
use jharness.State.Pending.{has_text}
use jharness.Checkpoint.{check_fact, check_suspension_view, check_texts, is_blank, blank_wait}
use jharness.Change.{suspend}
use jharness.Wire.{find}
use jharness.Wire.State.{check_suspension}

filled : (s : String) → empty_text s ≡ false → is_blank s ≡ false
filled s h = decide-String-discrete s "" ∙ h

present_wait :
    (o : Option String) (label : String) → expect_present o label ≡ ok tt → blank_wait o ≡ false
present_wait none label h = refl
present_wait (some s) label h = filled s (ground arith)

suspension_texts :
    (s : Suspension)
    → check_suspension s ≡ ok tt
    → (empty_text s.reason ≡ false)
      × (empty_text s.source ≡ false)
      × (expect_present s.wait_id "suspension wait_id" ≡ ok tt)
unfolding check_suspension
suspension_texts s h = ground arith

refused_texts :
    (items : List String)
    → has_text "" items ≡ true
    → check_texts items ≡ err (value_error "items must not be empty")
unfolding check_texts
refused_texts items h = rw h

-- A suspension whose metadata has an empty key is valid, but the fact of the change that suspends the
-- run is refused when it is built.
pub suspend-empty_key :
    (now : String) (a : ActiveState) (s : Suspension) (v : Json)
    → check_suspension s ≡ ok tt
    → find "" s.metadata ≡ some v
    → check_fact (suspend now a s).fact.body ≡ err (value_error "items must not be empty")
unfolding check_fact suspend check_suspension_view
suspend-empty_key now a s v h found =
    let (reason, source, wait) = suspension_texts s h in
    rw (
      filled s.reason reason,
      filled s.source source,
      present_wait s.wait_id "suspension wait_id" wait,
      refused_texts (sorted_keys s.metadata) (has_text-sorted_keys "" s.metadata v found),
    )
