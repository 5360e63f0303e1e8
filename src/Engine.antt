-- ===== src/Engine.antt =====
-- `_boundary` of packages/jharness-kernel/src/jharness/kernel/_engine/engine.py: what the engine
-- commits between two effects, from its deadline, its controls and the inserts that it deferred.
pub mod Laws
use jharness.Common.{ℕ, Bool, true, false, String, Option, none, some, List, [], ◌∷◌, ◌++◌}
use jharness.State.{LimitReason, deadline, ActiveState, planning, tools_pending, Suspension}
use jharness.Control.{Insert, ControlInbox, drain_pending_controls}
use jharness.Change.{Change, limit, suspend, insert}

pub record Boundary : Type 0 where
  pub change : Option Change
  pub inbox : ControlInbox
  pub deferred : List Insert

abbrev pub idle : ControlInbox → List Insert → Boundary
idle inbox deferred = record { change = none; inbox = inbox; deferred = deferred }

-- The engine's choice after it has drained its controls.
unfoldable pub choose :
    String → ActiveState → Option Suspension → ControlInbox → List Insert → Boundary
choose now a (some suspension) inbox deferred = record {
  change = some (suspend now a suspension);
  inbox = inbox;
  deferred = deferred;
}
choose now (planning false) none inbox (i ∷ deferred) = record {
  change = some (insert now i.source i.message false);
  inbox = inbox;
  deferred = deferred;
}
choose now (planning false) none inbox [] = idle inbox []
choose now (planning true) none inbox deferred = idle inbox deferred
choose now (tools_pending p b) none inbox deferred = idle inbox deferred

-- `_boundary`, given whether the deadline has expired.
unfoldable pub boundary : String → Bool → ActiveState → ControlInbox → List Insert → Boundary
unfolding choose drain_pending_controls
boundary now true a inbox deferred = record {
  change = some (limit now deadline);
  inbox = inbox;
  deferred = deferred;
}
boundary now false a inbox deferred =
    let (paused, inserts, rest) = drain_pending_controls inbox in
    choose now a paused rest (deferred ++ inserts)
