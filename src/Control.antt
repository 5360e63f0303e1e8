-- ===== src/Control.antt =====
-- packages/jharness-kernel/src/jharness/kernel/control.py: the inbox of an invocation and the source
-- that feeds it. A lock makes each method one step. `call_soon_threadsafe` puts a callback in the
-- event loop's queue, which is kept as `scheduled`, and `run_scheduled` is the loop running the first.
pub mod Laws
use jharness.Common.{
  Bool, true, false, String, Option, none, some, List, [], ◌∷◌, ◌++◌, decide, if◌then◌else◌,
  String-discrete,
}
use jharness.Errors.{Result, ok, err, runtime_error}
use jharness.Messages.{Message}
use jharness.State.{Suspension}
use jharness.State.Pending.{has_text}

pub record Insert : Type 0 where
  pub message : Message
  pub source : String

pub data Control : Type 0 where
  pause : Suspension → Control
  insertion : Insert → Control
  cancel_tool : String → Control

pub record ControlInbox : Type 0 where
  pub queue : List Control
  pub scheduled : List Control
  pub cancelled : List String
  pub closed : Bool

abbrev pub new_inbox : ControlInbox
new_inbox = record { queue = []; scheduled = []; cancelled = []; closed = false }

unfoldable pub submit : ControlInbox → Control → ControlInbox
submit inbox c =
    if inbox.closed then inbox else record inbox { scheduled = inbox.scheduled ++ c ∷ [] }

-- `submit_local`, and `_enqueue_if_open`, which does the same.
unfoldable pub submit_local : ControlInbox → Control → ControlInbox
submit_local inbox c =
    if inbox.closed then inbox else record inbox { queue = inbox.queue ++ c ∷ [] }

unfoldable pub run_scheduled : ControlInbox → List Control → ControlInbox
unfolding submit_local
run_scheduled inbox [] = inbox
run_scheduled inbox (c ∷ rest) = submit_local (record inbox { scheduled = rest }) c

-- `poll`: the first control, and the inbox without it.
unfoldable pub poll : ControlInbox → List Control → Option Control × ControlInbox
poll inbox [] = (none, inbox)
poll inbox (c ∷ rest) = (some c, record inbox { queue = rest })

unfoldable pub cancellation_requested : ControlInbox → String → Bool
unfolding has_text
cancellation_requested inbox id = has_text id inbox.cancelled

unfoldable pub request_cancellation : ControlInbox → String → ControlInbox
request_cancellation inbox id =
    if inbox.closed then inbox else record inbox { cancelled = id ∷ inbox.cancelled }

-- `set.discard`.
unfoldable pub discard : String → List String → List String
unfolding String-discrete
discard id [] = []
discard id (j ∷ js) =
    let rest = discard id js in if decide (String-discrete id j) then rest else j ∷ rest

unfoldable pub clear_cancellation : ControlInbox → String → ControlInbox
unfolding discard
clear_cancellation inbox id = record inbox { cancelled = discard id inbox.cancelled }

unfoldable pub close : ControlInbox → ControlInbox
close inbox = record inbox { queue = []; cancelled = []; closed = true }

-- What draining has seen so far, and the ids whose cancellation it cleared.
pub record Drained : Type 0 where
  pub paused : Option Suspension
  pub inserts : List Insert
  pub cleared : List String

abbrev pub or_first : Option Suspension → Suspension → Option Suspension
or_first none s = some s
or_first (some first) s = some first

unfoldable pub observe : Drained → Control → Drained
observe d (pause s) = record d { paused = or_first d.paused s }
observe d (insertion i) = record d { inserts = d.inserts ++ i ∷ [] }
observe d (cancel_tool id) = record d { cleared = d.cleared ++ id ∷ [] }

-- The loop of `drain_pending_controls` over the queue.
unfoldable pub drain : Drained → List Control → Drained
unfolding observe
drain d [] = d
drain d (c ∷ rest) = drain (observe d c) rest

unfoldable pub clear_all : List String → List String → List String
unfolding discard
clear_all [] cancelled = cancelled
clear_all (id ∷ ids) cancelled = clear_all ids (discard id cancelled)

abbrev pub nothing_drained : Drained
nothing_drained = record { paused = none; inserts = []; cleared = [] }

-- `drain_pending_controls`.
unfoldable pub drain_pending_controls :
    ControlInbox → Option Suspension × List Insert × ControlInbox
unfolding drain clear_all
drain_pending_controls inbox =
    let d = drain nothing_drained inbox.queue in
    (
      d.paused,
      d.inserts,
      record inbox { queue = []; cancelled = clear_all d.cleared inbox.cancelled },
    )

-- The source owns the inbox that is attached to it.
pub record ControlSource : Type 0 where
  pub active : Option ControlInbox
  pub source_closed : Bool
  pub pending : List Control

abbrev pub new_source : ControlSource
new_source = record { active = none; source_closed = false; pending = [] }

abbrev submit_to : ControlSource → Option ControlInbox → Control → ControlSource
submit_to s none c = record s { pending = s.pending ++ c ∷ [] }
submit_to s (some inbox) c = record s { active = some (submit inbox c) }

-- `ControlSource.submit`.
unfoldable pub submit_control : ControlSource → Control → ControlSource
unfolding submit
submit_control s c = if s.source_closed then s else submit_to s s.active c

unfoldable pub submit_all_local : ControlInbox → List Control → ControlInbox
unfolding submit_local
submit_all_local inbox [] = inbox
submit_all_local inbox (c ∷ cs) = submit_all_local (submit_local inbox c) cs

-- `attach`, on the inbox that is active.
unfoldable pub attach_to : ControlSource → Option ControlInbox → Result ControlSource
unfolding submit_all_local
attach_to s (some inbox) = err (runtime_error "invocation control is already attached")
attach_to s none =
    ok (record s { active = some (submit_all_local new_inbox s.pending); pending = [] })

unfoldable pub attach : ControlSource → Result ControlSource
unfolding attach_to
attach s =
    if s.source_closed
    then err (runtime_error "invocation has finished; controls are closed")
    else attach_to s s.active

-- `detach` of the active inbox, and `close`: the inbox is closed, and no control is accepted again.
unfoldable pub shut : ControlSource → ControlSource
shut s = record { active = none; source_closed = true; pending = [] }
