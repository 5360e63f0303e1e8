-- ===== src/Control/Laws.antt =====
-- Controls are delivered in order, and draining keeps the first pause and every insert.
use jharness.Common.{
  ◌≡◌, refl, sym, ap, ◌∙◌, Option, none, some, List, [], ◌∷◌, ◌++◌, append-nil, append_assoc,
}
use jharness.Errors.{ok}
use jharness.State.{Suspension}
use jharness.Control.{
  Control, pause, insertion, cancel_tool, Insert, ControlInbox, new_inbox, Drained, or_first,
  observe, drain, nothing_drained, drain_pending_controls, ControlSource, new_source,
  submit_control, submit_local, submit_all_local, attach, attach_to,
}

-- The first pause among some controls, and the inserts among them.
abbrev pub first_pause : List Control → Option Suspension
first_pause [] = none
first_pause (pause s ∷ rest) = some s
first_pause (insertion i ∷ rest) = first_pause rest
first_pause (cancel_tool id ∷ rest) = first_pause rest

abbrev pub inserts_of : List Control → List Insert
inserts_of [] = []
inserts_of (pause s ∷ rest) = inserts_of rest
inserts_of (insertion i ∷ rest) = i ∷ inserts_of rest
inserts_of (cancel_tool id ∷ rest) = inserts_of rest

abbrev or_later : Option Suspension → Option Suspension → Option Suspension
or_later none later = later
or_later (some first) later = some first

or_later-first :
    (o : Option Suspension) (s : Suspension) (later : Option Suspension)
    → or_later (or_first o s) later ≡ or_later o (some s)
or_later-first none s later = refl
or_later-first (some t) s later = refl

or_later-none : (o : Option Suspension) → o ≡ or_later o none
or_later-none none = refl
or_later-none (some s) = refl

drain-paused :
    (cs : List Control) (d : Drained) → (drain d cs).paused ≡ or_later d.paused (first_pause cs)
unfolding drain observe
drain-paused [] d = or_later-none d.paused
drain-paused (pause s ∷ cs) d = drain-paused cs _ ∙ or_later-first d.paused s (first_pause cs)
drain-paused (insertion i ∷ cs) d = drain-paused cs _
drain-paused (cancel_tool id ∷ cs) d = drain-paused cs _

drain-inserts :
    (cs : List Control) (d : Drained) → (drain d cs).inserts ≡ d.inserts ++ inserts_of cs
unfolding drain observe
drain-inserts [] d = sym (append-nil d.inserts)
drain-inserts (pause s ∷ cs) d = drain-inserts cs _
drain-inserts (insertion i ∷ cs) d =
    drain-inserts cs _ ∙ append_assoc d.inserts (i ∷ []) (inserts_of cs)
drain-inserts (cancel_tool id ∷ cs) d = drain-inserts cs _

-- Draining an inbox returns the first pause in its queue and all inserts in it, in order, and leaves
-- the queue empty.
pub drain_pending_controls_lem :
    (inbox : ControlInbox)
    → ((drain_pending_controls inbox).0 ≡ first_pause inbox.queue)
      × ((drain_pending_controls inbox).1 ≡ inserts_of inbox.queue)
      × ((drain_pending_controls inbox).2.queue ≡ [])
unfolding drain_pending_controls
drain_pending_controls_lem inbox =
    (drain-paused inbox.queue nothing_drained, drain-inserts inbox.queue nothing_drained, refl)

-- A source after some submissions.
unfoldable pub submit_controls : ControlSource → List Control → ControlSource
unfolding submit_control
submit_controls s [] = s
submit_controls s (c ∷ cs) = submit_controls (submit_control s c) cs

submit_controls-pending :
    (cs before : List Control)
    → submit_controls (record new_source { pending = before }) cs
      ≡ record new_source { pending = before ++ cs }
unfolding submit_controls submit_control
submit_controls-pending [] before =
    ap (λ l. record new_source { pending = l }) (sym (append-nil before))
submit_controls-pending (c ∷ cs) before =
    submit_controls-pending cs (before ++ c ∷ [])
    ∙ ap (λ l. record new_source { pending = l }) (append_assoc before (c ∷ []) cs)

submit_all_local-queue :
    (cs before : List Control)
    → submit_all_local (record new_inbox { queue = before }) cs
      ≡ record new_inbox { queue = before ++ cs }
unfolding submit_all_local submit_local
submit_all_local-queue [] before =
    ap (λ l. record new_inbox { queue = l }) (sym (append-nil before))
submit_all_local-queue (c ∷ cs) before =
    submit_all_local-queue cs (before ++ c ∷ [])
    ∙ ap (λ l. record new_inbox { queue = l }) (append_assoc before (c ∷ []) cs)

-- The controls that are submitted to a new source before an inbox is attached are the queue of that
-- inbox, in order.
pub attach-submit_controls :
    (cs : List Control)
    → attach (submit_controls new_source cs)
      ≡ ok (record new_source { active = some (record new_inbox { queue = cs }) })
unfolding attach attach_to
attach-submit_controls cs = rw (submit_controls-pending cs [], submit_all_local-queue cs [])
