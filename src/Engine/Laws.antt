-- ===== src/Engine/Laws.antt =====
-- The inserts at a boundary of the engine, before and after it, and the commit of its change.
use jharness.Common.{
  ℕ, ◌≡◌, refl, sym, ap, subst, ◌∙◌, Bool, true, false, String, Option, none, some, List, [], ◌∷◌,
  ◌++◌, length, map, append-nil, append_assoc,
}
use jharness.Messages.{Message}
use jharness.State.{
  ActiveState, planning, tools_pending, active, deadline, Suspension, advance_metrics,
}
use jharness.Snapshot.{RunSnapshot, evolve_snapshot}
use jharness.Control.{Insert, ControlInbox, drain_pending_controls}
use jharness.Control.Laws.{inserts_of, drain_pending_controls_lem}
use jharness.Change.{Change, limit, suspend, insert, reduce}
use jharness.Verification.Accepted.{IsEngineChange, limits, suspends, inserts, reduce-verified}
use jharness.Verification.{run_view, verify_change}
use jharness.Runs.Sound.{WithCursor, IsSound, IsEngineChange-IsSound}
use jharness.Errors.{ok, >>=-eq-ok}
use jharness.Checkpoint.{Checkpoint}
use jharness.Checkpoint.Laws.{checkpoint_inv}
use jharness.State.Pending.Laws.{AllPending}
use jharness.Linkage.{pending_state}
use jharness.History.Run.Contents.{contents}
use jharness.Snapshot.Valid.{IsSnapshot, evolve_snapshot-IsSnapshot}
use jharness.Engine.{Boundary, choose, boundary}

-- The messages that a change appends.
abbrev pub appended : Option Change → List Message
appended none = []
appended (some c) = c.append

abbrev pub messages_of : List Insert → List Message
messages_of = map (λ i. i.message)

choose-kept :
    (now : String) (a : ActiveState) (paused : Option Suspension) (inbox : ControlInbox)
    (deferred : List Insert)
    → appended (choose now a paused inbox deferred).change
        ++ messages_of (choose now a paused inbox deferred).deferred
      ≡ messages_of deferred
unfolding choose suspend insert
choose-kept now a (some suspension) inbox deferred = refl
choose-kept now (planning false) none inbox (i ∷ deferred) = refl
choose-kept now (planning false) none inbox [] = refl
choose-kept now (planning true) none inbox deferred = refl
choose-kept now (tools_pending p b) none inbox deferred = refl

choose-inbox :
    (now : String) (a : ActiveState) (paused : Option Suspension) (inbox : ControlInbox)
    (deferred : List Insert)
    → (choose now a paused inbox deferred).inbox ≡ inbox
unfolding choose
choose-inbox now a (some suspension) inbox deferred = refl
choose-inbox now (planning false) none inbox (i ∷ deferred) = refl
choose-inbox now (planning false) none inbox [] = refl
choose-inbox now (planning true) none inbox deferred = refl
choose-inbox now (tools_pending p b) none inbox deferred = refl

-- The inserts that are held after a boundary: those that stay deferred, then those in the inbox.
abbrev pub held : Boundary → List Insert
held b = b.deferred ++ inserts_of b.inbox.queue

-- At a boundary, the messages that the change appends, followed by those of the inserts that are
-- held after it, deferred or in the inbox, are those of the inserts that were held before it, in
-- order; before the deadline, none stays in the inbox.
pub boundary-kept :
    (now : String) (expired : Bool) (a : ActiveState) (inbox : ControlInbox)
    (deferred : List Insert)
    → (appended (boundary now expired a inbox deferred).change
          ++ messages_of (held (boundary now expired a inbox deferred))
        ≡ messages_of (deferred ++ inserts_of inbox.queue))
      × (expired ≡ false → inserts_of (boundary now expired a inbox deferred).inbox.queue ≡ [])
unfolding boundary
boundary-kept now true a inbox deferred = (unfold limit in refl, λ h. cc)
boundary-kept now false a inbox deferred =
    let (paused, drained, left) = drain_pending_controls_lem inbox in
    let all = deferred ++ (drain_pending_controls inbox).1 in
    let p = (drain_pending_controls inbox).0 in
    let rest = (drain_pending_controls inbox).2 in
    let empty : inserts_of (choose now a p rest all).inbox.queue ≡ [] =
      ap (λ (i : ControlInbox). inserts_of i.queue) (choose-inbox now a p rest all)
      ∙ ap inserts_of left in
    (
      rw (empty, append-nil)
          (choose-kept now a p rest all ∙ ap (λ l. messages_of (deferred ++ l)) drained),
      λ h. empty,
    )

choose-IsEngineChange :
    (sha256 : List ℕ → List ℕ) (s : RunSnapshot) (now : String) (a : ActiveState)
    (paused : Option Suspension) (inbox : ControlInbox) (deferred : List Insert) (c : Change)
    → s.state ≡ active a
    → (choose now a paused inbox deferred).change ≡ some c
    → IsEngineChange sha256 s c
unfolding choose
choose-IsEngineChange sha256 s now a (some suspension) inbox deferred c e h =
    let same : suspend now a suspension ≡ c = cc in
    subst (IsEngineChange sha256 s) same (suspends now a suspension e)
choose-IsEngineChange sha256 s now (planning false) none inbox (i ∷ deferred) c e h =
    let same : insert now i.source i.message false ≡ c = cc in
    subst (IsEngineChange sha256 s) same (inserts now i.source i.message e)
choose-IsEngineChange sha256 s now (planning false) none inbox [] c e h = cc
choose-IsEngineChange sha256 s now (planning true) none inbox deferred c e h = cc
choose-IsEngineChange sha256 s now (tools_pending p b) none inbox deferred c e h = cc

boundary-IsEngineChange :
    (sha256 : List ℕ → List ℕ) (s : RunSnapshot) (now : String) (expired : Bool) (a : ActiveState)
    (inbox : ControlInbox) (deferred : List Insert) (c : Change)
    → s.state ≡ active a
    → (boundary now expired a inbox deferred).change ≡ some c
    → IsEngineChange sha256 s c
unfolding boundary
boundary-IsEngineChange sha256 s now true a inbox deferred c e h =
    let same : limit now deadline ≡ c = cc in
    subst (IsEngineChange sha256 s) same (limits now deadline)
boundary-IsEngineChange sha256 s now false a inbox deferred c e h =
    choose-IsEngineChange sha256 s now a _ _ _ c e h

-- What a boundary commits replaces no history.
choose-replace :
    (now : String) (a : ActiveState) (paused : Option Suspension) (inbox : ControlInbox)
    (deferred : List Insert) (c : Change)
    → (choose now a paused inbox deferred).change ≡ some c
    → c.replace ≡ none
unfolding choose suspend insert
choose-replace now a (some suspension) inbox deferred c h =
    let same : suspend now a suspension ≡ c = cc in sym (ap (λ (x : Change). x.replace) same)
choose-replace now (planning false) none inbox (i ∷ deferred) c h =
    let same : insert now i.source i.message false ≡ c = cc in
    sym (ap (λ (x : Change). x.replace) same)
choose-replace now (planning false) none inbox [] c h = cc
choose-replace now (planning true) none inbox deferred c h = cc
choose-replace now (tools_pending p b) none inbox deferred c h = cc

boundary-replace :
    (now : String) (expired : Bool) (a : ActiveState) (inbox : ControlInbox)
    (deferred : List Insert) (c : Change)
    → (boundary now expired a inbox deferred).change ≡ some c
    → c.replace ≡ none
unfolding boundary limit
boundary-replace now true a inbox deferred c h =
    let same : limit now deadline ≡ c = cc in sym (ap (λ (x : Change). x.replace) same)
boundary-replace now false a inbox deferred c h = choose-replace now a _ _ _ c h

module _ (sha256 : List ℕ → List ℕ) where
  -- `reduce` appends what the change says, where it replaces nothing.
  reduce-contents :
      (s : RunSnapshot) (c : Change) (id : String) (cp : Checkpoint)
      → IsSnapshot sha256 s
      → WithCursor sha256 c.state
      → c.replace ≡ none
      → reduce sha256 s c id ≡ ok cp
      → contents cp.snapshot.history ≡ contents s.history ++ c.append
  unfolding reduce WithCursor
  reduce-contents s c id cp v cursor edit h =
      let metrics = advance_metrics s.metrics c.planning_steps c.tool_calls c.usage in
      let (next, evolved, checked) =
        >>=-eq-ok (evolve_snapshot sha256 s c.append c.replace metrics c.state) _ h in
      let (bound, snapshot, fact, made) = checkpoint_inv id next c.fact cp checked in
      let evolved' : evolve_snapshot sha256 s c.append none metrics c.state ≡ ok next =
        rw edit at evolved in
      let (valid, all, later) =
        evolve_snapshot-IsSnapshot sha256 s next c.append metrics c.state v cursor evolved' in
      ap (λ (x : RunSnapshot). contents x.history) snapshot ∙ all

  -- If `sha256` gives 32 bytes, then whatever a boundary of the engine commits to a well-formed
  -- snapshot in the state that it looked at, whose cursor, if it has one, is well formed: if the
  -- reducer accepts it, the verifier accepts the step, and the history after it, followed by the messages of the inserts that are still held, is
  -- the history before it, followed by those of the inserts that were held before, in order.
  pub boundary-committed :
      (s : RunSnapshot) (now : String) (expired : Bool) (a : ActiveState) (inbox : ControlInbox)
      (deferred : List Insert) (c : Change) (id : String) (cp : Checkpoint)
      → ((bytes : List ℕ) → length (sha256 bytes) ≡ 32)
      → IsSnapshot sha256 s
      → AllPending sha256 (pending_state s.state)
      → s.state ≡ active a
      → (boundary now expired a inbox deferred).change ≡ some c
      → reduce sha256 s c id ≡ ok cp
      → (verify_change sha256 (some (run_view s)) cp.fact.body (run_view cp.snapshot) ≡ ok tt)
        × (contents cp.snapshot.history
              ++ messages_of (held (boundary now expired a inbox deferred))
            ≡ contents s.history ++ messages_of (deferred ++ inserts_of inbox.queue))
  unfolding WithCursor IsSound
  boundary-committed s now expired a inbox deferred c id cp sized v w e h made =
      let change = boundary-IsEngineChange sha256 s now expired a inbox deferred c e h in
      let b = boundary now expired a inbox deferred in
      let all =
        reduce-contents s c id cp v (IsEngineChange-IsSound sha256 s c change w).0
          (boundary-replace now expired a inbox deferred c h) made in
      (
        reduce-verified sha256 s c id cp sized change made,
        ap (λ l. l ++ messages_of (held b)) all
            ∙ append_assoc (contents s.history) c.append (messages_of (held b))
            ∙ ap (λ l. contents s.history ++ l)
                (ap (λ o. appended o ++ messages_of (held b)) (sym h)
                  ∙ (boundary-kept now expired a inbox deferred).0),
      )
