-- ===== src/Runs/Sound.antt =====
-- A change of the engine leaves a well-formed cursor, and a well-formed replacement, if any.
use jharness.Common.{
  ℕ, ◌≡◌, ap, subst, Bool, true, false, String, Option, none, some, List, [], ◌∷◌, length, pos,
  arith, length-take, take, ◌≤◌,
}
use jharness.Errors.{ok, >>=-eq-ok}
use jharness.Messages.{Message, RuntimeToolCall, ContentPart}
use jharness.History.Run.{RunHistory}
use jharness.History.Run.Contents.{IsHistory}
use jharness.State.{
  ActiveState, planning, tools_pending, RunState, active, suspended, completed, limited, failed,
  Suspension, max_total_tokens,
}
use jharness.State.Pending.{
  PendingToolCalls, pending_tool_calls, advance, pending_count, remaining_calls,
}
use jharness.State.Pending.Laws.{
  AllPending, IsPending, advance-remaining, pending_of-IsPending, length-remaining,
}
use jharness.Linkage.{pending_state}
use jharness.Snapshot.{RunSnapshot}
use jharness.Change.{Change, fail, limit, suspend, insert}
use jharness.Change.Engine.{resumed_change, rewrite_history, continue_for_deferred}
use jharness.Change.Turn.{
  next_state, response_state, model_change, is_over, turn_change, ModelResponse,
}
use jharness.Change.Batch.{
  ToolBatch, ToolResult, batch_change, next_active, state_after, tool_messages, settled_change,
  or_pause, first_waiting,
}
use jharness.Verification.Turns.{pending_inv}
use jharness.Verification.Accepted.{
  resume_inv, IsEngineChange, fails, limits, suspends, inserts, resumes, rewrites, turns, continues,
  batches,
}

module _ (sha256 : List ℕ → List ℕ) where
  unfoldable pub WithCursor : RunState → Type 0
  WithCursor state = AllPending sha256 (pending_state state)

  suspended-WithCursor :
      (a : ActiveState) (s : Suspension) → WithCursor (active a) → WithCursor (suspended a s)
  unfolding WithCursor pending_state
  suspended-WithCursor (planning b) s h = tt
  suspended-WithCursor (tools_pending p b) s h = h

  active-WithCursor :
      (a : ActiveState) (s : Suspension) → WithCursor (suspended a s) → WithCursor (active a)
  unfolding WithCursor pending_state
  active-WithCursor (planning b) s h = tt
  active-WithCursor (tools_pending p b) s h = h

  next_active-WithCursor :
      (q : Option PendingToolCalls) (b : Bool)
      → AllPending sha256 q
      → WithCursor (active (next_active q b))
  unfolding WithCursor pending_state
  next_active-WithCursor none b h = tt
  next_active-WithCursor (some q) b h = h

  state_after-WithCursor :
      (s : Option Suspension) (a : ActiveState)
      → WithCursor (active a)
      → WithCursor (state_after s a)
  state_after-WithCursor none a h = h
  state_after-WithCursor (some s) a h = suspended-WithCursor a s h

  response_state-WithCursor :
      (calls : List RuntimeToolCall) (pending : Bool) (parts : List ContentPart) (state : RunState)
      → response_state sha256 calls pending parts ≡ ok state
      → WithCursor state
  unfolding response_state WithCursor pending_state
  response_state-WithCursor [] true parts state h =
      let e : active (planning true) ≡ state = cc in subst WithCursor e tt
  response_state-WithCursor [] false parts state h =
      let e : completed parts ≡ state = cc in subst WithCursor e tt
  response_state-WithCursor (c ∷ cs) pending parts state h =
      let (p, opened, made) = >>=-eq-ok (pending_tool_calls sha256 (c ∷ cs)) _ h in
      let (new, unique) = pending_inv sha256 c cs p opened in
      let e : active (tools_pending p pending) ≡ state = cc in
      subst WithCursor e (subst (IsPending sha256) new (pending_of-IsPending sha256 c cs unique))

  next_state-WithCursor :
      (over : Bool) (r : ModelResponse) (state : RunState)
      → next_state sha256 over r ≡ ok state
      → WithCursor state
  unfolding next_state WithCursor pending_state
  next_state-WithCursor true r state h =
      let e : limited max_total_tokens ≡ state = cc in subst WithCursor e tt
  next_state-WithCursor false r state h = response_state-WithCursor _ _ _ state h

  -- A change of the engine leaves a well-formed cursor, and a well-formed replacement, if any.
  unfoldable pub IsSound : Change → Type 0
  IsSound c = WithCursor c.state × ((h : RunHistory Message) → c.replace ≡ some h → IsHistory h)

  no_replacement : (h : RunHistory Message) → none ≡ some h → IsHistory h
  no_replacement h e = cc

  replaced-IsHistory : (m r : RunHistory Message) → some m ≡ some r → IsHistory m → IsHistory r
  replaced-IsHistory m r e h = let same : m ≡ r = cc in subst IsHistory same h

  batch_change-IsSound :
      (now : String) (p : PendingToolCalls) (b : Bool) (batch : ToolBatch)
      (results : List ToolResult) (pause : Option Suspension) (c : Change)
      → IsPending sha256 p
      → batch.calls ≡ take (length batch.calls) (remaining_calls p)
      → batch_change now p b batch results pause ≡ ok c
      → IsSound c
  unfolding batch_change IsSound
  batch_change-IsSound now p b batch results pause c v leading made =
      let (q, advanced, rest) = >>=-eq-ok (advance p (pos (length batch.calls))) _ made in
      let (ms, written, whole) = >>=-eq-ok (tool_messages batch.calls results) _ rest in
      let room : length batch.calls ≤ pending_count p = omega (
        arith,
        length-take (length batch.calls) (remaining_calls p),
        ap length leading,
        length-remaining p,
      ) in
      let (q', advanced', left, valid) = advance-remaining sha256 p (length batch.calls) v room in
      let same_q : q' ≡ q = cc in
      let suspension = or_pause (first_waiting results) pause in
      let same : settled_change now batch results suspension (next_active q b) ms ≡ c = cc in
      subst IsSound same (
        state_after-WithCursor suspension (next_active q b)
            (next_active-WithCursor q b (subst (AllPending sha256) same_q valid)),
        no_replacement,
      )

  model_change-IsSound :
      (s : RunSnapshot) (now : String) (max_total : Option ℕ) (r : ModelResponse) (c : Change)
      → model_change sha256 now s max_total r ≡ ok c
      → IsSound c
  unfolding model_change IsSound
  model_change-IsSound s now max_total r c made =
      let (state, next, whole) = >>=-eq-ok (next_state sha256 (is_over s max_total r) r) _ made in
      let same : turn_change now r state ≡ c = cc in
      subst IsSound same (next_state-WithCursor _ r state next, no_replacement)

  continued_turn-IsSound :
      (now : String) (r : ModelResponse) (state : RunState)
      → WithCursor state
      → IsSound (continue_for_deferred (turn_change now r state))
  unfolding continue_for_deferred IsSound WithCursor pending_state
  continued_turn-IsSound now r (completed parts) v = (tt, no_replacement)
  continued_turn-IsSound now r (active a) v = (v, no_replacement)
  continued_turn-IsSound now r (suspended a x) v = (v, no_replacement)
  continued_turn-IsSound now r (failed error) v = (v, no_replacement)
  continued_turn-IsSound now r (limited reason) v = (v, no_replacement)

  continue_for_deferred-IsSound :
      (s : RunSnapshot) (now : String) (max_total : Option ℕ) (r : ModelResponse) (c : Change)
      → model_change sha256 now s max_total r ≡ ok c
      → IsSound (continue_for_deferred c)
  unfolding model_change
  continue_for_deferred-IsSound s now max_total r c made =
      let (state, next, whole) = >>=-eq-ok (next_state sha256 (is_over s max_total r) r) _ made in
      let same : turn_change now r state ≡ c = cc in
      subst (λ x. IsSound (continue_for_deferred x)) same
        (continued_turn-IsSound now r state (next_state-WithCursor _ r state next))

  pub IsEngineChange-IsSound :
      (s : RunSnapshot) (c : Change) → IsEngineChange sha256 s c → WithCursor s.state → IsSound c
  unfolding WithCursor pending_state IsSound
  IsEngineChange-IsSound s _ (fails now code message) v = unfold fail in (tt, no_replacement)
  IsEngineChange-IsSound s _ (limits now reason) v = unfold limit in (tt, no_replacement)
  IsEngineChange-IsSound s _ (suspends now a suspension e) v =
      unfold suspend in (suspended-WithCursor a suspension (subst WithCursor e v), no_replacement)
  IsEngineChange-IsSound s _ (inserts now source message e) v =
      unfold insert in (tt, no_replacement)
  IsEngineChange-IsSound s _ (resumes now a suspension messages metadata c e made) v =
      subst IsSound (resume_inv now a messages metadata c made) (
        unfold resumed_change in
        (active-WithCursor a suspension (subst WithCursor e v), no_replacement))
  IsEngineChange-IsSound s _ (rewrites now reason messages metadata e h) v =
      unfold rewrite_history in (tt, λ r same. replaced-IsHistory messages r same h)
  IsEngineChange-IsSound s _ (turns now b max_total response c e made) v =
      model_change-IsSound s now max_total response c made
  IsEngineChange-IsSound s _ (continues now max_total response c e made) v =
      continue_for_deferred-IsSound s now max_total response c made
  IsEngineChange-IsSound s _ (batches now p b batch results pause c e w leading made) v =
      batch_change-IsSound now p b batch results pause c w leading made
