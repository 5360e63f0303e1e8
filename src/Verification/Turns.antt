-- ===== src/Verification/Turns.antt =====
-- A committed model turn, also one that is continued, is accepted by the verifier.
use jharness.Common.{
  ℕ, ◌≡◌, refl, sym, ap, subst, ◌∙◌, Bool, true, false, String, Option, some, List, [], ◌∷◌, length,
  length-map, Bool-cases, inl, inr,
}
use jharness.Errors.{ok, >>=-eq-ok}
use jharness.Messages.{RuntimeToolCall, ContentPart, runtime_tool_calls, visible_parts, call_id}
use jharness.Digest.{compose_call_id_digest, empty_call_id_suffix_digest}
use jharness.State.{
  max_total_tokens, tools_pending, RunState, active, planning, completed, limited, suspended,
  failed,
}
use jharness.State.Pending.{
  PendingToolCalls, pending_tool_calls, pending_of, pending_count, call_id_digest, ids_of,
  unique_texts,
}
use jharness.State.Pending.Laws.{
  pending_of-IsPending, remaining-pending_of, call_id_digest-remaining, length-remaining,
}
use jharness.Snapshot.{RunSnapshot}
use jharness.Checkpoint.{Checkpoint, ModelTurn}
use jharness.Change.{Change, reduce}
use jharness.Change.Engine.{continue_for_deferred}
use jharness.Change.Turn.{
  ModelResponse, model_change, turn_change, next_state, response_state, turn_result, turn_pending,
  turn_limit, turn_fact, is_over,
}
use jharness.Verification.{
  turn_state, state_view, view_active, run_view, step_view, model_step, verify_change,
}
use jharness.Verification.Steps.{reduced_accepts, add_usage_data-eq, plus_zero}

module _ (sha256 : List ℕ → List ℕ) where
  pub pending_inv :
      (c : RuntimeToolCall) (cs : List RuntimeToolCall) (p : PendingToolCalls)
      → pending_tool_calls sha256 (c ∷ cs) ≡ ok p
      → (pending_of sha256 (c ∷ cs) ≡ p) × (unique_texts (ids_of (c ∷ cs)) ≡ true)
  unfolding pending_tool_calls
  pending_inv c cs p h = elim (Bool-cases (unique_texts (ids_of (c ∷ cs)))) [
    | inl u ↦ let h' = rw u at h in (cc, u)
    | inr u ↦ let h' = rw u at h in cc
  ]

  -- The view of a new cursor is that of the ids of its calls.
  opened_view :
      (c : RuntimeToolCall) (cs : List RuntimeToolCall) (p : PendingToolCalls)
      → pending_tool_calls sha256 (c ∷ cs) ≡ ok p
      → (length (ids_of (c ∷ cs)) ≡ pending_count p)
        × (compose_call_id_digest sha256 (ids_of (c ∷ cs)) (empty_call_id_suffix_digest sha256)
            ≡ call_id_digest p)
  opened_view c cs p h =
      let (made, u) = pending_inv c cs p h in
      let calls = remaining-pending_of sha256 (c ∷ cs) in
      let digest = call_id_digest-remaining sha256 _ (pending_of-IsPending sha256 c cs u) in
      rw (sym made) (
        length-map call_id (c ∷ cs)
            ∙ sym (ap length calls)
            ∙ length-remaining (pending_of sha256 (c ∷ cs)),
        sym (
            digest
            ∙ ap
                (λ l. compose_call_id_digest sha256 (ids_of l) (empty_call_id_suffix_digest sha256))
                calls),
      )

  Described : ModelTurn → RunState → Type 0
  Described t state =
      t.provider_turn_pending ≡ turn_pending state
      → t.limit_reason ≡ turn_limit state
      → turn_state sha256 t (turn_result state) ≡ state_view state

  response_state-Described :
      (calls : List RuntimeToolCall) (pending : Bool) (parts : List ContentPart) (state : RunState)
      (t : ModelTurn)
      → response_state sha256 calls pending parts ≡ ok state
      → t.tool_call_ids ≡ ids_of calls
      → t.part_count ≡ length parts
      → Described t state
  unfolding response_state turn_state state_view view_active Described
  response_state-Described [] true parts state t h ids count =
      let e : active (planning true) ≡ state = cc in subst (Described t) e (λ flag reason. rw flag)
  response_state-Described [] false parts state t h ids count =
      let e : completed parts ≡ state = cc in subst (Described t) e (λ flag reason. rw count)
  response_state-Described (c ∷ cs) pending parts state t h ids count =
      let (p, opened, made) = >>=-eq-ok (pending_tool_calls sha256 (c ∷ cs)) _ h in
      let (size, digest) = opened_view c cs p opened in
      let e : active (tools_pending p pending) ≡ state = cc in
      subst (Described t) e (λ flag reason. rw (flag, ids, size, digest))

  next_state-Described :
      (over : Bool) (r : ModelResponse) (state : RunState)
      → next_state sha256 over r ≡ ok state
      → (t : ModelTurn) → t.tool_call_ids ≡ ids_of (runtime_tool_calls r.output)
      → t.part_count ≡ length (visible_parts r.output)
      → Described t state
  unfolding next_state turn_state state_view Described
  next_state-Described true r state h t ids count =
      let e : limited max_total_tokens ≡ state = cc in
      subst (Described t) e (λ flag reason. rw reason)
  next_state-Described false r state h t ids count =
      response_state-Described (runtime_tool_calls r.output) r.provider_turn_pending
        (visible_parts r.output) state t h ids count

  turn_change-verified :
      (s : RunSnapshot) (now : String) (b : Bool) (max_total : Option ℕ) (r : ModelResponse)
      (state : RunState) (id : String) (cp : Checkpoint)
      → s.state ≡ active (planning b)
      → next_state sha256 (is_over s max_total r) r ≡ ok state
      → reduce sha256 s (turn_change now r state) id ≡ ok cp
      → verify_change sha256 (some (run_view s)) cp.fact.body (run_view cp.snapshot) ≡ ok tt
  turn_change-verified s now b max_total r state id cp e next h =
      let described =
        next_state-Described (is_over s max_total r) r state next (turn_fact r state) refl refl in
      reduced_accepts sha256 s (turn_change now r state) id cp h (
        unfold step_view model_step run_view state_view view_active Described in
        rw (e, described refl refl, add_usage_data-eq s.metrics.usage r.usage) (simp plus_zero))

  pub model_change-verified :
      (s : RunSnapshot) (now : String) (b : Bool) (max_total : Option ℕ) (r : ModelResponse)
      (c : Change) (id : String) (cp : Checkpoint)
      → s.state ≡ active (planning b)
      → model_change sha256 now s max_total r ≡ ok c
      → reduce sha256 s c id ≡ ok cp
      → verify_change sha256 (some (run_view s)) cp.fact.body (run_view cp.snapshot) ≡ ok tt
  unfolding model_change
  model_change-verified s now b max_total r c id cp e made h =
      let (state, next, whole) = >>=-eq-ok (next_state sha256 (is_over s max_total r) r) _ made in
      let same : turn_change now r state ≡ c = cc in
      let h' : reduce sha256 s (turn_change now r state) id ≡ ok cp = rw same h in
      turn_change-verified s now b max_total r state id cp e next h'

  -- The same for a turn that the engine continues for deferred inserts, where it completed the run.
  continued_turn-verified :
      (s : RunSnapshot) (now : String) (b : Bool) (max_total : Option ℕ) (r : ModelResponse)
      (state : RunState) (id : String) (cp : Checkpoint)
      → s.state ≡ active (planning b)
      → next_state sha256 (is_over s max_total r) r ≡ ok state
      → reduce sha256 s (continue_for_deferred (turn_change now r state)) id ≡ ok cp
      → verify_change sha256 (some (run_view s)) cp.fact.body (run_view cp.snapshot) ≡ ok tt
  unfolding continue_for_deferred
  continued_turn-verified s now b max_total r (completed parts) id cp e next h =
      reduced_accepts sha256 s (continue_for_deferred (turn_change now r (completed parts))) id cp h
        (unfold step_view model_step turn_state run_view state_view view_active in
          rw (e, add_usage_data-eq s.metrics.usage r.usage) (simp plus_zero))
  continued_turn-verified s now b max_total r (active a) id cp e next h =
      turn_change-verified s now b max_total r (active a) id cp e next h
  continued_turn-verified s now b max_total r (suspended a x) id cp e next h =
      turn_change-verified s now b max_total r (suspended a x) id cp e next h
  continued_turn-verified s now b max_total r (failed error) id cp e next h =
      turn_change-verified s now b max_total r (failed error) id cp e next h
  continued_turn-verified s now b max_total r (limited reason) id cp e next h =
      turn_change-verified s now b max_total r (limited reason) id cp e next h

  pub continue_for_deferred-verified :
      (s : RunSnapshot) (now : String) (b : Bool) (max_total : Option ℕ) (r : ModelResponse)
      (c : Change) (id : String) (cp : Checkpoint)
      → s.state ≡ active (planning b)
      → model_change sha256 now s max_total r ≡ ok c
      → reduce sha256 s (continue_for_deferred c) id ≡ ok cp
      → verify_change sha256 (some (run_view s)) cp.fact.body (run_view cp.snapshot) ≡ ok tt
  unfolding model_change
  continue_for_deferred-verified s now b max_total r c id cp e made h =
      let (state, next, whole) = >>=-eq-ok (next_state sha256 (is_over s max_total r) r) _ made in
      let same : turn_change now r state ≡ c = cc in
      continued_turn-verified s now b max_total r state id cp e next (rw same h)
