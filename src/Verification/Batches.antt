-- ===== src/Verification/Batches.antt =====
-- A committed tool batch is accepted by the verifier, which reads the digest of the calls that are
-- left from the view after it.
use jharness.Common.{
  ℕ, zero, suc, ◌+◌, ◌-◌, ◌≤◌, ◌≡◌, refl, sym, ap, subst, ◌∙◌, Bool, false, String, Option, none,
  some, List, [], ◌∷◌, length, take, drop, length-map, length-drop, length-take, ltb, ==_iff,
  →decide, arith, pos,
}
use jharness.Errors.{ok, >>=-eq-ok}
use jharness.Messages.{Message, RuntimeToolCall, call_id}
use jharness.Digest.{compose_call_id_digest, empty_call_id_suffix_digest, prepend_call_id_digest}
use jharness.Digest.Laws.{compose-cons, compose-nil}
use jharness.State.{Suspension, active, tools_pending}
use jharness.State.Pending.{
  PendingToolCalls, advance, pending_count, call_id_digest, ids_of, remaining_calls, Bytes-discrete,
}
use jharness.State.Pending.Laws.{
  IsPending, AllPending, remaining_or, advance-remaining, call_id_digest-remaining,
  length-remaining, ids_digest, ids_digest-split,
}
use jharness.State.Usage.{add_usage}
use jharness.Snapshot.{RunSnapshot}
use jharness.Checkpoint.{Checkpoint, ToolBatchTurn}
use jharness.Change.{Change, reduce}
use jharness.Change.Batch.{
  ToolBatch, ToolResult, batch_change, tool_messages, tool_message, first_waiting, or_pause,
  next_active, state_after, optional_view, settled_change, batch_fact,
}
use jharness.Verification.{
  ActiveView, RunView, active_view, tools_view, state_view, view_active, run_view, step_view,
  batch_step, base, remaining_state, view_digest, resume_to_or, settled_state, verify_change,
}
use jharness.Verification.Steps.{reduced_accepts, plus_zero}

length-tool_messages :
    (calls : List RuntimeToolCall) (results : List ToolResult) (ms : List Message)
    → tool_messages calls results ≡ ok ms
    → length ms ≡ length calls
unfolding tool_messages
length-tool_messages [] [] ms h = let e : [] ≡ ms = cc in rw (sym e)
length-tool_messages (c ∷ cs) (r ∷ rs) ms h =
    let (rest, read, made) = >>=-eq-ok (tool_messages cs rs) _ h in
    let e : tool_message c r ∷ rest ≡ ms = cc in rw (sym e, length-tool_messages cs rs rest read)
length-tool_messages [] (r ∷ rs) ms h = cc
length-tool_messages (c ∷ cs) [] ms h = cc

-- The view after a batch, whether or not it suspends the run.
settled_view :
    (suspension : Option Suspension) (q : Option PendingToolCalls) (b : Bool)
    → state_view (state_after suspension (next_active q b))
      ≡ settled_state (optional_view suspension) (view_active (next_active q b))
unfolding state_view
settled_view none q b = refl
settled_view (some s) q b = refl

resumed_view :
    (suspension : Option Suspension) (a : ActiveView)
    → resume_to_or (optional_view suspension) (settled_state (optional_view suspension) a)
      ≡ active_view a
resumed_view none a = refl
resumed_view (some s) a = refl

module _ (sha256 : List ℕ → List ℕ) (sized : (bytes : List ℕ) → length (sha256 bytes) ≡ 32) where
  ids_digest-sized : (ids : List String) → length (ids_digest sha256 ids) ≡ 32
  unfolding empty_call_id_suffix_digest prepend_call_id_digest
  ids_digest-sized [] = rw (compose-nil sha256 (empty_call_id_suffix_digest sha256)) (sized _)
  ids_digest-sized (id ∷ ids) =
      rw (compose-cons sha256 id ids (empty_call_id_suffix_digest sha256)) (sized _)

  view_digest-sized : (d : List ℕ) → length d ≡ 32 → view_digest d ≡ ok d
  unfolding view_digest
  view_digest-sized d h = rw (h)

  remaining_state-tools :
      (k : ℕ) (d : List ℕ) (b : Bool)
      → 1 ≤ k
      → length d ≡ 32
      → remaining_state sha256 k b (active_view (tools_view k d b)) ≡ ok (tools_view k d b, d)
  unfolding remaining_state
  remaining_state-tools zero d b h k = absurd (omega arith)
  remaining_state-tools (suc n) d b h k =
      rw ((==_iff (suc n) (suc n)).1 refl, view_digest-sized d k)

  call_id_digest-sized :
      (p : PendingToolCalls) → IsPending sha256 p → length (call_id_digest p) ≡ 32
  call_id_digest-sized p v = rw (call_id_digest-remaining sha256 p v) (ids_digest-sized _)

  -- What is left after `n` of the calls, as the verifier reads it.
  remaining_state-next :
      (p : PendingToolCalls) (n : ℕ) (q : Option PendingToolCalls) (b : Bool)
      → remaining_or q ≡ drop n (remaining_calls p)
      → AllPending sha256 q
      → remaining_state sha256 (pending_count p - n) b (active_view (view_active (next_active q b)))
        ≡ ok
            (view_active (next_active q b), ids_digest sha256 (ids_of (drop n (remaining_calls p))))
  unfolding view_active
  remaining_state-next p n none b rest v =
      let size : pending_count p - n ≡ 0 =
        omega (arith, length-remaining p, length-drop n (remaining_calls p), ap length rest) in
      rw (size, sym rest, compose-nil sha256 (empty_call_id_suffix_digest sha256))
        (unfold remaining_state in refl)
  remaining_state-next p n (some q) b rest v =
      let size : pending_count p - n ≡ pending_count q = omega (
        arith,
        length-remaining p,
        length-remaining q,
        length-drop n (remaining_calls p),
        ap length rest,
      ) in
      let room : 1 ≤ pending_count q = unfold pending_count in omega (arith, v.pointing) in
      let digest =
        call_id_digest-remaining sha256 q v ∙ ap (λ l. ids_digest sha256 (ids_of l)) rest in
      rw (size, sym digest)
        (remaining_state-tools (pending_count q) (call_id_digest q) b room
          (call_id_digest-sized q v))

  -- The verifier's step for a batch of the first calls of a cursor.
  batch_step-next :
      (result : RunView) (p : PendingToolCalls) (t : ToolBatchTurn) (n : ℕ)
      (q : Option PendingToolCalls) (b : Bool) (suspension : Option Suspension)
      → IsPending sha256 p
      → n ≤ pending_count p
      → t.call_ids ≡ ids_of (take n (remaining_calls p))
      → t.suspension ≡ optional_view suspension
      → remaining_or q ≡ drop n (remaining_calls p)
      → AllPending sha256 q
      → batch_step sha256 result
          (active_view (tools_view (pending_count p) (call_id_digest p) b))
          t
          (state_view (state_after suspension (next_active q b)))
        ≡ ok (record result {
          history_count = result.history_count + n;
          tool_calls = result.tool_calls + n;
          state = state_view (state_after suspension (next_active q b));
        })
  unfolding batch_step
  batch_step-next result p t n q b suspension v room ids view rest w =
      let size : length t.call_ids ≡ n =
        ap length ids
        ∙ length-map call_id (take n (remaining_calls p))
        ∙ length-take n (remaining_calls p)
        ∙ omega (arith, length-remaining p, room) in
      let whole : compose_call_id_digest sha256 t.call_ids
            (ids_digest sha256 (ids_of (drop n (remaining_calls p))))
          ≡ call_id_digest p =
        rw ids (
          sym (
            call_id_digest-remaining sha256 p v ∙ ids_digest-split sha256 n (remaining_calls p))) in
      let fits : ltb (pending_count p) n ≡ false = ground arith in
      rw (
        size,
        fits,
        view,
        settled_view suspension q b,
        resumed_view suspension (view_active (next_active q b)),
        remaining_state-next p n q b rest w,
        view_digest-sized (call_id_digest p) (call_id_digest-sized p v),
        whole,
        →decide (Bytes-discrete (call_id_digest p) (call_id_digest p)) refl,
      )

  -- Every change of `_outcome` for a batch of the first pending calls is accepted.
  pub batch_change-verified :
      (s : RunSnapshot) (now : String) (p : PendingToolCalls) (b : Bool) (batch : ToolBatch)
      (results : List ToolResult) (pause : Option Suspension) (c : Change) (id : String)
      (cp : Checkpoint)
      → s.state ≡ active (tools_pending p b)
      → IsPending sha256 p
      → batch.calls ≡ take (length batch.calls) (remaining_calls p)
      → batch_change now p b batch results pause ≡ ok c
      → reduce sha256 s c id ≡ ok cp
      → verify_change sha256 (some (run_view s)) cp.fact.body (run_view cp.snapshot) ≡ ok tt
  unfolding batch_change
  batch_change-verified s now p b batch results pause c id cp e v leading made h =
      let (q, advanced, rest) = >>=-eq-ok (advance p (pos (length batch.calls))) _ made in
      let (ms, written, whole) = >>=-eq-ok (tool_messages batch.calls results) _ rest in
      let room : length batch.calls ≤ pending_count p = omega (
        arith,
        length-take (length batch.calls) (remaining_calls p),
        ap length leading,
        length-remaining p,
      ) in
      let (q', advanced', left, valid) = advance-remaining sha256 p (length batch.calls) v room in
      let same_q : q' ≡ q = cc in
      let suspension = or_pause (first_waiting results) pause in
      let change = settled_change now batch results suspension (next_active q b) ms in
      let same : change ≡ c = cc in
      let h' : reduce sha256 s change id ≡ ok cp = rw same h in
      let left' = rw same_q at left in
      let valid' = subst (AllPending sha256) same_q valid in
      let step =
        batch_step-next (base (run_view s)) p (batch_fact batch results suspension)
          (length batch.calls) q b suspension v room (ap ids_of leading) refl left' valid' in
      let sent = length-tool_messages batch.calls results ms written in
      reduced_accepts sha256 s change id cp h' (
        unfold step_view run_view add_usage state_view view_active in
        rw (e, sent, step) (simp plus_zero))
