-- ===== src/Verification/Steps.antt =====
-- What the reducer commits, the verifier accepts: engine.py calls `verify_change` on each commit.
use jharness.Common.{
  ℕ, suc, ◌+◌, ◌≡◌, refl, ap, ◌∙◌, Bool, false, String, Option, none, some, List, [], ◌∷◌, length,
  →decide, ==_iff, arith, length-reverse,
}
use jharness.Errors.{ok, >>=-eq-ok}
use jharness.Json.{Entries}
use jharness.Messages.{Message}
use jharness.History.Run.{RunHistory, append, iter}
use jharness.History.{iter_reversed}
use jharness.History.Run.Contents.{IsHistory, iter-contents}
use jharness.Linkage.{evolve_proof}
use jharness.State.{
  LimitReason, ActiveState, planning, Suspension, RunState, RunMetrics, active, suspended,
  advance_metrics,
}
use jharness.State.Usage.{ModelUsage, add_usage}
use jharness.Snapshot.{RunSnapshot, evolve_snapshot, evolve_messages, replaced_messages}
use jharness.Checkpoint.{Checkpoint, FactBody}
use jharness.Checkpoint.Boundary.{validate_boundary, roles_of}
use jharness.Checkpoint.Laws.{checkpoint_inv}
use jharness.Change.{Change, reduce, fail, limit, insert, suspend}
use jharness.Change.Engine.{resumed_change, rewrite_history}
use jharness.Verification.{
  RunView, state_view, run_view, step_view, advance_view, verify_change, RunView-discrete,
  control_step, insert_step, resumed_step, rewrite_step, view_active, add_usage_data,
}

pub plus_zero : (n : ℕ) → n + 0 ≡ n
plus_zero n = omega arith

pub length-roles : (ms : List Message) → length (roles_of ms) ≡ length ms
length-roles [] = refl
length-roles (m ∷ ms) = ap suc (length-roles ms)

pub add_usage_data-eq :
    (u : ModelUsage) (d : Option ModelUsage) → add_usage_data u d ≡ add_usage u d
unfolding add_usage_data add_usage
add_usage_data-eq u none = refl
add_usage_data-eq u (some d) = refl

-- The view that the reducer's snapshot has.
abbrev pub reduced_view : RunSnapshot → Change → ℕ → RunView
reduced_view s c count = record {
  revision = s.revision + 1;
  history_count = count;
  planning_steps = s.metrics.planning_steps + c.planning_steps;
  tool_calls = s.metrics.tool_calls + c.tool_calls;
  usage = add_usage s.metrics.usage c.usage;
  state = state_view c.state;
}

abbrev pub next_count : RunHistory Message → List Message → Option (RunHistory Message) → ℕ
next_count h ms none = h.count + length ms
next_count h ms (some r) = r.count

count-evolve :
    (h : RunHistory Message) (ms : List Message) (r : Option (RunHistory Message)) (digest : List ℕ)
    → (evolve_messages h ms r digest).count ≡ next_count h ms r
unfolding evolve_messages append
count-evolve h [] none digest = omega arith
count-evolve h (m ∷ ms) none digest = refl
count-evolve h ms (some r) digest = refl

module _ (sha256 : List ℕ → List ℕ) where
  evolve_inv :
      (s n : RunSnapshot) (ms : List Message) (r : Option (RunHistory Message))
      (metrics : RunMetrics) (state : RunState)
      → evolve_snapshot sha256 s ms r metrics state ≡ ok n
      → (n.revision ≡ s.revision + 1)
        × (n.history.count ≡ next_count s.history ms r)
        × (n.metrics ≡ metrics)
        × (n.state ≡ state)
  unfolding evolve_snapshot
  evolve_inv s n ms r metrics state h =
      let (proof, extended, made) =
        >>=-eq-ok (evolve_proof sha256 s.history_proof ms (replaced_messages r) state) _ h in
      let result : RunSnapshot = record {
        revision = s.revision + 1;
        context = s.context;
        history = evolve_messages s.history ms r proof.digest;
        metrics = metrics;
        state = state;
        history_proof = proof;
      } in
      let same : n ≡ result = cc in
      (
        ap (λ (x : RunSnapshot). x.revision) same,
        ap (λ (x : RunSnapshot). x.history.count) same ∙ count-evolve s.history ms r proof.digest,
        ap (λ (x : RunSnapshot). x.metrics) same,
        ap (λ (x : RunSnapshot). x.state) same,
      )

  pub reduce_inv :
      (s : RunSnapshot) (c : Change) (id : String) (cp : Checkpoint)
      → reduce sha256 s c id ≡ ok cp
      → (cp.fact ≡ c.fact)
        × (validate_boundary cp.snapshot c.fact.body ≡ ok tt)
        × (cp.snapshot.state ≡ c.state)
        × (run_view cp.snapshot ≡ reduced_view s c (next_count s.history c.append c.replace))
  unfolding reduce advance_metrics run_view
  reduce_inv s c id cp h =
      let (next, evolved, checked) =
        >>=-eq-ok (evolve_snapshot sha256 s c.append c.replace _ c.state) _ h in
      let (bound, snapshot, fact, made) = checkpoint_inv id next c.fact cp checked in
      let (revision, count, metrics, state) =
        evolve_inv s next c.append c.replace _ c.state evolved in
      (fact, rw snapshot bound, rw snapshot state, rw (snapshot, revision, count, metrics, state))

  -- The verifier accepts a view when the fact leads to it.
  accepts :
      (before : Option RunView) (body : FactBody) (after : RunView)
      → advance_view sha256 before body after ≡ ok after
      → verify_change sha256 before body after ≡ ok tt
  unfolding verify_change
  accepts before body after h = rw (
    h,
    (==_iff after.revision after.revision).1 refl,
    →decide (RunView-discrete after after) refl,
  )

  -- A reduced change is accepted when its fact leads from the view before to the view after.
  pub reduced_accepts :
      (s : RunSnapshot) (c : Change) (id : String) (cp : Checkpoint)
      → reduce sha256 s c id ≡ ok cp
      → step_view sha256
          (run_view s)
          c.fact.body
          (reduced_view s c (next_count s.history c.append c.replace))
        ≡ ok (reduced_view s c (next_count s.history c.append c.replace))
      → verify_change sha256 (some (run_view s)) cp.fact.body (run_view cp.snapshot) ≡ ok tt
  reduced_accepts s c id cp h k =
      let (fact, bound, state, view) = reduce_inv s c id cp h in
      rw (fact, view) (accepts (some (run_view s)) c.fact.body _ (unfold advance_view in k))

  pub fail-verified :
      (s : RunSnapshot) (now code message id : String) (cp : Checkpoint)
      → reduce sha256 s (fail now code message) id ≡ ok cp
      → verify_change sha256 (some (run_view s)) cp.fact.body (run_view cp.snapshot) ≡ ok tt
  fail-verified s now code message id cp h =
      reduced_accepts s (fail now code message) id cp h
        (unfold fail step_view control_step run_view state_view add_usage in simp plus_zero)

  pub limit-verified :
      (s : RunSnapshot) (now : String) (reason : LimitReason) (id : String) (cp : Checkpoint)
      → reduce sha256 s (limit now reason) id ≡ ok cp
      → verify_change sha256 (some (run_view s)) cp.fact.body (run_view cp.snapshot) ≡ ok tt
  limit-verified s now reason id cp h =
      reduced_accepts s (limit now reason) id cp h
        (unfold limit step_view control_step run_view state_view add_usage in simp plus_zero)

  pub suspend-verified :
      (s : RunSnapshot) (now : String) (a : ActiveState) (suspension : Suspension) (id : String)
      (cp : Checkpoint)
      → s.state ≡ active a
      → reduce sha256 s (suspend now a suspension) id ≡ ok cp
      → verify_change sha256 (some (run_view s)) cp.fact.body (run_view cp.snapshot) ≡ ok tt
  suspend-verified s now a suspension id cp e h =
      reduced_accepts s (suspend now a suspension) id cp h (
        unfold suspend step_view control_step run_view state_view add_usage in
        rw e (simp plus_zero))

  pub insert-verified :
      (s : RunSnapshot) (now source : String) (message : Message) (b : Bool) (id : String)
      (cp : Checkpoint)
      → s.state ≡ active (planning b)
      → reduce sha256 s (insert now source message false) id ≡ ok cp
      → verify_change sha256 (some (run_view s)) cp.fact.body (run_view cp.snapshot) ≡ ok tt
  insert-verified s now source message b id cp e h =
      reduced_accepts s (insert now source message false) id cp h (
        unfold insert step_view insert_step run_view state_view view_active add_usage in
        rw e (simp plus_zero))

  pub resumed_change-verified :
      (s : RunSnapshot) (now : String) (a : ActiveState) (suspension : Suspension)
      (ms : List Message) (metadata : Entries) (id : String) (cp : Checkpoint)
      → s.state ≡ suspended a suspension
      → reduce sha256 s (resumed_change now a ms metadata) id ≡ ok cp
      → verify_change sha256 (some (run_view s)) cp.fact.body (run_view cp.snapshot) ≡ ok tt
  resumed_change-verified s now a suspension ms metadata id cp e h =
      reduced_accepts s (resumed_change now a ms metadata) id cp h (
        unfold resumed_change step_view resumed_step run_view state_view add_usage in
        rw (e, length-roles ms) (simp plus_zero))

  pub rewrite_history-verified :
      (s : RunSnapshot) (now : String) (b : Bool) (messages : RunHistory Message) (reason : String)
      (metadata : Entries) (id : String) (cp : Checkpoint)
      → s.state ≡ active (planning b)
      → IsHistory messages
      → reduce sha256 s (rewrite_history now s.history messages reason metadata) id ≡ ok cp
      → verify_change sha256 (some (run_view s)) cp.fact.body (run_view cp.snapshot) ≡ ok tt
  rewrite_history-verified s now b messages reason metadata id cp e v h =
      let counted =
        length-roles (iter messages)
        ∙ ap length (iter-contents messages v)
        ∙ length-reverse (iter_reversed messages.digits)
        ∙ v.counted in
      reduced_accepts s (rewrite_history now s.history messages reason metadata) id cp h (
        unfold rewrite_history step_view rewrite_step run_view state_view view_active add_usage in
        rw (e, counted, (==_iff s.history.count s.history.count).1 refl) (simp plus_zero))
