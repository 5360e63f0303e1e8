-- ===== src/Verification/Accepted.antt =====
-- The changes that engine.py commits, as the methods build them, and the verifier on them.
use jharness.Common.{ℕ, ◌≡◌, Bool, true, false, String, Option, some, List, length, take}
use jharness.Errors.{ok, >>-eq-ok}
use jharness.Json.{Entries}
use jharness.Messages.{Message}
use jharness.History.Run.{RunHistory}
use jharness.History.Run.Contents.{IsHistory}
use jharness.State.{
  LimitReason, ActiveState, planning, tools_pending, Suspension, active, suspended,
}
use jharness.State.Pending.{PendingToolCalls, remaining_calls}
use jharness.State.Pending.Laws.{IsPending}
use jharness.Snapshot.{RunSnapshot}
use jharness.Checkpoint.{Checkpoint}
use jharness.Change.{Change, reduce, fail, limit, insert, suspend}
use jharness.Change.Engine.{resume, resumed_change, rewrite_history, continue_for_deferred}
use jharness.Change.Turn.{ModelResponse, model_change}
use jharness.Change.Batch.{ToolBatch, ToolResult, batch_change}
use jharness.Verification.{run_view, verify_change}
use jharness.Verification.Steps.{
  fail-verified, limit-verified, suspend-verified, insert-verified, resumed_change-verified,
  rewrite_history-verified,
}
use jharness.Verification.Turns.{model_change-verified, continue_for_deferred-verified}
use jharness.Verification.Batches.{batch_change-verified}

pub resume_inv :
    (now : String) (a : ActiveState) (messages : List Message) (metadata : Entries) (c : Change)
    → resume now a messages metadata ≡ ok c
    → resumed_change now a messages metadata ≡ c
unfolding resume
resume_inv now a messages metadata c h =
    let (checked, made) = >>-eq-ok _ (ok (resumed_change now a messages metadata)) h in cc

module _ (sha256 : List ℕ → List ℕ) where
  -- The changes that the engine builds on a snapshot, by the method that builds them; a turn that
  -- went on may be continued once more for deferred inserts.
  pub data IsEngineChange (s : RunSnapshot) : Change → Type 0 where
    fails : (now code message : String) → IsEngineChange s (fail now code message)
    limits : (now : String) (reason : LimitReason) → IsEngineChange s (limit now reason)
    suspends :
        (now : String) (a : ActiveState) (suspension : Suspension)
        → s.state ≡ active a
        → IsEngineChange s (suspend now a suspension)
    inserts :
        (now source : String) (message : Message)
        → s.state ≡ active (planning false)
        → IsEngineChange s (insert now source message false)
    resumes :
        (now : String) (a : ActiveState) (suspension : Suspension) (messages : List Message)
        (metadata : Entries) (c : Change)
        → s.state ≡ suspended a suspension
        → resume now a messages metadata ≡ ok c
        → IsEngineChange s c
    rewrites :
        (now reason : String) (messages : RunHistory Message) (metadata : Entries)
        → s.state ≡ active (planning false)
        → IsHistory messages
        → IsEngineChange s (rewrite_history now s.history messages reason metadata)
    turns :
        (now : String) (b : Bool) (max_total : Option ℕ) (response : ModelResponse) (c : Change)
        → s.state ≡ active (planning b)
        → model_change sha256 now s max_total response ≡ ok c
        → IsEngineChange s c
    continues :
        (now : String) (max_total : Option ℕ) (response : ModelResponse) (c : Change)
        → s.state ≡ active (planning true)
        → model_change sha256 now s max_total response ≡ ok c
        → IsEngineChange s (continue_for_deferred c)
    batches :
        (now : String) (p : PendingToolCalls) (b : Bool) (batch : ToolBatch)
        (results : List ToolResult) (pause : Option Suspension) (c : Change)
        → s.state ≡ active (tools_pending p b)
        → IsPending sha256 p
        → batch.calls ≡ take (length batch.calls) (remaining_calls p)
        → batch_change now p b batch results pause ≡ ok c
        → IsEngineChange s c

  -- If `sha256` gives 32 bytes, then whenever the reducer turns a change that the engine builds on a
  -- snapshot into a checkpoint, `verify_change` accepts the views of the two snapshots and the fact.
  pub reduce-verified :
      (s : RunSnapshot) (c : Change) (id : String) (cp : Checkpoint)
      → ((bytes : List ℕ) → length (sha256 bytes) ≡ 32)
      → IsEngineChange s c
      → reduce sha256 s c id ≡ ok cp
      → verify_change sha256 (some (run_view s)) cp.fact.body (run_view cp.snapshot) ≡ ok tt
  reduce-verified s _ id cp sized (fails now code message) h =
      fail-verified sha256 s now code message id cp h
  reduce-verified s _ id cp sized (limits now reason) h = limit-verified sha256 s now reason id cp h
  reduce-verified s _ id cp sized (suspends now a suspension e) h =
      suspend-verified sha256 s now a suspension id cp e h
  reduce-verified s _ id cp sized (inserts now source message e) h =
      insert-verified sha256 s now source message false id cp e h
  reduce-verified s _ id cp sized (resumes now a suspension messages metadata c e made) h =
      let same = resume_inv now a messages metadata c made in
      resumed_change-verified sha256 s now a suspension messages metadata id cp e (rw same h)
  reduce-verified s _ id cp sized (rewrites now reason messages metadata e v) h =
      rewrite_history-verified sha256 s now false messages reason metadata id cp e v h
  reduce-verified s _ id cp sized (turns now b max_total response c e made) h =
      model_change-verified sha256 s now b max_total response c id cp e made h
  reduce-verified s _ id cp sized (continues now max_total response c e made) h =
      continue_for_deferred-verified sha256 s now true max_total response c id cp e made h
  reduce-verified s _ id cp sized (batches now p b batch results pause c e v leading made) h =
      batch_change-verified sha256 sized s now p b batch results pause c id cp e v leading made h
