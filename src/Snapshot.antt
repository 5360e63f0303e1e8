-- ===== src/Snapshot.antt =====
-- packages/jharness-kernel/src/jharness/kernel/snapshot.py and context.py: the durable run
-- aggregate, which carries the proof of its history.
pub mod Valid
use jharness.Common.{ℕ, ◌+◌, String, Option, none, some, List, [], ◌∷◌}
use jharness.Errors.{Result, ok, err, ◌>>=◌}
use jharness.Json.{Entries}
use jharness.Messages.{Message}
use jharness.History.Run.{RunHistory, iter, append}
use jharness.State.{RunState, RunMetrics}
use jharness.Linkage.{HistoryProof, analyze_messages, evolve_proof}

-- Times are given by their `float.hex()`.
pub record RunContext : Type 0 where
  pub run_id : String
  pub started_at : String
  pub deadline : Option String
  pub parent_run_id : Option String
  pub parent_tool_call_id : Option String
  pub run_kind : Option String
  pub metadata : Entries

pub record RunSnapshot : Type 0 where
  pub revision : ℕ
  pub context : RunContext
  pub history : RunHistory Message
  pub metrics : RunMetrics
  pub state : RunState
  pub history_proof : HistoryProof

-- The history of `evolve_history`: replaced, or appended to under the digest of the new proof.
unfoldable pub evolve_messages :
    RunHistory Message → List Message → Option (RunHistory Message) → List ℕ → RunHistory Message
unfolding append
evolve_messages history messages (some replace) digest = replace
evolve_messages history messages none digest = append history messages digest

abbrev pub replaced_messages : Option (RunHistory Message) → Option (List Message)
replaced_messages none = none
replaced_messages (some history) = some (iter history)

module _ (sha256 : List ℕ → List ℕ) where
  -- `RunSnapshot(...)`, which analyzes its history.
  unfoldable pub run_snapshot :
      ℕ → RunContext → RunHistory Message → RunMetrics → RunState → Result RunSnapshot
  run_snapshot revision context history metrics state = do
    proof ← analyze_messages sha256 (iter history) state
    ok (record {
      revision = revision;
      context = context;
      history = history;
      metrics = metrics;
      state = state;
      history_proof = proof;
    })

  -- `_evolve`.
  unfoldable pub evolve_snapshot :
      RunSnapshot
      → List Message
      → Option (RunHistory Message)
      → RunMetrics
      → RunState
      → Result RunSnapshot
  unfolding evolve_messages
  evolve_snapshot s messages replace metrics state = do
    proof ← evolve_proof sha256 s.history_proof messages (replaced_messages replace) state
    ok (record {
      revision = s.revision + 1;
      context = s.context;
      history = evolve_messages s.history messages replace proof.digest;
      metrics = metrics;
      state = state;
      history_proof = proof;
    })
