-- ===== src/Repository/Digest/Flag.antt =====
-- A gap of `checkpoint_digest` in repository.py: it does not cover one field.
use jharness.Common.{ℕ, ◌≡◌, refl, Bool, String, List}
use jharness.State.{active, tools_pending}
use jharness.State.Pending.{PendingToolCalls}
use jharness.Snapshot.{RunSnapshot}
use jharness.Checkpoint.{ModelTurn, model_turn}
use jharness.Repository.Digest.{checkpoint_digest}

module _ (sha256 : List ℕ → List ℕ) where
  -- Two checkpoints of a model turn that leaves tool calls pending, alike but for the
  -- `provider_turn_pending` of the fact and of the state, have the same digest.
  pub checkpoint_digest-ignores_pending :
      (id at : String) (s : RunSnapshot) (p : PendingToolCalls) (t : ModelTurn) (b c : Bool)
      → checkpoint_digest sha256 (record {
        id = id;
        snapshot = record s { state = active (tools_pending p b) };
        fact = record { at = at; body = model_turn (record t { provider_turn_pending = b }) };
      })
        ≡ checkpoint_digest sha256 (record {
          id = id;
          snapshot = record s { state = active (tools_pending p c) };
          fact = record { at = at; body = model_turn (record t { provider_turn_pending = c }) };
        })
  unfolding checkpoint_digest
  checkpoint_digest-ignores_pending id at s p t b c = refl
