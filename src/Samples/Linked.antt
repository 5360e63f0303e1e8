-- ===== src/Samples/Linked.antt =====
-- The theorems on linkage at sample conversations.
use jharness.Common.{ℕ, ◌≡◌, refl, true, false, none, some, [], ◌∷◌, ◌++◌, List}
use jharness.Errors.{ok, Agree}
use jharness.Messages.{Message}
use jharness.State.{active, planning, completed}
use jharness.State.Pending.{unique_texts, ids_of}
use jharness.State.Pending.Laws.{remaining_or}
use jharness.Linkage.{analyze_messages, evolve_proof, empty_proof, HistoryProof}
use jharness.Linkage.Ids.{call_ids, answered_ids}
use jharness.Linkage.Order.{analyze_messages-order, analyze_messages-settled}
use jharness.Linkage.Agreement.{SameProof}
use jharness.Linkage.Incremental.{evolve_proof-Agree, IsProofOf, analyze_messages-IsProofOf}
use jharness.Samples.{toy_sha256, value_or, conversation, question, request}

unfoldable sample_proof : HistoryProof
unfolding analyze_messages
sample_proof =
    value_or (empty_proof toy_sha256)
      (analyze_messages toy_sha256 conversation (active (planning false)))

sample-analyzed :
    analyze_messages toy_sha256 conversation (active (planning false)) ≡ ok sample_proof
unfolding sample_proof analyze_messages jharness.Linkage.extend_proof
    jharness.Linkage.advance_linkage jharness.Linkage.open_calls jharness.Linkage.calls_by_role
    jharness.Linkage.record_call_ids jharness.Linkage.answer_call jharness.Linkage.answers_first
    jharness.Linkage.close_call jharness.Linkage.validate_proof jharness.Linkage.validate_unresolved
    jharness.Linkage.check_unresolved jharness.Linkage.pending_state
    jharness.State.Pending.pending_tool_calls jharness.State.Pending.remaining_calls
    jharness.State.Pending.pending_of jharness.State.Pending.advance
    jharness.State.Pending.pending_count jharness.State.Pending.has_text
    jharness.State.Pending.unique_texts jharness.IdSet.contains jharness.IdSet.add
    jharness.IdSet.child_in jharness.IdSet.finish_add jharness.IdSet.put_child
    jharness.IdSet.rebuild jharness.IdSet.walk jharness.IdSet.with_child jharness.IdSet.wrap
    jharness.Utf8.encode jharness.Utf8.encode_char jharness.Messages.runtime_tool_calls
    jharness.Common.String-discrete
sample-analyzed = refl

analyze_messages-order_example :
    (unique_texts (call_ids conversation) ≡ true)
    × (answered_ids conversation ++ ids_of (remaining_or sample_proof.unresolved)
        ≡ call_ids conversation)
analyze_messages-order_example =
    analyze_messages-order toy_sha256 conversation (active (planning false)) sample_proof
      sample-analyzed

analyze_messages-settled_example : answered_ids conversation ≡ call_ids conversation
unfolding jharness.Linkage.pending_state
analyze_messages-settled_example =
    analyze_messages-settled toy_sha256 conversation (active (planning false)) sample_proof
      sample-analyzed refl refl

sample-IsProofOf : IsProofOf toy_sha256 sample_proof conversation
unfolding jharness.Linkage.pending_state
sample-IsProofOf =
    analyze_messages-IsProofOf toy_sha256 conversation (active (planning false)) sample_proof tt
      sample-analyzed

evolve_proof-Agree_example :
    Agree
      (SameProof toy_sha256)
      (evolve_proof toy_sha256 sample_proof (question ∷ request ∷ []) none (completed []))
      (analyze_messages toy_sha256 (conversation ++ (question ∷ request ∷ [])) (completed []))
unfolding jharness.Linkage.pending_state
evolve_proof-Agree_example =
    evolve_proof-Agree toy_sha256 conversation (question ∷ request ∷ []) (completed []) sample_proof
      sample-IsProofOf tt
