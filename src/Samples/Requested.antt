-- ===== src/Samples/Requested.antt =====
-- The theorems on requests at a sample run that waits for an approval.
use jharness.Common.{ℕ, ◌≡◌, ◌+◌, ◌++◌, refl, true, false, none, some, String, List, [], ◌∷◌, Bool}
use jharness.Errors.{ok, err, value_error}
use jharness.Json.{Json, null, string, entry, no_entry}
use jharness.History.Run.Contents.{contents, build-IsHistory}
use jharness.Digest.{append_history_digest, empty_history_digest}
use jharness.State.{ActiveState, planning, Suspension, active, suspended}
use jharness.Linkage.{validate_proof}
use jharness.Snapshot.{RunSnapshot, run_snapshot}
use jharness.Snapshot.Valid.{IsSnapshot, run_snapshot-IsSnapshot, run_snapshot-settled}
use jharness.Checkpoint.{Checkpoint, started, check_fact}
use jharness.Change.{Change, reduce, suspend}
use jharness.Requests.{ResumeRequest, SuspensionSelector, check_resume, resumption}
use jharness.Requests.Laws.{reduce-resumption}
use jharness.Requests.Refused.{suspend-empty_key}
use jharness.Runs.{empty_metrics}
use jharness.Samples.{sample_context, history_of, toy_sha256, question, value_or}
use jharness.Samples.Runs.{first_snapshot}

abbrev approval : Suspension
approval = record {
  reason = "approval";
  source = "host";
  wait_id = some "w";
  metadata = entry "ticket" (string "7") no_entry;
}

unfoldable waiting_snapshot : RunSnapshot
waiting_snapshot = value_or first_snapshot (
    run_snapshot toy_sha256 1 sample_context (history_of question []) empty_metrics
      (suspended (planning false) approval))

waiting_made :
    run_snapshot toy_sha256 1 sample_context
      (history_of question [])
      empty_metrics
      (suspended (planning false) approval)
    ≡ ok waiting_snapshot
unfolding waiting_snapshot jharness.Snapshot.run_snapshot jharness.Linkage.analyze_messages
    jharness.Linkage.extend_proof jharness.Linkage.advance_linkage jharness.Linkage.open_calls
    jharness.Linkage.calls_by_role jharness.Linkage.validate_proof
    jharness.Linkage.validate_unresolved jharness.Linkage.check_unresolved
    jharness.Linkage.pending_state jharness.History.Run.iter jharness.History.iter_digits
    jharness.History.iter_tree jharness.History.Run.build jharness.History.Run.cons_all
    jharness.History.cons
waiting_made = refl

abbrev request : ResumeRequest
request = record {
  checkpoint = record {
    id = "c1";
    snapshot = waiting_snapshot;
    fact = record { at = "0x1p+1"; body = started [] };
  };
  selector = some (record {
    reason = none;
    source = some "host";
    wait_id = none;
    metadata = entry "ticket" (string "7") no_entry;
  });
  append_messages = question ∷ [];
  metadata = entry "by" (string "me") no_entry;
}

-- An argument for Python's comparison of numbers.
abbrev never_equal : Json → Json → Bool
never_equal x y = false

waiting-IsSnapshot : IsSnapshot toy_sha256 waiting_snapshot
unfolding jharness.Linkage.pending_state
waiting-IsSnapshot =
    run_snapshot-IsSnapshot toy_sha256 1 sample_context (history_of question []) empty_metrics
      (suspended (planning false) approval) waiting_snapshot
      (build-IsHistory (empty_history_digest toy_sha256) (append_history_digest toy_sha256) question
        [])
      tt waiting_made

reduce-resumption_example :
    (a : ActiveState) × (x : Suspension) × (c : Change) × (cp : Checkpoint)
    × (waiting_snapshot.state ≡ suspended a x)
    × (resumption "0x1p+2" request ≡ ok c)
    × (reduce toy_sha256 waiting_snapshot c "c2" ≡ ok cp)
    × (cp.snapshot.state ≡ active a)
    × (contents cp.snapshot.history ≡ contents waiting_snapshot.history ++ question ∷ [])
    × (cp.snapshot.revision ≡ waiting_snapshot.revision + 1)
unfolding waiting_snapshot jharness.Snapshot.run_snapshot jharness.Linkage.analyze_messages
    jharness.Linkage.extend_proof jharness.Linkage.advance_linkage jharness.Linkage.open_calls
    jharness.Linkage.calls_by_role jharness.Linkage.validate_proof
    jharness.Linkage.validate_unresolved jharness.Linkage.check_unresolved
    jharness.Linkage.pending_state jharness.History.Run.iter jharness.History.iter_digits
    jharness.History.iter_tree jharness.History.Run.build jharness.History.Run.cons_all
    jharness.History.cons check_resume jharness.Requests.check_resume_fields
    jharness.Requests.matches jharness.Json.Equal.equal_entries jharness.Json.Equal.equal
    jharness.Wire.find jharness.Messages.Checks.freeze_mapping jharness.Json.Depth.walk
    jharness.Common.String-discrete jharness.State.Pending.has_text
    jharness.State.Pending.unique_texts jharness.Json.Keys.keys
reduce-resumption_example =
    reduce-resumption toy_sha256 never_equal "0x1p+2" "c2" request waiting-IsSnapshot tt
      (run_snapshot-settled toy_sha256 1 sample_context (history_of question []) empty_metrics
        (suspended (planning false) approval) waiting_snapshot tt waiting_made)
      refl refl refl refl

abbrev unnamed : Suspension
unnamed = record approval { metadata = entry "" null no_entry }

suspend-empty_key_example :
    check_fact (suspend "0x1p+1" (planning false) unnamed).fact.body
    ≡ err (value_error "items must not be empty")
unfolding jharness.Wire.State.check_suspension jharness.Messages.Checks.freeze_mapping
    jharness.Json.Depth.walk jharness.Wire.find
suspend-empty_key_example = suspend-empty_key "0x1p+1" (planning false) unnamed null refl refl
