-- ===== src/Samples/Boundaries.antt =====
-- The theorem on what a boundary commits at the sample run, with an insert in the inbox.
use jharness.Common.{◌≡◌, refl, false, none, some, List, [], ◌∷◌, ◌++◌}
use jharness.Errors.{ok}
use jharness.State.{planning}
use jharness.History.Run.Contents.{contents}
use jharness.Checkpoint.{Checkpoint}
use jharness.Change.{Change, insert, reduce}
use jharness.Control.Laws.{inserts_of}
use jharness.Engine.{boundary, choose}
use jharness.Engine.Laws.{boundary-committed, held, messages_of}
use jharness.Verification.{run_view, verify_change}
use jharness.Samples.{sample_inbox, notice, toy_sha256, toy_sha256-sized, value_or}
use jharness.Samples.Runs.{first_snapshot, first_checkpoint, sample-run, first-IsSnapshot}

abbrev noticed : Change
noticed = insert "0x1p+1" "host" notice false

unfoldable noticed_checkpoint : Checkpoint
noticed_checkpoint = value_or first_checkpoint (reduce toy_sha256 first_snapshot noticed "c1")

noticed-made : reduce toy_sha256 first_snapshot noticed "c1" ≡ ok noticed_checkpoint
unfolding noticed_checkpoint first_snapshot insert reduce jharness.Snapshot.evolve_snapshot
    jharness.Linkage.evolve_proof jharness.Linkage.extend_proof jharness.Linkage.advance_linkage
    jharness.Linkage.open_calls jharness.Linkage.calls_by_role jharness.Linkage.validate_proof
    jharness.Linkage.validate_unresolved jharness.Linkage.check_unresolved
    jharness.Linkage.pending_state jharness.Linkage.analyze_messages jharness.Snapshot.run_snapshot
    jharness.Snapshot.evolve_messages jharness.History.Run.iter jharness.History.Run.iter_tail
    jharness.History.Run.get_item jharness.History.Run.normalize_index
    jharness.History.Run.get_normalized jharness.History.Run.or_assertion
    jharness.History.lookup_reverse jharness.History.lookup_tree jharness.History.iter_digits
    jharness.History.select jharness.History.iter_selected jharness.History.visit
    jharness.History.Run.build jharness.History.Run.cons_all jharness.History.cons
    jharness.History.Run.append jharness.State.advance_metrics
    jharness.Checkpoint.Boundary.checkpoint jharness.Checkpoint.Boundary.validate_boundary
    jharness.Checkpoint.Boundary.validate_advanced jharness.Checkpoint.Boundary.validate_insert
    jharness.Checkpoint.Boundary.validate_planning jharness.Common.String-discrete
noticed-made = refl

boundary-committed_example :
    (verify_change toy_sha256
        (some (run_view first_snapshot))
        noticed_checkpoint.fact.body
        (run_view noticed_checkpoint.snapshot)
      ≡ ok tt)
    × (contents noticed_checkpoint.snapshot.history
          ++ messages_of (held (boundary "0x1p+1" false (planning false) sample_inbox []))
        ≡ contents first_snapshot.history ++ messages_of ([] ++ inserts_of sample_inbox.queue))
unfolding first_snapshot jharness.Snapshot.run_snapshot jharness.Linkage.pending_state
    jharness.History.Run.build jharness.History.Run.cons_all jharness.History.cons
    jharness.Linkage.analyze_messages jharness.Linkage.extend_proof jharness.Linkage.advance_linkage
    jharness.History.Run.iter jharness.History.iter_digits jharness.Linkage.open_calls
    jharness.Linkage.calls_by_role jharness.Linkage.validate_proof
    jharness.Linkage.validate_unresolved jharness.Linkage.check_unresolved boundary choose
    jharness.Control.drain_pending_controls
boundary-committed_example =
    boundary-committed toy_sha256 first_snapshot "0x1p+1" false (planning false) sample_inbox []
      noticed "c1" noticed_checkpoint toy_sha256-sized first-IsSnapshot tt sample-run.1 refl
      noticed-made
