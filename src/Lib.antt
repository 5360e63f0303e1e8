-- ===== src/Lib.antt =====
-- A model of the JHarness kernel: the durable, append-only record of an agent run, and the pure steps
-- that take one recorded state to the next. Paths are from the repository's root; the kernel is
-- packages/jharness-kernel/src/jharness/kernel.
--
-- The parts, and how they interact:
-- - History: history.py. `RunHistory` keeps messages in skew-binary digits of perfect trees (`cons` is
--   `_cons`, `lookup_reverse` is `_lookup_reverse`, `visit` and `select` the two levels of
--   `_iter_window`). History/Run has the class, History/Order, History/Lookup and History/Window the
--   proofs on digits, History/Run/Contents and History/Run/Bounds those on the class.
-- - IdSet: `_PersistentIdSet` of _history.py, a byte trie; Utf8: `str.encode`.
-- - Json, Messages: the values that messages carry (json_values.py, messages.py, tools.py), with what
--   their constructors check in Messages/Checks and the nesting limit of json_values.py in Json/Depth.
-- - Digest: _digest.py. A `DigestWriter` is the bytes that it has written; SHA-256 is an argument.
-- - State: state.py and limits.py, with the cursor `PendingToolCalls` in State/Pending and `ModelUsage`
--   of models.py in State/Usage.
-- - Linkage: _history.py. `advance_linkage`, `extend_proof`, `analyze_messages` and `evolve_proof` (the
--   proof of `evolve_history`); Linkage/Order and Linkage/Incremental have the proofs.
-- - Snapshot: snapshot.py and context.py. Checkpoint: checkpoint.py, with `_validate_boundary` in
--   Checkpoint/Boundary.
-- - Change: _engine/change.py, with the changes of _engine/engine.py in Change/Engine, of
--   _engine/planning.py in Change/Turn and of _engine/tooling.py in Change/Batch.
-- - Verification: _engine/verification.py, on typed views in place of mappings; Verification/Steps,
--   Verification/Turns and Verification/Batches prove one kind of change each.
-- - Repository: repository.py, with `checkpoint_digest` in Repository/Digest, `EphemeralRepository` in
--   Repository/Ephemeral, and `MemoryRunRepository` of
--   packages/jharness-repository/src/jharness/repository/memory.py in Repository/Memory;
--   Repository/Storage is how _codec.py there stores states, Repository/Manifest its chunks with
--   _history_manifest.py, and the rows of sqlite.py, as a function of their primary key.
-- - Wire: the strict readers of wire/_helpers.py; Wire/Parts, Wire/Calls and Wire/Messages are
--   wire/messages.py, Wire/State is wire/state.py and the usage of wire/models.py, Wire/Snapshot is
--   wire/snapshot.py, Wire/Facts and Wire/Checkpoints are wire/checkpoint.py with `fact_data` of
--   _engine/verification.py; each has its round trip in its Laws.
-- - Tooling: _engine/tooling.py. Tooling/Approval is `_bind`, `_approve` and `_apply_decisions`;
--   Tooling/Execution is `_Execution` with the steps of the event loop as an indexed data type, in any
--   order; Tooling/Batches and Tooling/Denials have what holds of every interleaving.
-- - Planning: the tools of models.py requests and the checks of _engine/planning.py on them.
-- - Requests: commands.py, with the change that `_initialize` of _engine/engine.py makes of a resume
--   request; Json/Equal is `==` on frozen values, and Json/Canonical is how cursors see it.
-- - Commit: `Committer` of _engine/commit.py up to the call of the repository.
-- - Control: control.py, with inboxes as values and the event loop's queue as a list. Engine: `_boundary`
--   of _engine/engine.py. Runs: the snapshots that committed changes reach, as an indexed data type, with
--   Runs/Sound and Runs/Kept on what each change and each run keeps.
-- - Common and Errors are shared; Samples has the sample data and the examples of the theorems.
--
-- Conventions: an exception is an `err` of `Result`, with its message where the source writes a constant
-- one; a class with a validating `__post_init__` is a record with a function that checks and builds it.
-- Values have their types, so the run-time type checks have no counterpart. Times are arguments, given by
-- their `float.hex()`, and digests are lists of bytes. Text is compared and encoded by code points. Loops
-- are structural recursion on lists, trees or digits; the only fuel is that of `decimal`, the number
-- itself, which has no more digits than that, and that of `decode_state_within`, the depth of the value.
--
-- Not modelled: clocks and what they end (deadlines, the timing of commits), what a model or a tool does
-- inside, the cancellation of tasks, the wire codecs of run views, requests, tools, events and traces,
-- the rest of the database repositories, the model adapters and the tools.
pub mod Common
pub mod Errors
pub mod History
pub mod IdSet
pub mod Json
pub mod Messages
pub mod Utf8
pub mod Digest
pub mod State
pub mod Linkage
pub mod Snapshot
pub mod Checkpoint
pub mod Change
pub mod Verification
pub mod Repository
pub mod Commit
pub mod Wire
pub mod Tooling
pub mod Requests
pub mod Planning
pub mod Control
pub mod Engine
pub mod Runs
pub mod Samples
