-- ===== src/Tooling.antt =====
-- The tool step of packages/jharness-kernel/src/jharness/kernel/_engine/tooling.py: binding and
-- approval of a batch, and its concurrent execution.
pub mod Approval
pub mod Execution
pub mod Batches
pub mod Denials
