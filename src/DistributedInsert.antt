-- ===== src/DistributedInsert.antt =====
-- src/paimon_storage/paimon_distributed_insert.cpp: the distributed write. Workers write the rows of
-- their tasks and hand over commit messages in fragments; the coordinator decodes the fragments of
-- the selected tasks and commits them in one operation.
pub mod Actions
pub mod Identities
pub mod LogicalTasks
pub mod Transport
pub mod CommitEnvelope
pub mod Tasks
pub mod Worker
pub mod WorkerSink
pub mod Ownership
pub mod Publishing
pub mod DecodeState
pub mod Decode
pub mod Decoding
pub mod Consistency
pub mod Target
pub mod Operator
pub mod Coordinator
pub mod Methods
pub mod Planning
pub mod Quiet
pub mod Baseline
pub mod Commitment
pub mod Sequences
pub mod Closing
pub mod Handover
pub mod Completeness
pub mod Selection
pub mod Selectable
pub mod Outcomes
pub mod Beginning
