-- ===== src/DistributedScan.antt =====
-- src/paimon_storage/paimon_distributed_scan.cpp: a coordinator plans the splits of a scan and packs
-- each into an envelope; workers get a template of the bind data and the splits assigned to them.
pub mod SplitIds
pub mod Estimates
pub mod Envelope
pub mod Transport
pub mod RoundTrip
pub mod Planning
pub mod Numbering
pub mod Matching
pub mod Assignment
