-- ===== src/Tests.antt =====
-- Sample data and the theorems at concrete inputs.
mod Sample
mod PushdownTests
mod SampleWire
mod NumberSplits
mod DistributedTests
mod TableStore
mod CatalogTests
mod ScanTests
mod InsertTests
mod SnapshotTests
mod WriteSample
mod WorkerTests
mod CommitSample
mod CoordinatorTests
mod CommitTests
mod TableEntryTests
mod PlanTests
mod SnapshotBindTests
