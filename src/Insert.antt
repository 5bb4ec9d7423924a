-- ===== src/Insert.antt =====
-- src/paimon_storage/paimon_insert.cpp: the sink of an INSERT. Rows go to paimon-cpp's writer by
-- partition; each thread hands over its commit messages, and one commit publishes them all.
pub mod Sink
pub mod Commit
pub mod Grouping
