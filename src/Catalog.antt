-- ===== src/Catalog.antt =====
-- The catalog of a Paimon warehouse: its schemas and tables, cached by the entry sets, and the
-- options that it passes to paimon-cpp.
pub mod Backend
pub mod TableSet
pub mod SchemaEntry
pub mod Coherence
pub mod Sessions
pub mod Freshness
pub mod SchemaSet
pub mod Schemas
pub mod Options
pub mod Validation
pub mod Plans
pub mod ReadOnly
