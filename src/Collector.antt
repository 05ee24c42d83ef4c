-- ===== src/Collector.antt =====
-- dre-collector: the components that turn a stream of events into snapshots.
pub mod Vector
pub mod Buffer
pub mod Trigger
pub mod Ingest
pub mod Redact
pub mod Snapshot
pub mod Server
