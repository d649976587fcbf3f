-- ===== src/Ingest.antt =====
-- internal/ingesttoken and internal/receiver: what stands between an exporter and the pipeline.
pub mod Tokens
pub mod Metrics
pub mod Route
pub mod Semconv
pub mod Binder
pub mod Values
pub mod Ids
pub mod Convert
