-- ===== src/Becs.antt =====
-- internal/becs: the client of the JSON-RPC batch API.
pub mod Types
pub mod Results
pub mod Recorder
pub mod Redact
pub mod Client
pub mod Sessions
pub mod Batch
pub mod File
pub mod Moves
