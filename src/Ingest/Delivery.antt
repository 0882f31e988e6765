-- ===== src/Ingest/Delivery.antt =====
-- internal/ingest/ingest.go: batches.
pub mod Refused
pub mod Stored
pub mod Accepted
pub mod Redelivered
pub mod Untouched
