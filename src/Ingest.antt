-- ===== src/Ingest.antt =====
-- internal/ingest/ingest.go: what collectors deliver. The hash of a credential, SHA-256, is the
-- parameter `sha256`; a time is in nanoseconds; the newest row stands first.
pub mod Types
pub mod Budget
pub mod Key
pub mod Batch
pub mod Accept
pub mod Delivery
pub mod Rate
