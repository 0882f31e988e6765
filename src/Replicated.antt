-- ===== src/Replicated.antt =====
-- internal/replicated: the replicated definitions (posts, dependencies, rules), the state machine
-- that applies committed operations to them, its snapshots, and the adapter that proposes.
pub mod Op
pub mod Graph
pub mod Cleanup
pub mod Apply
pub mod Fsm
pub mod Consistent
pub mod Snapshot
pub mod Adapter
