-- ===== src/Raft.antt =====
-- The per-shard Raft group: raft_types.py, raft_core.py, raft_runtime.py of src/typesense_lite.
pub mod Types
pub mod Log
pub mod Core
pub mod Runtime
pub mod Group
