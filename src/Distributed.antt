-- ===== src/Distributed.antt =====
-- src/distributed: the coordinator and its agents.
pub mod Protocol
