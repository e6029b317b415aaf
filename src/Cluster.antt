-- ===== src/Cluster.antt =====
-- The package internal/cluster.
pub mod Peer
pub mod Gossip
pub mod Replication
