-- ===== src/Cluster.antt =====
-- Package cluster: membership, the ownership view, probing, suspicion votes and the node's loop.
-- The names that its parts share, from cluster/node.go, cluster/probe.go and cluster/cluster.go.
pub mod Hash
pub mod Members
pub mod Ring
pub mod Probe
pub mod Table
pub mod Vote
pub mod Node
