-- ===== src/P2p.antt =====
-- p2p/p2p.go and p2p/consensus_sync.go: what the nodes send each other, one child for each layer.
pub mod Wire
pub mod Codec
pub mod Framing
pub mod Rpc
pub mod SyncServer
pub mod Gossip
pub mod Devp2p
