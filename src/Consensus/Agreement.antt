-- ===== src/Consensus/Agreement.antt =====
-- consensus/consensus_state.go: what a node's votes rest on, and why no two nodes decide differently.
pub mod Tally
pub mod Knows
pub mod Mono
pub mod Moves
pub mod Casts
pub mod Local
pub mod Deciding
pub mod Growth
pub mod Network
pub mod Decided
pub mod Safety
