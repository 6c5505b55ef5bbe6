-- ===== src/Consensus.antt =====
-- consensus/consensus_state.go: the state machine of the consensus, one child module for each group
-- of its functions, and the theorems about them.
pub mod LastHeight
pub mod Monad
pub mod State
pub mod Signing
pub mod Prevote
pub mod Precommit
pub mod Propose
pub mod Update
pub mod Commit
pub mod AddVote
pub mod SetProposal
pub mod Handle
pub mod Hoare
pub mod Invariant
pub mod Progress
pub mod Sync
pub mod New
pub mod Routine
pub mod Safety
pub mod Agreement
