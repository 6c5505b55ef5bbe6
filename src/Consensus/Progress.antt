-- ===== src/Consensus/Progress.antt =====
-- consensus/consensus_state.go: the invariant, method by method. One child for each group of methods.
pub mod Advance
pub mod Voted
pub mod Prevote
pub mod Precommit
pub mod Kept
pub mod Entered
pub mod Propose
pub mod NewRound
pub mod Update
pub mod Commit
pub mod Committed
pub mod Votes
pub mod Events
pub mod Proposals
pub mod Messages
pub mod Turn
pub mod Returns
