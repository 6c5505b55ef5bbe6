-- ===== src/Consensus/Safety.antt =====
-- consensus/consensus_state.go: runs of `receiveRoutine`. One child for each subject.
pub mod Start
pub mod Carried
pub mod Run
pub mod Equivocation
pub mod Commit
pub mod Lock
