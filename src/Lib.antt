-- ===== src/Lib.antt =====
-- A model of go-minimal-pbft: the consensus state machine that a node runs to agree on one block for
-- each height, the parts that it stands on, and the node around it.
--
-- Parts, and how they interact. A node's `ConsensusState` (consensus/consensus_state.go) gets
-- messages from peers, its own messages, timeouts, sync requests and committed blocks, one at a
-- time, in `receiveRoutine`. The handlers walk a height through rounds of propose, prevote and
-- precommit until +2/3 of the precommits commit a block; then the block goes to the block store, the
-- executor makes the next chain state, and `updateToState` starts the next height. Timeouts go out to
-- the ticker (consensus/timeout_ticker.go) and come back as events. Messages go out and come in
-- through p2p/p2p.go; a node that misses messages asks a peer for them (p2p/consensus_sync.go), and
-- one that starts first fetches the blocks that it misses (p2p/block_sync.go). `runNode`
-- (cmd/main/node.go) reads the keys and flags and puts the parts together.
--
-- Files.
--   Prelude: names of the libraries, Boolean tests on native numbers, integers by their parts.
--   SafeMath: consensus/safe_math.go, one function for each.
--   RoundStep, Messages: the constants and values of consensus/round_state.go and types.go.
--   ChainState: consensus/chain_state.go.
--   Ticker: `timeoutRoutine` of consensus/timeout_ticker.go, over ticks, firings of the timer, and the
--     goroutines that send what fired, in any order.
--   Executor: consensus/default_block_executor.go and `MakeBlock`, an implementation of `BlockExecutor`.
--     The sort is by insertion; Executor.Order is about any other that leaves the times sorted.
--   Library: what the code calls of go-ethereum's core/types, as parameters, with the laws it relies on.
--   Interfaces: `BlockExecutor`, `BlockStore`, `PrivValidator`, the configuration and the clock.
--   Consensus: consensus/consensus_state.go. State holds `RoundState` and `ConsensusState`; Signing,
--     Propose, Prevote, Precommit, Commit, AddVote, SetProposal, Update, Sync and New have the methods
--     of their names, in snake case (`enterPrecommit` is `enter_precommit`); Handle has `handleMsg` and
--     `handleTimeout`; Routine has the `select` of `receiveRoutine` and its runs; LastHeight has
--     `GetLastHeight`. A helper stands for a block of the method that it is named after in its comment.
--   Consensus.Invariant: what holds of the state between two events; Consensus.Progress goes through
--     the methods by the rules of Consensus.Hoare, for any predicate that respects the few ways in which
--     a method changes votes, lock and queue (Progress.Kept); Consensus.Safety goes through the runs.
--   Consensus.Agreement: a network of nodes, one for each validator. Tally has the validators and what
--     the vote sets count; Knows what a node's votes rest on; Local and Deciding are predicates for
--     Progress.Kept; Network has the steps of the network, and Safety puts them together.
--   Service: `BaseService` of consensus/service.go; Service.Refinement has its specification.
--   PrivValidator: consensus/priv_validator_local.go and consensus/pubkey.go, an implementation of
--     `PrivValidator`, over elliptic-curve code as parameters with laws.
--   Words: the bytes of uint32 and uint64, as encoding/binary writes them.
--   Store: cmd/main/default_block_store.go, over LevelDB and RLP as parameters with laws.
--   P2p: p2p/p2p.go and p2p/consensus_sync.go. Wire has the messages and their RLP, Codec `encode` and
--     `decode`, Framing the size in front, Rpc `SendRPC` and the handlers of the hello and full-block
--     topics, SyncServer the consensus sync at both ends, Gossip the loops of `Run`, Devp2p those of
--     p2p/devp2p.go.
--   BlockSync: p2p/block_sync.go, over the streams of Rpc.
--   KeyFiles: cmd/main/keygen.go and `getOrCreateNodeKey`; Node: `runNode` of cmd/main/node.go, for any
--     executor, store and signer, and in Node.Default with the repository's own.
--   Tests: a network of one validator that commits its first block, small instances of the parameters,
--     and the theorems applied to them.
--
-- Choices. A method is a function from a state to an outcome, a result or a panic, each with the state
-- that it leaves, since a deferred function runs after a panic too. A channel is the list of all that was
-- sent on it; a run takes any sequence of events, so all schedules are covered. A uint64 keeps its
-- wrap-around (`u64`), an int32 too (`wrap_int32`). A pointer is an `Option`. A hash is the number that
-- its bytes spell. The loops are structural on a count or a list, but for those of block sync, which
-- are on fuel: the inner loop takes a block of the next height in each round, and a pass of the outer one
-- that is not the last brings the store to the greatest height that a peer reported, so more rounds
-- and more passes than that height are enough.
--
-- In the network of Consensus.Agreement a step is a turn of one node. Peers may send anything, but a
-- vote or a commit that carries the signature of an honest validator holds a vote that its node has
-- cast before. The set of validators is fixed, as it is in the code, and any two quorums share an
-- honest one. A node's step ends with its handler's return; a node whose handler panics takes no
-- further step.
--
-- A stream of libp2p is a function from the bytes sent to what comes back: bytes, an error, or silence,
-- for which a read waits for ever, since the code sets no timeout. A file system, a database and an
-- encoding are records of functions with the laws that their users rely on.
--
-- Simplified: where bytes in the database do not decode, the loads of the default store panic (`Loaded`),
-- but the interface `BlockStore` gives nil for them as for a missing key. A nil block goes to the
-- library's `WithCommit` as it is; that the call may panic is left out, both in `processSyncRequest` and
-- in the handler of full-block requests. `validateBlock` divides by the epoch, which `runNode` sets to
-- 128; an epoch of 0 does not panic here.
--
-- Not modelled: logging, the write-ahead log (commented out in the code), shutdown and the step limit
-- for tests; the branch of `updateState` for new validators, which nothing reaches; the inside of
-- `NewP2PServer` and the set-up of p2p/devp2p.go, which configure libp2p and devp2p; cmd/main/main.go
-- and the definitions of the command line's flags; what go-ethereum, libp2p and LevelDB do.
pub mod Prelude
pub mod SafeMath
pub mod RoundStep
pub mod Messages
pub mod Library
pub mod ChainState
pub mod Interfaces
pub mod Consensus
pub mod Ticker
pub mod Tests
pub mod Executor
pub mod Service
pub mod Words
pub mod Store
pub mod P2p
pub mod BlockSync
pub mod PrivValidator
pub mod KeyFiles
pub mod Node
