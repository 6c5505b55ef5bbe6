-- ===== src/Consensus/LastHeight.antt =====
-- consensus/consensus_state.go: `GetLastHeight`, which the hello handler of p2p/devp2p.go reads.
use go_minimal_pbft.Prelude.{ℕ, ◌+◌, ◌≡◌, ◌<◌, u64, arith}
use go_minimal_pbft.Interfaces.{Env}
use go_minimal_pbft.Consensus.State.{State}
use go_minimal_pbft.Consensus.Invariant.{Inv}

module _ (e : Env) where
  unfoldable pub get_last_height : State e → ℕ
  get_last_height s = u64 (s.height + 18446744073709551615)

  -- In a state with the invariant and the initial height 1, at a last height below 2^64 - 1,
  -- `GetLastHeight` gives the height of the last block of the chain state, and 0 at the genesis.
  get_last_height-Inv :
      (s : State e)
      → Inv e s
      → s.chain_state.initial_height ≡ 1
      → s.chain_state.last_block_height < 18446744073709551615
      → get_last_height s ≡ s.chain_state.last_block_height
  unfolding get_last_height
  get_last_height-Inv s inv first lt = ground (arith, inv.height_next, first, lt)
