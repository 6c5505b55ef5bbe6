-- ===== src/Executor/Laws.antt =====
-- consensus/default_block_executor.go: `DefaultBlockExecutor` as a `BlockExecutor`.
use go_minimal_pbft.Prelude.{◌+◌, ◌<◌, ◌≡◌, ◌⊎◌, true, some, u64, arith}
use go_minimal_pbft.Library.{Library}
use go_minimal_pbft.ChainState.{ChainState, next_height}
use go_minimal_pbft.Interfaces.{BlockExecutor}
use go_minimal_pbft.Executor.{median_time, validate_block, update_state, apply_block, make_block}

module _ (x : Library) where
  -- A block that `validateBlock` accepts has the height after the chain state's, has its last block
  -- as parent, and a known validator as proposer; unless it is the initial block, its last commit
  -- verifies, its time is the median time of that commit, and that is later than the last block's.
  pub validate_block_sound :
      (s : ChainState x) (b : x.Block)
      → validate_block x s b ≡ true
      → (x.number b ≡ next_height x s)
        × (x.parent_hash b ≡ s.last_block_id)
        × (x.has_address s.validators (x.coinbase b) ≡ true)
        × ((x.number b ≡ s.initial_height)
            ⊎ ((x.verify_commit s.last_validators s.chain_id s.last_block_id
                    (u64 (x.number b + 18446744073709551615))
                    (x.last_commit b)
                  ≡ true)
                × (x.time_ms b ≡ median_time x (x.last_commit b) s.last_validators)
                × (s.last_block_time < x.time_ms b)))
  unfolding validate_block
  validate_block_sound s b h = ground (arith, h)

  -- `ApplyBlock` moves the chain state to the height of the block.
  pub apply_block-height :
      (s t : ChainState x) (b : x.Block)
      → apply_block x s b ≡ some t
      → t.last_block_height ≡ x.number b
  unfolding apply_block update_state
  apply_block-height s t b h = ground (arith, h)

  abbrev pub default_block_executor : BlockExecutor x
  default_block_executor = record {
    validate = validate_block x;
    apply = apply_block x;
    make_block = make_block x;
    validate-number = λ s b h. (validate_block_sound s b h).0;
    apply-height = apply_block-height;
  }
