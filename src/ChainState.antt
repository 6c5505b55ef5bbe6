-- ===== src/ChainState.antt =====
-- consensus/chain_state.go: the state of the chain after its latest committed block, and the blocks
-- made from it. `MakeBlock` is in Executor, with `MedianTime`.
use go_minimal_pbft.Prelude.{
  ℕ, ◌+◌, Bool, true, false, Option, none, some, List, [], ◌==◌, if◌then◌else◌, u64,
}
use go_minimal_pbft.Prelude.Int.{ℤ, pos}
use go_minimal_pbft.Messages.{Hash, zero_hash, Address, Bytes, ChainId}
use go_minimal_pbft.Library.{Library}

pub record ChainState (x : Library) : Type 0 where
  pub chain_id : ChainId
  pub initial_height : ℕ
  pub last_block_height : ℕ
  pub last_block_id : Hash
  pub last_block_time : ℕ
  pub validators : Option x.ValidatorSet
  pub last_validators : Option x.ValidatorSet
  pub last_height_validators_changed : ℤ
  pub epoch : ℕ
  pub app_hash : Bytes

module _ (x : Library) where
  abbrev pub is_empty : ChainState x → Bool
  is_empty state = elim state.validators [ none ↦ true | some _ ↦ false ]

  -- The height of the block that comes after `state`.
  abbrev pub next_height : ChainState x → ℕ
  next_height state =
      if state.last_block_height == 0
      then state.initial_height
      else u64 (state.last_block_height + 1)

  unfoldable pub make_genesis_chain_state :
      ChainId → ℕ → List Address → List ℤ → ℕ → ℤ → ChainState x
  make_genesis_chain_state chain_id genesis_time addrs powers epoch repetition = record {
    chain_id = chain_id;
    initial_height = 1;
    last_block_height = 0;
    last_block_id = zero_hash;
    last_block_time = genesis_time;
    validators = some (x.new_validator_set addrs powers repetition);
    last_validators = some x.empty_validator_set;
    last_height_validators_changed = pos 1;
    epoch = epoch;
    app_hash = [];
  }

  unfoldable pub make_chain_state :
      ChainId → ℕ → Hash → ℕ → Option x.ValidatorSet → Option x.ValidatorSet → ℕ → ChainState x
  make_chain_state chain_id parent_height parent_hash parent_time last_vals vals epoch = record {
    chain_id = chain_id;
    initial_height = 1;
    last_block_height = parent_height;
    last_block_id = parent_hash;
    last_block_time = parent_time;
    validators = vals;
    last_validators = last_vals;
    last_height_validators_changed = pos 1;
    epoch = epoch;
    app_hash = [];
  }
