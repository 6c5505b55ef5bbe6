-- ===== src/Consensus/New.antt =====
-- consensus/consensus_state.go: `NewConsensusState`, and `OnStart` where it changes the state.
use go_minimal_pbft.Prelude.{false, none, [], ltb}
use go_minimal_pbft.Prelude.Int.{pos}
use go_minimal_pbft.Messages.{zero_hash}
use go_minimal_pbft.ChainState.{ChainState}
use go_minimal_pbft.Interfaces.{Env}
use go_minimal_pbft.Consensus.Monad.{Outcome, when, ◌>>◌}
use go_minimal_pbft.Consensus.State.{RoundState, State}
use go_minimal_pbft.Consensus.Sync.{reconstruct_last_commit}
use go_minimal_pbft.Consensus.Update.{update_to_state}

module _ (e : Env) where
  abbrev zero_chain_state : ChainState e.lib
  zero_chain_state = record {
    chain_id = "";
    initial_height = 0;
    last_block_height = 0;
    last_block_id = zero_hash;
    last_block_time = 0;
    validators = none;
    last_validators = none;
    last_height_validators_changed = pos 0;
    epoch = 0;
    app_hash = [];
  }

  abbrev zero_round_state : RoundState e
  zero_round_state = record {
    height = 0;
    round = pos 0;
    step = 0;
    start_time = 0;
    commit_time = 0;
    validators = none;
    proposal = none;
    proposal_block = none;
    locked_round = pos 0;
    locked_block = none;
    valid_round = pos 0;
    valid_block = none;
    votes = none;
    commit_round = pos 0;
    last_commit = none;
    last_validators = none;
    triggered_timeout_precommit = false;
  }

  -- `&ConsensusState{...}`: the fields that the literal leaves out have their zero values.
  abbrev pub blank : e.Store → State e
  blank store = record {
    rs = zero_round_state;
    chain_state = zero_chain_state;
    priv_validator = none;
    priv_validator_pub_key = none;
    priv_validator_type = 0;
    block_store = store;
    n_steps = 0;
    reads = 0;
    internal_msg_queue = [];
    peer_out_msg_queue = [];
    tick_chan = [];
  }

  unfoldable pub new_consensus_state : ChainState e.lib → e.Store → Outcome (State e) (Unit {0})
  unfolding reconstruct_last_commit update_to_state
  new_consensus_state state store =
      (when (ltb 0 state.last_block_height) (reconstruct_last_commit e state)
          >> update_to_state e state)
        (blank store)
