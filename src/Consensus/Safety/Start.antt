-- ===== src/Consensus/Safety/Start.antt =====
-- consensus/consensus_state.go: the state that `NewConsensusState` makes.
use go_minimal_pbft.Prelude.{◌<◌, ◌≡◌, Option, none, some, ltb, [], Bool-cases, inl, inr, arith}
use go_minimal_pbft.Prelude.Int.{pos}
use go_minimal_pbft.ChainState.{ChainState}
use go_minimal_pbft.Interfaces.{Env}
use go_minimal_pbft.Consensus.Monad.{◌>>◌, ok, final}
use go_minimal_pbft.RoundStep
use go_minimal_pbft.Consensus.Hoare.{Ends}
use go_minimal_pbft.Consensus.State.{State}
use go_minimal_pbft.Consensus.Sync.{reconstruct_last_commit, set_last_commit}
use go_minimal_pbft.Consensus.Update.{last_commit_for, reset_fields, move_to, update_to_state}
use go_minimal_pbft.Consensus.New.{blank, new_consensus_state}
use go_minimal_pbft.Consensus.Invariant.{Inv}

module _ (e : Env) where
  -- A chain state that a node may start from: its heights are below the last one of `uint64`.
  abbrev pub IsStart : ChainState e.lib → Type 0
  IsStart state = (0 < state.initial_height) × (state.last_block_height < 18446744073709551615)

  -- The initial state has no lock, and nothing was sent.
  abbrev pub IsFresh : State e → Type 0
  IsFresh t =
      (t.locked_block ≡ none)
      × (t.internal_msg_queue ≡ [])
      × (t.peer_out_msg_queue ≡ [])
      × (t.tick_chan ≡ [])

  -- The state that `updateToState` makes of a blank one.
  abbrev pub Made : State e → Type 0
  Made t = Inv e t × IsFresh t

  module _ (state : ChainState e.lib) (start : IsStart state) (store : e.Store) where
    -- `reconstructLastCommit` sets the last commit only.
    abbrev with_commit : Option e.VoteSet → State e
    with_commit c = record (blank e store) { rs = record (blank e store).rs { last_commit = c } }

    reset_fields-Made :
        (c d : Option e.VoteSet) → Ends Made Made (reset_fields e state c (with_commit d))
    unfolding reset_fields
    reset_fields-Made c d = ground (arith, start)

    update-Made :
        (d : Option e.VoteSet) → Ends (λ t. Unit) Made (update_to_state e state (with_commit d))
    unfolding update_to_state move_to last_commit_for
    update-Made d = ground (arith, start, reset_fields-Made none d, reset_fields-Made d d)

    rebuilt-Made :
        (c : Option e.Commit)
        → Ends
            (λ t. Unit)
            Made
            ((set_last_commit e state c >> update_to_state e state) (blank e store))
    rebuilt-Made none = tt
    rebuilt-Made (some c) =
        update-Made (e.commit_to_vote_set state.chain_id c state.last_validators)

    -- From a chain state whose initial height is not 0 and whose last height is below 2^64 - 1,
    -- `NewConsensusState` panics, or makes a state that has the invariant, no lock, and nothing
    -- sent to itself or to the peers or scheduled.
    pub new_consensus_state-Inv : Ends (λ t. Unit) Made (new_consensus_state e state store)
    unfolding new_consensus_state reconstruct_last_commit
    new_consensus_state-Inv = elim (Bool-cases (ltb 0 state.last_block_height)) [
      | inl past ↦ rw past (rebuilt-Made _)
      | inr genesis ↦ rw genesis (update-Made none)
    ]

    -- From a genesis chain state, whose last height is 0 and whose initial height is not,
    -- `NewConsensusState` returns, at the initial height, in round 0 and in step `NewHeight`.
    pub new_consensus_state-genesis :
        state.last_block_height ≡ 0
        → new_consensus_state e state store ≡ ok tt (final (new_consensus_state e state store))
          × (final (new_consensus_state e state store)).height ≡ state.initial_height
          × (final (new_consensus_state e state store)).round ≡ pos 0
          × (final (new_consensus_state e state store)).step ≡ RoundStep.new_height
    unfolding new_consensus_state update_to_state move_to last_commit_for reset_fields
    new_consensus_state-genesis h = ground (arith, h)
