-- ===== src/Consensus/Update.antt =====
-- consensus/consensus_state.go: `updateToState`, which moves the state machine to the next height.
use go_minimal_pbft.Prelude.{
  ℕ, ◌+◌, false, not, ◌&&◌, Option, none, some, ltb, leb, ◌==◌, u64, is_some, if◌then◌else◌,
}
use go_minimal_pbft.Prelude.Int.{pos, negsuc, ltb_ℤ}
use go_minimal_pbft.RoundStep
use go_minimal_pbft.Messages.{
  height_mismatch, inconsistent_height, initial_height, no_majority_for_commit, last_commit_empty,
}
use go_minimal_pbft.ChainState.{ChainState, is_empty}
use go_minimal_pbft.Interfaces.{Env}
use go_minimal_pbft.Consensus.Monad.{ok, pure, throw, ◌>>=◌, ◌>>◌}
use go_minimal_pbft.Consensus.State.{
  Action, modify_rs, canonical_now, update_height, update_round_step, new_step,
}

module _ (e : Env) where
  -- The `switch` that chooses the commit of the block before.
  unfoldable pub last_commit_for : ChainState e.lib → Action e (Option e.VoteSet)
  last_commit_for state s =
      if state.last_block_height == 0
      then ok none s
      else if ltb_ℤ (negsuc 0) s.commit_round && is_some s.votes
      then if e.has_two_thirds_majority (e.precommits s.votes s.commit_round)
        then ok (e.precommits s.votes s.commit_round) s
        else throw no_majority_for_commit s
      else if is_some s.last_commit
      then ok s.last_commit s
      else throw last_commit_empty s

  -- The height after `state`, as the code computes it.
  abbrev pub height_after : ChainState e.lib → ℕ
  height_after state =
      if u64 (state.last_block_height + 1) == 1
      then state.initial_height
      else u64 (state.last_block_height + 1)

  abbrev new_start_time : Action e ℕ
  unfolding canonical_now
  new_start_time s =
      if s.commit_time == 0
      then (do now ← canonical_now e; pure (e.commit_time_after now)) s
      else ok (e.commit_time_after s.commit_time) s

  abbrev set_chain_state : ChainState e.lib → Action e (Unit {0})
  set_chain_state state s = ok tt (record s { chain_state = state })

  -- The assignments below the `switch`.
  unfoldable pub reset_fields : ChainState e.lib → Option e.VoteSet → Action e (Unit {0})
  unfolding update_height update_round_step canonical_now new_step
  reset_fields state commit = do
    modify_rs e (λ r. record r { last_commit = commit })
    let height = height_after state
    update_height e height
    update_round_step e (pos 0) RoundStep.new_height
    start ← new_start_time
    modify_rs e (λ r. record r {
      start_time = start;
      validators = state.validators;
      proposal = none;
      proposal_block = none;
      locked_round = negsuc 0;
      locked_block = none;
      valid_round = negsuc 0;
      valid_block = none;
      votes = some (e.new_height_vote_set state.chain_id height state.validators);
      commit_round = negsuc 0;
      last_validators = state.last_validators;
      triggered_timeout_precommit = false;
    })
    set_chain_state state
    new_step e

  unfoldable pub move_to : ChainState e.lib → Action e (Unit {0})
  unfolding last_commit_for reset_fields
  move_to state = do commit ← last_commit_for state; reset_fields state commit

  unfoldable pub update_to_state : ChainState e.lib → Action e (Unit {0})
  unfolding move_to new_step
  update_to_state state s =
      let old = s.chain_state in
      if ltb_ℤ (negsuc 0) s.commit_round
        && ltb 0 s.height
        && not (s.height == state.last_block_height)
      then throw height_mismatch s
      else if is_empty e.lib old
      then move_to state s
      else if ltb 0 old.last_block_height && not (u64 (old.last_block_height + 1) == s.height)
      then throw inconsistent_height s
      else if ltb 0 old.last_block_height && s.height == old.initial_height
      then throw initial_height s
      else if leb state.last_block_height old.last_block_height
      then new_step e s
      else move_to state s
