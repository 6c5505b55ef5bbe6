-- ===== src/Consensus/Commit.antt =====
-- consensus/consensus_state.go: entering the commit step, finalizing a commit, and the commit of a
-- block that a peer sent with its commit.
use go_minimal_pbft.Prelude.{Option, ℕ, not, ◌||◌, ◌&&◌, none, some, ltb, leb, ◌==◌, if◌then◌else◌}
use go_minimal_pbft.Prelude.Int.{ℤ, pos, negsuc}
use go_minimal_pbft.RoundStep
use go_minimal_pbft.Messages.{
  Hash, zero_hash, commit_without_majority, wrong_final_height, no_majority_for_commit,
  wrong_final_block, invalid_final_block, store_gap,
}
use go_minimal_pbft.ChainState.{ChainState}
use go_minimal_pbft.Interfaces.{Env}
use go_minimal_pbft.Consensus.Monad.{pure, ok, throw, defer, ◌>>=◌, ◌>>◌}
use go_minimal_pbft.Consensus.State.{
  Action, modify_rs, canonical_now, update_round_step, new_step, schedule_round0,
}
use go_minimal_pbft.Consensus.Signing.{update_priv_validator_pub_key}
use go_minimal_pbft.Consensus.Propose.{enter_new_round}
use go_minimal_pbft.Consensus.Update.{update_to_state}

module _ (e : Env) where
  -- Saves a block that the store does not have yet.
  unfoldable pub save_if_new : e.Block → e.Commit → Action e (Unit {0})
  save_if_new block commit s =
      if ltb (e.store_height s.block_store) (e.number block)
      then elim (e.save_block block commit s.block_store) [
        | none ↦ throw store_gap s
        | some st ↦ ok tt (record s { block_store = st })
      ]
      else ok tt s

  unfoldable pub apply_to : Action e (Unit {0}) → Option (ChainState e.lib) → Action e (Unit {0})
  apply_to next none = pure tt
  apply_to next (some state) = do update_to_state e state; update_priv_validator_pub_key e; next

  -- `ApplyBlock`, `updateToState`, the public key and what follows; an error of `ApplyBlock` returns.
  unfoldable pub apply_and : e.Block → Action e (Unit {0}) → Action e (Unit {0})
  unfolding apply_to
  apply_and block next s = apply_to next (e.apply s.chain_state block) s

  abbrev pub start_round0 : Action e (Unit {0})
  start_round0 s = schedule_round0 e s.rs s

  -- Below the guards of `finalizeCommit`.
  unfoldable pub commit_block : e.Block → Action e (Unit {0})
  unfolding save_if_new apply_and
  commit_block block s =
      (do
        save_if_new block (e.make_commit (e.precommits s.votes s.commit_round))
        apply_and block start_round0)
        s

  -- The proposal block, which has +2/3 of the precommits.
  unfoldable pub finalize_block : Option e.Block → Action e (Unit {0})
  unfolding commit_block
  finalize_block none s = throw wrong_final_block s
  finalize_block (some block) s =
      if e.validate s.chain_state block then commit_block block s else throw invalid_final_block s

  unfoldable pub finalize_commit : ℕ → Action e (Unit {0})
  unfolding finalize_block
  finalize_commit height s =
      if not (s.height == height) || not (s.step == RoundStep.commit)
      then ok tt s
      else elim (e.two_thirds_majority (e.precommits s.votes s.commit_round)) [
        | none ↦ throw no_majority_for_commit s
        | some block_id ↦
            if e.hash_to s.proposal_block block_id
            then finalize_block s.proposal_block s
            else throw wrong_final_block s
      ]

  unfoldable pub try_finalize_commit : ℕ → Action e (Unit {0})
  unfolding finalize_commit
  try_finalize_commit height s =
      if not (s.height == height)
      then throw wrong_final_height s
      else elim (e.two_thirds_majority (e.precommits s.votes s.commit_round)) [
        | none ↦ ok tt s
        | some block_id ↦
            if block_id == zero_hash || not (e.hash_to s.proposal_block block_id)
            then ok tt s
            else finalize_commit height s
      ]

  -- Where the commit is for the locked block, that becomes the proposal block; where the proposal
  -- block is another one, it is dropped.
  unfoldable pub choose_commit_block : Hash → Action e (Unit {0})
  choose_commit_block block_id s =
      let block = if e.hash_to s.locked_block block_id then s.locked_block else s.proposal_block in
      modify_rs e
        (λ r. record r { proposal_block = if e.hash_to block block_id then block else none }) s

  unfoldable pub do_commit : ℤ → Action e (Unit {0})
  unfolding choose_commit_block
  do_commit commit_round s = elim (e.two_thirds_majority (e.precommits s.votes commit_round)) [
    | none ↦ throw commit_without_majority s
    | some block_id ↦ choose_commit_block block_id s
  ]

  unfoldable pub mark_commit : ℤ → Action e (Unit {0})
  unfolding update_round_step canonical_now new_step
  mark_commit commit_round s =
      (do
        update_round_step e s.round RoundStep.commit
        now ← canonical_now e
        modify_rs e (λ r. record r { commit_round = commit_round; commit_time = now })
        new_step e)
        s

  unfoldable pub enter_commit : ℕ → ℤ → Action e (Unit {0})
  unfolding do_commit mark_commit
  enter_commit height commit_round s =
      if not (s.height == height) || leb RoundStep.commit s.step
      then ok tt s
      else defer (do_commit commit_round) (do mark_commit commit_round; try_finalize_commit height)
          s

  -- Where all have voted, the next round starts at once; otherwise after the commit timeout.
  unfoldable pub go_on : Action e (Unit {0})
  go_on s =
      if e.skip_timeout_commit && e.has_all s.last_commit
      then enter_new_round e s.height (pos 0) s
      else start_round0 s

  unfoldable pub mark_committed : e.Block → Action e (Unit {0})
  unfolding update_round_step canonical_now
  mark_committed block s =
      let vals = s.chain_state.validators in
      (do
        update_round_step e s.round RoundStep.commit
        now ← canonical_now e
        modify_rs e (λ r. record r {
          commit_round = negsuc 0;
          last_commit = e.commit_to_vote_set s.chain_state.chain_id (e.block_commit block) vals;
          commit_time = now;
        }))
        s

  -- `processCommitedBlock`.
  unfoldable pub process_committed_block : e.Block → Action e (Unit {0})
  unfolding mark_committed save_if_new apply_and go_on
  process_committed_block block s =
      if not (e.number block == s.height)
      then ok tt s
      else if not (e.validate s.chain_state block)
      then ok tt s
      else if not (
          e.verify_commit s.chain_state.validators s.chain_state.chain_id (e.hash block)
            (e.number block) (e.header_commit block))
      then ok tt s
      else (do
        mark_committed block
        save_if_new block (e.block_commit block)
        apply_and block go_on)
          s
