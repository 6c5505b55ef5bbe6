-- ===== src/Consensus/Precommit.antt =====
-- consensus/consensus_state.go: entering the precommit step, where the lock is taken and released,
-- and waiting for precommits.
use go_minimal_pbft.Prelude.{
  Bool, ℕ, true, not, ◌||◌, ◌&&◌, Option, none, some, ◌==◌, if◌then◌else◌,
}
use go_minimal_pbft.Prelude.Int.{ℤ, negsuc, ltb_ℤ, eqb_ℤ}
use go_minimal_pbft.RoundStep
use go_minimal_pbft.Messages.{
  Hash, zero_hash, precommit_type, pol_round_behind, invalid_polka_block, nil_pointer,
  no_two_thirds_precommits,
}
use go_minimal_pbft.Interfaces.{Env}
use go_minimal_pbft.Consensus.Monad.{ok, throw, defer, ◌>>◌}
use go_minimal_pbft.Consensus.State.{
  State, Action, modify_rs, update_round_step, new_step, schedule_timeout, is_stale,
}
use go_minimal_pbft.Consensus.Signing.{sign_add_vote}

module _ (e : Env) where
  unfoldable pub unlock : Action e (Unit {0})
  unlock = modify_rs e (λ r. record r { locked_round = negsuc 0; locked_block = none })

  unfoldable pub lock : ℤ → Option e.Block → Action e (Unit {0})
  lock round block = modify_rs e (λ r. record r { locked_round = round; locked_block = block })

  -- Locks the proposal block, which +2/3 prevoted for, and precommits it.
  unfoldable pub lock_proposal_block : ℤ → Hash → Option e.Block → Action e (Unit {0})
  unfolding lock
  lock_proposal_block round block_id none s = throw nil_pointer s
  lock_proposal_block round block_id (some block) s =
      if e.validate s.chain_state block
      then (do lock round (some block); sign_add_vote e precommit_type block_id) s
      else throw invalid_polka_block s

  -- The part below the nil cases: +2/3 prevoted for the block with hash `block_id`.
  unfoldable pub precommit_block : ℤ → Hash → Action e (Unit {0})
  unfolding unlock lock lock_proposal_block
  precommit_block round block_id s =
      if e.hash_to s.locked_block block_id
      then (do lock round s.locked_block; sign_add_vote e precommit_type block_id) s
      else if e.hash_to s.proposal_block block_id
      then lock_proposal_block round block_id s.proposal_block s
      else (do unlock; sign_add_vote e precommit_type zero_hash) s

  -- +2/3 prevoted for nil.
  unfoldable pub precommit_nil : Option e.Block → Action e (Unit {0})
  unfolding unlock
  precommit_nil none = sign_add_vote e precommit_type zero_hash
  precommit_nil (some _) = do unlock; sign_add_vote e precommit_type zero_hash

  -- By the hash that +2/3 prevoted for, if there is one.
  unfoldable pub precommit_polka : ℤ → Option Hash → Action e (Unit {0})
  unfolding precommit_nil precommit_block
  precommit_polka round none s = sign_add_vote e precommit_type zero_hash s
  precommit_polka round (some block_id) s =
      if ltb_ℤ (e.pol_round s.votes) round
      then throw pol_round_behind s
      else if block_id == zero_hash
      then precommit_nil s.locked_block s
      else precommit_block round block_id s

  unfoldable pub do_precommit : ℤ → Action e (Unit {0})
  unfolding precommit_polka
  do_precommit round s = precommit_polka round (e.two_thirds_majority (e.prevotes s.votes round)) s

  unfoldable pub enter_precommit : ℕ → ℤ → Action e (Unit {0})
  unfolding do_precommit update_round_step new_step
  enter_precommit height round s =
      if is_stale e height round RoundStep.precommit s
      then ok tt s
      else defer (do_precommit round) (do update_round_step e round RoundStep.precommit; new_step e)
          s

  abbrev trigger : Action e (Unit {0})
  trigger = modify_rs e (λ r. record r { triggered_timeout_precommit = true })

  -- `enterPrecommitWait` below its guards.
  unfoldable pub begin_precommit_wait : ℕ → ℤ → Action e (Unit {0})
  unfolding new_step schedule_timeout
  begin_precommit_wait height round =
      defer (schedule_timeout e (e.precommit_timeout round) height round RoundStep.precommit_wait)
        (do trigger; new_step e)

  abbrev pub has_waited : ℕ → ℤ → State e → Bool
  has_waited height round s =
      not (s.height == height)
      || ltb_ℤ round s.round
      || (eqb_ℤ s.round round && s.triggered_timeout_precommit)

  unfoldable pub enter_precommit_wait : ℕ → ℤ → Action e (Unit {0})
  enter_precommit_wait height round s =
      if has_waited height round s
      then ok tt s
      else if not (e.has_two_thirds_any (e.precommits s.votes round))
      then throw no_two_thirds_precommits s
      else begin_precommit_wait height round s
