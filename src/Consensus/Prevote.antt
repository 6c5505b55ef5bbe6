-- ===== src/Consensus/Prevote.antt =====
-- consensus/consensus_state.go: entering the prevote step and waiting for prevotes.
use go_minimal_pbft.Prelude.{ℕ, not, none, some, if◌then◌else◌}
use go_minimal_pbft.Prelude.Int.{ℤ}
use go_minimal_pbft.RoundStep
use go_minimal_pbft.Messages.{zero_hash, prevote_type, no_two_thirds_prevotes}
use go_minimal_pbft.Interfaces.{Env}
use go_minimal_pbft.Consensus.Monad.{ok, throw, defer, ◌>>◌}
use go_minimal_pbft.Consensus.State.{
  Action, update_round_step, new_step, schedule_timeout, is_stale,
}
use go_minimal_pbft.Consensus.Signing.{sign_add_vote}

module _ (e : Env) where
  -- `defaultDoPrevote`.
  unfoldable pub do_prevote : Action e (Unit {0})
  do_prevote s = elim s.locked_block [
    | some locked ↦ sign_add_vote e prevote_type (e.hash locked) s
    | none ↦ elim s.proposal_block [
      | none ↦ sign_add_vote e prevote_type zero_hash s
      | some block ↦
          if e.validate s.chain_state block
          then sign_add_vote e prevote_type (e.hash block) s
          else sign_add_vote e prevote_type zero_hash s
    ]
  ]

  unfoldable pub enter_prevote : ℕ → ℤ → Action e (Unit {0})
  unfolding do_prevote update_round_step new_step
  enter_prevote height round s =
      if is_stale e height round RoundStep.prevote s
      then ok tt s
      else defer do_prevote (do update_round_step e round RoundStep.prevote; new_step e) s

  -- `enterPrevoteWait` below its guards.
  unfoldable pub begin_prevote_wait : ℕ → ℤ → Action e (Unit {0})
  unfolding update_round_step new_step schedule_timeout
  begin_prevote_wait height round =
      defer (schedule_timeout e (e.prevote_timeout round) height round RoundStep.prevote_wait)
        (do update_round_step e round RoundStep.prevote_wait; new_step e)

  unfoldable pub enter_prevote_wait : ℕ → ℤ → Action e (Unit {0})
  enter_prevote_wait height round s =
      if is_stale e height round RoundStep.prevote_wait s
      then ok tt s
      else if not (e.has_two_thirds_any (e.prevotes s.votes round))
      then throw no_two_thirds_prevotes s
      else begin_prevote_wait height round s
