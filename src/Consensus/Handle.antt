-- ===== src/Consensus/Handle.antt =====
-- consensus/consensus_state.go: what `receiveRoutine` calls for a message or a timeout.
use go_minimal_pbft.Prelude.{Bool, not, ◌||◌, ◌&&◌, Option, ltb, ◌==◌, if◌then◌else◌}
use go_minimal_pbft.Prelude.Int.{ℤ, pos, ◌+ℤ◌, ltb_ℤ, eqb_ℤ, wrap_int32}
use go_minimal_pbft.RoundStep
use go_minimal_pbft.Messages.{Bytes, Error, TimeoutInfo, invalid_timeout_step}
use go_minimal_pbft.Interfaces.{Env}
use go_minimal_pbft.Consensus.Monad.{ok, pure, throw, when, ◌>>=◌, ◌>>◌}
use go_minimal_pbft.Consensus.State.{
  Message, proposal_message, vote_message, sync_request, MsgInfo, RoundState, Action,
  broadcast_message_to_peers,
}
use go_minimal_pbft.Consensus.Prevote.{enter_prevote}
use go_minimal_pbft.Consensus.Precommit.{enter_precommit}
use go_minimal_pbft.Consensus.Propose.{enter_propose, enter_new_round}
use go_minimal_pbft.Consensus.AddVote.{try_add_vote}
use go_minimal_pbft.Consensus.SetProposal.{set_proposal}

-- `int32` arithmetic wraps.
unfoldable pub next_round : ℤ → ℤ
next_round round = wrap_int32 (round +ℤ pos 1)

module _ (e : Env) where
  unfoldable pub broadcast_if : Message e.Block → Bool × Option Error → Action e (Unit {0})
  unfolding broadcast_message_to_peers
  broadcast_if msg (added, err) = when added (broadcast_message_to_peers e msg)

  unfoldable pub handle : Message e.Block → Bytes → Action e (Unit {0})
  unfolding set_proposal try_add_vote broadcast_if
  handle (proposal_message p) peer_id = do
    result ← set_proposal e p
    broadcast_if (proposal_message p) result
  handle (vote_message vote) peer_id = do
    result ← try_add_vote e vote peer_id
    broadcast_if (vote_message vote) result
  handle (sync_request r) peer_id = pure tt

  unfoldable pub handle_msg : MsgInfo e.Block → Action e (Unit {0})
  unfolding handle
  handle_msg mi = handle mi.msg mi.peer_id

  unfoldable pub on_timeout : TimeoutInfo → Action e (Unit {0})
  unfolding next_round
  on_timeout ti =
      if ti.step == RoundStep.new_height
      then enter_new_round e ti.height (pos 0)
      else if ti.step == RoundStep.new_round
      then enter_propose e ti.height (pos 0)
      else if ti.step == RoundStep.propose
      then enter_prevote e ti.height ti.round
      else if ti.step == RoundStep.prevote_wait
      then enter_precommit e ti.height ti.round
      else if ti.step == RoundStep.precommit_wait
      then (do
        enter_precommit e ti.height ti.round
        enter_new_round e ti.height (next_round ti.round))
      else throw invalid_timeout_step

  -- `rs` is the round state that `receiveRoutine` copied before it waited.
  unfoldable pub handle_timeout : TimeoutInfo → RoundState e → Action e (Unit {0})
  unfolding on_timeout
  handle_timeout ti rs s =
      if not (ti.height == rs.height)
        || ltb_ℤ ti.round rs.round
        || (eqb_ℤ ti.round rs.round && ltb ti.step rs.step)
      then ok tt s
      else on_timeout ti s
