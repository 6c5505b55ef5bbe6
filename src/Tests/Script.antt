-- ===== src/Tests/Script.antt =====
-- The first height of the network of one validator, event by event.
use go_minimal_pbft.Prelude.{ℕ, ◌≤◌, true, false, ◌≡◌, refl, none, some, [], ◌∷◌, arith}
use go_minimal_pbft.Prelude.Int.{◌≤ℤ◌, max_int32, pos, negsuc, wrap_int32, ◌-ℤ◌}
use go_minimal_pbft.Messages.{TimeoutInfo, Vote}
use go_minimal_pbft.Consensus.Monad.{ok, final}
use go_minimal_pbft.Consensus.State.{
  State, MsgInfo, proposal_message, vote_message, is_proposal_complete,
}
use go_minimal_pbft.SafeMath.{safe_add_int32}
use go_minimal_pbft.Consensus.Propose.{enter_new_round, enter_propose}
use go_minimal_pbft.Consensus.Prevote.{enter_prevote}
use go_minimal_pbft.Consensus.Precommit.{enter_precommit}
use go_minimal_pbft.Consensus.Commit.{enter_commit}
use go_minimal_pbft.Consensus.Update.{update_to_state}
use go_minimal_pbft.Consensus.AddVote.Polka.{on_polka}
use go_minimal_pbft.Consensus.New.{new_consensus_state}
use go_minimal_pbft.Consensus.Signing.{set_priv_validator, sign_add_vote}
use go_minimal_pbft.Consensus.Routine.{internal_msg, timed_out, dispatch, on_start}
use mathlib.Core.List.{Memᴰ}
use go_minimal_pbft.Consensus.State.{sync_request}
use go_minimal_pbft.Consensus.AddVote.{finish_precommit}
use go_minimal_pbft.Consensus.Commit.{try_finalize_commit}
use go_minimal_pbft.Consensus.Routine.{Runs, here, then, receive, set_key, start, Fits}
use go_minimal_pbft.Consensus.Sync.{is_new, check_double_signing_risk}
use go_minimal_pbft.Consensus.Invariant.{Inv}
use go_minimal_pbft.Consensus.Safety.Start.{IsStart, new_consensus_state-Inv}
use go_minimal_pbft.Consensus.Progress.Update.{HasNext}
use go_minimal_pbft.Consensus.Safety.Run.{IsBounded, Runs-Inv}
use go_minimal_pbft.Consensus.Safety.Equivocation.{vote_at}
use go_minimal_pbft.Tests.Toy.{toy, genesis, blank_vote}

abbrev pub made : State toy
made = final (new_consensus_state toy genesis 0)

abbrev pub keyed : State toy
keyed = final (set_priv_validator toy (some 7) made)

abbrev pub started : State toy
started = final (on_start toy keyed)

abbrev pub tick0 : TimeoutInfo
tick0 = record { duration = negsuc 998999; height = 1; round = pos 0; step = 1 }

abbrev pub proposed : State toy
proposed = final (dispatch toy (timed_out tick0) started)

abbrev pub proposal0 : MsgInfo ℕ
proposal0 = record {
  msg =
      proposal_message (record {
        height = 1;
        round = pos 0;
        pol_round = negsuc 0;
        block = some 1;
        signature = [];
      });
  peer_id = [];
}

abbrev pub prevoted : State toy
prevoted = final (dispatch toy (internal_msg proposal0) proposed)

-- The message sent last.
abbrev newest : State toy → MsgInfo ℕ
newest s = elim s.internal_msg_queue [ [] ↦ proposal0 | mi ∷ mis ↦ mi ]

abbrev pub prevote0 : MsgInfo ℕ
prevote0 = newest prevoted

abbrev pub precommitted : State toy
precommitted = final (dispatch toy (internal_msg prevote0) prevoted)

abbrev pub precommit0 : MsgInfo ℕ
precommit0 = newest precommitted

abbrev pub committed : State toy
committed = final (dispatch toy (internal_msg precommit0) precommitted)

abbrev pub vote_in_message : MsgInfo ℕ → Vote
vote_in_message mi = elim mi.msg [
  | vote_message v ↦ v
  | proposal_message p ↦ blank_vote
  | sync_request r ↦ blank_vote
]

abbrev pub prevote0_vote : Vote
prevote0_vote = vote_in_message prevote0

pub genesis-IsStart : IsStart toy genesis
genesis-IsStart = (omega arith, omega arith)

pub made-Inv : Inv toy made
unfolding new_consensus_state
made-Inv = (new_consensus_state-Inv toy genesis genesis-IsStart 0).1.0

pub set : set_priv_validator toy (some 7) made ≡ ok tt keyed
unfolding new_consensus_state set_priv_validator
set = refl

pub begun : on_start toy keyed ≡ ok none started
unfolding new_consensus_state set_priv_validator on_start
begun = refl

pub tick0_sent : Memᴰ tick0 started.tick_chan
unfolding new_consensus_state set_priv_validator on_start ◌-ℤ◌
tick0_sent = Memᴰ.head refl

pub tick0_handled : dispatch toy (timed_out tick0) started ≡ ok tt proposed
unfolding new_consensus_state set_priv_validator on_start dispatch enter_new_round safe_add_int32
    wrap_int32 ◌-ℤ◌ enter_propose is_proposal_complete
tick0_handled = refl

pub proposal0_sent : Memᴰ proposal0 proposed.internal_msg_queue
unfolding new_consensus_state set_priv_validator on_start dispatch enter_new_round safe_add_int32
    wrap_int32 ◌-ℤ◌ enter_propose is_proposal_complete
proposal0_sent = Memᴰ.head refl

pub proposal0_handled : dispatch toy (internal_msg proposal0) proposed ≡ ok tt prevoted
unfolding new_consensus_state set_priv_validator on_start dispatch enter_new_round safe_add_int32
    wrap_int32 ◌-ℤ◌ enter_propose is_proposal_complete enter_prevote sign_add_vote
proposal0_handled = refl

pub prevote0_sent : Memᴰ prevote0 prevoted.internal_msg_queue
unfolding new_consensus_state set_priv_validator on_start dispatch enter_new_round safe_add_int32
    wrap_int32 ◌-ℤ◌ enter_propose is_proposal_complete enter_prevote sign_add_vote
prevote0_sent = Memᴰ.head refl

pub prevote0_handled : dispatch toy (internal_msg prevote0) prevoted ≡ ok tt precommitted
unfolding new_consensus_state set_priv_validator on_start dispatch enter_new_round safe_add_int32
    wrap_int32 ◌-ℤ◌ enter_propose is_proposal_complete enter_prevote sign_add_vote enter_precommit
    on_polka
prevote0_handled = refl

pub prevote0_Fits : Fits toy prevote0.msg
unfolding new_consensus_state set_priv_validator on_start dispatch enter_new_round safe_add_int32
    wrap_int32 ◌-ℤ◌ enter_propose is_proposal_complete enter_prevote sign_add_vote
prevote0_Fits = omega arith

pub prevote0_at : vote_at precommitted.internal_msg_queue 1 ≡ some prevote0_vote
unfolding new_consensus_state set_priv_validator on_start dispatch enter_new_round safe_add_int32
    wrap_int32 ◌-ℤ◌ enter_propose is_proposal_complete enter_prevote sign_add_vote enter_precommit
    on_polka
prevote0_at = refl

pub locked_block1 : precommitted.locked_block ≡ some 1
unfolding new_consensus_state set_priv_validator on_start dispatch enter_new_round safe_add_int32
    wrap_int32 ◌-ℤ◌ enter_propose is_proposal_complete enter_prevote sign_add_vote enter_precommit
    on_polka
locked_block1 = refl

pub committed_height : committed.height ≡ 2
unfolding new_consensus_state set_priv_validator on_start dispatch enter_new_round safe_add_int32
    wrap_int32 ◌-ℤ◌ enter_propose is_proposal_complete enter_prevote sign_add_vote enter_precommit
    on_polka enter_commit update_to_state finish_precommit try_finalize_commit
committed_height = refl

pub stored_block1 : committed.block_store ≡ 1
unfolding new_consensus_state set_priv_validator on_start dispatch enter_new_round safe_add_int32
    wrap_int32 ◌-ℤ◌ enter_propose is_proposal_complete enter_prevote sign_add_vote enter_precommit
    on_polka enter_commit update_to_state finish_precommit try_finalize_commit
stored_block1 = refl

-- From the state that `NewConsensusState` made to the prevote.
abbrev pub run_to_prevote : Runs toy made prevoted
run_to_prevote = then (set_key (some 7) set) (
    then (start begun) (
      then (receive (timed_out tick0) tick0_sent tick0_handled)
        (then (receive (internal_msg proposal0) (proposal0_sent, tt) proposal0_handled) here)))

-- From the state that `NewConsensusState` made to the precommit.
abbrev pub run_to_precommit : Runs toy made precommitted
run_to_precommit = then (set_key (some 7) set) (
    then (start begun) (
      then (receive (timed_out tick0) tick0_sent tick0_handled) (
        then (receive (internal_msg proposal0) (proposal0_sent, tt) proposal0_handled) (
          then (receive (internal_msg prevote0) (prevote0_sent, prevote0_Fits) prevote0_handled)
            here))))

pub run-IsBounded : IsBounded toy run_to_precommit
unfolding new_consensus_state set_priv_validator on_start dispatch enter_new_round safe_add_int32
    wrap_int32 ◌-ℤ◌ enter_propose is_proposal_complete enter_prevote sign_add_vote enter_precommit
    on_polka
run-IsBounded = (omega arith, (omega arith, (omega arith, (omega arith, (omega arith, tt)))))

pub prevoted-Inv : Inv toy prevoted
unfolding new_consensus_state set_priv_validator on_start dispatch enter_new_round safe_add_int32
    wrap_int32 ◌-ℤ◌ enter_propose is_proposal_complete enter_prevote sign_add_vote
prevoted-Inv =
    Runs-Inv toy run_to_prevote (omega arith, (omega arith, (omega arith, (omega arith, tt))))
      made-Inv

pub prevoted-HasNext : HasNext toy prevoted
unfolding new_consensus_state set_priv_validator on_start dispatch enter_new_round safe_add_int32
    wrap_int32 ◌-ℤ◌ enter_propose is_proposal_complete enter_prevote sign_add_vote
prevoted-HasNext = omega arith

pub prevoted_round : prevoted.round ≡ pos 0
unfolding new_consensus_state set_priv_validator on_start dispatch enter_new_round safe_add_int32
    wrap_int32 ◌-ℤ◌ enter_propose is_proposal_complete enter_prevote sign_add_vote
prevoted_round = refl

pub prevoted_height : prevoted.height ≡ 1
unfolding new_consensus_state set_priv_validator on_start dispatch enter_new_round safe_add_int32
    wrap_int32 ◌-ℤ◌ enter_propose is_proposal_complete enter_prevote sign_add_vote
prevoted_height = refl

pub precommitted_height : 1 ≡ precommitted.height
unfolding new_consensus_state set_priv_validator on_start dispatch enter_new_round safe_add_int32
    wrap_int32 ◌-ℤ◌ enter_propose is_proposal_complete enter_prevote sign_add_vote enter_precommit
    on_polka
precommitted_height = refl

pub precommitted_initial : precommitted.chain_state.initial_height ≤ precommitted.height
unfolding new_consensus_state set_priv_validator on_start dispatch enter_new_round safe_add_int32
    wrap_int32 ◌-ℤ◌ enter_propose is_proposal_complete enter_prevote sign_add_vote enter_precommit
    on_polka
precommitted_initial = omega arith

pub precommitted_bit :
    is_new toy (toy.prevotes precommitted.votes (wrap_int32 (pos 0))) (λ i. false) 0 ≡ true
unfolding new_consensus_state set_priv_validator on_start dispatch enter_new_round safe_add_int32
    wrap_int32 ◌-ℤ◌ enter_propose is_proposal_complete enter_prevote sign_add_vote enter_precommit
    on_polka
precommitted_bit = refl

pub keyed_validator : keyed.priv_validator ≡ some 7
unfolding new_consensus_state set_priv_validator
keyed_validator = refl

pub keyed_key : keyed.priv_validator_pub_key ≡ some 7
unfolding new_consensus_state set_priv_validator
keyed_key = refl

pub keyed_risk : check_double_signing_risk toy 3 keyed ≡ none
unfolding new_consensus_state set_priv_validator check_double_signing_risk
keyed_risk = refl

pub prevote0_round : prevote0_vote.round ≤ℤ max_int32
unfolding new_consensus_state set_priv_validator on_start dispatch enter_new_round safe_add_int32
    wrap_int32 ◌-ℤ◌ enter_propose is_proposal_complete enter_prevote sign_add_vote
prevote0_round = omega arith
