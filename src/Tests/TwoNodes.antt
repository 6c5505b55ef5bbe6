-- ===== src/Tests/TwoNodes.antt =====
-- Two nodes of the network of one validator: its own node and one that follows, which gets the proposal
-- and the precommit from it. Both come to the second height.
use go_minimal_pbft.Prelude.{suc, ◌≡◌, refl, sym, ap, inl, none, some, arith}
use go_minimal_pbft.Prelude.Int.{wrap_int32, ◌-ℤ◌}
use go_minimal_pbft.SafeMath.{safe_add_int32}
use go_minimal_pbft.Messages.{Vote}
use go_minimal_pbft.Consensus.Monad.{ok, final}
use go_minimal_pbft.Consensus.State.{State, is_proposal_complete}
use go_minimal_pbft.Consensus.New.{new_consensus_state}
use go_minimal_pbft.Consensus.Signing.{set_priv_validator, sign_add_vote}
use go_minimal_pbft.Consensus.Propose.{enter_new_round, enter_propose}
use go_minimal_pbft.Consensus.Prevote.{enter_prevote}
use go_minimal_pbft.Consensus.Precommit.{enter_precommit}
use go_minimal_pbft.Consensus.Commit.{enter_commit, try_finalize_commit}
use go_minimal_pbft.Consensus.Update.{update_to_state}
use go_minimal_pbft.Consensus.AddVote.{finish_precommit}
use go_minimal_pbft.Consensus.AddVote.Polka.{on_polka}
use go_minimal_pbft.Consensus.SetProposal.{set_proposal}
use go_minimal_pbft.Consensus.Routine.{
  Step, receive, set_key, start, peer_msg, internal_msg, timed_out, dispatch, on_start, Fits,
}
use go_minimal_pbft.Consensus.Progress.Update.{HasNext}
use go_minimal_pbft.Consensus.Agreement.Network.{NetRun, NetStep, here, then}
use mathlib.Core.List.{Memᴰ}
use go_minimal_pbft.Tests.Toy.{toy}
use go_minimal_pbft.Tests.Agreed.{IsPlain, only7, toys, toy_tally, two, turn7, turn8}
use go_minimal_pbft.Tests.Script.{
  made, keyed, started, tick0, proposed, proposal0, prevoted, prevote0, precommitted, precommit0,
  committed, vote_in_message, set, begun, tick0_sent, tick0_handled, proposal0_sent,
  proposal0_handled, prevote0_sent, prevote0_Fits, prevote0_handled, prevoted-HasNext,
}

abbrev pub precommit0_vote : Vote
precommit0_vote = vote_in_message precommit0

pub precommit0_sent : Memᴰ precommit0 precommitted.internal_msg_queue
unfolding new_consensus_state set_priv_validator on_start dispatch enter_new_round safe_add_int32
    wrap_int32 ◌-ℤ◌ enter_propose is_proposal_complete enter_prevote sign_add_vote enter_precommit
    on_polka
precommit0_sent = Memᴰ.head refl

pub precommit0_handled : dispatch toy (internal_msg precommit0) precommitted ≡ ok tt committed
unfolding new_consensus_state set_priv_validator on_start dispatch enter_new_round safe_add_int32
    wrap_int32 ◌-ℤ◌ enter_propose is_proposal_complete enter_prevote sign_add_vote enter_precommit
    on_polka enter_commit update_to_state finish_precommit try_finalize_commit set_proposal
precommit0_handled = refl

pub precommit0_Fits : Fits toy precommit0.msg
unfolding new_consensus_state set_priv_validator on_start dispatch enter_new_round safe_add_int32
    wrap_int32 ◌-ℤ◌ enter_propose is_proposal_complete enter_prevote sign_add_vote enter_precommit
    on_polka
precommit0_Fits = omega arith

-- The node that follows.
abbrev pub told : State toy
told = final (dispatch toy (peer_msg proposal0) made)

abbrev pub followed : State toy
followed = final (dispatch toy (peer_msg precommit0) told)

pub tells_proposal0 : dispatch toy (peer_msg proposal0) made ≡ ok tt told
unfolding new_consensus_state set_priv_validator on_start dispatch enter_new_round safe_add_int32
    wrap_int32 ◌-ℤ◌ enter_propose is_proposal_complete enter_prevote sign_add_vote enter_precommit
    on_polka enter_commit update_to_state finish_precommit try_finalize_commit set_proposal
tells_proposal0 = refl

pub tells_precommit0 : dispatch toy (peer_msg precommit0) told ≡ ok tt followed
unfolding new_consensus_state set_priv_validator on_start dispatch enter_new_round safe_add_int32
    wrap_int32 ◌-ℤ◌ enter_propose is_proposal_complete enter_prevote sign_add_vote enter_precommit
    on_polka enter_commit update_to_state finish_precommit try_finalize_commit set_proposal
tells_precommit0 = refl

pub followed_height : followed.height ≡ 2
unfolding new_consensus_state set_priv_validator on_start dispatch enter_new_round safe_add_int32
    wrap_int32 ◌-ℤ◌ enter_propose is_proposal_complete enter_prevote sign_add_vote enter_precommit
    on_polka enter_commit update_to_state finish_precommit try_finalize_commit set_proposal
followed_height = refl

-- No vote is brought.
no_vote : {A : Type 0} (v : Vote) → none ≡ some v → A
no_vote v h = ground (arith, h)

pub keyed-IsPlain : IsPlain made (set_key (some 7) set)
keyed-IsPlain = (λ v h. no_vote v h, refl)

pub started-IsPlain : IsPlain keyed (start begun)
started-IsPlain = (λ v h. no_vote v h, refl)

abbrev pub proposing : Step toy started proposed
proposing = receive (timed_out tick0) tick0_sent tick0_handled

pub proposing-IsPlain : IsPlain started proposing
proposing-IsPlain = (λ v h. no_vote v h, refl)

abbrev pub prevoting : Step toy proposed prevoted
prevoting = receive (internal_msg proposal0) (proposal0_sent, tt) proposal0_handled

pub prevoting-IsPlain : IsPlain proposed prevoting
prevoting-IsPlain = (λ v h. no_vote v h, refl)

abbrev pub precommitting : Step toy prevoted precommitted
precommitting = receive (internal_msg prevote0) (prevote0_sent, prevote0_Fits) prevote0_handled

pub precommitting-IsPlain : IsPlain prevoted precommitting
unfolding new_consensus_state set_priv_validator on_start dispatch enter_new_round safe_add_int32
    wrap_int32 ◌-ℤ◌ enter_propose is_proposal_complete enter_prevote sign_add_vote
precommitting-IsPlain = (λ v h. inl (ap (λ o. elim o [ none ↦ v | some x ↦ x ]) (sym h)), refl)

abbrev pub committing : Step toy precommitted committed
committing = receive (internal_msg precommit0) (precommit0_sent, precommit0_Fits) precommit0_handled

pub committing-IsPlain : IsPlain precommitted committing
unfolding new_consensus_state set_priv_validator on_start dispatch enter_new_round safe_add_int32
    wrap_int32 ◌-ℤ◌ enter_propose is_proposal_complete enter_prevote sign_add_vote enter_precommit
    on_polka
committing-IsPlain = (λ v h. inl (ap (λ o. elim o [ none ↦ v | some x ↦ x ]) (sym h)), refl)

abbrev pub telling : Step toy made told
telling = receive (peer_msg proposal0) tt tells_proposal0

pub telling-IsPlain : IsPlain committed telling
telling-IsPlain = (λ v h. no_vote v h, refl)

abbrev pub following : Step toy told followed
following = receive (peer_msg precommit0) precommit0_Fits tells_precommit0

pub following-IsPlain : IsPlain committed following
unfolding new_consensus_state set_priv_validator on_start dispatch enter_new_round safe_add_int32
    wrap_int32 ◌-ℤ◌ enter_propose is_proposal_complete enter_prevote sign_add_vote enter_precommit
    on_polka enter_commit update_to_state finish_precommit try_finalize_commit set_proposal
following-IsPlain = (λ v h. inl (ap (λ o. elim o [ none ↦ v | some x ↦ x ]) (sym h)), refl)

pub made-HasNext : HasNext toy made
unfolding new_consensus_state
made-HasNext = omega arith

pub keyed-HasNext : HasNext toy keyed
unfolding new_consensus_state set_priv_validator
keyed-HasNext = omega arith

pub started-HasNext : HasNext toy started
unfolding new_consensus_state set_priv_validator on_start
started-HasNext = omega arith

pub proposed-HasNext : HasNext toy proposed
unfolding new_consensus_state set_priv_validator on_start dispatch enter_new_round safe_add_int32
    wrap_int32 ◌-ℤ◌ enter_propose is_proposal_complete enter_prevote sign_add_vote enter_precommit
    on_polka
proposed-HasNext = omega arith

pub precommitted-HasNext : HasNext toy precommitted
unfolding new_consensus_state set_priv_validator on_start dispatch enter_new_round safe_add_int32
    wrap_int32 ◌-ℤ◌ enter_propose is_proposal_complete enter_prevote sign_add_vote enter_precommit
    on_polka
precommitted-HasNext = omega arith

pub told-HasNext : HasNext toy told
unfolding new_consensus_state set_priv_validator on_start dispatch enter_new_round safe_add_int32
    wrap_int32 ◌-ℤ◌ enter_propose is_proposal_complete enter_prevote sign_add_vote enter_precommit
    on_polka enter_commit update_to_state finish_precommit try_finalize_commit set_proposal
told-HasNext = omega arith

-- Node 7 up to its precommit.
abbrev pub run7 : NetRun only7 toys (λ a. toy_tally) (two made made) (two precommitted made)
run7 = then (turn7 made keyed made (set_key (some 7) set) made-HasNext keyed-IsPlain) (
    then (turn7 keyed started made (start begun) keyed-HasNext started-IsPlain) (
      then (turn7 started proposed made proposing started-HasNext proposing-IsPlain) (
        then (turn7 proposed prevoted made prevoting proposed-HasNext prevoting-IsPlain) (
          then
            (turn7 prevoted precommitted made precommitting prevoted-HasNext precommitting-IsPlain)
            here))))

-- The turn in which it decides.
abbrev pub decides7 :
    NetStep only7 toys (λ a. toy_tally) (two precommitted made) (two committed made)
decides7 = turn7 precommitted committed made committing precommitted-HasNext committing-IsPlain

-- Node 8 gets the proposal.
abbrev pub run8 : NetRun only7 toys (λ a. toy_tally) (two committed made) (two committed told)
run8 = then (turn8 committed made told telling made-HasNext telling-IsPlain) here

abbrev pub decides8 :
    NetStep only7 toys (λ a. toy_tally) (two committed told) (two committed followed)
decides8 = turn8 committed told followed following told-HasNext following-IsPlain

pub up7 : committed.height ≡ suc precommitted.height
unfolding new_consensus_state set_priv_validator on_start dispatch enter_new_round safe_add_int32
    wrap_int32 ◌-ℤ◌ enter_propose is_proposal_complete enter_prevote sign_add_vote enter_precommit
    on_polka enter_commit update_to_state finish_precommit try_finalize_commit set_proposal
up7 = refl

pub up8 : followed.height ≡ suc told.height
unfolding new_consensus_state set_priv_validator on_start dispatch enter_new_round safe_add_int32
    wrap_int32 ◌-ℤ◌ enter_propose is_proposal_complete enter_prevote sign_add_vote enter_precommit
    on_polka enter_commit update_to_state finish_precommit try_finalize_commit set_proposal
up8 = refl

pub level : precommitted.height ≡ told.height
unfolding new_consensus_state set_priv_validator on_start dispatch enter_new_round safe_add_int32
    wrap_int32 ◌-ℤ◌ enter_propose is_proposal_complete enter_prevote sign_add_vote enter_precommit
    on_polka enter_commit update_to_state finish_precommit try_finalize_commit set_proposal
level = refl
