-- ===== src/Consensus/SetProposal.antt =====
-- consensus/consensus_state.go: `defaultSetProposal`.
use go_minimal_pbft.Prelude.{
  is_some, Bool, true, false, not, ◌||◌, ◌&&◌, Option, none, some, leb, ◌==◌, if◌then◌else◌,
}
use go_minimal_pbft.Prelude.Int.{pos, negsuc, ltb_ℤ, leb_ℤ, eqb_ℤ}
use go_minimal_pbft.RoundStep
use go_minimal_pbft.Messages.{
  Hash, zero_hash, Proposal, Error, invalid_proposal_signature, invalid_proposal_pol_round,
  nil_pointer,
}
use go_minimal_pbft.Library.{Validator}
use go_minimal_pbft.Interfaces.{Env}
use go_minimal_pbft.Consensus.Monad.{ok, pure, throw, when, ◌>>◌}
use go_minimal_pbft.Consensus.State.{State, Action, modify_rs, is_proposal_complete}
use go_minimal_pbft.Consensus.Prevote.{enter_prevote}
use go_minimal_pbft.Consensus.Precommit.{enter_precommit}
use go_minimal_pbft.Consensus.Commit.{try_finalize_commit}
use go_minimal_pbft.Consensus.AddVote.Polka.{set_valid_block}

module _ (e : Env) where
  abbrev pub has_polka : Option Hash → Bool
  has_polka none = false
  has_polka (some _) = true

  -- The prevotes of this round make the proposal block valid.
  abbrev pub makes_valid : Option Hash → State e → Bool
  makes_valid none s = false
  makes_valid (some block_id) s =
      not (block_id == zero_hash)
      && ltb_ℤ s.valid_round s.round
      && e.hash_to s.proposal_block block_id

  unfoldable pub precommit_here : Action e (Unit {0})
  precommit_here s = enter_precommit e s.height s.round s

  unfoldable pub enter_votes : Bool → Action e (Unit {0})
  unfolding precommit_here
  enter_votes polka s = (do enter_prevote e s.height s.round; when polka precommit_here) s

  unfoldable pub proceed : Bool → Action e (Unit {0})
  unfolding enter_votes
  proceed polka s =
      if leb s.step RoundStep.propose && is_proposal_complete e s
      then enter_votes polka s
      else if s.step == RoundStep.commit
      then try_finalize_commit e s.height s
      else ok tt s

  abbrev pub prevote_polka : State e → Option Hash
  prevote_polka s = e.two_thirds_majority (e.prevotes s.votes s.round)

  abbrev pub validate_proposal : Action e (Unit {0})
  validate_proposal s = when (makes_valid (prevote_polka s) s) (set_valid_block e) s

  abbrev pub go_on_proposal : Action e (Unit {0})
  unfolding proceed
  go_on_proposal s = proceed (has_polka (prevote_polka s)) s

  -- Below the checks of `defaultSetProposal`.
  unfoldable pub accept_proposal : Proposal e.Block → Action e (Bool × Option Error)
  unfolding proceed
  accept_proposal p = do
    modify_rs e (λ r. record r { proposal = some p; proposal_block = p.block })
    validate_proposal
    go_on_proposal
    pure (true, none)

  -- The proposer's signature is the last check.
  unfoldable pub check_signature :
      Proposal e.Block → Option (Validator e.PubKey) → Action e (Bool × Option Error)
  unfolding accept_proposal
  check_signature p none s = throw nil_pointer s
  check_signature p (some v) s =
      if e.verify_signature v.pub_key (e.proposal_sign_bytes s.chain_state.chain_id p) p.signature
      then accept_proposal p s
      else ok (false, some invalid_proposal_signature) s

  unfoldable pub set_proposal : Proposal e.Block → Action e (Bool × Option Error)
  unfolding check_signature
  set_proposal p s =
      if is_some s.proposal
      then ok (false, none) s
      else if not (p.height == s.height) || not (eqb_ℤ p.round s.round)
      then ok (false, none) s
      else if ltb_ℤ p.pol_round (negsuc 0)
          || (leb_ℤ (pos 0) p.pol_round && leb_ℤ p.round p.pol_round)
      then ok (false, some invalid_proposal_pol_round) s
      else check_signature p (e.get_proposer s.validators) s
