-- ===== src/Consensus/Progress/Proposals.antt =====
-- consensus/consensus_state.go: `defaultSetProposal` and the invariant, with what they keep.
use go_minimal_pbft.Prelude.{◌≡◌, refl, Bool, true, Option, none, some, arith}
use go_minimal_pbft.Messages.{Hash, Proposal}
use go_minimal_pbft.Library.{Validator}
use go_minimal_pbft.Interfaces.{Env}
use go_minimal_pbft.Consensus.Monad.{◌>>◌, when, pure}
use go_minimal_pbft.Consensus.Hoare.{Ends, Ends-then, Ends-map, Ends-when}
use go_minimal_pbft.Consensus.State.{State}
use go_minimal_pbft.Consensus.Prevote.{enter_prevote}
use go_minimal_pbft.Consensus.Precommit.{enter_precommit}
use go_minimal_pbft.Consensus.AddVote.Polka.{set_valid_block}
use go_minimal_pbft.Consensus.SetProposal.{
  has_polka, makes_valid, precommit_here, enter_votes, proceed, prevote_polka, validate_proposal,
  go_on_proposal, accept_proposal, check_signature, set_proposal,
}
use go_minimal_pbft.Consensus.Progress.Prevote.{Stays}
use go_minimal_pbft.Consensus.Progress.Precommit.{Paired-hash_to}
use go_minimal_pbft.Consensus.Progress.Update.{HasNext}
use go_minimal_pbft.Consensus.Progress.Commit.{Any, try_finalize_commit-Ends}
use go_minimal_pbft.Consensus.Progress.Kept.{Kept, Good, Good-Quiet, Quiet-Ends}
use go_minimal_pbft.Consensus.Progress.Entered.{enter_prevote-Ends, enter_precommit-Ends}

module _ (e : Env) where
  -- The last block is the same, so the height after it is.
  abbrev Same : State e → State e → Type 0
  Same s t = t.height ≡ s.height

  module _ (kept : Kept e) where
    validate_by-Ends :
        (o : Option Hash) (s : State e)
        → Good e kept s
        → Ends (Good e kept) (Same s) (when (makes_valid e o s) (set_valid_block e) s)
    unfolding set_valid_block
    validate_by-Ends none s good = (good, refl)
    validate_by-Ends (some h) s good =
        Quiet-Ends e kept (Same s) (when (makes_valid e (some h) s) (set_valid_block e) s) good
          (ground (arith, good.inv, Paired-hash_to e s.proposal_block h s.round s.round))

    enter_votes-Ends :
        (polka : Bool) (s : State e)
        → Good e kept s
        → Ends (Good e kept) (Any e) (enter_votes e polka s)
    unfolding enter_votes precommit_here
    enter_votes-Ends polka s good =
        Ends-then (Good e kept) (Any e) (Any e) (enter_prevote e s.height s.round)
          (when polka (precommit_here e)) s
          (Ends-map (Good e kept) (Stays e s) (Any e) (enter_prevote e s.height s.round s)
            (enter_prevote-Ends e kept s.height s.round s good (omega (arith, good.inv)))
            (λ t _ _. tt))
          (λ t good' _.
            Ends-when (Good e kept) (Any e) polka (precommit_here e) t
              (λ _.
                Ends-map (Good e kept) (Stays e t) (Any e) (enter_precommit e t.height t.round t)
                  (enter_precommit-Ends e kept t.height t.round t good' (omega (arith, good'.inv)))
                  (λ u _ _. tt))
              (λ _. (good', tt)))

    proceed-Ends :
        (polka : Bool) (s : State e)
        → Good e kept s
        → HasNext e s
        → Ends (Good e kept) (Any e) (proceed e polka s)
    unfolding proceed
    proceed-Ends polka s good more = ground (
      arith,
      good,
      enter_votes-Ends polka s good,
      try_finalize_commit-Ends e kept s.height s good more,
    )

    accept_proposal-Ends :
        (p : Proposal e.Block) (s : State e)
        → Good e kept s
        → HasNext e s
        → Ends (Good e kept) (Any e) (accept_proposal e p s)
    unfolding accept_proposal
    accept_proposal-Ends p s good more =
        let got : State e = record s {
          rs = record s.rs { proposal = some p; proposal_block = p.block };
        } in
        Ends-then (Good e kept) (Any e) (Same got) (validate_proposal e)
          (go_on_proposal e >> pure (true, none)) got
          (validate_by-Ends (prevote_polka e got) got
            (Good-Quiet e kept good (ground (arith, good.inv)) (ground arith)))
          (λ t good' same.
            Ends-then (Good e kept) (Any e) (Any e) (go_on_proposal e) (pure (true, none)) t
              (proceed-Ends (has_polka e (prevote_polka e t)) t good' (ground (arith, same, more)))
              (λ u good'' _. (good'', tt)))

    check_signature-Ends :
        (p : Proposal e.Block) (o : Option (Validator e.PubKey)) (s : State e)
        → Good e kept s
        → HasNext e s
        → Ends (Good e kept) (Any e) (check_signature e p o s)
    unfolding check_signature
    check_signature-Ends p none s good more = good
    check_signature-Ends p (some v) s good more =
        ground (arith, good, accept_proposal-Ends p s good more)

    -- `defaultSetProposal` keeps the invariant whether it returns or panics, for any proposal, at a
    -- height below 2^64 - 1.
    pub set_proposal-Ends :
        (p : Proposal e.Block) (s : State e)
        → Good e kept s
        → HasNext e s
        → Ends (Good e kept) (Any e) (set_proposal e p s)
    unfolding set_proposal
    set_proposal-Ends p s good more =
        ground (arith, good, check_signature-Ends p (e.get_proposer s.validators) s good more)
