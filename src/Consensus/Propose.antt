-- ===== src/Consensus/Propose.antt =====
-- consensus/consensus_state.go: entering a new round and its propose step.
use go_minimal_pbft.Prelude.{
  ℕ, zero, suc, Bool, true, false, not, ◌||◌, ◌&&◌, Option, none, some, [], ◌==◌, if◌then◌else◌,
}
use go_minimal_pbft.Prelude.Int.{ℤ, pos, ltb_ℤ, eqb_ℤ}
use go_minimal_pbft.RoundStep
use go_minimal_pbft.SafeMath.{safe_add_int32, safe_sub_int32}
use go_minimal_pbft.Messages.{
  Address, zero_hash, Proposal, nil_pointer, no_private_validator, library_panic,
}
use go_minimal_pbft.Interfaces.{Env}
use go_minimal_pbft.Consensus.Monad.{
  ok, get, pure, throw, or_panic, checked, defer, when, ◌>>=◌, ◌>>◌,
}
use go_minimal_pbft.Consensus.State.{
  proposal_message, State, Action, modify_rs, update_round_step, new_step, schedule_timeout,
  send_internal_message, is_proposal_complete, is_stale,
}
use go_minimal_pbft.Consensus.Prevote.{enter_prevote}

module _ (e : Env) where
  unfoldable pub is_proposer : Address → Action e Bool
  is_proposer address s = elim (e.get_proposer s.validators) [
    | none ↦ throw nil_pointer s
    | some v ↦ ok (v.address == address) s
  ]

  abbrev make_block_for : e.Commit → State e → Option e.Block
  make_block_for commit s = elim s.priv_validator_pub_key [
    | none ↦ none
    | some key ↦ e.make_block s.chain_state s.height commit (e.key_address key)
  ]

  -- `none` is a nil block.
  unfoldable pub create_proposal_block : Action e (Option e.Block)
  create_proposal_block s = elim s.priv_validator [
    | none ↦ throw no_private_validator s
    | some _ ↦
        if s.height == s.chain_state.initial_height
        then ok (make_block_for (e.new_commit 0 (pos 0) zero_hash []) s) s
        else if e.has_two_thirds_majority s.last_commit
        then ok (make_block_for (e.make_commit s.last_commit) s) s
        else ok none s
  ]

  abbrev block_to_propose : Action e (Option e.Block)
  unfolding create_proposal_block
  block_to_propose s = elim s.valid_block [
    | some b ↦ ok (some b) s
    | none ↦ create_proposal_block s
  ]

  abbrev push_proposal : Proposal e.Block × Bool → Action e (Unit {0})
  unfolding send_internal_message
  push_proposal (proposal, true) =
      send_internal_message e (record { msg = proposal_message proposal; peer_id = [] })
  push_proposal (proposal, false) = pure tt

  sign_and_send : ℕ → ℤ → Option e.Block → Action e (Unit {0})
  unfolding send_internal_message
  sign_and_send height round none s = ok tt s
  sign_and_send height round (some block) s = elim s.priv_validator [
    | none ↦ throw nil_pointer s
    | some pv ↦
        push_proposal
          (e.sign_proposal pv s.chain_state.chain_id e.timeout_propose
            (e.new_proposal height round s.valid_round block))
          s
  ]

  -- `defaultDecideProposal`.
  unfoldable pub decide_proposal : ℕ → ℤ → Action e (Unit {0})
  unfolding create_proposal_block sign_and_send send_internal_message
  decide_proposal height round = do block ← block_to_propose; sign_and_send height round block

  abbrev propose_if : ℕ → ℤ → Bool → Action e (Unit {0})
  unfolding decide_proposal
  propose_if height round ours = when ours (decide_proposal height round)

  -- What `enterPropose` does before its deferred function.
  unfoldable pub do_propose : ℕ → ℤ → Action e (Unit {0})
  unfolding is_proposer decide_proposal
  do_propose height round s = elim s.priv_validator [
    | none ↦ ok tt s
    | some _ ↦ elim s.priv_validator_pub_key [
      | none ↦ ok tt s
      | some key ↦
          if e.has_address s.validators (e.key_address key)
          then (do ours ← is_proposer (e.key_address key); propose_if height round ours) s
          else ok tt s
    ]
  ]

  -- The deferred function.
  unfoldable pub propose_done : ℕ → ℤ → Action e (Unit {0})
  unfolding update_round_step new_step
  propose_done height round = do
    update_round_step e round RoundStep.propose
    new_step e
    s ← get
    when (is_proposal_complete e s) (enter_prevote e height s.round)

  unfoldable pub enter_propose : ℕ → ℤ → Action e (Unit {0})
  unfolding do_propose propose_done schedule_timeout
  enter_propose height round s =
      if is_stale e height round RoundStep.propose s
      then ok tt s
      else defer
          (do
            schedule_timeout e (e.propose_timeout round) height round RoundStep.propose
            do_propose height round)
          (propose_done height round) s

  -- The loop that moves the proposer on by `to - from` rounds, `n` times.
  unfoldable pub rotate_validators :
      ℕ → ℤ → ℤ → Option e.ValidatorSet → Action e (Option e.ValidatorSet)
  rotate_validators zero to from vals = pure vals
  rotate_validators (suc n) to from vals = do
    times ← checked (safe_sub_int32 to from)
    rotate_validators n to from (e.increment_proposer_priority times vals)

  abbrev pub validators_for : ℤ → Action e (Option e.ValidatorSet)
  unfolding rotate_validators
  validators_for round s =
      if ltb_ℤ s.round round
      then rotate_validators (e.proposer_repetition s.validators) round s.round s.validators s
      else ok s.validators s

  unfoldable pub reset_proposal : ℤ → Action e (Unit {0})
  reset_proposal round =
      when (not (eqb_ℤ round (pos 0)))
        (modify_rs e (λ r. record r { proposal = none; proposal_block = none }))

  -- `cs.Votes.SetRound(SafeAddInt32(round, 1))`.
  unfoldable pub track_rounds : ℤ → Action e (Unit {0})
  track_rounds round = do
    next ← checked (safe_add_int32 round (pos 1))
    s ← get
    votes ← or_panic library_panic (e.set_round s.votes next)
    modify_rs e (λ r. record r { votes = votes; triggered_timeout_precommit = false })

  abbrev set_validators : Option e.ValidatorSet → Action e (Unit {0})
  set_validators validators = modify_rs e (λ r. record r { validators = validators })

  -- `enterNewRound` below the rotation of the proposer.
  unfoldable pub begin_round : ℕ → ℤ → Option e.ValidatorSet → Action e (Unit {0})
  unfolding update_round_step reset_proposal track_rounds
  begin_round height round validators = do
    update_round_step e round RoundStep.new_round
    set_validators validators
    reset_proposal round
    track_rounds round
    enter_propose height round

  abbrev pub has_started : ℕ → ℤ → State e → Bool
  has_started height round s =
      not (s.height == height)
      || ltb_ℤ round s.round
      || (eqb_ℤ s.round round && not (s.step == RoundStep.new_height))

  unfoldable pub enter_new_round : ℕ → ℤ → Action e (Unit {0})
  unfolding begin_round rotate_validators
  enter_new_round height round s =
      if has_started height round s
      then ok tt s
      else (do validators ← validators_for round; begin_round height round validators) s
