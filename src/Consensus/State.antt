-- ===== src/Consensus/State.antt =====
-- `RoundState` (consensus/round_state.go) and `ConsensusState`, with the functions that set or read
-- a few fields. A channel is the list of all that was sent on it, newest first; what a goroutine
-- sends later is in the list at once.
use go_minimal_pbft.Prelude.{
  ℕ, suc, Bool, true, false, ◌||◌, ◌&&◌, not, Option, none, some, List, ◌∷◌, leb, ◌==◌,
  if◌then◌else◌,
}
use go_minimal_pbft.Prelude.Int.{ℤ, pos, sub_ℕ, ltb_ℤ, eqb_ℤ}
use go_minimal_pbft.RoundStep
use go_minimal_pbft.Messages.{Bytes, Vote, Proposal, TimeoutInfo, ConsensusSyncRequest}
use go_minimal_pbft.ChainState.{ChainState}
use go_minimal_pbft.Interfaces.{Env}
use go_minimal_pbft.Consensus.Monad.{M, ok, modify, ◌>>=◌}

pub data Message (B : Type 0) : Type 0 where
  proposal_message : Proposal B → Message B
  vote_message : Vote → Message B
  sync_request : ConsensusSyncRequest → Message B

pub record MsgInfo (B : Type 0) : Type 0 where
  pub msg : Message B
  pub peer_id : Bytes

pub record RoundState (e : Env) : Type 0 where
  pub height : ℕ
  pub round : ℤ
  pub step : ℕ
  pub start_time : ℕ
  pub commit_time : ℕ
  pub validators : Option e.ValidatorSet
  pub proposal : Option (Proposal e.Block)
  pub proposal_block : Option e.Block
  pub locked_round : ℤ
  pub locked_block : Option e.Block
  pub valid_round : ℤ
  pub valid_block : Option e.Block
  pub votes : Option e.HeightVoteSet
  pub commit_round : ℤ
  pub last_commit : Option e.VoteSet
  pub last_validators : Option e.ValidatorSet
  pub triggered_timeout_precommit : Bool

-- `reads` counts the readings of the clock.
pub record State (e : Env) : Type 0 where
  pub rs : RoundState e
  pub open rs use *
  pub chain_state : ChainState e.lib
  pub priv_validator : Option e.PrivValidator
  pub priv_validator_pub_key : Option e.PubKey
  pub priv_validator_type : ℕ
  pub block_store : e.Store
  pub n_steps : ℕ
  pub reads : ℕ
  pub internal_msg_queue : List (MsgInfo e.Block)
  pub peer_out_msg_queue : List (Message e.Block)
  pub tick_chan : List TimeoutInfo

module _ (e : Env) where
  abbrev pub Action : Type 0 → Type 0
  Action A = M (State e) A

  abbrev pub modify_rs : (RoundState e → RoundState e) → Action (Unit {0})
  modify_rs f = modify (λ s. record s { rs = f s.rs })

  unfoldable pub canonical_now : Action ℕ
  canonical_now s = ok (e.clock s.reads) (record s { reads = suc s.reads })

  unfoldable pub update_height : ℕ → Action (Unit {0})
  update_height height = modify_rs (λ r. record r { height = height })

  unfoldable pub update_round_step : ℤ → ℕ → Action (Unit {0})
  update_round_step round step = modify_rs (λ r. record r { round = round; step = step })

  unfoldable pub new_step : Action (Unit {0})
  new_step = modify (λ s. record s { n_steps = suc s.n_steps })

  unfoldable pub schedule_timeout : ℤ → ℕ → ℤ → ℕ → Action (Unit {0})
  schedule_timeout duration height round step =
      let ti : TimeoutInfo = record {
        duration = duration;
        height = height;
        round = round;
        step = step;
      } in
      modify (λ s. record s { tick_chan = ti ∷ s.tick_chan })

  unfoldable pub schedule_round0 : RoundState e → Action (Unit {0})
  unfolding canonical_now schedule_timeout
  schedule_round0 rs = do
    now ← canonical_now
    schedule_timeout (sub_ℕ rs.start_time now) rs.height (pos 0) RoundStep.new_height

  unfoldable pub send_internal_message : MsgInfo e.Block → Action (Unit {0})
  send_internal_message mi =
      modify (λ s. record s { internal_msg_queue = mi ∷ s.internal_msg_queue })

  unfoldable pub broadcast_message_to_peers : Message e.Block → Action (Unit {0})
  broadcast_message_to_peers msg =
      modify (λ s. record s { peer_out_msg_queue = msg ∷ s.peer_out_msg_queue })

  unfoldable pub is_proposal_complete : State e → Bool
  is_proposal_complete s = elim s.proposal [
    | none ↦ false
    | some p ↦ elim s.proposal_block [
      | none ↦ false
      | some _ ↦
          if ltb_ℤ p.pol_round (pos 0)
          then true
          else e.has_two_thirds_majority (e.prevotes s.votes p.pol_round)
    ]
  ]

  -- The guard of the functions that enter a step: the height is another one, the round is past, or
  -- this round has come to `limit` or further.
  abbrev pub is_stale : ℕ → ℤ → ℕ → State e → Bool
  is_stale height round limit s =
      not (s.height == height) || ltb_ℤ round s.round || (eqb_ℤ s.round round && leb limit s.step)
