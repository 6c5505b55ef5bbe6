-- ===== src/Consensus/Signing.antt =====
-- consensus/consensus_state.go: the time of a vote, `signVote`, `signAddVote` and the memoized
-- public key.
pub mod Frame
use go_minimal_pbft.Prelude.{
  ℕ, ◌+◌, ◌/◌, Bool, true, false, ◌&&◌, Option, none, some, [], ltb, leb, ◌==◌, u64, if◌then◌else◌,
}
use go_minimal_pbft.Prelude.Int.{ℤ, pos, ltb_ℤ}
use go_minimal_pbft.RoundStep
use go_minimal_pbft.Messages.{Hash, SignedMsgType, prevote_type, precommit_type, Vote, nil_pointer}
use go_minimal_pbft.Interfaces.{Env}
use go_minimal_pbft.Consensus.Monad.{ok, get, modify, pure, throw, ◌>>=◌, ◌>>◌}
use go_minimal_pbft.Consensus.State.{
  vote_message, State, Action, canonical_now, send_internal_message,
}

abbrev pub retry_signer_client : ℕ
retry_signer_client = 2

module _ (e : Env) where
  -- `CanonicalNowMs`.
  abbrev canonical_now_ms : Action e ℕ
  canonical_now_ms = do now ← canonical_now e; pure (now / 1000000)

  abbrev max_ms : ℕ → ℕ → ℕ
  max_ms now min_vote_time = if ltb min_vote_time now then now else min_vote_time

  -- The least time that a vote may carry, given the clock's reading.
  abbrev pub min_vote_time : State e → ℕ → ℕ
  min_vote_time s now = elim s.locked_block [
    | some b ↦ u64 (e.time_ms b + 1)
    | none ↦ elim s.proposal_block [ some b ↦ u64 (e.time_ms b + 1) | none ↦ now ]
  ]

  unfoldable pub vote_time : Action e ℕ
  unfolding canonical_now
  vote_time = do now ← canonical_now_ms; s ← get; pure (max_ms now (min_vote_time s now))

  abbrev sign_timeout : SignedMsgType → ℤ
  sign_timeout precommit_type = e.timeout_precommit
  sign_timeout prevote_type = e.timeout_prevote
  sign_timeout _ = pos 1000000000

  abbrev signed : Vote × Bool → Option Vote
  signed (vote, true) = some vote
  signed (vote, false) = none

  -- `none` where `signVote` returns an error.
  unfoldable pub sign_vote : SignedMsgType → Hash → Action e (Option Vote)
  unfolding vote_time canonical_now
  sign_vote msg_type block_id s = elim s.priv_validator_pub_key [
    | none ↦ ok none s
    | some key ↦ elim s.priv_validator [
      | none ↦ throw nil_pointer s
      | some pv ↦
          (do
            now_ms ← vote_time
            now ← canonical_now e
            let addr = e.key_address key
            let vote : Vote = record {
              msg_type = msg_type;
              height = s.height;
              round = s.round;
              timestamp_ms = now_ms;
              block_id = block_id;
              validator_address = addr;
              validator_index = (e.get_by_address s.validators addr).0;
              signature = [];
            }
            pure (signed (e.sign_vote pv s.chain_state.chain_id (sign_timeout msg_type) now vote)))
            s
    ]
  ]

  unfoldable pub push_vote : Option Vote → Action e (Unit {0})
  unfolding send_internal_message
  push_vote none = pure tt
  push_vote (some vote) = send_internal_message e (record { msg = vote_message vote; peer_id = [] })

  unfoldable pub sign_add_vote : SignedMsgType → Hash → Action e (Unit {0})
  unfolding sign_vote push_vote
  sign_add_vote msg_type block_id s = elim s.priv_validator [
    | none ↦ ok tt s
    | some _ ↦ elim s.priv_validator_pub_key [
      | none ↦ ok tt s
      | some key ↦
          if e.has_address s.validators (e.key_address key)
          then (do vote ← sign_vote msg_type block_id; push_vote vote) s
          else ok tt s
    ]
  ]

  abbrev key_timeout : State e → ℤ
  key_timeout s =
      if leb RoundStep.precommit s.step && s.priv_validator_type == retry_signer_client
      then pos 0
      else if ltb_ℤ e.timeout_prevote e.timeout_precommit
      then e.timeout_precommit
      else e.timeout_prevote

  -- An error leaves the old key; its callers only log it.
  unfoldable pub update_priv_validator_pub_key : Action e (Unit {0})
  update_priv_validator_pub_key s = elim s.priv_validator [
    | none ↦ ok tt s
    | some pv ↦ elim (e.get_pub_key pv (key_timeout s)) [
      | none ↦ ok tt s
      | some key ↦ ok tt (record s { priv_validator_pub_key = some key })
    ]
  ]

  unfoldable pub set_priv_validator : Option e.PrivValidator → Action e (Unit {0})
  unfolding update_priv_validator_pub_key
  set_priv_validator priv = do
    modify (λ s. record s { priv_validator = priv })
    update_priv_validator_pub_key
