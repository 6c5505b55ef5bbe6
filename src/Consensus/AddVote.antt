-- ===== src/Consensus/AddVote.antt =====
-- consensus/consensus_state.go: `addVote`, by the type of the vote, and `tryAddVote`.
pub mod Polka
use go_minimal_pbft.Prelude.{
  ℕ, ◌+◌, Bool, true, false, not, ◌||◌, ◌&&◌, Option, none, some, ltb, leb, ◌==◌, u64,
  if◌then◌else◌,
}
use go_minimal_pbft.Prelude.Int.{ℤ, pos, negsuc, ◌+ℤ◌, ltb_ℤ, leb_ℤ, eqb_ℤ, wrap_int32}
use go_minimal_pbft.RoundStep
use go_minimal_pbft.Messages.{
  Proposal, Hash, zero_hash, Bytes, SignedMsgType, prevote_type, precommit_type, is_precommit, Vote,
  VoteError, conflicting_votes, non_deterministic_signature, invalid_vote, Proposal, Error,
  vote_error, invalid_proposal_signature, invalid_proposal_pol_round, adding_vote,
  pub_key_is_not_set, TimeoutInfo, nil_pointer, library_panic, unexpected_vote_type,
  invalid_timeout_step,
}
use go_minimal_pbft.Interfaces.{Env}
use go_minimal_pbft.Consensus.Monad.{ok, get, pure, throw, or_panic, when, ◌>>=◌, ◌>>◌}
use go_minimal_pbft.Consensus.State.{
  Message, proposal_message, vote_message, sync_request, MsgInfo, RoundState, State, Action,
  modify_rs, broadcast_message_to_peers, is_proposal_complete,
}
use go_minimal_pbft.Consensus.Prevote.{enter_prevote, enter_prevote_wait}
use go_minimal_pbft.Consensus.Precommit.{enter_precommit, enter_precommit_wait}
use go_minimal_pbft.Consensus.Propose.{enter_propose, enter_new_round}
use go_minimal_pbft.Consensus.Commit.{try_finalize_commit, enter_commit}
use Polka.{on_polka}

module _ (e : Env) where
  -- +2/3 of the prevotes are for nil, or for a block whose proposal is complete.
  abbrev pub is_decided : Option Hash → State e → Bool
  is_decided none s = false
  is_decided (some block_id) s = is_proposal_complete e s || block_id == zero_hash

  -- A prevote of the current round, once the node has prevoted.
  unfoldable pub after_own_prevote : ℕ → ℤ → Option e.VoteSet → Action e (Unit {0})
  after_own_prevote height vote_round prevotes s =
      if is_decided (e.two_thirds_majority prevotes) s
      then enter_precommit e height vote_round s
      else when (e.has_two_thirds_any prevotes) (enter_prevote_wait e height vote_round) s

  -- The proposal waits for the prevotes of this round, and is complete now.
  abbrev pub completes : ℤ → Option (Proposal e.Block) → State e → Bool
  completes vote_round none s = false
  completes vote_round (some p) s =
      leb_ℤ (pos 0) p.pol_round && eqb_ℤ p.pol_round vote_round && is_proposal_complete e s

  abbrev pub enter_prevote_here : ℕ → Action e (Unit {0})
  enter_prevote_here height s = enter_prevote e height s.round s

  -- The prevote branch below the update for a polka.
  unfoldable pub after_prevote : ℕ → ℤ → Option e.VoteSet → Action e (Unit {0})
  unfolding after_own_prevote
  after_prevote height vote_round prevotes s =
      if ltb_ℤ s.round vote_round && e.has_two_thirds_any prevotes
      then enter_new_round e height vote_round s
      else if eqb_ℤ s.round vote_round && leb RoundStep.prevote s.step
      then after_own_prevote height vote_round prevotes s
      else when (completes vote_round s.proposal s) (enter_prevote_here height) s

  unfoldable pub add_prevote : ℕ → ℤ → Action e (Unit {0})
  unfolding after_prevote
  add_prevote height vote_round s =
      let prevotes = e.prevotes s.votes vote_round in
      (do on_polka e vote_round prevotes; after_prevote height vote_round prevotes) s

  unfoldable pub skip_ahead : Action e (Unit {0})
  skip_ahead s = enter_new_round e s.height (pos 0) s

  unfoldable pub finish_precommit : ℕ → ℤ → Option e.VoteSet → Hash → Action e (Unit {0})
  unfolding skip_ahead
  finish_precommit height vote_round precommits block_id =
      if block_id == zero_hash then enter_precommit_wait e height vote_round else (do
        enter_commit e height vote_round
        when (e.skip_timeout_commit && e.has_all precommits) skip_ahead)

  -- +2/3 precommitted for `block_id`.
  unfoldable pub on_precommit_majority : ℕ → ℤ → Option e.VoteSet → Hash → Action e (Unit {0})
  on_precommit_majority height vote_round precommits block_id = do
    enter_new_round e height vote_round
    enter_precommit e height vote_round
    finish_precommit height vote_round precommits block_id

  -- By the hash that +2/3 precommitted for, if there is one.
  unfoldable pub on_precommits : ℕ → ℤ → Option e.VoteSet → Option Hash → Action e (Unit {0})
  unfolding on_precommit_majority
  on_precommits height vote_round precommits (some block_id) s =
      on_precommit_majority height vote_round precommits block_id s
  on_precommits height vote_round precommits none s =
      when (leb_ℤ s.round vote_round && e.has_two_thirds_any precommits)
        (do enter_new_round e height vote_round; enter_precommit_wait e height vote_round) s

  unfoldable pub add_precommit : ℕ → ℤ → Action e (Unit {0})
  unfolding on_precommits
  add_precommit height vote_round s =
      let precommits = e.precommits s.votes vote_round in
      on_precommits height vote_round precommits (e.two_thirds_majority precommits) s

  -- The `switch` on the type of a vote that was added.
  unfoldable pub on_vote : ℕ → SignedMsgType → ℤ → Action e (Unit {0})
  unfolding add_prevote add_precommit
  on_vote height prevote_type vote_round = add_prevote height vote_round
  on_vote height precommit_type vote_round = add_precommit height vote_round
  on_vote height _ vote_round = throw unexpected_vote_type

  unfoldable pub skip_commit_timeout : Action e (Unit {0})
  skip_commit_timeout s =
      when (e.skip_timeout_commit && e.has_all s.last_commit) (enter_new_round e s.height (pos 0)) s

  -- What `VoteSet.AddVote` returned for a late precommit.
  unfoldable pub late_added :
      Bool × Option VoteError × Option e.VoteSet → Action e (Bool × Option VoteError)
  unfolding skip_commit_timeout
  late_added (added, err, last) = do
    modify_rs e (λ r. record r { last_commit = last })
    when added skip_commit_timeout
    pure (added, err)

  -- A precommit for the height before, which may still come in while the commit timeout runs.
  unfoldable pub add_late_precommit : Vote → Action e (Bool × Option VoteError)
  unfolding late_added
  add_late_precommit vote s =
      if not (s.step == RoundStep.new_height)
      then ok (false, none) s
      else (or_panic library_panic (e.vote_set_add_vote s.last_commit vote) >>= late_added) s

  -- What `HeightVoteSet.AddVote` returned.
  unfoldable pub vote_added :
      ℕ
      → Vote
      → Bool × Option VoteError × Option e.HeightVoteSet
      → Action e (Bool × Option VoteError)
  unfolding on_vote
  vote_added height vote (added, err, votes) = do
    modify_rs e (λ r. record r { votes = votes })
    when added (on_vote height vote.msg_type vote.round)
    pure (added, err)

  unfoldable pub add_vote : Vote → Bytes → Action e (Bool × Option VoteError)
  unfolding add_late_precommit vote_added
  add_vote vote peer_id s =
      if u64 (vote.height + 1) == s.height && is_precommit vote.msg_type
      then add_late_precommit vote s
      else if not (vote.height == s.height)
      then ok (false, none) s
      else (or_panic library_panic (e.add_vote s.votes vote peer_id) >>= vote_added s.height vote) s

  -- The errors that `tryAddVote` passes on.
  unfoldable pub vote_result : Option e.PubKey → Bool × Option VoteError → Bool × Option Error
  vote_result key (added, none) = (added, none)
  vote_result none (added, some conflicting_votes) = (false, some pub_key_is_not_set)
  vote_result (some key) (added, some conflicting_votes) =
      (added, some (vote_error conflicting_votes))
  vote_result key (added, some non_deterministic_signature) = (added, none)
  vote_result key (added, some invalid_vote) = (added, some adding_vote)

  abbrev pub pass_on : Bool × Option VoteError → Action e (Bool × Option Error)
  unfolding vote_result
  pass_on result s = ok (vote_result s.priv_validator_pub_key result) s

  unfoldable pub try_add_vote : Vote → Bytes → Action e (Bool × Option Error)
  unfolding add_vote vote_result
  try_add_vote vote peer_id = do result ← add_vote vote peer_id; pass_on result
