-- ===== src/Consensus/Progress/Kept.antt =====
-- consensus/consensus_state.go: what a predicate must respect for every handler to keep it along with
-- the invariant. A handler changes the votes, the lock and the queue in these ways only.
use go_minimal_pbft.Prelude.{
  suc, ◌<◌, ◌≡◌, Bool, true, false, ◌⊎◌, Option, none, some, List, [], ◌∷◌,
}
use go_minimal_pbft.Prelude.Int.{ℤ, negsuc, ◌≤ℤ◌, ◌<ℤ◌}
use go_minimal_pbft.Messages.{Hash, Bytes, Vote, VoteError, prevote_type}
use go_minimal_pbft.ChainState.{ChainState}
use go_minimal_pbft.Interfaces.{Env}
use go_minimal_pbft.Consensus.State.{
  Message, MsgInfo, proposal_message, vote_message, sync_request, RoundState, State,
}
use go_minimal_pbft.Consensus.Signing.Frame.{Signs}
use go_minimal_pbft.Consensus.Monad.{Outcome, ok, panic}
use go_minimal_pbft.Consensus.Hoare.{Ends}
use go_minimal_pbft.Consensus.Invariant.{Inv}
use go_minimal_pbft.Consensus.Progress.Prevote.{prevote_choice}
use go_minimal_pbft.Consensus.Progress.Precommit.{Precommits}

-- The vote that a message holds.
abbrev pub vote_of : {B : Type 0} → Message B → Option Vote
vote_of (vote_message v) = some v
vote_of (proposal_message p) = none
vote_of (sync_request r) = none

-- The votes among the messages.
abbrev pub votes_in : {B : Type 0} → List (MsgInfo B) → List Vote
votes_in [] = []
votes_in (mi ∷ log) = elim mi.msg [
  | proposal_message p ↦ votes_in log
  | vote_message v ↦ v ∷ votes_in log
  | sync_request r ↦ votes_in log
]

module _ (e : Env) where
  -- A step that records no vote, signs none and keeps the lock.
  pub record Quiet (s t : State e) : Type 0 where
    pub same_height : t.height ≡ s.height
    pub same_chain : t.chain_state ≡ s.chain_state
    pub round_le : s.round ≤ℤ t.round
    pub same_votes : t.votes ≡ s.votes
    pub same_cast : votes_in t.internal_msg_queue ≡ votes_in s.internal_msg_queue
    pub same_block : t.locked_block ≡ s.locked_block
    pub same_round : t.locked_round ≡ s.locked_round

  -- The next height, with this chain state and an empty vote set.
  pub record Resets (state : ChainState e.lib) (s t : State e) : Type 0 where
    pub one_higher : t.height ≡ suc s.height
    pub same_state : t.chain_state ≡ state
    pub no_votes : t.votes ≡ some (e.new_height_vote_set state.chain_id t.height state.validators)
    pub same_queue : t.internal_msg_queue ≡ s.internal_msg_queue

  -- +2/3 of the precommits of the commit round are for the block, or its commit verifies.
  abbrev pub HasCommits : (e.Commit → Type 0) → e.Block → RoundState e → ChainState e.lib → Type 0
  HasCommits IsCommitIn b rs state =
      ((h : Hash) × (e.two_thirds_majority (e.precommits rs.votes rs.commit_round) ≡ some h)
        × (e.hash_to (some b) h ≡ true))
      ⊎ ((e.verify_commit state.validators state.chain_id (e.hash b) (e.number b)
              (e.header_commit b)
            ≡ true)
          × IsCommitIn (e.header_commit b))

  -- The block is for this height, and it is decided.
  pub record Decides (IsCommitIn : e.Commit → Type 0) (b : e.Block) (rs : RoundState e)
      (state : ChainState e.lib) : Type 0 where
    pub for_height : e.number b ≡ rs.height
    pub has_commits : HasCommits IsCommitIn b rs state

  abbrev pub released : State e → State e
  released s = record s { rs = record s.rs { locked_round = negsuc 0; locked_block = none } }

  abbrev pub with_votes : Option e.HeightVoteSet → State e → State e
  with_votes votes s = record s { rs = record s.rs { votes = votes } }

  pub record Kept : Type 1 where
    pub Holds : State e → Type 0
    -- Which votes the handler may be given.
    pub IsIn : Vote → Type 0
    -- Which commits the blocks that the handler may be given have.
    pub IsCommitIn : e.Commit → Type 0
    pub quiet : (s t : State e) → Quiet s t → Holds s → Holds t
    pub prevoted :
        (s t : State e)
        → Inv e s
        → s.step < 4
        → Signs e prevote_type (prevote_choice e s) s t
        → Holds s
        → Holds t
    pub precommitted :
        (s t : State e) → Inv e s → s.step < 6 → Precommits e s.round s t → Holds s → Holds t
    pub unlocked :
        (r : ℤ) (h : Hash) (s : State e)
        → e.two_thirds_majority (e.prevotes s.votes r) ≡ some h
        → s.locked_round <ℤ r
        → r ≤ℤ s.round
        → e.hash_to s.locked_block h ≡ false
        → Holds s
        → Holds (released s)
    pub added :
        (v : Vote) (peer_id : Bytes) (is_added : Bool) (err : Option VoteError)
        (votes : Option e.HeightVoteSet) (s : State e)
        → e.add_vote s.votes v peer_id ≡ some (is_added, err, votes)
        → v.height ≡ s.height
        → IsIn v
        → Holds s
        → Holds (with_votes votes s)
    pub tracked :
        (r : ℤ) (votes : Option e.HeightVoteSet) (s : State e)
        → e.set_round s.votes r ≡ some votes
        → Holds s
        → Holds (with_votes votes s)
    pub reset :
        (b : e.Block) (state : ChainState e.lib) (s t : State e)
        → Inv e s
        → Decides IsCommitIn b s.rs s.chain_state
        → e.apply s.chain_state b ≡ some state
        → Resets state s t
        → Holds s
        → Holds t

  pub record Good (kept : Kept) (s : State e) : Type 0 where
    pub inv : Inv e s
    pub keeps : kept.Holds s

  -- The predicate may be asked about the vote that the message holds.
  abbrev pub Admits : Kept → Message e.Block → Type 0
  Admits kept (vote_message v) = kept.IsIn v
  Admits kept _ = Unit

  module _ (kept : Kept) where
    pub Good-Quiet : {s t : State e} → Good kept s → Inv e t → Quiet s t → Good kept t
    Good-Quiet {s} {t} good inv q = record { inv = inv; keeps = kept.quiet s t q good.keeps }

    -- A call that ends quietly and keeps the invariant keeps the rest.
    pub Quiet-Ends :
        {A : Type 0} {s : State e} (R : State e → Type 0) (o : Outcome (State e) A)
        → Good kept s
        → Ends (λ t. Inv e t × Quiet s t) R o
        → Ends (Good kept) R o
    Quiet-Ends R (ok a t) good ((inv, q), r) = (Good-Quiet good inv q, r)
    Quiet-Ends R (panic p t) good (inv, q) = Good-Quiet good inv q

    -- So does one that ends at the next height, after a block that is decided.
    pub Resets-Ends :
        {A : Type 0} (b : e.Block) (state : ChainState e.lib) {s : State e} (R : State e → Type 0)
        (o : Outcome (State e) A)
        → Good kept s
        → Decides kept.IsCommitIn b s.rs s.chain_state
        → e.apply s.chain_state b ≡ some state
        → Ends (λ t. Inv e t × Resets state s t) R o
        → Ends (Good kept) R o
    Resets-Ends b state R (ok a t) good why applied ((inv, q), r) =
        (record { inv = inv; keeps = kept.reset b state _ t good.inv why applied q good.keeps }, r)
    Resets-Ends b state R (panic p t) good why applied (inv, q) = record {
      inv = inv;
      keeps = kept.reset b state _ t good.inv why applied q good.keeps;
    }
