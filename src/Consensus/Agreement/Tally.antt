-- ===== src/Consensus/Agreement/Tally.antt =====
-- What the argument for agreement takes from the vote sets of go-ethereum's core/types, whose counting
-- the repository does not hold: which votes a set has recorded, and that +2/3 are a quorum of them.
use go_minimal_pbft.Prelude.{ℕ, ◌≡◌, ◌⊎◌, Bool, true, Option, some}
use go_minimal_pbft.Prelude.Int.{ℤ}
use go_minimal_pbft.Messages.{
  Hash, Address, ChainId, Bytes, SignedMsgType, prevote_type, precommit_type, Vote, VoteError,
}
use go_minimal_pbft.Library.{Library}

-- The validators of the chain, which no block changes. A quorum holds +2/3 of the power; the
-- validators that are not honest have less than 1/3, so two quorums share an honest one. `Genuine`
-- tells whether a vote's signature is that of its address.
pub record Validators : Type 1 where
  pub Honest : Address → Type 0
  pub Genuine : Vote → Type 0
  pub Quorum : (Address → Type 0) → Type 0
  pub Quorum-mono : (P Q : Address → Type 0) → ((a : Address) → P a → Q a) → Quorum P → Quorum Q
  pub Quorum-meet :
      (P Q : Address → Type 0) → Quorum P → Quorum Q → (a : Address) × Honest a × P a × Q a

-- A vote of this validator and type, in this round and for this hash.
pub record IsFor (a : Address) (ty : SignedMsgType) (r : ℤ) (h : Hash) (v : Vote) : Type 0 where
  pub by_address : v.validator_address ≡ a
  pub of_type : v.msg_type ≡ ty
  pub at_round : v.round ≡ r
  pub for_block : v.block_id ≡ h

-- `HeightVoteSet`: it records the votes that are added to it and whose signatures are right, and
-- nothing else; `TwoThirdsMajority` of a round's votes is for a hash that a quorum voted for, and
-- `VerifyCommit` finds a quorum's precommits for the block in the commit.
pub record Tally (q : Validators) (x : Library) : Type 1 where
  pub Recorded : Option x.HeightVoteSet → Vote → Type 0
  pub Recorded-new :
      (c : ChainId) (n : ℕ) (vals : Option x.ValidatorSet) (v : Vote)
      → Recorded (some (x.new_height_vote_set c n vals)) v
      → ⊥
  pub Recorded-set_round :
      (s t : Option x.HeightVoteSet) (r : ℤ) (v : Vote)
      → x.set_round s r ≡ some t
      → Recorded t v
      → Recorded s v
  pub Recorded-add_vote :
      (s t : Option x.HeightVoteSet) (u v : Vote) (peer_id : Bytes) (added : Bool)
      (err : Option VoteError)
      → x.add_vote s u peer_id ≡ some (added, err, t)
      → Recorded t v
      → ((v ≡ u) × q.Genuine u) ⊎ Recorded s v
  pub prevotes-Quorum :
      (s : Option x.HeightVoteSet) (r : ℤ) (h : Hash)
      → x.two_thirds_majority (x.prevotes s r) ≡ some h
      → q.Quorum (λ a. (v : Vote) × Recorded s v × IsFor a prevote_type r h v)
  pub precommits-Quorum :
      (s : Option x.HeightVoteSet) (r : ℤ) (h : Hash)
      → x.two_thirds_majority (x.precommits s r) ≡ some h
      → q.Quorum (λ a. (v : Vote) × Recorded s v × IsFor a precommit_type r h v)
  -- The votes whose signatures a commit holds.
  pub Carries : x.Commit → Vote → Type 0
  pub verify_commit-Quorum :
      (vals : Option x.ValidatorSet) (c : ChainId) (h : Hash) (n : ℕ) (commit : x.Commit)
      → x.verify_commit vals c h n commit ≡ true
      → (r : ℤ) × q.Quorum (λ a.
          (v : Vote) × Carries commit v
          × q.Genuine v
          × (v.height ≡ n)
          × IsFor a precommit_type r h v)
