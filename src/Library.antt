-- ===== src/Library.antt =====
-- What package consensus takes from go-ethereum's core/types (consensus/types.go names it): vote
-- sets, validator sets, commits and blocks, by the calls that the code makes. A pointer is an
-- `Option`, and `none` is nil; a call that can panic gives an `Option` too. The laws are those that
-- the callers rely on.
use go_minimal_pbft.Prelude.{ℕ, ◌≡◌, Bool, true, false, Option, none, some, List}
use go_minimal_pbft.Prelude.Int.{ℤ}
use go_minimal_pbft.Messages.{Hash, Address, Bytes, ChainId, Vote, VoteError, Proposal, CommitSig}

-- `types.Validator`, whose `PubKey` has type `K`.
pub record Validator (K : Type 0) : Type 0 where
  pub address : Address
  pub pub_key : K
  pub voting_power : ℤ

pub record Library : Type 1 where
  pub Block : Type 0
  pub Commit : Type 0
  pub VoteSet : Type 0
  pub HeightVoteSet : Type 0
  pub ValidatorSet : Type 0
  pub PubKey : Type 0
  -- FullBlock
  pub hash : Block → Hash
  pub hash_to : Option Block → Hash → Bool
  pub number : Block → ℕ
  pub time : Block → ℕ
  pub time_ms : Block → ℕ
  pub parent_hash : Block → Hash
  pub coinbase : Block → Address
  pub next_validators : Block → List Address
  pub last_commit : Block → Commit
  pub header_commit : Block → Commit
  pub block_commit : Block → Commit
  pub with_commit : Option Block → Option Commit → Option Block
  pub new_block : ChainId → Hash → ℕ → ℕ → Address → Commit → Block
  -- Commit
  pub commit_height : Commit → ℕ
  pub signatures : Commit → List CommitSig
  pub absent : CommitSig → Bool
  pub new_commit : ℕ → ℤ → Hash → List CommitSig → Commit
  pub get_vote : Option Commit → ℕ → Vote
  pub commit_bit : Option Commit → ℕ → Bool
  pub commit_size : Option Commit → ℕ
  -- VoteSet
  pub two_thirds_majority : Option VoteSet → Option Hash
  pub has_two_thirds_majority : Option VoteSet → Bool
  pub has_two_thirds_any : Option VoteSet → Bool
  pub has_all : Option VoteSet → Bool
  pub make_commit : Option VoteSet → Commit
  pub vote_set_add_vote : Option VoteSet → Vote → Option (Bool × Option VoteError × Option VoteSet)
  pub vote_set_size : Option VoteSet → ℕ
  pub vote_set_bit : Option VoteSet → ℕ → Bool
  pub vote_set_bits : Option VoteSet → Option (List ℕ)
  pub get_by_index : Option VoteSet → ℕ → Vote
  pub commit_to_vote_set : ChainId → Commit → Option ValidatorSet → Option VoteSet
  -- HeightVoteSet
  pub new_height_vote_set : ChainId → ℕ → Option ValidatorSet → HeightVoteSet
  pub prevotes : Option HeightVoteSet → ℤ → Option VoteSet
  pub precommits : Option HeightVoteSet → ℤ → Option VoteSet
  pub pol_round : Option HeightVoteSet → ℤ
  pub set_round : Option HeightVoteSet → ℤ → Option (Option HeightVoteSet)
  pub add_vote :
      Option HeightVoteSet → Vote → List ℕ → Option (Bool × Option VoteError × Option HeightVoteSet)
  -- ValidatorSet
  pub new_validator_set : List Address → List ℤ → ℤ → ValidatorSet
  pub empty_validator_set : ValidatorSet
  pub proposer_repetition : Option ValidatorSet → ℕ
  pub increment_proposer_priority : ℤ → Option ValidatorSet → Option ValidatorSet
  pub get_proposer : Option ValidatorSet → Option (Validator PubKey)
  pub has_address : Option ValidatorSet → Address → Bool
  pub get_by_address : Option ValidatorSet → Address → ℤ × Option (Validator PubKey)
  pub verify_commit : Option ValidatorSet → ChainId → Hash → ℕ → Commit → Bool
  -- keys and proposals
  pub key_address : PubKey → Address
  pub verify_signature : PubKey → Bytes → Bytes → Bool
  pub proposal_sign_bytes : ChainId → Proposal Block → Bytes
  pub new_proposal : ℕ → ℤ → ℤ → Block → Proposal Block
  -- `NewBitArrayFromUint64(size, words)`, by its size and bits: none where it returns an error.
  pub new_bit_array : ℕ → List ℕ → Option (ℕ × (ℕ → Bool))
  -- No block hides behind a nil pointer, and a block matches its own hash only.
  pub hash_to-nil : (h : Hash) → hash_to none h ≡ false
  pub hash_to-hash : (b : Block) (h : Hash) → hash_to (some b) h ≡ true → hash b ≡ h
  -- A proposal is for the height, round and block that it was made for.
  pub new_proposal-height :
      (h : ℕ) (r p : ℤ) (b : Block) → Proposal.height (new_proposal h r p b) ≡ h
