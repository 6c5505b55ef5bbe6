-- ===== src/Messages.antt =====
-- The values that the nodes exchange (consensus/types.go, consensus/round_state.go), and the
-- errors and panics of package consensus. The fields of `Vote`, `Proposal` and `CommitSig`, which
-- go-ethereum's core/types declares, are those that the code reads or sets. A hash or an address
-- is the number that its bytes spell, so 0 is `common.Hash{}`; a byte string is the list of them.
use Prim.Native.String.{String}
use go_minimal_pbft.Prelude.{ℕ, Bool, true, false, Option, List}
use go_minimal_pbft.Prelude.Int.{ℤ}

abbrev pub Hash : Type 0
Hash = ℕ

abbrev pub zero_hash : Hash
zero_hash = 0

abbrev pub Address : Type 0
Address = ℕ

abbrev pub Bytes : Type 0
Bytes = List ℕ

abbrev pub ChainId : Type 0
ChainId = String

-- `other_type` is any other value of the byte.
pub data SignedMsgType : Type 0 where
  prevote_type precommit_type proposal_type other_type : SignedMsgType

unfoldable pub is_vote_type_valid : SignedMsgType → Bool
is_vote_type_valid prevote_type = true
is_vote_type_valid precommit_type = true
is_vote_type_valid _ = false

abbrev pub is_prevote : SignedMsgType → Bool
is_prevote prevote_type = true
is_prevote _ = false

abbrev pub is_precommit : SignedMsgType → Bool
is_precommit precommit_type = true
is_precommit _ = false

pub record Vote : Type 0 where
  pub msg_type : SignedMsgType
  pub height : ℕ  -- uint64
  pub round : ℤ  -- int32
  pub timestamp_ms : ℕ
  pub block_id : Hash
  pub validator_address : Address
  pub validator_index : ℤ  -- int32
  pub signature : Bytes

-- A proposal for a block of type `B`; its block may be nil.
pub record Proposal (B : Type 0) : Type 0 where
  pub height : ℕ
  pub round : ℤ
  pub pol_round : ℤ  -- int32, -1 where there is no proof of lock
  pub block : Option B
  pub signature : Bytes

pub data BlockIdFlag : Type 0 where
  flag_absent flag_commit other_flag : BlockIdFlag

pub record CommitSig : Type 0 where
  pub block_id_flag : BlockIdFlag
  pub validator_address : Address
  pub timestamp_ms : ℕ
  pub signature : Bytes

-- `has_proposal` and the rounds are the wire's `uint8` and `uint32`.
pub record ConsensusSyncRequest : Type 0 where
  pub height : ℕ
  pub round : ℕ
  pub has_proposal : ℕ
  pub prevotes_bitmap : List ℕ
  pub precommits_bitmap : List ℕ

-- `timeoutInfo` of consensus/timeout_ticker.go.
pub record TimeoutInfo : Type 0 where
  pub duration : ℤ
  pub height : ℕ
  pub round : ℤ
  pub step : ℕ

-- What `HeightVoteSet.AddVote` and `VoteSet.AddVote` may report.
pub data VoteError : Type 0 where
  conflicting_votes non_deterministic_signature invalid_vote : VoteError

pub data Error : Type 0 where
  invalid_proposal_signature invalid_proposal_pol_round adding_vote : Error
  signature_found_in_past_blocks pub_key_is_not_set : Error
  vote_error : VoteError → Error

-- The code's calls of `panic`, and the faults of the run time, one for each cause.
pub data Panic : Type 0 where
  height_mismatch inconsistent_height initial_height no_majority_for_commit : Panic
  last_commit_empty invalid_timeout_step no_private_validator : Panic
  no_two_thirds_prevotes no_two_thirds_precommits pol_round_behind : Panic
  invalid_polka_block commit_without_majority wrong_final_height : Panic
  wrong_final_block invalid_final_block unexpected_vote_type : Panic
  int32_overflow store_gap nil_pointer library_panic : Panic
