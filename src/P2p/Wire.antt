-- ===== src/P2p/Wire.antt =====
-- The messages of p2p/p2p.go, and their RLP, which is outside the repository: parameters, with the
-- laws that decoding undoes encoding and that no bytes at all are no value.
use go_minimal_pbft.Prelude.{ℕ, ◌≡◌, Bool, Option, none, some, List, []}
use go_minimal_pbft.Messages.{Bytes, Vote, Proposal, ConsensusSyncRequest}

-- `HelloRequest`, `HelloResponse` and `GetFullBlockRequest` have a height each.
pub data WireMessage (B : Type 0) : Type 0 where
  proposal_wire : Proposal B → WireMessage B
  vote_wire : Vote → WireMessage B
  block_wire : B → WireMessage B
  hello_request hello_response get_full_block : ℕ → WireMessage B

-- `ConsensusSyncResponse` of consensus/types.go.
pub record ConsensusSyncResponse : Type 0 where
  pub is_commited : ℕ
  pub message_data : List Bytes

-- An encoding is none where it returns an error, and so is a decoding. `encode_block` is
-- `rlp.EncodeToBytes` and `EncodeToRLPBytes`, `decode_block` is `rlp.DecodeBytes` and
-- `DecodeFromRLPBytes`, which are one encoding. `valid_vote` and `valid_proposal` tell whether
-- `ValidateBasic` returns nil.
pub record WireRlp (B : Type 0) : Type 0 where
  pub encode_proposal : Proposal B → Option Bytes
  pub decode_proposal : Bytes → Option (Proposal B)
  pub valid_proposal : Proposal B → Bool
  pub encode_vote : Vote → Option Bytes
  pub decode_vote : Bytes → Option Vote
  pub valid_vote : Vote → Bool
  pub encode_block : B → Option Bytes
  pub decode_block : Bytes → Option B
  pub encode_height : ℕ → Option Bytes
  pub decode_height : Bytes → Option ℕ
  pub encode_request : ConsensusSyncRequest → Option Bytes
  pub decode_request : Bytes → Option ConsensusSyncRequest
  pub encode_response : ConsensusSyncResponse → Option Bytes
  pub decode_response : Bytes → Option ConsensusSyncResponse
  pub decode-encode_proposal :
      (p : Proposal B) (d : Bytes) → encode_proposal p ≡ some d → decode_proposal d ≡ some p
  pub decode-encode_vote : (v : Vote) (d : Bytes) → encode_vote v ≡ some d → decode_vote d ≡ some v
  pub decode-encode_block : (b : B) (d : Bytes) → encode_block b ≡ some d → decode_block d ≡ some b
  pub decode-encode_height :
      (h : ℕ) (d : Bytes) → encode_height h ≡ some d → decode_height d ≡ some h
  pub decode-encode_request :
      (r : ConsensusSyncRequest) (d : Bytes) → encode_request r ≡ some d → decode_request d ≡ some r
  pub decode-encode_response :
      (r : ConsensusSyncResponse) (d : Bytes)
      → encode_response r ≡ some d
      → decode_response d ≡ some r
  pub decode_height-nil : decode_height [] ≡ none
