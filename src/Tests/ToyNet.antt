-- ===== src/Tests/ToyNet.antt =====
-- A small instance of the RLP of the messages: the list of a value's parts; and a network.
use go_minimal_pbft.Prelude.{
  ℕ, ◌≡◌, refl, ◌∙◌, true, Option, none, some, List, [], ◌∷◌, ◌==◌, if◌then◌else◌, arith,
}
use go_minimal_pbft.Prelude.Int.{ℤ, pos, negsuc}
use go_minimal_pbft.Messages.{
  Bytes, SignedMsgType, prevote_type, precommit_type, proposal_type, other_type, Vote, Proposal,
  ConsensusSyncRequest,
}
use go_minimal_pbft.P2p.Wire.{ConsensusSyncResponse, WireRlp}
use go_minimal_pbft.P2p.Rpc.{stream_to, on_hello, on_full_block}
use go_minimal_pbft.BlockSync.{Network}
use go_minimal_pbft.Tests.ToyData.{given, encode_number, decode_number, decode_number-encode_number}

-- A type and an integer as numbers.
abbrev pub type_code : SignedMsgType → ℕ
type_code prevote_type = 1
type_code precommit_type = 2
type_code proposal_type = 3
type_code other_type = 4

abbrev pub type_of_code : ℕ → SignedMsgType
type_of_code n =
    if n == 1
    then prevote_type
    else if n == 2
    then precommit_type
    else if n == 3
    then proposal_type
    else other_type

pub type_of_code-type_code : (t : SignedMsgType) → type_of_code (type_code t) ≡ t
type_of_code-type_code prevote_type = refl
type_of_code-type_code precommit_type = refl
type_of_code-type_code proposal_type = refl
type_of_code-type_code other_type = refl

abbrev pub sign_code : ℤ → ℕ
sign_code (pos n) = 0
sign_code (negsuc n) = 1

abbrev pub size_code : ℤ → ℕ
size_code (pos n) = n
size_code (negsuc n) = n

abbrev pub int_of_code : ℕ → ℕ → ℤ
int_of_code s n = if s == 0 then pos n else negsuc n

pub int_of_code-codes : (z : ℤ) → int_of_code (sign_code z) (size_code z) ≡ z
int_of_code-codes (pos n) = refl
int_of_code-codes (negsuc n) = refl

abbrev pub vote_bytes : Vote → Bytes
vote_bytes v =
    type_code v.msg_type
    ∷ v.height
    ∷ sign_code v.round
    ∷ size_code v.round
    ∷ v.timestamp_ms
    ∷ v.block_id
    ∷ v.validator_address
    ∷ sign_code v.validator_index
    ∷ size_code v.validator_index
    ∷ v.signature

abbrev pub decode_vote : Bytes → Option Vote
decode_vote (t ∷ h ∷ rs ∷ r ∷ ms ∷ b ∷ a ∷ is ∷ i ∷ signature) = some (record {
  msg_type = type_of_code t;
  height = h;
  round = int_of_code rs r;
  timestamp_ms = ms;
  block_id = b;
  validator_address = a;
  validator_index = int_of_code is i;
  signature = signature;
})
decode_vote _ = none

pub decode_vote-vote_bytes : (v : Vote) → decode_vote (vote_bytes v) ≡ some v
decode_vote-vote_bytes v =
    rw
      (
        type_of_code-type_code v.msg_type,
        int_of_code-codes v.round,
        int_of_code-codes v.validator_index,
      )
      refl

-- A proposal without a block is 0 where one with a block is 1 and the block.
abbrev pub block_code : Option ℕ → ℕ
block_code none = 0
block_code (some b) = 1

abbrev pub block_value : Option ℕ → ℕ
block_value none = 0
block_value (some b) = b

abbrev pub block_of_code : ℕ → ℕ → Option ℕ
block_of_code t b = if t == 0 then none else some b

pub block_of_code-codes : (o : Option ℕ) → block_of_code (block_code o) (block_value o) ≡ o
block_of_code-codes none = refl
block_of_code-codes (some b) = refl

abbrev pub proposal_bytes : Proposal ℕ → Bytes
proposal_bytes p =
    p.height
    ∷ sign_code p.round
    ∷ size_code p.round
    ∷ sign_code p.pol_round
    ∷ size_code p.pol_round
    ∷ block_code p.block
    ∷ block_value p.block
    ∷ p.signature

abbrev pub decode_proposal : Bytes → Option (Proposal ℕ)
decode_proposal (h ∷ rs ∷ r ∷ ps ∷ p ∷ t ∷ b ∷ signature) = some (record {
  height = h;
  round = int_of_code rs r;
  pol_round = int_of_code ps p;
  block = block_of_code t b;
  signature = signature;
})
decode_proposal _ = none

pub decode_proposal-proposal_bytes : (p : Proposal ℕ) → decode_proposal (proposal_bytes p) ≡ some p
decode_proposal-proposal_bytes p =
    rw (int_of_code-codes p.round, int_of_code-codes p.pol_round, block_of_code-codes p.block) refl

-- Requests with one word of prevotes and none of precommits, and responses of one message; the others
-- do not encode.
abbrev pub request_bytes : ℕ → ℕ → ℕ → List ℕ → List ℕ → Option Bytes
request_bytes h r p (w ∷ []) [] = some (h ∷ r ∷ p ∷ w ∷ [])
request_bytes h r p ws vs = none

abbrev pub encode_request : ConsensusSyncRequest → Option Bytes
encode_request q =
    request_bytes q.height q.round q.has_proposal q.prevotes_bitmap q.precommits_bitmap

abbrev pub decode_request : Bytes → Option ConsensusSyncRequest
decode_request (h ∷ r ∷ p ∷ w ∷ []) = some (record {
  height = h;
  round = r;
  has_proposal = p;
  prevotes_bitmap = w ∷ [];
  precommits_bitmap = [];
})
decode_request _ = none

pub request_bytes_lem :
    (h r p : ℕ) (ws vs : List ℕ) (d : Bytes)
    → request_bytes h r p ws vs ≡ some d
    → decode_request d
      ≡ some (record {
        height = h;
        round = r;
        has_proposal = p;
        prevotes_bitmap = ws;
        precommits_bitmap = vs;
      })
request_bytes_lem h r p (w ∷ []) [] d e = given decode_request (h ∷ r ∷ p ∷ w ∷ []) d e
request_bytes_lem h r p [] vs d e = ground (arith, e)
request_bytes_lem h r p (w ∷ []) (v ∷ vs) d e = ground (arith, e)
request_bytes_lem h r p (w ∷ x ∷ ws) vs d e = ground (arith, e)

abbrev pub response_bytes : ℕ → List Bytes → Option Bytes
response_bytes c (d ∷ []) = some (c ∷ d)
response_bytes c ds = none

abbrev pub decode_response : Bytes → Option ConsensusSyncResponse
decode_response [] = none
decode_response (c ∷ d) = some (record { is_commited = c; message_data = d ∷ [] })

pub response_bytes_lem :
    (c : ℕ) (ds : List Bytes) (d : Bytes)
    → response_bytes c ds ≡ some d
    → decode_response d ≡ some (record { is_commited = c; message_data = ds })
response_bytes_lem c (b ∷ []) d e = given decode_response (c ∷ b) d e
response_bytes_lem c [] d e = ground (arith, e)
response_bytes_lem c (a ∷ b ∷ ds) d e = ground (arith, e)

abbrev pub toy_wire : WireRlp ℕ
toy_wire = record {
  encode_proposal = λ p. some (proposal_bytes p);
  decode_proposal = decode_proposal;
  valid_proposal = λ p. true;
  encode_vote = λ v. some (vote_bytes v);
  decode_vote = decode_vote;
  valid_vote = λ v. true;
  encode_block = encode_number;
  decode_block = decode_number;
  encode_height = encode_number;
  decode_height = decode_number;
  encode_request = encode_request;
  decode_request = decode_request;
  encode_response = λ r. response_bytes r.is_commited r.message_data;
  decode_response = decode_response;
  decode-encode_proposal =
      λ p d e. given decode_proposal (proposal_bytes p) d e ∙ decode_proposal-proposal_bytes p;
  decode-encode_vote = λ v d e. given decode_vote (vote_bytes v) d e ∙ decode_vote-vote_bytes v;
  decode-encode_block = decode_number-encode_number;
  decode-encode_height = decode_number-encode_number;
  decode-encode_request = λ r d e.
      request_bytes_lem r.height r.round r.has_proposal r.prevotes_bitmap r.precommits_bitmap d e;
  decode-encode_response = λ r d e. response_bytes_lem r.is_commited r.message_data d e;
  decode_height-nil = refl;
}

-- One peer, which has the blocks up to height 2.
abbrev pub toy_net : Network
toy_net = record {
  peers = (1 ∷ []) ∷ [];
  hello_stream = λ n p d. stream_to (on_hello toy_wire 2) d;
  full_block_stream =
      λ n p d. stream_to (on_full_block toy_wire (λ h. some h) (λ h. some h) (λ b c. b)) d;
}
