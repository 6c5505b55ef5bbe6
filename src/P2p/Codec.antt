-- ===== src/P2p/Codec.antt =====
-- p2p/p2p.go: `encode` and `decode`, a type byte in front of the RLP.
use go_minimal_pbft.Prelude.{
  ℕ, ◌≡◌, refl, sym, subst, ap, ◌∙◌, Bool, Option, none, some, [], ◌∷◌, ◌==◌, if◌then◌else◌, arith,
}
use go_minimal_pbft.Messages.{Bytes}
use go_minimal_pbft.P2p.Wire.{
  WireMessage, proposal_wire, vote_wire, block_wire, hello_request, hello_response, get_full_block,
  WireRlp,
}

-- What `decode` returns: a message, or an error.
pub data Decoded (B : Type 0) : Type 0 where
  message : WireMessage B → Decoded B
  incorrect_msg decoder_not_found bad_encoding not_valid : Decoded B

abbrev pub with_type : ℕ → Option Bytes → Option Bytes
with_type t none = none
with_type t (some d) = some (t ∷ d)

module _ {B : Type 0} where
  unfoldable pub type_byte : WireMessage B → ℕ
  type_byte (proposal_wire p) = 1
  type_byte (vote_wire v) = 2
  type_byte (block_wire b) = 3
  type_byte (hello_request h) = 4
  type_byte (hello_response h) = 5
  type_byte (get_full_block h) = 6

  abbrev pub plain : {A : Type 0} → (A → WireMessage B) → Option A → Decoded B
  plain f none = bad_encoding
  plain f (some a) = message (f a)

  -- `DecodeRLP` and then `ValidateBasic`.
  abbrev pub checked : {A : Type 0} → (A → WireMessage B) → (A → Bool) → Option A → Decoded B
  checked f valid none = bad_encoding
  checked f valid (some a) = if valid a then message (f a) else not_valid

with_type-some :
    (t : ℕ) (o : Option Bytes) (d : Bytes)
    → with_type t o ≡ some d
    → (r : Bytes) × (o ≡ some r) × (t ∷ r ≡ d)
with_type-some t none d e = ground (arith, e)
with_type-some t (some r) d e = (r, refl, ap (λ o. elim o [ none ↦ t ∷ r | some b ↦ b ]) e)

module _ {B : Type 0} (rlp : WireRlp B) where
  -- A `GetFullBlockRequest` has no case, so its data stay nil.
  unfoldable pub encode_raw : WireMessage B → Option Bytes
  encode_raw (proposal_wire p) = rlp.encode_proposal p
  encode_raw (vote_wire v) = rlp.encode_vote v
  encode_raw (block_wire b) = rlp.encode_block b
  encode_raw (hello_request h) = rlp.encode_height h
  encode_raw (hello_response h) = rlp.encode_height h
  encode_raw (get_full_block h) = some []

  unfoldable pub encode : WireMessage B → Option Bytes
  unfolding type_byte encode_raw
  encode m = with_type (type_byte m) (encode_raw m)

  -- The decoder for a type byte.
  unfoldable pub decode_as : ℕ → Bytes → Decoded B
  decode_as t d =
      if t == 1
      then checked proposal_wire rlp.valid_proposal (rlp.decode_proposal d)
      else if t == 2
      then checked vote_wire rlp.valid_vote (rlp.decode_vote d)
      else if t == 3
      then plain block_wire (rlp.decode_block d)
      else if t == 4
      then plain hello_request (rlp.decode_height d)
      else if t == 5
      then plain hello_response (rlp.decode_height d)
      else if t == 6
      then plain get_full_block (rlp.decode_height d)
      else decoder_not_found

  unfoldable pub decode : Bytes → Decoded B
  unfolding decode_as
  decode [] = incorrect_msg
  decode (t ∷ d) = decode_as t d

  -- What the other side gets of a message: itself, if it is valid, and an error for a request for a
  -- full block.
  abbrev pub received : WireMessage B → Decoded B
  received (proposal_wire p) = if rlp.valid_proposal p then message (proposal_wire p) else not_valid
  received (vote_wire v) = if rlp.valid_vote v then message (vote_wire v) else not_valid
  received (get_full_block h) = bad_encoding
  received m = message m

  decode-encode_raw :
      (m : WireMessage B) (d : Bytes)
      → encode_raw m ≡ some d
      → decode_as (type_byte m) d ≡ received m
  unfolding decode_as type_byte encode_raw
  decode-encode_raw (proposal_wire p) d e =
      ap (checked proposal_wire rlp.valid_proposal) (rlp.decode-encode_proposal p d e)
  decode-encode_raw (vote_wire v) d e =
      ap (checked vote_wire rlp.valid_vote) (rlp.decode-encode_vote v d e)
  decode-encode_raw (block_wire b) d e = ap (plain block_wire) (rlp.decode-encode_block b d e)
  decode-encode_raw (hello_request h) d e =
      ap (plain hello_request) (rlp.decode-encode_height h d e)
  decode-encode_raw (hello_response h) d e =
      ap (plain hello_response) (rlp.decode-encode_height h d e)
  decode-encode_raw (get_full_block h) d e =
      ap (λ o. plain get_full_block (rlp.decode_height (elim o [ none ↦ d | some b ↦ b ]))) (sym e)
      ∙ ap (plain get_full_block) rlp.decode_height-nil

  -- What one node encodes, another decodes to the message that was sent, except that a vote or a
  -- proposal that is not valid gives an error, and a `GetFullBlockRequest` always does.
  pub decode-encode : (m : WireMessage B) (d : Bytes) → encode m ≡ some d → decode d ≡ received m
  unfolding encode decode
  decode-encode m d e =
      let (r, raw, whole) = with_type-some (type_byte m) (encode_raw m) d e in
      subst (λ d. decode d ≡ received m) whole (decode-encode_raw m r raw)
