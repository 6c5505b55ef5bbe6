-- ===== src/P2p/Devp2p.antt =====
-- p2p/devp2p.go: `RunDevp2p`, which no code calls: the loops of `Run` over go-ethereum's p2p. What
-- `decode` gives for a hello request is a value, and the `switch` asks for a pointer, so its case is
-- never taken.
use go_minimal_pbft.Prelude.{
  ℕ, ◌≡◌, ◌<◌, refl, ap, ◌∙◌, Bool, true, not, ◌&&◌, Option, none, some, List, [], ◌∷◌, ◌++◌,
  length, ◌==◌, if◌then◌else◌, arith,
}
use go_minimal_pbft.Messages.{Bytes, Vote, Proposal}
use go_minimal_pbft.Consensus.State.{Message, proposal_message, vote_message, sync_request}
use go_minimal_pbft.Consensus.Routine.{Event, peer_msg}
use go_minimal_pbft.P2p.Wire.{proposal_wire, vote_wire, WireRlp}
use go_minimal_pbft.P2p.Codec.{encode, encode_raw, decode, decode_as, decode-encode}
use go_minimal_pbft.P2p.SyncServer.{message_event}

-- What `ReadMsg` and the read of the payload give: an error, or the size that was announced and the
-- bytes that were read.
pub data Packet : Type 0 where
  unread : Packet
  packet : ℕ → Bytes → Packet

pub data Exit : Type 0 where
  read_error incorrect_size : Exit

-- `broadcast`: each peer is written to, and the result tells whether no write fails.
unfoldable pub broadcast : (Bytes → ℕ → Bytes → Bool) → List Bytes → ℕ → Bytes → Bool
broadcast write [] code d = true
broadcast write (p ∷ ps) code d = let rest = broadcast write ps code d in write p code d && rest

abbrev pub with_code : ℕ → Option Bytes → Option (ℕ × Bytes)
with_code code none = none
with_code code (some d) = some (code, d)

module _ {B : Type 0} (rlp : WireRlp B) where
  -- The code and the bytes that go out for a message, or none where an error is logged.
  unfoldable pub packet_for : Message B → Option (ℕ × Bytes)
  unfolding encode encode_raw
  packet_for (proposal_message p) = with_code 1 (encode_raw rlp (proposal_wire p))
  packet_for (vote_message v) = with_code 2 (encode rlp (vote_wire v))
  packet_for (sync_request r) = none

  abbrev pub followed_by :
      List (Event B) → List (Event B) × Option Exit → List (Event B) × Option Exit
  followed_by es (rest, end) = (es ++ rest, end)

  -- The loop over the packets of a peer of this name: the events, and how it ends, if it does.
  unfoldable pub read_loop : Bytes → List Packet → List (Event B) × Option Exit
  unfolding decode
  read_loop name [] = ([], none)
  read_loop name (unread ∷ ps) = ([], some read_error)
  read_loop name (packet size d ∷ ps) =
      let rest = read_loop name ps in
      if not (length d == size)
      then ([], some incorrect_size)
      else followed_by (message_event name (decode rlp d)) rest

  -- A valid vote that a node sends reaches the reader as it is.
  pub read_loop-packet_for_vote :
      (name d : Bytes) (code : ℕ) (v : Vote)
      → rlp.valid_vote v ≡ true
      → packet_for (vote_message v) ≡ some (code, d)
      → read_loop name (packet (length d) d ∷ [])
        ≡ (peer_msg (record { msg = vote_message v; peer_id = name }) ∷ [], none)
  unfolding packet_for read_loop
  read_loop-packet_for_vote name d code v valid e = by_encoding (encode rlp (vote_wire v)) refl e
    where
      by_encoding :
          (o : Option Bytes)
          → encode rlp (vote_wire v) ≡ o
          → with_code 2 o ≡ some (code, d)
          → read_loop name (packet (length d) d ∷ [])
            ≡ (peer_msg (record { msg = vote_message v; peer_id = name }) ∷ [], none)
      by_encoding none enc h = ground (arith, h)
      by_encoding (some b) enc h =
          let same : b ≡ d = ap (λ o. elim o [ none ↦ b | some r ↦ r.1 ]) h in
          let equal : (length d == length d) ≡ true = ground arith in
          rw (equal, decode-encode rlp (vote_wire v) d (enc ∙ ap some same), valid) refl

  -- A proposal goes out without a type byte: where its RLP begins with a byte above 6, as a list
  -- does, the reader drops it.
  pub read_loop-packet_for_proposal :
      (name d : Bytes) (first : ℕ) (p : Proposal B)
      → 6 < first
      → rlp.encode_proposal p ≡ some (first ∷ d)
      → (packet_for (proposal_message p) ≡ some (1, first ∷ d))
        × (read_loop name (packet (length (first ∷ d)) (first ∷ d) ∷ []) ≡ ([], none))
  unfolding packet_for read_loop encode_raw decode decode_as
  read_loop-packet_for_proposal name d first p above enc =
      (ap (with_code 1) enc, ground (arith, above))
