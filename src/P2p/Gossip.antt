-- ===== src/P2p/Gossip.antt =====
-- p2p/p2p.go, `Server.Run`: what is published of the consensus messages that a node sends, and what it
-- makes of those that it receives. Publishing and the envelopes are libp2p's.
use go_minimal_pbft.Prelude.{
  ◌≡◌, ap, Bool, true, false, ◌&&◌, Option, none, some, List, [], ◌∷◌, ◌==◌, if◌then◌else◌, arith,
}
use go_minimal_pbft.Messages.{Bytes, ConsensusSyncRequest}
use go_minimal_pbft.Consensus.State.{Message, proposal_message, vote_message, sync_request}
use go_minimal_pbft.Consensus.Routine.{Event, peer_msg}
use go_minimal_pbft.P2p.Wire.{proposal_wire, vote_wire, WireRlp}
use go_minimal_pbft.P2p.Codec.{encode, decode, decode-encode}
use go_minimal_pbft.P2p.SyncServer.{message_event}

-- What the sending goroutine does with a message: publish its encoding, hand a sync request on, or
-- log the error of the encoding.
pub data Sent : Type 0 where
  published : Bytes → Sent
  handed_on : ConsensusSyncRequest → Sent
  failed : Sent

abbrev pub publish : Option Bytes → Sent
publish none = failed
publish (some d) = published d

-- Whether two peer ids are one.
unfoldable pub same_id : Bytes → Bytes → Bool
same_id [] [] = true
same_id [] (b ∷ bs) = false
same_id (a ∷ rest) [] = false
same_id (a ∷ rest) (b ∷ bs) = a == b && same_id rest bs

module _ {B : Type 0} (rlp : WireRlp B) where
  unfoldable pub on_send : Message B → Sent
  unfolding encode
  on_send (proposal_message p) = publish (encode rlp (proposal_wire p))
  on_send (vote_message v) = publish (encode rlp (vote_wire v))
  on_send (sync_request r) = handed_on r

  -- The events for an envelope: none for one of its own, for one that does not decode, and for a
  -- message of another type.
  unfoldable pub on_envelope : Bytes → Bytes → Bytes → List (Event B)
  unfolding decode same_id
  on_envelope own from d = if same_id from own then [] else message_event from (decode rlp d)

  -- A vote or a proposal that `ValidateBasic` accepts.
  abbrev pub accepted : Message B → Bool
  accepted (proposal_message p) = rlp.valid_proposal p
  accepted (vote_message v) = rlp.valid_vote v
  accepted (sync_request r) = false

  publish-published : (o : Option Bytes) (d : Bytes) → publish o ≡ published d → o ≡ some d
  publish-published none d e = ground (arith, e)
  publish-published (some c) d e =
      ap (λ s. elim s [ published b ↦ some b | handed_on r ↦ none | failed ↦ none ]) e

  -- A consensus message that one node publishes reaches another node's state machine as it was sent,
  -- under the sender's id, where `ValidateBasic` accepts it, and not at all where it does not.
  pub on_envelope-on_send :
      (m : Message B) (own from d : Bytes)
      → on_send m ≡ published d
      → same_id from own ≡ false
      → on_envelope own from d
        ≡ (if accepted m then peer_msg (record { msg = m; peer_id = from }) ∷ [] else [])
  unfolding on_send on_envelope
  on_envelope-on_send (proposal_message p) own from d sent other =
      rw (other, decode-encode rlp (proposal_wire p) d (publish-published _ d sent)) (ground arith)
  on_envelope-on_send (vote_message v) own from d sent other =
      rw (other, decode-encode rlp (vote_wire v) d (publish-published _ d sent)) (ground arith)
  on_envelope-on_send (sync_request r) own from d sent other = ground (arith, sent)
