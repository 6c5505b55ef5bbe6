-- ===== src/P2p/SyncServer/Exchange.antt =====
-- p2p/p2p.go and p2p/consensus_sync.go: a sync request, answered by one node and taken in by another.
use go_minimal_pbft.Prelude.{
  ◌<◌, ◌≡◌, refl, sym, ap, subst, ◌∙◌, inl, inr, true, Option, none, some, List, [], ◌∷◌, ◌++◌,
  length, All, if◌then◌else◌, arith,
}
use go_minimal_pbft.Messages.{Bytes, ConsensusSyncRequest}
use go_minimal_pbft.Interfaces.{Env}
use go_minimal_pbft.Consensus.State.{State, proposal_message, vote_message}
use go_minimal_pbft.Consensus.Sync.{
  SyncReply, full_block, proposal_reply, vote_reply, process_sync_request,
}
use go_minimal_pbft.Consensus.Routine.{Event, peer_msg, committed_block}
use go_minimal_pbft.P2p.Wire.{proposal_wire, vote_wire, ConsensusSyncResponse, WireRlp}
use go_minimal_pbft.P2p.Codec.{message, not_valid, decode, decode-encode}
use go_minimal_pbft.P2p.Rpc.{answered, or_broken, stream_to, send_rpc, send_rpc-serve}
use go_minimal_pbft.P2p.SyncServer.Uniform.{IsMessage, IsUniform, process_sync_request-IsUniform}
use go_minimal_pbft.P2p.SyncServer.{
  commited_response, reply_data, cons_data, all_data, message_response, response_of,
  committed_event, message_event, message_events, on_response, encode_answer, on_consensus_sync,
}

cons_data-some :
    (o : Option Bytes) (os : Option (List Bytes)) (ds : List Bytes)
    → cons_data o os ≡ some ds
    → (d : Bytes) × (rest : List Bytes) × (o ≡ some d) × (os ≡ some rest) × (d ∷ rest ≡ ds)
cons_data-some none os ds e = ground (arith, e)
cons_data-some (some d) none ds e = ground (arith, e)
cons_data-some (some d) (some rest) ds e =
    (d, rest, refl, refl, ap (λ o. elim o [ none ↦ d ∷ rest | some l ↦ l ]) e)

some_same : {A : Type 0} {a b : A} → some a ≡ some b → a ≡ b
some_same {a = a} h = ap (λ o. elim o [ none ↦ a | some c ↦ c ]) h

module _ {B : Type 0} where
  -- The event that a reply stands for, from the peer that was asked.
  abbrev pub event_for : Bytes → SyncReply B → List (Event B)
  event_for peer_id (full_block b) = committed_event b
  event_for peer_id (proposal_reply p) =
      peer_msg (record { msg = proposal_message p; peer_id = peer_id }) ∷ []
  event_for peer_id (vote_reply v) =
      peer_msg (record { msg = vote_message v; peer_id = peer_id }) ∷ []

  abbrev pub events_for : Bytes → List (SyncReply B) → List (Event B)
  events_for peer_id [] = []
  events_for peer_id (m ∷ ms) = event_for peer_id m ++ events_for peer_id ms

module _ {B : Type 0} (rlp : WireRlp B) where
  -- `ValidateBasic` accepts the vote or the proposal.
  abbrev pub IsValidReply : SyncReply B → Type 0
  IsValidReply (full_block b) = Unit
  IsValidReply (proposal_reply p) = rlp.valid_proposal p ≡ true
  IsValidReply (vote_reply v) = rlp.valid_vote v ≡ true

  message_event-reply_data :
      (peer_id : Bytes) (m : SyncReply B) (d : Bytes)
      → reply_data rlp m ≡ some d
      → IsValidReply m
      → IsMessage m
      → message_event peer_id (decode rlp d) ≡ event_for peer_id m
  unfolding reply_data
  message_event-reply_data peer_id (full_block b) d enc ok is = elim is [ ]
  message_event-reply_data peer_id (proposal_reply p) d enc ok is =
      ap (message_event peer_id) (decode-encode rlp (proposal_wire p) d enc)
      ∙ ap (λ b. message_event peer_id (if b then message (proposal_wire p) else not_valid)) ok
  message_event-reply_data peer_id (vote_reply v) d enc ok is =
      ap (message_event peer_id) (decode-encode rlp (vote_wire v) d enc)
      ∙ ap (λ b. message_event peer_id (if b then message (vote_wire v) else not_valid)) ok

  message_events-all_data :
      (peer_id : Bytes) (ms : List (SyncReply B)) (ds : List Bytes)
      → all_data rlp ms ≡ some ds
      → All IsValidReply ms
      → All IsMessage ms
      → message_events rlp peer_id ds ≡ events_for peer_id ms
  unfolding all_data message_events
  message_events-all_data peer_id [] ds enc ok is =
      ap (λ o. message_events rlp peer_id (elim o [ none ↦ [] | some l ↦ l ])) (sym enc)
  message_events-all_data peer_id (m ∷ ms) ds enc ok is =
      let (d, rest, here, there, whole) =
        cons_data-some (reply_data rlp m) (all_data rlp ms) ds enc in
      subst (λ l. message_events rlp peer_id l ≡ events_for peer_id (m ∷ ms)) whole
        (ap (λ l. l ++ message_events rlp peer_id rest)
            (message_event-reply_data peer_id m d here ok.0 is.0)
          ∙ ap (λ l. event_for peer_id m ++ l)
              (message_events-all_data peer_id ms rest there ok.1 is.1))

  -- A block is decoded to itself.
  block_response :
      (peer_id : Bytes) (b : B) (o : Option Bytes) (r : ConsensusSyncResponse)
      → rlp.encode_block b ≡ o
      → commited_response o ≡ some r
      → on_response rlp peer_id r ≡ committed_block b ∷ []
  unfolding on_response
  block_response peer_id b none r enc e = ground (arith, e)
  block_response peer_id b (some d) r enc e =
      subst (λ r. on_response rlp peer_id r ≡ committed_block b ∷ []) (some_same e)
        (ap committed_event (rlp.decode-encode_block b d enc))

  message_response-events :
      (peer_id : Bytes) (ms : List (SyncReply B)) (o : Option (List Bytes))
      (r : ConsensusSyncResponse)
      → all_data rlp ms ≡ o
      → message_response o ≡ some r
      → All IsValidReply ms
      → All IsMessage ms
      → on_response rlp peer_id r ≡ events_for peer_id ms
  unfolding on_response
  message_response-events peer_id ms none r enc e ok is = ground (arith, e)
  message_response-events peer_id ms (some ds) r enc e ok is =
      subst (λ r. on_response rlp peer_id r ≡ events_for peer_id ms) (some_same e)
        (message_events-all_data peer_id ms ds enc ok is)

  response_of-messages :
      (ms : List (SyncReply B))
      → All IsMessage ms
      → response_of rlp ms ≡ message_response (all_data rlp ms)
  unfolding response_of
  response_of-messages [] is = refl
  response_of-messages (full_block b ∷ ms) is = elim is.0 [ ]
  response_of-messages (proposal_reply p ∷ ms) is = refl
  response_of-messages (vote_reply v ∷ ms) is = refl

  sole_block :
      (peer_id : Bytes) (b : Option B) (r : ConsensusSyncResponse)
      → response_of rlp (full_block b ∷ []) ≡ some r
      → on_response rlp peer_id r ≡ events_for peer_id (full_block b ∷ [])
  unfolding response_of
  sole_block peer_id none r enc = ground (arith, enc)
  sole_block peer_id (some b) r enc = block_response peer_id b (rlp.encode_block b) r refl enc

  on_response-response_of :
      (peer_id : Bytes) (ms : List (SyncReply B)) (r : ConsensusSyncResponse)
      → response_of rlp ms ≡ some r
      → All IsValidReply ms
      → IsUniform ms
      → on_response rlp peer_id r ≡ events_for peer_id ms
  on_response-response_of peer_id ms r enc ok (inl (b, one)) =
      rw one (sole_block peer_id b r (sym (ap (response_of rlp) one) ∙ enc))
  on_response-response_of peer_id ms r enc ok (inr is) =
      message_response-events peer_id ms (all_data rlp ms) r refl
        (sym (response_of-messages ms is) ∙ enc) ok is

module _ (e : Env) (rlp : WireRlp e.Block) where
  -- A sync request and the answer to it encode to less than 2^32 bytes, and the answer's votes and
  -- proposal pass `ValidateBasic`. Then the node that asked gets, over the stream, a response from which
  -- it makes exactly the events for the messages, or for the block, that `processSyncRequest` chose, in
  -- their order.
  pub sync_exchange :
      (s : State e) (csq : ConsensusSyncRequest) (peer_id d back : Bytes)
      (r : ConsensusSyncResponse)
      → rlp.encode_request csq ≡ some d
      → length d < 4294967296
      → response_of rlp (process_sync_request e csq s) ≡ some r
      → rlp.encode_response r ≡ some back
      → length back < 4294967296
      → All (IsValidReply rlp) (process_sync_request e csq s)
      → (send_rpc (stream_to (on_consensus_sync e rlp s)) (some d) rlp.decode_response ≡ answered r)
        × (on_response rlp peer_id r ≡ events_for peer_id (process_sync_request e csq s))
  unfolding on_consensus_sync
  sync_exchange s csq peer_id d back r enc short res enc' short' ok = (
    send_rpc-serve rlp.decode_request
          (λ q. encode_answer e rlp (response_of rlp (process_sync_request e q s)))
          rlp.decode_response d back csq short short' (rlp.decode-encode_request csq d enc)
          (ap (encode_answer e rlp) res ∙ enc')
        ∙ ap or_broken (rlp.decode-encode_response r back enc'),
    on_response-response_of rlp peer_id (process_sync_request e csq s) r res ok
        (process_sync_request-IsUniform e csq s),
  )
