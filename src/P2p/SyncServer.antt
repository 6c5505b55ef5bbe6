-- ===== src/P2p/SyncServer.antt =====
-- p2p/p2p.go, `SetConsensusState`, and p2p/consensus_sync.go: the answer to a consensus sync request,
-- and what the node that asked makes of it.
pub mod Uniform
pub mod Exchange
use mathlib.Core.List.{map}
use go_minimal_pbft.Prelude.{
  ℕ, zero, suc, ◌<◌, ◌≡◌, refl, sym, ap, subst, ◌∙◌, ◌⊎◌, inl, inr, Bool, true, false, Option, none,
  some, List, [], ◌∷◌, ◌++◌, length, get_elem?, ltb, ◌||◌, ◌==◌, if◌then◌else◌, Bool-cases,
  Option-cases, arith,
}
use go_minimal_pbft.Messages.{Bytes, Vote, Proposal, ConsensusSyncRequest}
use go_minimal_pbft.Interfaces.{Env}
use go_minimal_pbft.Consensus.State.{State, MsgInfo, proposal_message, vote_message}
use go_minimal_pbft.Consensus.Sync.{
  SyncReply, full_block, proposal_reply, vote_reply, process_sync_request,
}
use go_minimal_pbft.Consensus.Routine.{Event, peer_msg, committed_block}
use go_minimal_pbft.P2p.Wire.{WireMessage, proposal_wire, vote_wire, ConsensusSyncResponse, WireRlp}
use go_minimal_pbft.P2p.Codec.{Decoded, message, encode, decode, received, decode-encode}
use go_minimal_pbft.P2p.Framing.{frame}
use go_minimal_pbft.P2p.Rpc.{Answer, answered, broken, silent, serve, send_rpc}

abbrev pub commited_response : Option Bytes → Option ConsensusSyncResponse
commited_response none = none
commited_response (some d) = some (record { is_commited = 1; message_data = d ∷ [] })

abbrev pub cons_data : Option Bytes → Option (List Bytes) → Option (List Bytes)
cons_data none ds = none
cons_data (some d) none = none
cons_data (some d) (some ds) = some (d ∷ ds)

abbrev pub message_response : Option (List Bytes) → Option ConsensusSyncResponse
message_response none = none
message_response (some ds) = some (record { is_commited = 0; message_data = ds })

module _ {B : Type 0} where
  abbrev pub committed_event : Option B → List (Event B)
  committed_event none = []
  committed_event (some b) = committed_block b ∷ []

  -- What is not decoded, and what is no proposal and no vote, is skipped.
  abbrev pub message_event : Bytes → Decoded B → List (Event B)
  message_event peer_id (message (proposal_wire p)) =
      peer_msg (record { msg = proposal_message p; peer_id = peer_id }) ∷ []
  message_event peer_id (message (vote_wire v)) =
      peer_msg (record { msg = vote_message v; peer_id = peer_id }) ∷ []
  message_event peer_id _ = []

module _ {B : Type 0} (rlp : WireRlp B) where
  abbrev pub block_data : Option B → Option Bytes
  block_data none = none
  block_data (some b) = rlp.encode_block b

  -- A message that is no proposal and no vote leaves its data nil.
  unfoldable pub reply_data : SyncReply B → Option Bytes
  unfolding encode
  reply_data (full_block b) = some []
  reply_data (proposal_reply p) = encode rlp (proposal_wire p)
  reply_data (vote_reply v) = encode rlp (vote_wire v)

  unfoldable pub all_data : List (SyncReply B) → Option (List Bytes)
  unfolding reply_data
  all_data [] = some []
  all_data (m ∷ ms) = cons_data (reply_data m) (all_data ms)

  -- `none` where an encoding fails, so that the handler gives no answer.
  unfoldable pub response_of : List (SyncReply B) → Option ConsensusSyncResponse
  unfolding all_data
  response_of [] = message_response (all_data [])
  response_of (full_block b ∷ []) = commited_response (block_data b)
  response_of (full_block b ∷ m ∷ ms) = message_response (all_data (full_block b ∷ m ∷ ms))
  response_of (proposal_reply p ∷ ms) = message_response (all_data (proposal_reply p ∷ ms))
  response_of (vote_reply v ∷ ms) = message_response (all_data (vote_reply v ∷ ms))

  abbrev pub one_block : List Bytes → List (Event B)
  one_block (d ∷ []) = committed_event (rlp.decode_block d)
  one_block _ = []

  unfoldable pub message_events : Bytes → List Bytes → List (Event B)
  unfolding decode
  message_events peer_id [] = []
  message_events peer_id (d ∷ ds) =
      message_event peer_id (decode rlp d) ++ message_events peer_id ds

  -- What the node sends itself for a response.
  unfoldable pub on_response : Bytes → ConsensusSyncResponse → List (Event B)
  unfolding message_events
  on_response peer_id r =
      if r.is_commited == 1 then one_block r.message_data else message_events peer_id r.message_data

  -- A peer that stays silent holds up the routine, which then asks no more.
  abbrev pub response_events : Bytes → Answer ConsensusSyncResponse → List (Event B)
  unfolding on_response
  response_events peer_id broken = []
  response_events peer_id silent = []
  response_events peer_id (answered r) = on_response peer_id r

  -- The peer that is asked, by its place in the list that `rand.Intn` chose.
  unfoldable pub consens_sync :
      List Bytes → ℕ → (Bytes → Bytes → Answer Bytes) → ConsensusSyncRequest → List (Event B)
  unfolding on_response send_rpc
  consens_sync peers pick exchange csq = elim (get_elem? peers pick) [
    | none ↦ []
    | some p ↦
        response_events p (send_rpc (exchange p) (rlp.encode_request csq) rlp.decode_response)
  ]

module _ (e : Env) (rlp : WireRlp e.Block) where
  abbrev pub encode_answer : Option ConsensusSyncResponse → Option Bytes
  encode_answer none = none
  encode_answer (some r) = rlp.encode_response r

  -- The handler of `TopicConsensusSync`.
  unfoldable pub on_consensus_sync : State e → Bytes → Option Bytes
  unfolding serve response_of process_sync_request
  on_consensus_sync s =
      serve rlp.decode_request
        (λ csq. encode_answer (response_of rlp (process_sync_request e csq s)))
