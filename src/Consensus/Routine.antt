-- ===== src/Consensus/Routine.antt =====
-- consensus/consensus_state.go: the `select` of `receiveRoutine`. An event is what one of its
-- channels delivers; a run is any sequence of events, so the order in which the scheduler serves the
-- channels is left open. A panic ends the routine.
use go_minimal_pbft.Prelude.{◌≡◌, Option, none, some}
use go_minimal_pbft.Prelude.Int.{◌≤ℤ◌, max_int32}
use go_minimal_pbft.Messages.{Error, TimeoutInfo, ConsensusSyncRequest}
use go_minimal_pbft.Interfaces.{Env}
use go_minimal_pbft.Consensus.Monad.{ok, pure, ◌>>=◌, ◌>>◌}
use go_minimal_pbft.Consensus.State.{
  Message, vote_message, sync_request, MsgInfo, State, Action, broadcast_message_to_peers,
  schedule_round0,
}
use go_minimal_pbft.Consensus.Signing.{set_priv_validator}
use go_minimal_pbft.Consensus.Commit.{process_committed_block}
use go_minimal_pbft.Consensus.Handle.{handle_msg, handle_timeout}
use go_minimal_pbft.Consensus.Sync.{create_sync_request, check_double_signing_risk}
use mathlib.Core.List.{Memᴰ}

pub data Event (B : Type 0) : Type 0 where
  peer_msg : MsgInfo B → Event B
  internal_msg : MsgInfo B → Event B
  timed_out : TimeoutInfo → Event B
  sync_timer : Event B
  sync_asked : ConsensusSyncRequest → Event B
  committed_block : B → Event B

module _ (e : Env) where
  unfoldable pub ask_peers : Action e (Unit {0})
  unfolding create_sync_request broadcast_message_to_peers
  ask_peers = do
    request ← create_sync_request e
    broadcast_message_to_peers e (sync_request request)

  -- `OnStart`, below the ticker's own start: an error of the look back is returned, else the first
  -- round is scheduled.
  unfoldable pub on_start : Action e (Option Error)
  unfolding check_double_signing_risk schedule_round0
  on_start s = elim (check_double_signing_risk e s.height s) [
    | some err ↦ ok (some err) s
    | none ↦ (do schedule_round0 e s.rs; pure none) s
  ]

  -- The branch of the `select` for an event. `processSyncRequest` only reads the state.
  unfoldable pub dispatch : Event e.Block → Action e (Unit {0})
  unfolding handle_msg handle_timeout ask_peers process_committed_block
  dispatch (peer_msg mi) s = handle_msg e mi s
  dispatch (internal_msg mi) s = handle_msg e mi s
  dispatch (timed_out ti) s = handle_timeout e ti s.rs s
  dispatch sync_timer s = ask_peers s
  dispatch (sync_asked csq) s = ok tt s
  dispatch (committed_block b) s = process_committed_block e b s

  -- The round of a vote is an `int32`.
  abbrev pub Fits : Message e.Block → Type 0
  Fits (vote_message v) = v.round ≤ℤ max_int32
  Fits _ = Unit

  -- What a channel may deliver: any message from a peer, a message that the node sent itself, or a
  -- timeout that it scheduled.
  abbrev pub Arrives : Event e.Block → State e → Type 0
  Arrives (peer_msg mi) s = Fits mi.msg
  Arrives (internal_msg mi) s = Memᴰ mi s.internal_msg_queue × Fits mi.msg
  Arrives (timed_out ti) s = Memᴰ ti s.tick_chan
  Arrives _ s = Unit

  -- One turn of the loop, a call of `SetPrivValidator` between two turns, or the start.
  pub data Step : State e → State e → Type 0 where
    receive :
        {s t : State e} (ev : Event e.Block) → Arrives ev s → dispatch ev s ≡ ok tt t → Step s t
    set_key :
        {s t : State e} (p : Option e.PrivValidator) → set_priv_validator e p s ≡ ok tt t → Step s t
    start : {s t : State e} → on_start s ≡ ok none t → Step s t

  pub data Runs : State e → State e → Type 0 where
    here : {s : State e} → Runs s s
    then : {s t u : State e} → Step s t → Runs t u → Runs s u
