-- ===== src/Consensus/Progress/Turn.antt =====
-- consensus/consensus_state.go: the turns of `receiveRoutine`, with what they keep.
use go_minimal_pbft.Prelude.{◌≡◌, refl, subst, Option, none, some, All-mem, arith}
use go_minimal_pbft.Messages.{Vote}
use go_minimal_pbft.Interfaces.{Env}
use go_minimal_pbft.Consensus.Monad.{Outcome, ok}
use go_minimal_pbft.Consensus.Hoare.{Ends}
use go_minimal_pbft.Consensus.State.{
  Message, vote_message, proposal_message, sync_request, State, broadcast_message_to_peers,
}
use go_minimal_pbft.Consensus.Signing.{set_priv_validator, update_priv_validator_pub_key}
use go_minimal_pbft.Consensus.Sync.{create_sync_request}
use go_minimal_pbft.Consensus.Routine.{
  Event, peer_msg, internal_msg, timed_out, sync_timer, sync_asked, committed_block, ask_peers,
  dispatch, Arrives, Step, receive, set_key, start, on_start,
}
use go_minimal_pbft.Consensus.Invariant.{IsPast}
use go_minimal_pbft.Consensus.Progress.Kept.{vote_of, Kept, Good, Quiet-Ends, Admits}
use go_minimal_pbft.Consensus.Progress.Update.{HasNext}
use go_minimal_pbft.Consensus.Progress.Commit.{Any, start_round0-Ends}
use go_minimal_pbft.Consensus.Progress.Committed.{process_committed_block-Ends}
use go_minimal_pbft.Consensus.Progress.Messages.{handle_msg-Ends, handle_timeout-Ends}

module _ (e : Env) where
  -- The predicate may be asked about the vote that the event brings.
  abbrev pub Brings : Kept e → Event e.Block → Type 0
  Brings kept (peer_msg mi) = Admits e kept mi.msg
  Brings kept (internal_msg mi) = Admits e kept mi.msg
  Brings kept (committed_block b) = kept.IsCommitIn (e.header_commit b)
  Brings kept _ = Unit

  abbrev pub StepBrings : Kept e → {s t : State e} → Step e s t → Type 0
  StepBrings kept (receive ev got h) = Brings kept ev
  StepBrings kept (set_key p h) = Unit
  StepBrings kept (start h) = Unit

  -- The vote that an event brings.
  abbrev pub brought : Event e.Block → Option Vote
  brought (peer_msg mi) = vote_of mi.msg
  brought (internal_msg mi) = vote_of mi.msg
  brought _ = none

  abbrev pub step_vote : {s t : State e} → Step e s t → Option Vote
  step_vote (receive ev got h) = brought ev
  step_vote (set_key p h) = none
  step_vote (start h) = none

  -- The commit of a block that is sent with it.
  abbrev pub brought_commit : Event e.Block → Option e.Commit
  brought_commit (committed_block b) = some (e.header_commit b)
  brought_commit _ = none

  abbrev pub step_commit : {s t : State e} → Step e s t → Option e.Commit
  step_commit (receive ev got h) = brought_commit ev
  step_commit (set_key p h) = none
  step_commit (start h) = none

  module _ (kept : Kept e) where
    brought_in :
        (m : Message e.Block) → ((v : Vote) → vote_of m ≡ some v → kept.IsIn v) → Admits e kept m
    brought_in (vote_message v) h = h v refl
    brought_in (proposal_message p) h = tt
    brought_in (sync_request r) h = tt

    pub Brings-of :
        (ev : Event e.Block)
        → ((v : Vote) → brought ev ≡ some v → kept.IsIn v)
        → ((c : e.Commit) → brought_commit ev ≡ some c → kept.IsCommitIn c)
        → Brings kept ev
    Brings-of (peer_msg mi) h k = brought_in mi.msg h
    Brings-of (internal_msg mi) h k = brought_in mi.msg h
    Brings-of (timed_out ti) h k = tt
    Brings-of sync_timer h k = tt
    Brings-of (sync_asked csq) h k = tt
    Brings-of (committed_block b) h k = k (e.header_commit b) refl

    pub StepBrings-of :
        {s t : State e} (step : Step e s t)
        → ((v : Vote) → step_vote step ≡ some v → kept.IsIn v)
        → ((c : e.Commit) → step_commit step ≡ some c → kept.IsCommitIn c)
        → StepBrings kept step
    StepBrings-of (receive ev got at) h k = Brings-of ev h k
    StepBrings-of (set_key p at) h k = tt
    StepBrings-of (start at) h k = tt

    ask_peers-Ends : (s : State e) → Good e kept s → Ends (Good e kept) (Any e) (ask_peers e s)
    unfolding ask_peers create_sync_request broadcast_message_to_peers
    ask_peers-Ends s good =
        Quiet-Ends e kept (Any e) (ask_peers e s) good (ground (arith, good.inv))

    pub dispatch-Ends :
        (ev : Event e.Block) (s : State e)
        → Good e kept s
        → HasNext e s
        → Arrives e ev s
        → Brings kept ev
        → Ends (Good e kept) (Any e) (dispatch e ev s)
    unfolding dispatch
    dispatch-Ends (peer_msg mi) s good more fits seen =
        handle_msg-Ends e kept mi s good more fits seen
    dispatch-Ends (internal_msg mi) s good more got seen =
        handle_msg-Ends e kept mi s good more got.1 seen
    dispatch-Ends (timed_out ti) s good more got seen =
        handle_timeout-Ends e kept ti s good
          (All-mem (IsPast s.height s.round) s.tick_chan good.inv.ticks_past got)
    dispatch-Ends sync_timer s good more got seen = ask_peers-Ends s good
    dispatch-Ends (sync_asked csq) s good more got seen = (good, tt)
    dispatch-Ends (committed_block b) s good more got seen =
        process_committed_block-Ends e kept b s good more seen

    pub set_priv_validator-Ends :
        (p : Option e.PrivValidator) (s : State e)
        → Good e kept s
        → Ends (Good e kept) (Any e) (set_priv_validator e p s)
    unfolding set_priv_validator update_priv_validator_pub_key
    set_priv_validator-Ends p s good =
        Quiet-Ends e kept (Any e) (set_priv_validator e p s) good (ground (arith, good.inv))

    pub on_start-Ends : (s : State e) → Good e kept s → Ends (Good e kept) (Any e) (on_start e s)
    unfolding on_start
    on_start-Ends s good = ground (arith, good, start_round0-Ends e kept s good)

    ended :
        {A : Type 0} {a : A} {o : Outcome (State e) A} {t : State e}
        → o ≡ ok a t
        → Ends (Good e kept) (Any e) o
        → Good e kept t
    ended {A} {a} {o} {t} h ends = (subst (λ o. Ends (Good e kept) (Any e) o) h ends).0

    pub Step-Good :
        {s t : State e} (step : Step e s t)
        → Good e kept s
        → HasNext e s
        → StepBrings kept step
        → Good e kept t
    Step-Good {s} (receive ev got h) good more seen =
        ended h (dispatch-Ends ev s good more got seen)
    Step-Good {s} (set_key p h) good more seen = ended h (set_priv_validator-Ends p s good)
    Step-Good {s} (start h) good more seen = ended h (on_start-Ends s good)
