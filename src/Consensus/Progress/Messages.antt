-- ===== src/Consensus/Progress/Messages.antt =====
-- consensus/consensus_state.go: `handleMsg`, `handleTimeout` and the invariant, with what they keep.
use go_minimal_pbft.Prelude.{
  ℕ, Bool, not, ◌&&◌, ◌||◌, Option, ltb, ◌==◌, Bool-cases, inl, inr, arith,
}
use go_minimal_pbft.Prelude.Int.{ℤ, pos, ◌≤ℤ◌, ◌+ℤ◌, ltb_ℤ, eqb_ℤ, max_int32, wrap_int32-IsInt32}
use go_minimal_pbft.Messages.{Bytes, TimeoutInfo, Error}
use go_minimal_pbft.Interfaces.{Env}
use go_minimal_pbft.Consensus.Monad.{◌>>◌}
use go_minimal_pbft.Consensus.Hoare.{Ends, Ends-bind, Ends-then, Ends-map, Ends-when}
use go_minimal_pbft.Consensus.State.{
  Message, proposal_message, vote_message, sync_request, MsgInfo, State, broadcast_message_to_peers,
}
use go_minimal_pbft.Consensus.Prevote.{enter_prevote}
use go_minimal_pbft.Consensus.Precommit.{enter_precommit}
use go_minimal_pbft.Consensus.Propose.{enter_propose, enter_new_round}
use go_minimal_pbft.Consensus.AddVote.{try_add_vote}
use go_minimal_pbft.Consensus.SetProposal.{set_proposal}
use go_minimal_pbft.Consensus.Routine.{Fits}
use go_minimal_pbft.Consensus.Handle.{
  broadcast_if, handle, handle_msg, next_round, on_timeout, handle_timeout,
}
use go_minimal_pbft.Consensus.Invariant.{IsPast}
use go_minimal_pbft.Consensus.Progress.Prevote.{Stays}
use go_minimal_pbft.Consensus.Progress.Propose.{Reaches, enter_propose-Ends}
use go_minimal_pbft.Consensus.Progress.NewRound.{enter_new_round-Ends}
use go_minimal_pbft.Consensus.Progress.Update.{HasNext}
use go_minimal_pbft.Consensus.Progress.Commit.{Any}
use go_minimal_pbft.Consensus.Progress.Events.{try_add_vote-Ends}
use go_minimal_pbft.Consensus.Progress.Proposals.{set_proposal-Ends}
use go_minimal_pbft.Consensus.Progress.Kept.{Kept, Good, Good-Quiet, Admits}
use go_minimal_pbft.Consensus.Progress.Entered.{enter_prevote-Ends, enter_precommit-Ends}

module _ (e : Env) where
  module _ (kept : Kept e) where
    broadcast_if-Ends :
        (m : Message e.Block) (x : Bool × Option Error) (s : State e)
        → Good e kept s
        → Ends (Good e kept) (Any e) (broadcast_if e m x s)
    unfolding broadcast_if broadcast_message_to_peers
    broadcast_if-Ends m (added, err) s good =
        Ends-when (Good e kept) (Any e) added (broadcast_message_to_peers e m) s
          (λ _. (Good-Quiet e kept good (ground (arith, good.inv)) (ground arith), tt))
          (λ _. (good, tt))

    handle-Ends :
        (m : Message e.Block) (peer_id : Bytes) (s : State e)
        → Good e kept s
        → HasNext e s
        → Fits e m
        → Admits e kept m
        → Ends (Good e kept) (Any e) (handle e m peer_id s)
    unfolding handle
    handle-Ends (proposal_message p) peer_id s good more fits seen =
        Ends-bind (Good e kept) (Any e) (Any e) (set_proposal e p)
          (broadcast_if e (proposal_message p)) s (set_proposal-Ends e kept p s good more)
          (λ x t good' _. broadcast_if-Ends (proposal_message p) x t good')
    handle-Ends (vote_message v) peer_id s good more fits seen =
        Ends-bind (Good e kept) (Any e) (Any e) (try_add_vote e v peer_id)
          (broadcast_if e (vote_message v)) s
          (try_add_vote-Ends e kept v peer_id s good more fits seen)
          (λ x t good' _. broadcast_if-Ends (vote_message v) x t good')
    handle-Ends (sync_request r) peer_id s good more fits seen = (good, tt)

    pub handle_msg-Ends :
        (mi : MsgInfo e.Block) (s : State e)
        → Good e kept s
        → HasNext e s
        → Fits e mi.msg
        → Admits e kept mi.msg
        → Ends (Good e kept) (Any e) (handle_msg e mi s)
    unfolding handle_msg
    handle_msg-Ends mi s good more fits seen = handle-Ends mi.msg mi.peer_id s good more fits seen

    next_round_max : (r : ℤ) → next_round r ≤ℤ max_int32
    unfolding next_round
    next_round_max r = ground (arith, wrap_int32-IsInt32 (r +ℤ pos 1))

    module _ (height : ℕ) (round : ℤ) (s : State e) (good : Good e kept s) where
      new_round-Any :
          round ≤ℤ max_int32 → Ends (Good e kept) (Any e) (enter_new_round e height round s)
      new_round-Any max =
          Ends-map (Good e kept) (Reaches e height round s) (Any e)
            (enter_new_round e height round s) (enter_new_round-Ends e height round s kept good max)
            (λ t _ _. tt)

      propose-Any : round ≤ℤ max_int32 → Ends (Good e kept) (Any e) (enter_propose e height round s)
      propose-Any max =
          Ends-map (Good e kept) (Reaches e height round s) (Any e) (enter_propose e height round s)
            (enter_propose-Ends e height round s kept good max) (λ t _ _. tt)

      prevote-Any : round ≤ℤ s.round → Ends (Good e kept) (Any e) (enter_prevote e height round s)
      prevote-Any le =
          Ends-map (Good e kept) (Stays e s) (Any e) (enter_prevote e height round s)
            (enter_prevote-Ends e kept height round s good le) (λ t _ _. tt)

      precommit-Any :
          round ≤ℤ s.round → Ends (Good e kept) (Any e) (enter_precommit e height round s)
      precommit-Any le =
          Ends-map (Good e kept) (Stays e s) (Any e) (enter_precommit e height round s)
            (enter_precommit-Ends e kept height round s good le) (λ t _ _. tt)

    next-Any :
        (ti : TimeoutInfo) (s : State e)
        → Good e kept s
        → Ends (Good e kept) (Any e) (enter_new_round e ti.height (next_round ti.round) s)
    next-Any ti s good =
        new_round-Any ti.height (next_round ti.round) s good (next_round_max ti.round)

    precommit_waited-Ends :
        (ti : TimeoutInfo) (s : State e)
        → Good e kept s
        → ti.round ≤ℤ s.round
        → Ends (Good e kept) (Any e) (
            (enter_precommit e ti.height ti.round
                >> enter_new_round e ti.height (next_round ti.round))
              s)
    precommit_waited-Ends ti s good le =
        Ends-then (Good e kept) (Any e) (Any e) (enter_precommit e ti.height ti.round)
          (enter_new_round e ti.height (next_round ti.round)) s
          (precommit-Any ti.height ti.round s good le) (λ t good' _. next-Any ti t good')

    on_timeout-Ends :
        (ti : TimeoutInfo) (s : State e)
        → Good e kept s
        → ti.round ≤ℤ s.round
        → Ends (Good e kept) (Any e) (on_timeout e ti s)
    unfolding on_timeout
    on_timeout-Ends ti s good le = ground (
      arith,
      good,
      new_round-Any ti.height (pos 0) s good (omega (arith, good.inv)),
      propose-Any ti.height (pos 0) s good (omega (arith, good.inv)),
      prevote-Any ti.height ti.round s good le,
      precommit-Any ti.height ti.round s good le,
      precommit_waited-Ends ti s good le,
    )

    -- `handleTimeout` keeps the invariant whether it returns or panics, for any timeout that was
    -- scheduled at the current height and round or before.
    pub handle_timeout-Ends :
        (ti : TimeoutInfo) (s : State e)
        → Good e kept s
        → IsPast s.height s.round ti
        → Ends (Good e kept) (Any e) (handle_timeout e ti s.rs s)
    unfolding handle_timeout
    handle_timeout-Ends ti s good past =
        elim (Bool-cases (
          not (ti.height == s.height)
          || ltb_ℤ ti.round s.round
          || (eqb_ℤ ti.round s.round && ltb ti.step s.step))) [
            | inl stale ↦ rw stale (good, tt)
            | inr fresh ↦ rw fresh (on_timeout-Ends ti s good (ground (arith, past)))
          ]
