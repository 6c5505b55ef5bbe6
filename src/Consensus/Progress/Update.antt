-- ===== src/Consensus/Progress/Update.antt =====
-- consensus/consensus_state.go: `updateToState` and the invariant, with what it keeps.
use go_minimal_pbft.Prelude.{some, ◌∙◌, suc, ◌<◌, ◌≡◌, Option, arith, All, subst, sym}
use go_minimal_pbft.Prelude.Int.{pos}
use go_minimal_pbft.ChainState.{ChainState}
use go_minimal_pbft.Interfaces.{Env}
use go_minimal_pbft.Consensus.Hoare.{Ends, Ends-bind}
use go_minimal_pbft.Consensus.State.{State}
use go_minimal_pbft.Consensus.Update.{
  last_commit_for, reset_fields, move_to, update_to_state, height_after,
}
use go_minimal_pbft.Consensus.Progress.Kept.{Decides, Kept, Good, Resets-Ends}
use go_minimal_pbft.Consensus.Invariant.{Ordered, Ordered-mono, IsPast, IsPast-mono, rank_of}

module _ (e : Env) where
  -- The height counter has not come to its last value.
  abbrev pub HasNext : State e → Type 0
  HasNext s = s.height < 18446744073709551615

  abbrev pub Moves : State e → State e → Type 0
  Moves s t = t.height ≡ suc s.height

  module _ (state : ChainState e.lib) (s : State e) (kept : Kept e) (good : Good e kept s)
      (next : HasNext s) (block : e.Block)
      (why : Decides e kept.IsCommitIn block s.rs s.chain_state)
      (applied : e.apply s.chain_state block ≡ some state) where
    -- The chain state is the one after this height.
    at : state.last_block_height ≡ s.height
    at = e.apply-height s.chain_state state block applied ∙ why.for_height

    height_after_lem : height_after e state ≡ suc s.height
    height_after_lem = ground (arith, good.inv, at)

    votes_past : Ordered (suc (rank_of (suc s.height) (pos 0) 1)) s.internal_msg_queue
    votes_past = Ordered-mono _ _ s.internal_msg_queue (ground (arith, good.inv)) good.inv.ordered

    ticks-IsPast : All (IsPast (suc s.height) (pos 0)) s.tick_chan
    ticks-IsPast =
        IsPast-mono s.height (suc s.height) s.round (pos 0) s.tick_chan (ground (arith, good.inv))
          good.inv.ticks_past

    reset_fields-Ends :
        (commit : Option e.VoteSet) → Ends (Good e kept) (Moves s) (reset_fields e state commit s)
    unfolding reset_fields
    reset_fields-Ends commit =
        Resets-Ends e kept block state (Moves s) (reset_fields e state commit s) good why applied
          (ground (arith, good.inv, at, height_after_lem, votes_past, ticks-IsPast))

    last_commit_for-Ends : Ends (Good e kept) (λ t. t ≡ s) (last_commit_for e state s)
    unfolding last_commit_for
    last_commit_for-Ends = ground (arith, good)

    move_to-Ends : Ends (Good e kept) (Moves s) (move_to e state s)
    unfolding move_to
    move_to-Ends =
        Ends-bind (Good e kept) (Moves s) (λ t. t ≡ s) (last_commit_for e state)
          (reset_fields e state) s last_commit_for-Ends
          (λ commit t _ same.
            subst (λ u. Ends (Good e kept) (Moves s) (reset_fields e state commit u)) (sym same)
              (reset_fields-Ends commit))

    -- From a state with the invariant, at a height below 2^64 - 1, `updateToState` with the chain
    -- state for the block at that height: where it returns, the machine is at the next height.
    pub update_to_state-Ends : Ends (Good e kept) (Moves s) (update_to_state e state s)
    unfolding update_to_state
    update_to_state-Ends = ground (arith, good.inv, good, at, move_to-Ends)
