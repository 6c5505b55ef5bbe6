-- ===== src/Consensus/Progress/Committed.antt =====
-- consensus/consensus_state.go: `processCommitedBlock` and the invariant, with what it keeps.
use go_minimal_pbft.Prelude.{true, suc, ◌≡◌, inr, arith}
use go_minimal_pbft.Prelude.Int.{pos}
use go_minimal_pbft.Interfaces.{Env}
use go_minimal_pbft.Consensus.Monad.{◌>>◌}
use go_minimal_pbft.Consensus.Hoare.{Ends, Ends-then, Ends-map}
use go_minimal_pbft.Consensus.State.{State}
use go_minimal_pbft.Consensus.Commit.{
  save_if_new, apply_and, go_on, mark_committed, process_committed_block,
}
use go_minimal_pbft.Consensus.Propose.{enter_new_round}
use go_minimal_pbft.Consensus.Progress.Propose.{Reaches}
use go_minimal_pbft.Consensus.Progress.NewRound.{enter_new_round-Ends}
use go_minimal_pbft.Consensus.Invariant.{Ordered-mono, rank_of}
use go_minimal_pbft.Consensus.Progress.Kept.{Kept, Good, Quiet-Ends}
use go_minimal_pbft.Consensus.Progress.Update.{HasNext}
use go_minimal_pbft.Consensus.Progress.Commit.{
  Any, SameChain, save_and_apply-Ends, start_round0-Ends,
}

module _ (e : Env) (kept : Kept e) where
  go_on-Ends : (s : State e) → Good e kept s → Ends (Good e kept) (Any e) (go_on e s)
  unfolding go_on
  go_on-Ends s good = ground (
    arith,
    good,
    start_round0-Ends e kept s good,
    Ends-map (Good e kept) (Reaches e s.height (pos 0) s) (Any e)
        (enter_new_round e s.height (pos 0) s)
        (enter_new_round-Ends e s.height (pos 0) s kept good (omega (arith, good.inv)))
        (λ t _ _. tt),
  )

  mark_committed-Ends :
      (b : e.Block) (s : State e)
      → Good e kept s
      → Ends (Good e kept) (SameChain e s) (mark_committed e b s)
  unfolding mark_committed
  mark_committed-Ends b s good = Quiet-Ends e kept (SameChain e s) (mark_committed e b s) good (
      ground (
        arith,
        good.inv,
        Ordered-mono _ (suc (rank_of s.height s.round 8)) s.internal_msg_queue
            (omega (arith, good.inv)) good.inv.ordered,
      ))

  -- `processCommitedBlock`, for any block, at a height below 2^64 - 1.
  pub process_committed_block-Ends :
      (b : e.Block) (s : State e)
      → Good e kept s
      → HasNext e s
      → kept.IsCommitIn (e.header_commit b)
      → Ends (Good e kept) (Any e) (process_committed_block e b s)
  unfolding process_committed_block
  process_committed_block-Ends b s good more seen = ground (arith, good, committed)
    where
      committed :
          e.number b ≡ s.height
          → e.verify_commit s.chain_state.validators s.chain_state.chain_id
              (e.hash b)
              (e.number b)
              (e.header_commit b)
            ≡ true
          → Ends (Good e kept) (Any e) (
              (mark_committed e b
                  >> (save_if_new e b (e.block_commit b) >> apply_and e b (go_on e)))
                s)
      committed at verified =
          Ends-then (Good e kept) (Any e) (SameChain e s) (mark_committed e b)
            (save_if_new e b (e.block_commit b) >> apply_and e b (go_on e)) s
            (mark_committed-Ends b s good)
            (λ t good' same.
              save_and_apply-Ends e kept b (go_on e) go_on-Ends (e.block_commit b) t good'
                (ground (arith, same, more))
                (record {
                  for_height = ground (arith, same, at);
                  has_commits = inr (rw same.1 verified, seen);
                }))
