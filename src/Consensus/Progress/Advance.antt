-- ===== src/Consensus/Progress/Advance.antt =====
-- consensus/consensus_state.go: a move to a later step with the same locks, and the invariant.
use go_minimal_pbft.Prelude.{ℕ, suc, ◌+◌, ◌*◌, ◌≤◌, ◌≡◌, All, arith}
use go_minimal_pbft.Prelude.Int.{ℤ, pos_part, ◌≤ℤ◌, max_int32}
use go_minimal_pbft.Interfaces.{Env}
use go_minimal_pbft.Consensus.State.{State}
use go_minimal_pbft.Consensus.Invariant.{
  Inv, Ordered, Ordered-mono, IsPast, IsPast-mono, Paired, Paired-mono, rank_of,
}

module _ (e : Env) where
  pub record Advances (s t : State e) : Type 0 where
    pub height_same : t.height ≡ s.height
    pub chain_same : t.chain_state ≡ s.chain_state
    pub round_le : s.round ≤ℤ t.round
    pub round_max : t.round ≤ℤ max_int32
    pub step_le : t.step ≤ 8
    pub rank_le : pos_part s.round * 16 + s.step ≤ pos_part t.round * 16 + t.step
    pub locked_block_same : t.locked_block ≡ s.locked_block
    pub locked_round_same : t.locked_round ≡ s.locked_round
    pub valid_block_same : t.valid_block ≡ s.valid_block
    pub valid_round_same : t.valid_round ≡ s.valid_round
    pub queue_ordered : Ordered (suc (rank_of s.height s.round s.step)) t.internal_msg_queue
    pub ticks_past : All (IsPast t.height t.round) t.tick_chan

  module _ (s t : State e) (inv : Inv e s) (adv : Advances s t) where
    abbrev rank_after : ℕ
    rank_after = suc (rank_of t.height t.round t.step)

    advanced-Ordered : Ordered rank_after t.internal_msg_queue
    advanced-Ordered =
        Ordered-mono _ rank_after t.internal_msg_queue (omega (arith, inv, adv)) adv.queue_ordered

    advanced-lock : Paired t.locked_block t.locked_round t.round
    advanced-lock =
        rw (adv.locked_block_same, adv.locked_round_same)
          (Paired-mono s.locked_block s.locked_round s.round t.round adv.round_le inv.lock_paired)

    advanced-valid : Paired t.valid_block t.valid_round t.round
    advanced-valid =
        rw (adv.valid_block_same, adv.valid_round_same)
          (Paired-mono s.valid_block s.valid_round s.round t.round adv.round_le inv.valid_paired)

    pub Advances-Inv : Inv e t
    Advances-Inv = ground (arith, inv, adv, advanced-Ordered, advanced-lock, advanced-valid)

  -- The timeouts of the state before are past in a later round.
  pub IsPast-after :
      (s : State e) (round : ℤ)
      → Inv e s
      → s.round ≤ℤ round
      → All (IsPast s.height round) s.tick_chan
  IsPast-after s round inv le =
      IsPast-mono s.height s.height s.round round s.tick_chan (ground (arith, inv)) inv.ticks_past
