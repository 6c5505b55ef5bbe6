-- ===== src/Consensus/Progress/Voted.antt =====
-- consensus/consensus_state.go: signing a vote and then moving to its step, and the invariant.
use go_minimal_pbft.Prelude.{suc, ◌≤◌, ◌<◌, ◌≡◌, inl, inr, sym, arith, subst}
use go_minimal_pbft.Prelude.Int.{ℤ}
use go_minimal_pbft.Messages.{Hash, SignedMsgType, Vote}
use go_minimal_pbft.Interfaces.{Env}
use go_minimal_pbft.Consensus.State.{State}
use go_minimal_pbft.Consensus.Signing.Frame.{Signs, IsVoteOf}
use go_minimal_pbft.Consensus.Invariant.{rank_of, step_of, key, Ordered, Ordered-mono, Inv}

module _ (e : Env) (ty : SignedMsgType) (h : Hash) (s t : State e) where
  key-IsVoteOf : (v : Vote) → IsVoteOf e ty h s v → key v ≡ rank_of s.height s.round (step_of ty)
  key-IsVoteOf v is = cc

  pub Signs-Ordered :
      Inv e s
      → Signs e ty h s t
      → s.step < step_of ty
      → Ordered (suc (rank_of s.height s.round (step_of ty))) t.internal_msg_queue
  Signs-Ordered inv sg lt = elim sg.sent [
    | inl same ↦
        subst (λ q. Ordered (suc (rank_of s.height s.round (step_of ty))) q) (sym same)
          (Ordered-mono _ _ s.internal_msg_queue (omega arith) inv.ordered)
    | inr (v, is, new) ↦
        subst (λ q. Ordered (suc (rank_of s.height s.round (step_of ty))) q) (sym new)
          (
            omega (arith, key-IsVoteOf v is),
            Ordered-mono _ _ s.internal_msg_queue (omega (arith, key-IsVoteOf v is)) inv.ordered,
          )
  ]

  pub voted :
      (round : ℤ)
      → round ≡ s.round
      → Inv e s
      → Signs e ty h s t
      → s.step < step_of ty
      → step_of ty ≤ 8
      → Inv e (record t {
        rs = record t.rs { round = round; step = step_of ty };
        n_steps = suc t.n_steps;
      })
  voted round same inv sg lt le = ground (arith, inv, sg, Signs-Ordered inv sg lt)
