-- ===== src/Consensus/Progress/Entered.antt =====
-- consensus/consensus_state.go: `enterPrevote`, `enterPrevoteWait`, `enterPrecommit`,
-- `enterPrecommitWait` and what they keep.
use go_minimal_pbft.Prelude.{ℕ, ◌<◌, ◌≡◌, false, Bool-cases, inl, inr, arith, subst}
use go_minimal_pbft.Prelude.Int.{ℤ, ◌≤ℤ◌, eq_of_parts}
use go_minimal_pbft.RoundStep
use go_minimal_pbft.Messages.{prevote_type, precommit_type}
use go_minimal_pbft.Interfaces.{Env}
use go_minimal_pbft.Consensus.Monad.{◌>>◌}
use go_minimal_pbft.Consensus.Hoare.{Ends, Ends-defer}
use go_minimal_pbft.Consensus.State.{State, is_stale, update_round_step, new_step}
use go_minimal_pbft.Consensus.Signing.Frame.{Signs}
use go_minimal_pbft.Consensus.Prevote.{
  do_prevote, enter_prevote, enter_prevote_wait, begin_prevote_wait,
}
use go_minimal_pbft.Consensus.Precommit.{
  do_precommit, enter_precommit, begin_precommit_wait, has_waited, enter_precommit_wait,
}
use go_minimal_pbft.Consensus.Progress.Advance.{Advances-Inv, IsPast-after}
use go_minimal_pbft.Consensus.Progress.Voted.{voted}
use go_minimal_pbft.Consensus.Progress.Prevote.{Stays, prevote_choice, do_prevote-Signs}
use go_minimal_pbft.Consensus.Progress.Precommit.{Precommits, do_precommit-Precommits}
use go_minimal_pbft.Consensus.Progress.Kept.{Kept, Good, Good-Quiet}

module _ (e : Env) (kept : Kept e) (height : ℕ) (round : ℤ) (s : State e)
    (good : Good e kept s) where
  module _ (le : round ≤ℤ s.round) where
    fresh_prevote :
        is_stale e height round RoundStep.prevote s ≡ false → (round ≡ s.round) × (s.step < 4)
    fresh_prevote f = (eq_of_parts round s.round (ground (arith, good.inv)), ground arith)

    prevote_moves :
        (round ≡ s.round) × (s.step < 4)
        → (t : State e) → Signs e prevote_type (prevote_choice e s) s t
        → Ends
            (Good e kept)
            (Stays e s)
            ((update_round_step e round RoundStep.prevote >> new_step e) t)
    unfolding update_round_step new_step
    prevote_moves (same, lt) t sg = (
      record {
        inv = voted e prevote_type (prevote_choice e s) s t round same good.inv sg lt (omega arith);
        keeps =
            kept.quiet t _ (ground (arith, sg, same)) (kept.prevoted s t good.inv lt sg good.keeps);
      },
      ground (arith, sg),
    )

    -- `enterPrevote`, for a round that is not ahead: where it returns, the height is the same and
    -- the round not lower.
    pub enter_prevote-Ends : Ends (Good e kept) (Stays e s) (enter_prevote e height round s)
    unfolding enter_prevote
    enter_prevote-Ends = elim (Bool-cases (is_stale e height round RoundStep.prevote s)) [
      | inl stale ↦ rw stale (good, ground arith)
      | inr fresh ↦ rw fresh (
          Ends-defer (Good e kept) (Stays e s) (Signs e prevote_type (prevote_choice e s) s)
            (do_prevote e) (update_round_step e round RoundStep.prevote >> new_step e) s
            (do_prevote-Signs e s) (prevote_moves (fresh_prevote fresh)))
    ]

    fresh_wait :
        is_stale e height round RoundStep.prevote_wait s ≡ false
        → (height ≡ s.height) × (round ≡ s.round) × (s.step < 5)
    fresh_wait f =
        (ground arith, eq_of_parts round s.round (ground (arith, good.inv)), ground arith)

    -- Waiting for prevotes schedules a timeout of this round.
    wait_moves :
        (height ≡ s.height) × (round ≡ s.round) × (s.step < 5)
        → Ends (Good e kept) (Stays e s) (begin_prevote_wait e height round s)
    unfolding begin_prevote_wait
    wait_moves (hs, rs, lt) = (
      Good-Quiet e kept good
          (Advances-Inv e s _ good.inv
            (ground (arith, good.inv, IsPast-after e s round good.inv (ground arith))))
          (ground arith),
      ground arith,
    )

    pub enter_prevote_wait-Ends :
        Ends (Good e kept) (Stays e s) (enter_prevote_wait e height round s)
    unfolding enter_prevote_wait
    enter_prevote_wait-Ends = elim (Bool-cases (is_stale e height round RoundStep.prevote_wait s)) [
      | inl stale ↦ rw stale (good, ground arith)
      | inr fresh ↦ rw fresh (elim (Bool-cases (e.has_two_thirds_any (e.prevotes s.votes round))) [
        | inl enough ↦ rw enough (wait_moves (fresh_wait fresh))
        | inr few ↦ rw few good
      ])
    ]

    precommit_moves :
        (round ≡ s.round)
        → (s.step < 6)
        → (t : State e) → Precommits e round s t
        → Ends
            (Good e kept)
            (Stays e s)
            ((update_round_step e round RoundStep.precommit >> new_step e) t)
    unfolding update_round_step new_step
    precommit_moves same lt t p = (
      record {
        inv =
            voted e precommit_type p.block_id p.mid t round (ground (arith, p)) p.mid_inv p.signs
              (ground (arith, p)) (omega arith);
        keeps =
            kept.quiet t _ (ground (arith, p, p.signs, same)) (
              kept.precommitted s t good.inv lt (subst (λ r. Precommits e r s t) same p)
                good.keeps);
      },
      ground (arith, p, p.signs),
    )

    fresh_precommit :
        is_stale e height round RoundStep.precommit s ≡ false → (round ≡ s.round) × (s.step < 6)
    fresh_precommit f = (eq_of_parts round s.round (ground (arith, good.inv)), ground arith)

    -- `enterPrecommit`, for a round that is not ahead: where it returns, the height is the same and
    -- the round not lower.
    pub enter_precommit-Ends : Ends (Good e kept) (Stays e s) (enter_precommit e height round s)
    unfolding enter_precommit
    enter_precommit-Ends = elim (Bool-cases (is_stale e height round RoundStep.precommit s)) [
      | inl stale ↦ rw stale (good, ground arith)
      | inr fresh ↦
          let (same, lt) = fresh_precommit fresh in
          rw fresh (
            Ends-defer (Good e kept) (Stays e s) (Precommits e round s) (do_precommit e round)
              (update_round_step e round RoundStep.precommit >> new_step e) s
              (do_precommit-Precommits e round s good.inv same) (precommit_moves same lt))
    ]

    fresh_commit_wait :
        has_waited e height round s ≡ false → (height ≡ s.height) × (round ≡ s.round)
    fresh_commit_wait f = (ground arith, eq_of_parts round s.round (ground (arith, good.inv)))

    commit_wait_moves :
        (height ≡ s.height) × (round ≡ s.round)
        → Ends (Good e kept) (Stays e s) (begin_precommit_wait e height round s)
    unfolding begin_precommit_wait
    commit_wait_moves (hs, rs) = (
      Good-Quiet e kept good
          (Advances-Inv e s _ good.inv
            (ground (arith, good.inv, IsPast-after e s s.round good.inv (omega arith))))
          (ground arith),
      ground arith,
    )

    pub enter_precommit_wait-Ends :
        Ends (Good e kept) (Stays e s) (enter_precommit_wait e height round s)
    unfolding enter_precommit_wait
    enter_precommit_wait-Ends = elim (Bool-cases (has_waited e height round s)) [
      | inl stale ↦ rw stale (good, ground arith)
      | inr fresh ↦
          rw fresh (elim (Bool-cases (e.has_two_thirds_any (e.precommits s.votes round))) [
            | inl enough ↦ rw enough (commit_wait_moves (fresh_commit_wait fresh))
            | inr few ↦ rw few good
          ])
    ]
